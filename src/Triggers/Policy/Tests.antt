-- ===== src/Triggers/Policy/Tests.antt =====
-- A sample policy, and the theorems of this folder at it.
use astrate.Base.{
  ℕ, ◌≤◌, String, ◌≡◌, refl, ◌↔◌, Option, none, some, List, [], ◌∷◌, arith, ok, Bytes, codes,
  contains_byte, ℤ, pos,
}
use astrate.Triggers.Policy.Handler.{discard, retry, keyword, explicit, Handler, claimants}
use astrate.Triggers.Policy.Overlap.{
  codes_from, own_codes, is_claimed, set_true, check_free, take_code, take_codes, check_from,
  none_claimed, check_handlers_disjoint,
}
use astrate.Triggers.Policy.Overlap.Laws.{check_handlers_disjoint_iff}
use astrate.Triggers.Policy.Compile.{
  RawOn, PolicyDoc, Policy, policy_name_char, policy_name_ok, check_codes, custom_codes, compile_on,
  parse_strategy, compile_handlers, check_retry_times, ttl_duration, compile_doc, compile_policy,
}
use astrate.Triggers.Policy.Compile.Laws.{IsPolicy, compile_policy-IsPolicy}
use astrate.Triggers.Policy.Decide.{decide}
use astrate.Triggers.Policy.Decide.Laws.{RetryClaims, decide-retry_iff}

abbrev raw_keyword : String → RawOn
raw_keyword k = record { as_string = some k; as_codes = none; as_custom = none }

abbrev raw_codes : List ℤ → RawOn
raw_codes codes = record { as_string = none; as_codes = some codes; as_custom = none }

abbrev sample_doc : PolicyDoc
sample_doc = record {
  name = codes "retrying";
  error_handlers =
      record { on = raw_keyword "server_error"; strategy = "retry" }
      ∷ record { on = raw_codes (pos 404 ∷ pos 410 ∷ []); strategy = "discard" }
      ∷ [];
  maximum_capacity = pos 100;
  prefetch_count = none;
  retry_times = some (pos 5);
  event_ttl = none;
}

abbrev sample_handlers : List Handler
sample_handlers =
    record { on = keyword "server_error"; strategy = retry }
    ∷ record { on = explicit (pos 404 ∷ pos 410 ∷ []); strategy = discard }
    ∷ []

abbrev sample_policy : Policy
sample_policy = record {
  name = codes "retrying";
  maximum_capacity = pos 100;
  prefetch_count = pos 1;
  retry_times = pos 5;
  event_ttl = pos 0;
  handlers = sample_handlers;
}

abbrev sample_decode : Bytes → Option PolicyDoc
sample_decode text = some sample_doc

sample-compiled : compile_policy sample_decode [] ≡ ok sample_policy
unfolding contains_byte codes_from own_codes is_claimed set_true check_free take_code take_codes
    check_from none_claimed check_handlers_disjoint policy_name_char policy_name_ok check_codes
    custom_codes compile_on parse_strategy compile_handlers check_retry_times ttl_duration
    compile_doc compile_policy
sample-compiled = refl

compile_policy_example : IsPolicy sample_policy
compile_policy_example = compile_policy-IsPolicy sample_decode [] sample_policy sample-compiled

check_handlers_disjoint_example :
    (check_handlers_disjoint sample_handlers ≡ ok tt)
    ↔ ((c : ℕ) → 400 ≤ c → c ≤ 599 → claimants sample_handlers (pos c) ≤ 1)
check_handlers_disjoint_example =
    check_handlers_disjoint_iff sample_handlers compile_policy_example.valid

decide_example :
    ((decide (some sample_policy) (pos 503)).strategy ≡ retry)
    ↔ RetryClaims sample_handlers (pos 503)
decide_example =
    decide-retry_iff sample_decode [] sample_policy 503 sample-compiled (omega arith) (omega arith)
