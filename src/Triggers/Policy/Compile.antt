-- ===== src/Triggers/Policy/Compile.antt =====
-- internal/engine/triggers/policy.go: `CompilePolicy`.
-- The decoder of encoding/json is a parameter: a decoded document is a `PolicyDoc`, and the three
-- ways in which `compileHandlerOn` reads a raw "on" member are the three fields of `RawOn`.
pub mod Laws
use astrate.Base.{
  ℕ, String, Bool, true, false, ◌&&◌, ◌||◌, Option, none, some, List, [], ◌∷◌, leb, if◌then◌else◌,
  length, all, any, Result, ok, err, ◌>>=◌, ◌>>◌, reject_if, Bytes, ℤ, pos, negsuc, ltb_ℤ, seconds,
  str_eq, not, codes, contains_byte, is_empty,
}
use astrate.Triggers.Policy.Handler.{
  Strategy, discard, retry, is_retry, On, keyword, explicit, Handler, PolicyError, not_json,
  bad_name, no_handlers, bad_strategy, bad_keyword, bad_on, empty_codes, code_out_of_range,
  bad_retry_times, stray_retry_times, bad_capacity, bad_prefetch, bad_ttl,
}
use astrate.Triggers.Policy.Overlap.{check_handlers_disjoint}

-- The "on" member read as a string, as a list of integers, and as an object whose
-- custom_status_codes are then given (`none` inside: absent or null).
pub record RawOn : Type 0 where
  pub as_string : Option String
  pub as_codes : Option (List ℤ)
  pub as_custom : Option (Option (List ℤ))

pub record RawHandler : Type 0 where
  pub on : RawOn
  pub strategy : String

pub record PolicyDoc : Type 0 where
  pub name : Bytes
  pub error_handlers : List RawHandler
  pub maximum_capacity : ℤ
  pub prefetch_count : Option ℤ
  pub retry_times : Option ℤ
  pub event_ttl : Option ℤ

pub record Policy : Type 0 where
  pub name : Bytes
  pub maximum_capacity : ℤ
  pub prefetch_count : ℤ
  pub retry_times : ℤ
  pub event_ttl : ℤ
  pub handlers : List Handler

abbrev between_byte : ℕ → ℕ → ℕ → Bool
between_byte lo hi c = leb lo c && leb c hi

-- The class [a-zA-Z0-9_.~-].
unfoldable pub policy_name_char : ℕ → Bool
unfolding contains_byte
policy_name_char c =
    between_byte b'a' b'z' c
    || between_byte b'A' b'Z' c
    || between_byte b'0' b'9' c
    || contains_byte c (codes "_.~-")

-- `policyNameRE`.
unfoldable pub policy_name_ok : Bytes → Bool
unfolding policy_name_char
policy_name_ok s = leb 1 (length s) && leb (length s) 128 && all policy_name_char s

unfoldable pub check_codes : List ℤ → Result PolicyError On
check_codes codes = do
  reject_if (is_empty codes) empty_codes
  reject_if (any (λ c. ltb_ℤ c (pos 400) || ltb_ℤ (pos 599) c) codes) code_out_of_range
  ok (explicit codes)

unfoldable pub custom_codes : Option (Option (List ℤ)) → Result PolicyError On
custom_codes (some (some codes)) = check_codes codes
custom_codes _ = err bad_on

-- `compileHandlerOn`.
unfoldable pub compile_on : RawOn → Result PolicyError On
compile_on raw = elim raw.as_string [
  | some k ↦
      if str_eq k "any_error" || str_eq k "client_error" || str_eq k "server_error"
      then ok (keyword k)
      else err bad_keyword
  | none ↦ elim raw.as_codes [ some codes ↦ check_codes codes | none ↦ custom_codes raw.as_custom ]
]

unfoldable pub parse_strategy : String → Result PolicyError Strategy
parse_strategy s =
    if str_eq s "discard"
    then ok discard
    else if str_eq s "retry"
    then ok retry
    else err bad_strategy

-- The loop over the handlers, with `hasRetry`.
unfoldable pub compile_handlers : List RawHandler → Result PolicyError (List Handler × Bool)
compile_handlers [] = ok ([], false)
compile_handlers (raw ∷ raws) = do
  strategy ← parse_strategy raw.strategy
  on ← compile_on raw.on
  rest ← compile_handlers raws
  ok (record { on = on; strategy = strategy } ∷ rest.0, is_retry strategy || rest.1)

abbrev pub value_or : ℤ → Option ℤ → ℤ
value_or d none = d
value_or d (some v) = v

unfoldable pub check_retry_times : Bool → Option ℤ → Result PolicyError (Unit {0})
check_retry_times true none = err bad_retry_times
check_retry_times true (some n) = reject_if (ltb_ℤ n (pos 1) || ltb_ℤ (pos 100) n) bad_retry_times
check_retry_times false none = ok tt
check_retry_times false (some _) = err stray_retry_times

abbrev pub out_of_prefetch : Option ℤ → Bool
out_of_prefetch none = false
out_of_prefetch (some n) = ltb_ℤ n (pos 1) || ltb_ℤ (pos 300) n

unfoldable pub ttl_duration : Option ℤ → Result PolicyError ℤ
ttl_duration none = ok (pos 0)
ttl_duration (some (pos n)) = ok (seconds n)
ttl_duration (some (negsuc n)) = err bad_ttl

unfoldable pub compile_doc : PolicyDoc → Result PolicyError Policy
compile_doc doc = do
  reject_if (not (policy_name_ok doc.name)) bad_name
  reject_if (is_empty doc.error_handlers) no_handlers
  compiled ← compile_handlers doc.error_handlers
  check_handlers_disjoint compiled.0
  check_retry_times compiled.1 doc.retry_times
  reject_if (ltb_ℤ doc.maximum_capacity (pos 1)) bad_capacity
  reject_if (out_of_prefetch doc.prefetch_count) bad_prefetch
  ttl ← ttl_duration doc.event_ttl
  ok (record {
    name = doc.name;
    maximum_capacity = doc.maximum_capacity;
    prefetch_count = value_or (pos 1) doc.prefetch_count;
    retry_times = value_or (pos 0) doc.retry_times;
    event_ttl = ttl;
    handlers = compiled.0;
  })

-- `CompilePolicy` over the decoder of encoding/json.
unfoldable pub compile_policy : (Bytes → Option PolicyDoc) → Bytes → Result PolicyError Policy
compile_policy decode def = elim (decode def) [ none ↦ err not_json | some doc ↦ compile_doc doc ]
