-- ===== src/Triggers/Policy/Compile/Laws.antt =====
-- What a policy that `CompilePolicy` returns has been checked for.
use astrate.Base.{
  ℕ, ◌≤◌, String, ◌≡◌, refl, ap, inl, inr, Bool, true, false, ◌||◌, Option, none, some, List, [],
  ◌∷◌, arith, str_eq, eq_iff, if◌then◌else◌, Bool-cases, Option-cases, any, All, ok, err,
  Result-cases, Bytes, ℤ, pos, negsuc, ltb_ℤ, leb_ℤ, eq_ℤ,
}
use astrate.Triggers.Policy.Handler.{
  IsCode, IsOn, On, keyword, explicit, bad_keyword, Handler, AreValid, claimants, within, is_retry,
}
use astrate.Triggers.Policy.Overlap.{check_handlers_disjoint}
use astrate.Triggers.Policy.Overlap.Laws.{check_handlers_disjoint_iff}
use astrate.Triggers.Policy.Compile.{
  RawOn, RawHandler, PolicyDoc, Policy, check_codes, custom_codes, compile_on, parse_strategy,
  compile_handlers, check_retry_times, compile_doc, compile_policy, ttl_duration, out_of_prefetch,
  value_or,
}

in_range-IsCode :
    (cs : List ℤ) → any (λ c. ltb_ℤ c (pos 400) || ltb_ℤ (pos 599) c) cs ≡ false → All IsCode cs
in_range-IsCode [] h = tt
in_range-IsCode (pos n ∷ cs) h =
    ((n, refl, ground arith, ground arith), in_range-IsCode cs (ground arith))
in_range-IsCode (negsuc n ∷ cs) h = ground arith

check_codes-IsOn : (cs : List ℤ) (on : On) → check_codes cs ≡ ok on → IsOn on
unfolding check_codes
check_codes-IsOn [] on h = cc
check_codes-IsOn (c ∷ cs) on h =
    elim (Bool-cases (any (λ c. ltb_ℤ c (pos 400) || ltb_ℤ (pos 599) c) (c ∷ cs))) [
      | inl bad ↦ ground arith
      | inr good ↦
          let e : on ≡ explicit (c ∷ cs) = ground arith in rw e (in_range-IsCode (c ∷ cs) good)
    ]

custom_codes-IsOn : (cs : Option (Option (List ℤ))) (on : On) → custom_codes cs ≡ ok on → IsOn on
unfolding custom_codes
custom_codes-IsOn (some (some cs)) on h = check_codes-IsOn cs on h
custom_codes-IsOn (some none) on h = cc
custom_codes-IsOn none on h = cc

keyword-IsOn :
    (k : String) (on : On)
    → (if str_eq k "any_error" || str_eq k "client_error" || str_eq k "server_error"
        then ok (keyword k)
        else err bad_keyword)
      ≡ ok on
    → IsOn on
keyword-IsOn k on h = elim (Bool-cases (str_eq k "any_error")) [
  | inl e ↦ let same : on ≡ keyword k = ground arith in rw same (inl ((eq_iff k "any_error").0 e))
  | inr n ↦ elim (Bool-cases (str_eq k "client_error")) [
    | inl e ↦
        let same : on ≡ keyword k = ground arith in
        rw same (inr (inl ((eq_iff k "client_error").0 e)))
    | inr m ↦ elim (Bool-cases (str_eq k "server_error")) [
      | inl e ↦
          let same : on ≡ keyword k = ground arith in
          rw same (inr (inr ((eq_iff k "server_error").0 e)))
      | inr o ↦ ground arith
    ]
  ]
]

compile_on-IsOn : (raw : RawOn) (on : On) → compile_on raw ≡ ok on → IsOn on
unfolding compile_on
compile_on-IsOn raw on h = elim (Option-cases raw.as_string) [
  | inr (k, e) ↦ keyword-IsOn k on (rw (e, compile_on) at h)
  | inl e ↦ elim (Option-cases raw.as_codes) [
    | inl f ↦ custom_codes-IsOn raw.as_custom on (rw (e, f) at h)
    | inr (cs, f) ↦ check_codes-IsOn cs on (rw (e, f) at h)
  ]
]

-- The handlers of a compiled document are valid, and the flag says whether one retries.
compile_handlers_lem :
    (raws : List RawHandler) (hs : List Handler) (b : Bool)
    → compile_handlers raws ≡ ok (hs, b)
    → AreValid hs × (b ≡ any (λ h. is_retry h.strategy) hs)
unfolding compile_handlers
compile_handlers_lem [] hs b h = (rw (let e : hs ≡ [] = ground arith in e) tt, ground arith)
compile_handlers_lem (raw ∷ raws) hs b h = elim (Result-cases (parse_strategy raw.strategy)) [
  | inr (e, bad) ↦ ground arith
  | inl (s, parsed) ↦ elim (Result-cases (compile_on raw.on)) [
    | inr (e, bad) ↦ ground arith
    | inl (on, compiled) ↦ elim (Result-cases (compile_handlers raws)) [
      | inr (e, bad) ↦ ground arith
      | inl ((gs, c), later) ↦
          let ih = compile_handlers_lem raws gs c later in
          let is : hs ≡ record { on = on; strategy = s } ∷ gs = ground arith in
          let flag : b ≡ (is_retry s || c) = ground arith in
          rw (is, flag) ((compile_on-IsOn raw.on on compiled, ih.0), ap (◌||◌ (is_retry s)) ih.1)
    ]
  ]
]

-- What `CompilePolicy` promises of a policy.
pub record IsPolicy (p : Policy) : Type 0 where
  pub valid : AreValid p.handlers
  pub single : (c : ℕ) → 400 ≤ c → c ≤ 599 → claimants p.handlers (pos c) ≤ 1
  pub retries :
      (if any (λ h. is_retry h.strategy) p.handlers
        then within 1 100 p.retry_times
        else eq_ℤ p.retry_times (pos 0))
      ≡ true
  pub prefetch : within 1 300 p.prefetch_count ≡ true
  pub capacity : leb_ℤ (pos 1) p.maximum_capacity ≡ true

-- The checks that a success has passed, with the fields that they are about.
record Passed (doc : PolicyDoc) (p : Policy) (b : Bool) : Type 0 where
  disjoint : check_handlers_disjoint p.handlers ≡ ok tt
  times : check_retry_times b doc.retry_times ≡ ok tt
  retry_times : p.retry_times ≡ value_or (pos 0) doc.retry_times
  capacity : ltb_ℤ p.maximum_capacity (pos 1) ≡ false
  prefetch : out_of_prefetch doc.prefetch_count ≡ false
  prefetch_count : p.prefetch_count ≡ value_or (pos 1) doc.prefetch_count

compile_doc-Passed :
    (doc : PolicyDoc) (p : Policy) (hs : List Handler) (b : Bool)
    → compile_handlers doc.error_handlers ≡ ok (hs, b)
    → compile_doc doc ≡ ok p
    → (p.handlers ≡ hs) × Passed doc p b
unfolding compile_doc
compile_doc-Passed doc p hs b compiled h = elim (Result-cases (check_handlers_disjoint hs)) [
  | inr (e, bad) ↦ ground arith
  | inl (tt, good) ↦ elim (Result-cases (check_retry_times b doc.retry_times)) [
    | inr (e, bad) ↦ ground arith
    | inl (tt, times) ↦ elim (Result-cases (ttl_duration doc.event_ttl)) [
      | inr (e, bad) ↦ ground arith
      | inl (ttl, timed) ↦ ground arith
    ]
  ]
]

module _ (doc : PolicyDoc) (p : Policy) (b : Bool) where
  retries_lem :
      b ≡ any (λ h. is_retry h.strategy) p.handlers
      → Passed doc p b
      → (if any (λ h. is_retry h.strategy) p.handlers
          then within 1 100 p.retry_times
          else eq_ℤ p.retry_times (pos 0))
        ≡ true
  unfolding check_retry_times
  retries_lem flag passed = rw (← flag, passed.retry_times) (ground (arith, passed.times))

  prefetch_lem : Passed doc p b → within 1 300 p.prefetch_count ≡ true
  prefetch_lem passed = rw passed.prefetch_count (ground (arith, passed.prefetch))

compile_doc-IsPolicy : (doc : PolicyDoc) (p : Policy) → compile_doc doc ≡ ok p → IsPolicy p
compile_doc-IsPolicy doc p h = elim (Result-cases (compile_handlers doc.error_handlers)) [
  | inr (e, bad) ↦ unfold compile_doc in ground arith
  | inl ((hs, b), compiled) ↦
      let (same, passed) = compile_doc-Passed doc p hs b compiled h in
      let (valid, flag) = compile_handlers_lem doc.error_handlers hs b compiled in
      let valid' : AreValid p.handlers = rw same valid in
      record {
        valid = valid';
        single = (check_handlers_disjoint_iff p.handlers valid').0 passed.disjoint;
        retries = retries_lem doc p b (rw same flag) passed;
        prefetch = prefetch_lem doc p b passed;
        capacity = ground (arith, passed.capacity);
      }
]

-- Whatever the decoder gives, a policy that `CompilePolicy` returns has valid handlers, of which no
-- two claim a common status code from 400 to 599; its retry_times lies in 1..100 if a handler
-- retries and is 0 if none does; its prefetch_count lies in 1..300, and its capacity is positive.
pub compile_policy-IsPolicy :
    (decode : Bytes → Option PolicyDoc) (def : Bytes) (p : Policy)
    → compile_policy decode def ≡ ok p
    → IsPolicy p
unfolding compile_policy
compile_policy-IsPolicy decode def p h = elim (Option-cases (decode def)) [
  | inl e ↦ ground arith
  | inr (doc, e) ↦ compile_doc-IsPolicy doc p (rw (e, compile_policy) at h)
]
