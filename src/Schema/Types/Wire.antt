-- ===== src/Schema/Types/Wire.antt =====
-- The wire strings: parsing and printing are inverse, for every enumeration.
use astrate.Base.{
  String, ◌≡◌, refl, sym, ◌∙◌, ◌↔◌, inl, inr, false, some, List, [], ◌∷◌, arith, str_eq, eq_iff,
  if◌then◌else◌, Bool-cases, All, Result, ok,
}
use Prim.Native.String
use astrate.Schema.Types.{
  InterfaceType, datastream, properties, Ownership, device, server, Aggregation, individual, object,
  Reliability, unreliable, guaranteed, unique, Retention, discard, volatile, stored,
  DatabaseRetentionPolicy, no_ttl, use_ttl, ValueType, parse_interface_type, string_interface_type,
  parse_ownership, string_ownership, parse_aggregation, string_aggregation, parse_reliability,
  string_reliability, parse_retention, string_retention, parse_database_retention_policy,
  string_database_retention_policy, parse_value_type, string_value_type, is_array, elem, find_name,
  Unknown, double, value_type_names,
}

-- A parser and a printer are inverse: a word is parsed to a value exactly when the value prints it.
abbrev pub Inverse : {A : Type 0} → (String → Result Unknown A) → (A → String) → Type 0
Inverse {A} parse print = (s : String) (a : A) → (parse s ≡ ok a) ↔ (print a ≡ s)

module _ {A : Type 0} (print : A → String) where
  find_name_sound :
      (names : List (String × A)) (s : String) (v : A)
      → All (λ p. print p.1 ≡ p.0) names
      → find_name names s ≡ ok v
      → print v ≡ s
  unfolding find_name
  find_name_sound [] s v a h = cc
  find_name_sound ((name, w) ∷ names) s v (e, a) h = elim (Bool-cases (str_eq s name)) [
    | inl same ↦ let is : w ≡ v = ground arith in rw (← is) (e ∙ sym ((eq_iff s name).0 same))
    | inr other ↦ find_name_sound names s v a (rw (other, find_name) at h)
  ]

  -- A parser that looks its word up in a table of printed names is the printer's inverse, if it
  -- finds every printed name.
  Inverse-find_name :
      (names : List (String × A)) (parse : String → Result Unknown A)
      → All (λ p. print p.1 ≡ p.0) names
      → ((s : String) → parse s ≡ find_name names s)
      → ((a : A) → parse (print a) ≡ ok a)
      → Inverse parse print
  Inverse-find_name names parse a same complete s v =
      (λ h. find_name_sound names s v a (sym (same s) ∙ h), λ e. rw (← e) (complete v))

interface_type-print : (a : InterfaceType) → parse_interface_type (string_interface_type a) ≡ ok a
unfolding parse_interface_type string_interface_type
interface_type-print datastream = refl
interface_type-print _ = refl

interface_type-Inverse : Inverse parse_interface_type string_interface_type
unfolding parse_interface_type string_interface_type find_name
interface_type-Inverse =
    Inverse-find_name string_interface_type
      (("datastream", datastream) ∷ ("properties", properties) ∷ []) parse_interface_type
      (refl, (refl, tt)) (λ s. refl) interface_type-print

ownership-print : (a : Ownership) → parse_ownership (string_ownership a) ≡ ok a
unfolding parse_ownership string_ownership
ownership-print device = refl
ownership-print _ = refl

ownership-Inverse : Inverse parse_ownership string_ownership
unfolding parse_ownership string_ownership find_name
ownership-Inverse =
    Inverse-find_name string_ownership (("device", device) ∷ ("server", server) ∷ [])
      parse_ownership (refl, (refl, tt)) (λ s. refl) ownership-print

aggregation-print : (a : Aggregation) → parse_aggregation (string_aggregation a) ≡ ok a
unfolding parse_aggregation string_aggregation
aggregation-print individual = refl
aggregation-print _ = refl

aggregation-Inverse : Inverse parse_aggregation string_aggregation
unfolding parse_aggregation string_aggregation find_name
aggregation-Inverse =
    Inverse-find_name string_aggregation (("individual", individual) ∷ ("object", object) ∷ [])
      parse_aggregation (refl, (refl, tt)) (λ s. refl) aggregation-print

reliability-print : (a : Reliability) → parse_reliability (string_reliability a) ≡ ok a
unfolding parse_reliability string_reliability
reliability-print unreliable = refl
reliability-print _ = refl

reliability-Inverse : Inverse parse_reliability string_reliability
unfolding parse_reliability string_reliability find_name
reliability-Inverse =
    Inverse-find_name string_reliability
      (("unreliable", unreliable) ∷ ("guaranteed", guaranteed) ∷ ("unique", unique) ∷ [])
      parse_reliability (refl, (refl, (refl, tt))) (λ s. refl) reliability-print

retention-print : (a : Retention) → parse_retention (string_retention a) ≡ ok a
unfolding parse_retention string_retention
retention-print discard = refl
retention-print _ = refl

retention-Inverse : Inverse parse_retention string_retention
unfolding parse_retention string_retention find_name
retention-Inverse =
    Inverse-find_name string_retention
      (("discard", discard) ∷ ("volatile", volatile) ∷ ("stored", stored) ∷ []) parse_retention
      (refl, (refl, (refl, tt))) (λ s. refl) retention-print

database_retention_policy-print :
    (a : DatabaseRetentionPolicy)
    → parse_database_retention_policy (string_database_retention_policy a) ≡ ok a
unfolding parse_database_retention_policy string_database_retention_policy
database_retention_policy-print no_ttl = refl
database_retention_policy-print _ = refl

database_retention_policy-Inverse :
    Inverse parse_database_retention_policy string_database_retention_policy
unfolding parse_database_retention_policy string_database_retention_policy find_name
database_retention_policy-Inverse =
    Inverse-find_name string_database_retention_policy
      (("no_ttl", no_ttl) ∷ ("use_ttl", use_ttl) ∷ []) parse_database_retention_policy
      (refl, (refl, tt)) (λ s. refl) database_retention_policy-print

value_type-print : (v : ValueType) → parse_value_type (string_value_type v) ≡ ok v
unfolding parse_value_type string_value_type
value_type-print double = refl
value_type-print _ = refl

value_type_names-print : All (λ p. string_value_type p.1 ≡ p.0) value_type_names
unfolding value_type_names string_value_type
value_type_names-print = (
  refl,
  (
    refl,
    (
      refl,
      (refl, (refl, (refl, (refl, (refl, (refl, (refl, (refl, (refl, (refl, (refl, tt))))))))))),
    ),
  ),
)

value_type-Inverse : Inverse parse_value_type string_value_type
unfolding parse_value_type
value_type-Inverse =
    Inverse-find_name string_value_type value_type_names parse_value_type value_type_names-print
      (λ s. refl) value_type-print

-- For each of the seven enumerations of an interface definition, a word is parsed to a value
-- exactly when the value prints that word: parsing and printing are inverse, and every other word
-- is refused.
pub enums-Inverse :
    Inverse parse_interface_type string_interface_type
    × Inverse parse_ownership string_ownership
    × Inverse parse_aggregation string_aggregation
    × Inverse parse_reliability string_reliability
    × Inverse parse_retention string_retention
    × Inverse parse_database_retention_policy string_database_retention_policy
    × Inverse parse_value_type string_value_type
enums-Inverse = (
  interface_type-Inverse, ownership-Inverse, aggregation-Inverse, reliability-Inverse,
  retention-Inverse, database_retention_policy-Inverse, value_type-Inverse,
)

-- The element of an array type is a scalar type whose name with "array" behind it is the array's;
-- the element of a scalar type is the type itself.
pub elem_lem :
    (v : ValueType)
    → (e : ValueType) × (elem v ≡ some e)
      × (is_array e ≡ false)
      × (string_value_type v
          ≡ (if is_array v then String.◌++◌ (string_value_type e) "array" else string_value_type e))
unfolding elem string_value_type
elem_lem double = (_, refl, refl, refl)
elem_lem _ = (_, refl, refl, refl)
