-- ===== src/Broker/Acl/Laws.antt =====
-- What the topic ACL admits.
use astrate.Base.{
  ◌≤◌, ◌≡◌, refl, ap, ◌∙◌, ◌⊎◌, inl, inr, true, false, Option, some, [], ◌∷◌, ◌++◌, arith,
  Bool-cases, Option-cases, length, is_empty, Bytes, codes, eq_bytes, eq_bytes_iff, cut, cut_prefix,
  append-cut,
}
use astrate.Schema.Types.{Ownership, device}
use astrate.Broker.Acl.{max_topic_bytes, OwnershipFn, owned_by_device, may_write, check_acl}

append-cut_prefix : (p s r : Bytes) → cut_prefix p s ≡ some r → s ≡ p ++ r
unfolding cut_prefix
append-cut_prefix [] s r h = ground arith
append-cut_prefix (c ∷ p) [] r h = ground arith
append-cut_prefix (c ∷ p) (d ∷ s) r h = ground (arith, append-cut_prefix p s r)

cut_prefix-append : (p r : Bytes) → cut_prefix p (p ++ r) ≡ some r
unfolding cut_prefix
cut_prefix-append [] r = refl
cut_prefix-append (c ∷ p) r = ground (arith, cut_prefix-append p r)

append-slash : (base rest : Bytes) → (base ++ b'/' ∷ []) ++ rest ≡ base ++ b'/' ∷ rest
append-slash [] rest = refl
append-slash (c ∷ base) rest = ap (◌∷◌ c) (append-slash base rest)

-- A topic below the base that a device may publish to.
pub record Publishes (rest : Bytes) (ownership : OwnershipFn) : Type 0 where
  pub iface : Bytes
  pub path : Bytes
  pub spelled : iface ++ b'/' ∷ path ≡ rest
  pub some_path : is_empty path ≡ false
  pub owned : ownership iface ≡ some device

abbrev pub IsControl : Bytes → Type 0
IsControl rest =
    (rest ≡ codes "capabilities")
    ⊎ ((rest ≡ codes "control/emptyCache") ⊎ (rest ≡ codes "control/producer/properties"))

owned_by_device_lem : (o : Option Ownership) → owned_by_device o ≡ true → o ≡ some device
owned_by_device_lem o h = ground arith

may_write-Publishes :
    (rest : Bytes) (ownership : OwnershipFn)
    → may_write rest ownership ≡ true
    → IsControl rest ⊎ Publishes rest ownership
unfolding may_write
may_write-Publishes rest ownership h = elim (Bool-cases (eq_bytes rest (codes "capabilities"))) [
  | inl e ↦ inl (inl ((eq_bytes_iff _ _).0 e))
  | inr n1 ↦ elim (Bool-cases (eq_bytes rest (codes "control/emptyCache"))) [
    | inl e ↦ inl (inr (inl ((eq_bytes_iff _ _).0 e)))
    | inr n2 ↦ elim (Bool-cases (eq_bytes rest (codes "control/producer/properties"))) [
      | inl e ↦ inl (inr (inr ((eq_bytes_iff _ _).0 e)))
      | inr n3 ↦ elim (Option-cases (cut b'/' rest)) [
        | inl e ↦ absurd (ground arith)
        | inr ((iface, path), e) ↦ inr (record {
          iface = iface;
          path = path;
          spelled = append-cut b'/' rest iface path e;
          some_path = ground arith;
          owned = owned_by_device_lem (ownership iface) (ground arith);
        })
      ]
    ]
  ]
]

-- A device may publish only to its base topic, or below it to one of the three control topics, or to
-- a path of an interface that it owns.
pub check_acl-write :
    (base topic : Bytes) (ownership : OwnershipFn)
    → check_acl base topic true ownership ≡ true
    → (length topic ≤ max_topic_bytes)
      × ((topic ≡ base)
          ⊎ ((rest : Bytes) × (topic ≡ base ++ b'/' ∷ rest)
              × (IsControl rest ⊎ Publishes rest ownership)))
unfolding check_acl
check_acl-write base topic ownership h = (
  ground arith,
  elim (Bool-cases (eq_bytes topic base)) [
    | inl e ↦ inl ((eq_bytes_iff _ _).0 e)
    | inr n ↦ elim (Option-cases (cut_prefix (base ++ b'/' ∷ []) topic)) [
      | inl e ↦ absurd (ground arith)
      | inr (rest, e) ↦ inr (
        rest,
        append-cut_prefix _ topic rest e ∙ append-slash base rest,
        may_write-Publishes rest ownership (ground arith),
      )
    ]
  ],
)
