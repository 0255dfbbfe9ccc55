-- ===== src/Broker/Acl.antt =====
-- internal/broker/aclhook.go: `checkACL`, the decision of the topic ACL.
pub mod Laws
use astrate.Base.{
  ℕ, ◌+◌, ◌-◌, Bool, true, false, ◌||◌, Option, none, some, [], ◌∷◌, ◌++◌, ltb, if◌then◌else◌,
  length, is_empty, Bytes, codes, eq_bytes, contains_any, cut, cut_prefix,
}
use astrate.Schema.Types.{Ownership, device, server}

-- The longest topic or filter.
abbrev pub max_topic_bytes : ℕ
max_topic_bytes = 512

-- `ownershipFn`.
abbrev pub OwnershipFn : Type 0
OwnershipFn = Bytes → Option Ownership

abbrev pub owned_by_device : Option Ownership → Bool
owned_by_device (some device) = true
owned_by_device _ = false

abbrev pub owned_by_server : Option Ownership → Bool
owned_by_server (some server) = true
owned_by_server _ = false

-- A publish below the base topic.
unfoldable pub may_write : Bytes → OwnershipFn → Bool
may_write rest ownership =
    if eq_bytes rest (codes "capabilities")
      || eq_bytes rest (codes "control/emptyCache")
      || eq_bytes rest (codes "control/producer/properties")
    then true
    else elim (cut b'/' rest) [
      | none ↦ false
      | some parts ↦ if is_empty parts.1 then false else owned_by_device (ownership parts.0)
    ]

-- The text before the first slash, or the whole text.
abbrev pub first_segment : Bytes → Bytes
first_segment rest = elim (cut b'/' rest) [ none ↦ rest | some parts ↦ parts.0 ]

-- A subscription or a delivery below the base topic.
pub may_read : Bytes → Bytes → OwnershipFn → Bool
may_read topic rest ownership =
    if contains_any (codes "+#") topic
    then true
    else if eq_bytes rest (codes "control/consumer/properties")
    then true
    else owned_by_server (ownership (first_segment rest))

-- `checkACL`.
unfoldable pub check_acl : Bytes → Bytes → Bool → OwnershipFn → Bool
check_acl base topic write ownership =
    if is_empty topic || ltb max_topic_bytes (length topic)
    then false
    else if write
    then (if eq_bytes topic base then true else elim (cut_prefix (base ++ b'/' ∷ []) topic) [
      | none ↦ false
      | some rest ↦ may_write rest ownership
    ])
    else elim (cut_prefix (base ++ b'/' ∷ []) topic) [
      | none ↦ false
      | some rest ↦ may_read topic rest ownership
    ]
