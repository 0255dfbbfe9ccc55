-- ===== src/DeviceId/Uuid.antt =====
-- The operator form of a device identifier is read back.
use astrate.Base.{
  ℕ, ◌<◌, ◌≡◌, refl, ap, true, none, some, List, [], ◌∷◌, ◌++◌, arith, length, All, ok, err, Bytes,
}
use Prim.Native.Nat.{◌/◌, ◌%◌}
use astrate.DeviceId.{
  Id16, not_uuid, hex_digit, hex_value, to_hex, from_hex, hyphen_at, slice, hex_group, from_uuid,
  uuid, IsId,
}

hex_value-hex_digit : (n : ℕ) → n < 16 → hex_value (hex_digit n) ≡ some n
unfolding hex_value hex_digit
hex_value-hex_digit n h = ground arith

from_hex-to_hex : (xs : List ℕ) → All (λ b. b < 256) xs → from_hex (to_hex xs) ≡ some xs
unfolding from_hex to_hex
from_hex-to_hex [] h = refl
from_hex-to_hex (x ∷ xs) (hx, h) =
    ground (arith, hex_value-hex_digit (x / 16), hex_value-hex_digit (x % 16), from_hex-to_hex xs h)

hex_group-some : (s : Bytes) (xs : List ℕ) → from_hex s ≡ some xs → hex_group s ≡ ok xs
hex_group-some s xs h = ap (λ o. elim o [ none ↦ err not_uuid | some ys ↦ ok ys ]) h

hex_group-to_hex : (xs : List ℕ) → All (λ b. b < 256) xs → hex_group (to_hex xs) ≡ ok xs
hex_group-to_hex xs h = hex_group-some (to_hex xs) xs (from_hex-to_hex xs h)

-- `FromUUID` by its parts: the length, the hyphens, and what the groups decode to.
from_uuid-groups :
    (s : Bytes) {a b c d e : List ℕ}
    → length s ≡ 36
    → hyphen_at 8 s ≡ true
    → hyphen_at 13 s ≡ true
    → hyphen_at 18 s ≡ true
    → hyphen_at 23 s ≡ true
    → hex_group (slice 0 8 s) ≡ ok a
    → hex_group (slice 9 4 s) ≡ ok b
    → hex_group (slice 14 4 s) ≡ ok c
    → hex_group (slice 19 4 s) ≡ ok d
    → hex_group (slice 24 12 s) ≡ ok e
    → from_uuid s ≡ ok (a ++ (b ++ (c ++ (d ++ e))))
unfolding from_uuid
from_uuid-groups s l p0 p1 p2 p3 g0 g1 g2 g3 g4 = rw (l, p0, p1, p2, p3, g0, g1, g2, g3, g4) refl

from_uuid-uuid_at :
    (x0 x1 x2 x3 x4 x5 x6 x7 x8 x9 x10 x11 x12 x13 x14 x15 : ℕ)
    → All
        (λ b. b < 256)
        (x0 ∷ x1 ∷ x2 ∷ x3 ∷ x4 ∷ x5 ∷ x6 ∷ x7 ∷ x8 ∷ x9 ∷ x10 ∷ x11 ∷ x12 ∷ x13 ∷ x14 ∷ x15 ∷ [])
    → from_uuid (
        uuid (
          x0 ∷ x1 ∷ x2 ∷ x3 ∷ x4 ∷ x5 ∷ x6 ∷ x7 ∷ x8 ∷ x9 ∷ x10 ∷ x11 ∷ x12 ∷ x13 ∷ x14 ∷ x15 ∷ []))
      ≡ ok
          (x0 ∷ x1 ∷ x2 ∷ x3 ∷ x4 ∷ x5 ∷ x6 ∷ x7 ∷ x8 ∷ x9 ∷ x10 ∷ x11 ∷ x12 ∷ x13 ∷ x14 ∷ x15 ∷ [])
unfolding uuid to_hex
from_uuid-uuid_at x0 x1 x2 x3 x4 x5 x6 x7 x8 x9 x10 x11 x12 x13 x14 x15
      (
        h0,
        (
          h1,
          (
            h2,
            (h3, (h4, (h5, (h6, (h7, (h8, (h9, (h10, (h11, (h12, (h13, (h14, (h15, _))))))))))))),
          ),
        ),
      ) =
    from_uuid-groups
      (uuid
        (x0 ∷ x1 ∷ x2 ∷ x3 ∷ x4 ∷ x5 ∷ x6 ∷ x7 ∷ x8 ∷ x9 ∷ x10 ∷ x11 ∷ x12 ∷ x13 ∷ x14 ∷ x15 ∷ []))
      refl refl refl refl refl (hex_group-to_hex (x0 ∷ x1 ∷ x2 ∷ x3 ∷ []) (h0, (h1, (h2, (h3, _)))))
      (hex_group-to_hex (x4 ∷ x5 ∷ []) (h4, (h5, _)))
      (hex_group-to_hex (x6 ∷ x7 ∷ []) (h6, (h7, _)))
      (hex_group-to_hex (x8 ∷ x9 ∷ []) (h8, (h9, _)))
      (hex_group-to_hex (x10 ∷ x11 ∷ x12 ∷ x13 ∷ x14 ∷ x15 ∷ [])
        (h10, (h11, (h12, (h13, (h14, (h15, _)))))))

-- `FromUUID` reads back the identifier that `UUID` printed.
pub from_uuid-uuid : (id : Id16) → IsId id → from_uuid (uuid id) ≡ ok id
from_uuid-uuid
      (x0 ∷ x1 ∷ x2 ∷ x3 ∷ x4 ∷ x5 ∷ x6 ∷ x7 ∷ x8 ∷ x9 ∷ x10 ∷ x11 ∷ x12 ∷ x13 ∷ x14 ∷ x15 ∷ []) v =
    from_uuid-uuid_at x0 x1 x2 x3 x4 x5 x6 x7 x8 x9 x10 x11 x12 x13 x14 x15 v.bytes
from_uuid-uuid id v = absurd (omega (arith, v.sized))
