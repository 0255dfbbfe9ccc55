-- ===== src/DeviceId/Base64.antt =====
-- The wire form of a device identifier and its parser are inverse.
use astrate.Base.{
  ℕ, suc, ◌+◌, ◌*◌, ◌≤◌, ◌<◌, ◌≡◌, refl, sym, ap, ap₂, ◌∙◌, ◌↔◌, inl, inr, false, some, List, [],
  ◌∷◌, map, arith, Bool-cases, Option-cases, length, All, ok, Bytes,
}
use Prim.Native.Nat.{◌/◌, ◌%◌}
use astrate.DeviceId.{
  Id16, char_of, value_of, line_end, sextets, pack, unpack, parse, to_string, IsId,
}

value_of-char_of : (n : ℕ) → n < 64 → value_of (char_of n) ≡ some n
unfolding value_of char_of
value_of-char_of n h = ground arith

char_of_visible : (n : ℕ) → n < 64 → line_end (char_of n) ≡ false
unfolding char_of
char_of_visible n h = ground arith

char_of-value_of : (c v : ℕ) → value_of c ≡ some v → (char_of v ≡ c) × (v < 64)
unfolding value_of char_of
char_of-value_of c v h = ground arith

sextets-char_of : (vs : List ℕ) → All (λ v. v < 64) vs → sextets (map char_of vs) ≡ some vs
unfolding sextets
sextets-char_of [] h = refl
sextets-char_of (v ∷ vs) (h, hs) =
    ground (arith, value_of-char_of v, char_of_visible v, sextets-char_of vs hs)

unpack_small : (bytes : List ℕ) → All (λ b. b < 256) bytes → All (λ v. v < 64) (unpack bytes)
unfolding unpack
unpack_small [] h = tt
unpack_small (x ∷ []) (hx, h) = (omega arith, (omega arith, tt))
unpack_small (x ∷ y ∷ []) (hx, (hy, h)) = (omega arith, (omega arith, (omega arith, tt)))
unpack_small (x ∷ y ∷ z ∷ bytes) (hx, (hy, (hz, h))) =
    (omega arith, (omega arith, (omega arith, (omega arith, unpack_small bytes h))))

pack-unpack : (bytes : List ℕ) → All (λ b. b < 256) bytes → pack (unpack bytes) ≡ some bytes
unfolding pack unpack
pack-unpack [] h = refl
pack-unpack (x ∷ []) (hx, h) = ground arith
pack-unpack (x ∷ y ∷ []) (hx, (hy, h)) = ground arith
pack-unpack (x ∷ y ∷ z ∷ bytes) (hx, (hy, (hz, h))) = ground (arith, pack-unpack bytes h)

-- What `pack` accepts it can give back.
pack_sound :
    (vs bytes : List ℕ)
    → All (λ v. v < 64) vs
    → pack vs ≡ some bytes
    → (unpack bytes ≡ vs) × All (λ b. b < 256) bytes
unfolding pack unpack
pack_sound [] bytes h e = let is : bytes ≡ [] = ground arith in rw is (refl, tt)
pack_sound (a ∷ []) bytes h e = cc
pack_sound (a ∷ b ∷ []) bytes (ha, (hb, h)) e =
    let even : b % 16 ≡ 0 = ground arith in
    let is : bytes ≡ (a * 4 + b / 16) ∷ [] = ground arith in rw is (ground arith, (omega arith, tt))
pack_sound (a ∷ b ∷ c ∷ []) bytes (ha, (hb, (hc, h))) e =
    let even : c % 4 ≡ 0 = ground arith in
    let is : bytes ≡ (a * 4 + b / 16) ∷ (b % 16 * 16 + c / 4) ∷ [] = ground arith in
    rw is (ground arith, (omega arith, (omega arith, tt)))
pack_sound (a ∷ b ∷ c ∷ d ∷ vs) bytes (ha, (hb, (hc, (hd, h)))) e = elim (Option-cases (pack vs)) [
  | inl bad ↦ absurd (ground arith)
  | inr (rest, good) ↦
      let is : bytes ≡ (a * 4 + b / 16) ∷ (b % 16 * 16 + c / 4) ∷ (c % 4 * 64 + d) ∷ rest =
        ground arith in
      let (back, small) = pack_sound vs rest h good in
      rw is (ground arith, (omega arith, (omega arith, (omega arith, small))))
]

sextets_small : (s : Bytes) (vs : List ℕ) → sextets s ≡ some vs → All (λ v. v < 64) vs
unfolding sextets
sextets_small [] vs h = let is : vs ≡ [] = ground arith in rw is tt
sextets_small (c ∷ s) vs h = elim (Bool-cases (line_end c)) [
  | inl skip ↦ sextets_small s vs (ground arith)
  | inr kept ↦ elim (Option-cases (value_of c)) [
    | inl bad ↦ absurd (ground arith)
    | inr (v, good) ↦ elim (Option-cases (sextets s)) [
      | inl bad ↦ absurd (ground arith)
      | inr (rest, more) ↦
          let is : vs ≡ v ∷ rest = ground arith in
          rw is ((char_of-value_of c v good).1, sextets_small s rest more)
    ]
  ]
]

-- Characters are skipped or counted; where none is skipped, the sextets spell the text.
length-sextets : (s : Bytes) (vs : List ℕ) → sextets s ≡ some vs → length vs ≤ length s
unfolding sextets
length-sextets [] vs h = let is : vs ≡ [] = ground arith in rw is (omega arith)
length-sextets (c ∷ s) vs h = elim (Bool-cases (line_end c)) [
  | inl skip ↦ let ih = length-sextets s vs (ground arith) in omega arith
  | inr kept ↦ elim (Option-cases (value_of c)) [
    | inl bad ↦ absurd (ground arith)
    | inr (v, good) ↦ elim (Option-cases (sextets s)) [
      | inl bad ↦ absurd (ground arith)
      | inr (rest, more) ↦
          let is : vs ≡ v ∷ rest = ground arith in
          let ih = length-sextets s rest more in rw is (omega arith)
    ]
  ]
]

sextets_spelled :
    (s : Bytes) (vs : List ℕ) → sextets s ≡ some vs → length vs ≡ length s → map char_of vs ≡ s
unfolding sextets
sextets_spelled [] vs h l = let is : vs ≡ [] = ground arith in rw is refl
sextets_spelled (c ∷ s) vs h l = elim (Bool-cases (line_end c)) [
  | inl skip ↦ let short = length-sextets s vs (ground arith) in absurd (omega arith)
  | inr kept ↦ elim (Option-cases (value_of c)) [
    | inl bad ↦ absurd (ground arith)
    | inr (v, good) ↦ elim (Option-cases (sextets s)) [
      | inl bad ↦ absurd (ground arith)
      | inr (rest, more) ↦
          let is : vs ≡ v ∷ rest = ground arith in
          let same : length rest ≡ length s = ground arith in
          rw is (ap₂ ◌∷◌ (char_of-value_of c v good).0 (sextets_spelled s rest more same))
    ]
  ]
]

-- Sixteen bytes take twenty-two sextets.
length-unpack : (bytes : List ℕ) → 3 * length (unpack bytes) ≤ 4 * length bytes + 2
unfolding unpack
length-unpack [] = omega arith
length-unpack (x ∷ []) = omega arith
length-unpack (x ∷ y ∷ []) = omega arith
length-unpack (x ∷ y ∷ z ∷ bytes) = omega (arith, length-unpack bytes)

length-unpack_below : (bytes : List ℕ) → 4 * length bytes ≤ 3 * length (unpack bytes)
unfolding unpack
length-unpack_below [] = omega arith
length-unpack_below (x ∷ []) = omega arith
length-unpack_below (x ∷ y ∷ []) = omega arith
length-unpack_below (x ∷ y ∷ z ∷ bytes) = omega (arith, length-unpack_below bytes)

length-map : (f : ℕ → ℕ) (xs : List ℕ) → length (map f xs) ≡ length xs
length-map f [] = refl
length-map f (x ∷ xs) = ap suc (length-map f xs)

parse-to_string : (id : Id16) → IsId id → parse (to_string id) ≡ ok id
unfolding parse to_string
parse-to_string id v =
    let n : length (map char_of (unpack id)) ≡ 22 =
      length-map char_of (unpack id)
      ∙ omega (arith, length-unpack id, length-unpack_below id, v.sized) in
    let sx = sextets-char_of (unpack id) (unpack_small id v.bytes) in
    let pk = pack-unpack id v.bytes in let sz = v.sized in ground arith

parse_sound : (s : Bytes) (id : Id16) → parse s ≡ ok id → (s ≡ to_string id) × IsId id
unfolding parse to_string
parse_sound s id h = elim (Option-cases (sextets s)) [
  | inl bad ↦ absurd (ground arith)
  | inr (vs, sx) ↦ elim (Option-cases (pack vs)) [
    | inl bad ↦ absurd (ground arith)
    | inr (bytes, pk) ↦
        let is : bytes ≡ id = ground arith in
        let n : length s ≡ 22 = ground arith in
        let sz : length bytes ≡ 16 = ground arith in
        let (back, small) = pack_sound vs bytes (sextets_small s vs sx) pk in
        let count : length vs ≡ length s =
          ap length (sym back)
          ∙ omega (arith, length-unpack bytes, length-unpack_below bytes, sz, n) in
        rw (← is) (
          sym (ap (map char_of) back ∙ sextets_spelled s vs sx count),
          record { sized = sz; bytes = small },
        )
  ]
]

-- `Parse` accepts a text with an identifier exactly if the identifier is 16 bytes and `String` prints
-- that text: the two are inverse, and every other text is refused, also one with line ends.
pub parse_iff : (s : Bytes) (id : Id16) → (parse s ≡ ok id) ↔ ((s ≡ to_string id) × IsId id)
parse_iff s id = (parse_sound s id, λ (e, v). rw e (parse-to_string id v))
