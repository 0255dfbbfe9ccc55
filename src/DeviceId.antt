-- ===== src/DeviceId.antt =====
-- pkg/deviceid/deviceid.go: device identifiers, as their 16 bytes, and their two text forms.
-- The decoder of encoding/base64 skips line ends; the strict one wants the unused bits to be zero.
pub mod Base64
pub mod Uuid
use astrate.Base.{
  ◌>>=◌, ◌>>◌, ℕ, zero, ◌+◌, ◌-◌, ◌*◌, ◌<◌, String, ◌≡◌, Bool, false, ◌&&◌, ◌||◌, not, Option, none,
  some, List, [], ◌∷◌, ◌++◌, map, ltb, leb, ◌==◌, if◌then◌else◌, length, get_elem?, All, take, drop,
  Result, ok, err, reject_if, Bytes,
}
use Prim.Native.Nat.{◌/◌, ◌%◌}

-- `ID`.
abbrev pub Id16 : Type 0
Id16 = List ℕ

-- `EncodedLen`.
abbrev pub encoded_len : ℕ
encoded_len = 22

abbrev pub between_codes : ℕ → ℕ → ℕ → Bool
between_codes lo hi c = leb lo c && leb c hi

-- A character of the base64url alphabet, and its value.
unfoldable pub char_of : ℕ → ℕ
char_of n =
    if ltb n 26
    then b'A' + n
    else if ltb n 52
    then b'a' + (n - 26)
    else if ltb n 62
    then b'0' + (n - 52)
    else if n == 62
    then b'-'
    else b'_'

unfoldable pub value_of : ℕ → Option ℕ
value_of c =
    if between_codes b'A' b'Z' c
    then some (c - b'A')
    else if between_codes b'a' b'z' c
    then some (c - b'a' + 26)
    else if between_codes b'0' b'9' c
    then some (c - b'0' + 52)
    else if c == b'-'
    then some 62
    else if c == b'_'
    then some 63
    else none

abbrev pub line_end : ℕ → Bool
line_end c = (c == 10) || (c == 13)

-- The sextets that the characters stand for.
unfoldable pub sextets : Bytes → Option (List ℕ)
sextets [] = some []
sextets (c ∷ s) =
    let rest = sextets s in
    if line_end c then rest else elim (value_of c) [
      | none ↦ none
      | some v ↦ elim rest [ none ↦ none | some vs ↦ some (v ∷ vs) ]
    ]

-- Four sextets are three bytes; at the end, three are two bytes and two are one.
unfoldable pub pack : List ℕ → Option (List ℕ)
pack [] = some []
pack (a ∷ []) = none
pack (a ∷ b ∷ []) = if b % 16 == 0 then some ((a * 4 + b / 16) ∷ []) else none
pack (a ∷ b ∷ c ∷ []) =
    if c % 4 == 0 then some ((a * 4 + b / 16) ∷ (b % 16 * 16 + c / 4) ∷ []) else none
pack (a ∷ b ∷ c ∷ d ∷ vs) = elim (pack vs) [
  | none ↦ none
  | some bytes ↦ some ((a * 4 + b / 16) ∷ (b % 16 * 16 + c / 4) ∷ (c % 4 * 64 + d) ∷ bytes)
]

unfoldable pub unpack : List ℕ → List ℕ
unpack [] = []
unpack (x ∷ []) = (x / 4) ∷ (x % 4 * 16) ∷ []
unpack (x ∷ y ∷ []) = (x / 4) ∷ (x % 4 * 16 + y / 16) ∷ (y % 16 * 4) ∷ []
unpack (x ∷ y ∷ z ∷ bytes) =
    (x / 4) ∷ (x % 4 * 16 + y / 16) ∷ (y % 16 * 4 + z / 64) ∷ (z % 64) ∷ unpack bytes

pub data IdError : Type 0 where
  wrong_length not_base64 short_decode not_uuid : IdError

-- `Parse`.
unfoldable pub parse : Bytes → Result IdError Id16
parse s = if not (length s == encoded_len) then err wrong_length else elim (sextets s) [
  | none ↦ err not_base64
  | some vs ↦ elim (pack vs) [
    | none ↦ err not_base64
    | some bytes ↦ if length bytes == 16 then ok bytes else err short_decode
  ]
]

-- `String`.
unfoldable pub to_string : Id16 → Bytes
to_string id = map char_of (unpack id)

-- A lower-case hexadecimal digit, and the value of a digit of either case.
unfoldable pub hex_digit : ℕ → ℕ
hex_digit n = if ltb n 10 then b'0' + n else b'a' + (n - 10)

unfoldable pub hex_value : ℕ → Option ℕ
hex_value c =
    if between_codes b'0' b'9' c
    then some (c - b'0')
    else if between_codes b'a' b'f' c
    then some (c - b'a' + 10)
    else if between_codes b'A' b'F' c
    then some (c - b'A' + 10)
    else none

-- `hex.Encode` and `hex.Decode`.
unfoldable pub to_hex : List ℕ → Bytes
to_hex [] = []
to_hex (x ∷ xs) = hex_digit (x / 16) ∷ hex_digit (x % 16) ∷ to_hex xs

unfoldable pub from_hex : Bytes → Option (List ℕ)
from_hex [] = some []
from_hex (c ∷ []) = none
from_hex (c ∷ d ∷ s) = elim (hex_value c) [
  | none ↦ none
  | some hi ↦ elim (hex_value d) [
    | none ↦ none
    | some lo ↦ elim (from_hex s) [ none ↦ none | some xs ↦ some ((hi * 16 + lo) ∷ xs) ]
  ]
]

abbrev pub hyphen_at : ℕ → Bytes → Bool
hyphen_at i s = elim (get_elem? s i) [ none ↦ false | some c ↦ c == b'-' ]

-- s[from : from+count]
abbrev pub slice : ℕ → ℕ → List ℕ → List ℕ
slice from count s = take count (drop from s)

abbrev pub hex_group : Bytes → Result IdError (List ℕ)
hex_group s = elim (from_hex s) [ none ↦ err not_uuid | some xs ↦ ok xs ]

-- `FromUUID`.
unfoldable pub from_uuid : Bytes → Result IdError Id16
from_uuid s = do
  reject_if
      (not (length s == 36)
        || not (hyphen_at 8 s)
        || not (hyphen_at 13 s)
        || not (hyphen_at 18 s)
        || not (hyphen_at 23 s))
      not_uuid
  a ← hex_group (slice 0 8 s)
  b ← hex_group (slice 9 4 s)
  c ← hex_group (slice 14 4 s)
  d ← hex_group (slice 19 4 s)
  e ← hex_group (slice 24 12 s)
  ok (a ++ (b ++ (c ++ (d ++ e))))

-- `UUID`.
unfoldable pub uuid : Id16 → Bytes
uuid id =
    to_hex (slice 0 4 id)
    ++ (b'-'
        ∷ (to_hex (slice 4 2 id)
            ++ (b'-'
                ∷ (to_hex (slice 6 2 id)
                    ++ (b'-' ∷ (to_hex (slice 8 2 id) ++ (b'-' ∷ to_hex (slice 10 6 id))))))))

-- A device identifier is 16 bytes.
pub record IsId (id : Id16) : Type 0 where
  pub sized : length id ≡ 16
  pub bytes : All (λ b. b < 256) id
