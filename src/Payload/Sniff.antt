-- ===== src/Payload/Sniff.antt =====
-- pkg/payload/sniff.go: `DetectFormat`.
pub mod Laws
use astrate.Base.{
  ℕ, ◌+◌, ◌-◌, ◌*◌, Bool, false, ◌&&◌, ◌||◌, Option, none, some, [], ◌∷◌, leb, ◌==◌, if◌then◌else◌,
  length, is_empty, Bytes, last_byte,
}

pub data Format : Type 0 where
  empty bson json invalid : Format

-- math.MaxInt32
abbrev pub max_int32 : ℕ
max_int32 = 2_147_483_647

-- binary.LittleEndian.Uint32(p[0:4]); shorter payloads have none.
pub uint32_le : Bytes → Option ℕ
uint32_le (a ∷ b ∷ c ∷ d ∷ _) = some (a + 256 * b + 65536 * c + 16777216 * d)
uint32_le _ = none

abbrev pub is_some_of : Option ℕ → ℕ → Bool
is_some_of none n = false
is_some_of (some m) n = m == n

-- ' ', '\t', '\r', '\n'
abbrev pub whitespace : ℕ → Bool
whitespace c = (c == 32) || (c == 9) || (c == 13) || (c == 10)

-- The loop over the bytes.
pub sniff_json : Bytes → Format
sniff_json [] = invalid
sniff_json (c ∷ p) =
    let rest = sniff_json p in if whitespace c then rest else if c == b'{' then json else invalid

pub bson_document : Bytes → Bool
bson_document p =
    leb 5 (length p)
    && leb (length p) max_int32
    && is_some_of (uint32_le p) (length p)
    && is_some_of (last_byte p) 0

-- `DetectFormat`.
pub detect_format : Bytes → Format
detect_format p = if is_empty p then empty else if bson_document p then bson else sniff_json p
