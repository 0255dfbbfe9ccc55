-- ===== src/Schema/Endpoint.antt =====
-- pkg/interfaceschema/parse.go: endpoint patterns such as "/%{sensor_id}/value", and their parser.
pub mod Level
pub mod Split
pub mod Print
pub mod Failure
use astrate.Base.{
  ℕ, zero, suc, ◌+◌, ◌-◌, Bool, true, false, ◌&&◌, ◌||◌, not, none, some, List, [], ◌∷◌, ◌++◌, ltb,
  leb, ◌==◌, if◌then◌else◌, length, all, is_empty, take, drop, Result, ok, err, ◌>>=◌, ◌>>◌, Bytes,
  codes, eq_bytes, contains_any, cut, last_byte,
}

-- `endpointSegment`: the text of a level, or the name of its placeholder.
pub record Segment : Type 0 where
  pub literal : Bytes
  pub param : Bool

-- Equality of the struct.
unfoldable pub eq_segment : Segment → Segment → Bool
eq_segment s r = (if s.param then r.param else not r.param) && eq_bytes s.literal r.literal

-- The rejections of `splitEndpoint`. `out_of_fuel` belongs to the model alone.
pub data EndpointError : Type 0 where
  no_leading_slash empty_segment malformed_placeholder invalid_placeholder_name : EndpointError
  partial_placeholder invalid_segment too_deep out_of_fuel : EndpointError

abbrev pub max_endpoint_depth : ℕ
max_endpoint_depth = 64

unfoldable pub is_letter : ℕ → Bool
is_letter c = (leb b'a' c && leb c b'z') || (leb b'A' c && leb c b'Z') || (c == b'_')

unfoldable pub is_digit : ℕ → Bool
is_digit c = leb b'0' c && leb c b'9'

-- The loop of `validIdentifier`; `first` is i == 0.
unfoldable pub identifier_from : Bool → Bytes → Bool
unfolding is_letter is_digit
identifier_from first [] = true
identifier_from first (c ∷ s) =
    let rest = identifier_from false s in
    if is_letter c then rest else if is_digit c then (if first then false else rest) else false

unfoldable pub valid_identifier : Bytes → Bool
unfolding identifier_from
valid_identifier [] = false
valid_identifier (c ∷ s) = identifier_from true (c ∷ s)

-- raw[1] == '{'
abbrev second_is_brace : Bytes → Bool
second_is_brace (_ ∷ c ∷ _) = c == b'{'
second_is_brace _ = false

abbrev last_is : ℕ → Bytes → Bool
last_is c s = elim (last_byte s) [ none ↦ false | some d ↦ d == c ]

-- The branch of `parseSegment` for a level that begins with '%'; the name is raw[2 : len(raw)-1].
unfoldable pub parse_placeholder : Bytes → Result EndpointError Segment
parse_placeholder raw =
    let name = take (length raw - 3) (drop 2 raw) in
    if ltb (length raw) 4 || not (second_is_brace raw) || not (last_is b'}' raw)
    then err malformed_placeholder
    else if not (valid_identifier name)
    then err invalid_placeholder_name
    else ok (record { literal = name; param = true })

unfoldable pub parse_literal : Bytes → Result EndpointError Segment
parse_literal raw =
    if not (valid_identifier raw)
    then if contains_any (codes "%{}") raw then err partial_placeholder else err invalid_segment
    else ok (record { literal = raw; param = false })

unfoldable pub parse_segment : Bytes → Result EndpointError Segment
unfolding parse_placeholder parse_literal last_byte valid_identifier contains_any
parse_segment [] = err empty_segment
parse_segment (c ∷ s) = if c == b'%' then parse_placeholder (c ∷ s) else parse_literal (c ∷ s)

abbrev pub ends_with_slash : Bytes → Bool
ends_with_slash endpoint = last_is b'/' endpoint

-- rest[:i] and rest[i+1:] at the first '/', or all of rest and "".
abbrev pub take_level : Bytes → Bytes × Bytes
take_level rest = elim (cut b'/' rest) [ none ↦ (rest, []) | some p ↦ p ]

-- The loop of `splitEndpoint`.
unfoldable pub split_loop : ℕ → Bytes → Bytes → List Segment → Result EndpointError (List Segment)
split_loop zero endpoint rest segs = err out_of_fuel
split_loop (suc fuel) endpoint rest segs = do
  let level = take_level rest
  seg ← parse_segment level.0
  let segs' = segs ++ seg ∷ []
  let again = split_loop fuel endpoint level.1 segs'
  if is_empty level.1 && not (ends_with_slash endpoint)
      then ok segs'
      else (if is_empty level.1 then err empty_segment else again)

abbrev pub check_depth : List Segment → Result EndpointError (List Segment)
check_depth segs = if ltb max_endpoint_depth (length segs) then err too_deep else ok segs

-- `splitEndpoint`. Each round of the loop takes a byte at least, so the length is fuel enough.
unfoldable pub split_endpoint : Bytes → Result EndpointError (List Segment)
split_endpoint [] = err no_leading_slash
split_endpoint (c ∷ rest) =
    if c == b'/'
    then split_loop (suc (length rest)) (c ∷ rest) rest [] >>= check_depth
    else err no_leading_slash

-- `normalizeEndpoint`: placeholder names are erased.
unfoldable pub normalize_endpoint : List Segment → Bytes
normalize_endpoint [] = []
normalize_endpoint (s ∷ segs) =
    b'/' ∷ (if s.param then codes "%{}" else s.literal) ++ normalize_endpoint segs
