-- ===== src/Schema/Unique.antt =====
-- pkg/interfaceschema/parse.go: `checkEndpointUniqueness`. The endpoints and the mappings that they
-- belong to, which the source keeps in two parallel slices, are one list of pairs.
pub mod Laws
use astrate.Base.{
  ◌-◌, Bool, true, false, ◌&&◌, not, List, [], ◌∷◌, ◌==◌, if◌then◌else◌, length, Result, ok, err,
  ◌>>◌, Bytes, eq_bytes,
}
use astrate.Schema.Definition.{Mapping}
use astrate.Schema.Endpoint.{Segment}

abbrev pub Parsed : Type 0
Parsed = Mapping × List Segment

-- The two errors, with the endpoints that they name.
pub data UniqueError : Type 0 where
  duplicate conflicting : Bytes → Bytes → UniqueError

abbrev pub same_bool : Bool → Bool → Bool
same_bool true b = b
same_bool false b = not b

-- The loop over the levels of two endpoints of one depth: `overlap` and `identical`, with its break.
unfoldable pub compare_levels : List Segment → List Segment → Bool → Bool → Bool × Bool
compare_levels (a ∷ as') (b ∷ bs) overlap identical =
    if a.param && b.param
    then compare_levels as' bs overlap identical
    else if not (same_bool a.param b.param)
    then compare_levels as' bs overlap false
    else if eq_bytes a.literal b.literal
    then compare_levels as' bs overlap identical
    else (false, false)
compare_levels _ _ overlap identical = (overlap, identical)

unfoldable pub check_pair : Parsed → Parsed → Result UniqueError (Unit {0})
check_pair a b =
    if not (length a.1 == length b.1)
    then ok tt
    else (let flags = compare_levels a.1 b.1 true true in
        if flags.1
        then err (duplicate b.0.endpoint a.0.endpoint)
        else if flags.0
        then err (conflicting a.0.endpoint b.0.endpoint)
        else ok tt)

unfoldable pub check_row : Parsed → List Parsed → Result UniqueError (Unit {0})
check_row a [] = ok tt
check_row a (b ∷ bs) = check_pair a b >> check_row a bs

-- `checkEndpointUniqueness`.
unfoldable pub check_endpoint_uniqueness : List Parsed → Result UniqueError (Unit {0})
check_endpoint_uniqueness [] = ok tt
check_endpoint_uniqueness (a ∷ as') = check_row a as' >> check_endpoint_uniqueness as'
