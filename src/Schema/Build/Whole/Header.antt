-- ===== src/Schema/Build/Whole/Header.antt =====
-- What the checks of the header of an interface promise.
use astrate.Base.{
  ◌≤◌, ◌≡◌, refl, Bool, true, false, ◌&&◌, not, List, [], ◌∷◌, arith, ltb, length, is_empty, ok,
  ◌>>◌, reject_if, Bytes, ℤ, pos, ltb_ℤ, eq_ℤ,
}
use astrate.Schema.Types.{InterfaceType, Aggregation}
use astrate.Schema.Build.Raw.{RawMapping, BuildError, max_name_length, max_mappings}
use astrate.Schema.Build.Whole.{interface_name_ok, is_object, is_properties, check_header}

-- Eight guards in a row.
guards-ok :
    (a b c d e f g h : Bool) (x1 x2 x3 x4 x5 x6 x7 x8 : BuildError)
    → (reject_if a x1
        >> (reject_if b x2
            >> (reject_if c x3
                >> (reject_if d x4
                    >> (reject_if e x5
                        >> (reject_if f x6 >> (reject_if g x7 >> reject_if h x8)))))))
      ≡ ok tt
    → (a ≡ false)
      × (b ≡ false)
      × (c ≡ false)
      × (d ≡ false)
      × (e ≡ false)
      × (f ≡ false)
      × (g ≡ false)
      × (h ≡ false)
guards-ok true b c d e f g h x1 x2 x3 x4 x5 x6 x7 x8 eq = cc
guards-ok false true c d e f g h x1 x2 x3 x4 x5 x6 x7 x8 eq = cc
guards-ok false false true d e f g h x1 x2 x3 x4 x5 x6 x7 x8 eq = cc
guards-ok false false false true e f g h x1 x2 x3 x4 x5 x6 x7 x8 eq = cc
guards-ok false false false false true f g h x1 x2 x3 x4 x5 x6 x7 x8 eq = cc
guards-ok false false false false false true g h x1 x2 x3 x4 x5 x6 x7 x8 eq = cc
guards-ok false false false false false false true h x1 x2 x3 x4 x5 x6 x7 x8 eq = cc
guards-ok false false false false false false false true x1 x2 x3 x4 x5 x6 x7 x8 eq = cc
guards-ok false false false false false false false false x1 x2 x3 x4 x5 x6 x7 x8 eq =
    (refl, refl, refl, refl, refl, refl, refl, refl)

-- What the checks of the header leave.
pub record Header (name : Bytes) (ma : ℤ) (mi : ℤ) (type : InterfaceType)
    (aggregation : Aggregation) (mappings : List RawMapping) : Type 0 where
  pub named : interface_name_ok name ≡ true
  pub short_name : length name ≤ max_name_length
  pub major : ltb_ℤ ma (pos 0) ≡ false
  pub minor : ltb_ℤ mi (pos 0) ≡ false
  pub versioned : (eq_ℤ ma (pos 0) && eq_ℤ mi (pos 0)) ≡ false
  pub shape : (is_properties type && is_object aggregation) ≡ false
  pub some_mapping : 1 ≤ length mappings
  pub few_mappings : length mappings ≤ max_mappings

length-nonempty : {A : Type 0} (xs : List A) → is_empty xs ≡ false → 1 ≤ length xs
length-nonempty [] h = cc
length-nonempty (x ∷ xs) h = omega arith

pub check_header-Header :
    (name : Bytes) (major minor : ℤ) (type : InterfaceType) (aggregation : Aggregation)
    (mappings : List RawMapping)
    → check_header name major minor type aggregation mappings ≡ ok tt
    → Header name major minor type aggregation mappings
unfolding check_header
check_header-Header name major minor type aggregation mappings h =
    let (g1, g2, g3, g4, g5, g6, g7, g8) =
      guards-ok (ltb max_name_length (length name)) (not (interface_name_ok name))
        (ltb_ℤ major (pos 0)) (ltb_ℤ minor (pos 0)) (eq_ℤ major (pos 0) && eq_ℤ minor (pos 0))
        (is_properties type && is_object aggregation) (is_empty mappings)
        (ltb max_mappings (length mappings)) _ _ _ _ _ _ _ _ h in
    record {
      named = ground arith;
      short_name = ground arith;
      major = g3;
      minor = g4;
      versioned = g5;
      shape = g6;
      some_mapping = length-nonempty mappings g7;
      few_mappings = ground arith;
    }
