-- ===== src/Payload/Sniff/Laws.antt =====
-- What each format means of the payload.
use astrate.Base.{
  ℕ, ◌≡◌, refl, sym, ap, ◌∙◌, ◌≢◌, ◌↔◌, ◌⊎◌, inl, inr, true, false, [], ◌∷◌, ◌++◌, arith,
  Bool-cases, All, Bytes, contains_byte, last_byte,
}
use astrate.Payload.Sniff.{
  bson, json, invalid, is_some_of, whitespace, sniff_json, bson_document, detect_format,
}

no_zero-last_byte : (p : Bytes) → contains_byte 0 p ≡ false → is_some_of (last_byte p) 0 ≡ false
unfolding contains_byte last_byte
no_zero-last_byte [] h = refl
no_zero-last_byte (c ∷ []) h = ground arith
no_zero-last_byte (c ∷ d ∷ p) h = ground (arith, no_zero-last_byte (d ∷ p))

-- White space and then an opening brace.
pub record OpensObject (p : Bytes) : Type 0 where
  pub blank : Bytes
  pub rest : Bytes
  pub spelled : blank ++ b'{' ∷ rest ≡ p
  pub white : All (λ c. whitespace c ≡ true) blank

sniff_json-OpensObject : (p : Bytes) → sniff_json p ≡ json → OpensObject p
unfolding sniff_json
sniff_json-OpensObject [] h = cc
sniff_json-OpensObject (c ∷ p) h = elim (Bool-cases (whitespace c)) [
  | inl w ↦
      let ih = sniff_json-OpensObject p (rw (w, sniff_json) at h) in
      record {
        blank = c ∷ ih.blank;
        rest = ih.rest;
        spelled = ap (◌∷◌ c) ih.spelled;
        white = (w, ih.white);
      }
  | inr b ↦
      let brace : c ≡ b'{' = ground arith in
      record { blank = []; rest = p; spelled = rw brace refl; white = tt }
]

OpensObject-sniff_json :
    (blank rest : Bytes)
    → All (λ c. whitespace c ≡ true) blank
    → sniff_json (blank ++ b'{' ∷ rest) ≡ json
unfolding sniff_json
OpensObject-sniff_json [] rest w = refl
OpensObject-sniff_json (c ∷ blank) rest (w, ws) = rw (w, OpensObject-sniff_json blank rest ws) refl

sniff_json-formats : (p : Bytes) → (sniff_json p ≡ json) ⊎ (sniff_json p ≡ invalid)
unfolding sniff_json
sniff_json-formats [] = inr refl
sniff_json-formats (c ∷ p) = ground (arith, sniff_json-formats p)

json_not_bson : json ≢ bson
json_not_bson e = cc

invalid_not_bson : invalid ≢ bson
invalid_not_bson e = cc

append-not_nil : (a : Bytes) (c : ℕ) (b : Bytes) → a ++ c ∷ b ≢ []
append-not_nil [] c b e = cc
append-not_nil (x ∷ a) c b e = cc

no_zero-detect_format :
    (c : ℕ) (p : Bytes)
    → contains_byte 0 (c ∷ p) ≡ false
    → detect_format (c ∷ p) ≡ sniff_json (c ∷ p)
unfolding detect_format bson_document
no_zero-detect_format c p h = ground (arith, no_zero-last_byte (c ∷ p) h)

-- A payload without a zero byte, such as a JSON text, is taken for JSON exactly if it opens an object
-- behind white space, and is never taken for BSON.
pub detect_format-text :
    (p : Bytes)
    → contains_byte 0 p ≡ false
    → ((detect_format p ≡ json) ↔ OpensObject p) × (detect_format p ≢ bson)
unfolding detect_format
detect_format-text [] h =
    ((λ e. cc, λ o. absurd (append-not_nil o.blank _ o.rest o.spelled)), λ e. cc)
detect_format-text (c ∷ p) h =
    let same = no_zero-detect_format c p h in
    (
      (
        λ e. sniff_json-OpensObject (c ∷ p) (sym same ∙ e),
        λ o. same ∙ rw o.spelled at (OpensObject-sniff_json o.blank o.rest o.white),
      ),
      λ e. elim (sniff_json-formats (c ∷ p)) [
        | inl f ↦ json_not_bson (sym f ∙ sym same ∙ e)
        | inr f ↦ invalid_not_bson (sym f ∙ sym same ∙ e)
      ],
    )
