-- ===== src/Engine/Topics/Split.antt =====
-- What the split of a device topic accepts.
use astrate.Base.{
  ℕ, zero, suc, ◌+◌, ◌≡◌, refl, sym, ap, ap₂, ◌∙◌, ◌↔◌, ◌⊎◌, inl, inr, false, Option, none, some,
  [], ◌∷◌, ◌++◌, arith, ltb, ◌==◌, if◌then◌else◌, length, take, drop, length-append, take-append,
  append_nil, append-take-drop, Bytes, codes, eq_bytes_self, eq_bytes_iff,
}
use astrate.Engine.Topics.{device_id_length, split_device_topic}

drop-length : (a s : Bytes) → drop (length a) (a ++ s) ≡ s
drop-length [] s = refl
drop-length (c ∷ a) s = drop-length a s

drop-nil : (n : ℕ) → drop {A = ℕ} n [] ≡ []
drop-nil zero = refl
drop-nil (suc n) = refl

drop-add : (n m : ℕ) (s : Bytes) → drop (n + m) s ≡ drop m (drop n s)
drop-add zero m s = ap (λ (n : ℕ). drop n s) (omega arith)
drop-add (suc n) m [] = drop-nil (suc n + m) ∙ sym (drop-nil m)
drop-add (suc n) m (c ∷ s) =
    let step : suc n + m ≡ suc (n + m) = omega arith in
    ap (λ (k : ℕ). drop k (c ∷ s)) step ∙ drop-add n m s

-- What is left behind the root of a topic.
abbrev after_root : Bytes → Option Bytes
after_root [] = some []
after_root (c ∷ rest) = if c == b'/' then some rest else none

split_device_topic-root :
    (realm id t : Bytes)
    → length id ≡ device_id_length
    → split_device_topic (realm ++ b'/' ∷ (id ++ t)) realm id ≡ after_root t
unfolding split_device_topic
split_device_topic-root realm id t h =
    let topic = realm ++ b'/' ∷ (id ++ t) in
    let a : drop (length realm) topic ≡ b'/' ∷ (id ++ t) = drop-length realm _ in
    let b : drop (length realm + 1) topic ≡ id ++ t =
      drop-add (length realm) 1 topic ∙ ap (drop 1) a in
    let c : drop (length realm + 1 + device_id_length) topic ≡ t =
      drop-add (length realm + 1) device_id_length topic
      ∙ ap (drop device_id_length) b
      ∙ ap (λ (n : ℕ). drop n (id ++ t)) (sym h)
      ∙ drop-length id t in
    let k : take (length realm) topic ≡ realm = take-append realm _ in
    let i : take device_id_length (id ++ t) ≡ id =
      ap (λ (n : ℕ). take n (id ++ t)) (sym h) ∙ take-append id t in
    let n : ltb (length topic) (length realm + 1 + device_id_length) ≡ false =
      ground (arith, length-append realm (b'/' ∷ (id ++ t)), length-append id t) in
    rw (n, k, a, b, i, c, eq_bytes_self realm, eq_bytes_self id) refl

split_device_topic_sound :
    (topic realm id rest : Bytes)
    → split_device_topic topic realm id ≡ some rest
    → (t : Bytes) × (topic ≡ realm ++ b'/' ∷ (id ++ t)) × (after_root t ≡ some rest)
unfolding split_device_topic
split_device_topic_sound topic realm id rest h =
    let lr = length realm in
    let k : take lr topic ≡ realm = (eq_bytes_iff (take lr topic) realm).0 (ground arith) in
    let j : take 1 (drop lr topic) ≡ codes "/" =
      (eq_bytes_iff (take 1 (drop lr topic)) (codes "/")).0 (ground arith) in
    let i : take device_id_length (drop (lr + 1) topic) ≡ id =
      (eq_bytes_iff (take device_id_length (drop (lr + 1) topic)) id).0 (ground arith) in
    let t = drop (lr + 1 + device_id_length) topic in
    let tail : id ++ t ≡ drop (lr + 1) topic =
      ap₂ ◌++◌ (sym i) (drop-add (lr + 1) device_id_length topic)
      ∙ append-take-drop device_id_length (drop (lr + 1) topic) in
    let slash : b'/' ∷ (id ++ t) ≡ drop lr topic =
      ap (◌∷◌ b'/') (tail ∙ drop-add lr 1 topic)
      ∙ ap (λ (s : Bytes). s ++ drop 1 (drop lr topic)) (sym j)
      ∙ append-take-drop 1 (drop lr topic) in
    let whole : realm ++ b'/' ∷ (id ++ t) ≡ topic =
      ap₂ ◌++◌ (sym k) slash ∙ append-take-drop lr topic in
    (t, sym whole, ground arith)

by_rest :
    (topic realm id rest t : Bytes)
    → topic ≡ realm ++ b'/' ∷ (id ++ t)
    → after_root t ≡ some rest
    → ((topic ≡ realm ++ b'/' ∷ id) × (rest ≡ [])) ⊎ (topic ≡ realm ++ b'/' ∷ (id ++ b'/' ∷ rest))
by_rest topic realm id rest [] whole after = inl (rw (append_nil id) at whole, ground arith)
by_rest topic realm id rest (c ∷ t) whole after =
    let slash : c ≡ b'/' = ground arith in
    let same : t ≡ rest = ground arith in inr (rw same at (rw slash at whole))

-- For a device id of 22 bytes, `splitDeviceTopic` accepts a topic exactly if it is
-- `<realm>/<device_id>`, with nothing left, or `<realm>/<device_id>/<rest>`, with that rest. So a
-- single slash behind the root is taken for the introspection topic.
pub split_device_topic_iff :
    (topic realm id rest : Bytes)
    → length id ≡ device_id_length
    → (split_device_topic topic realm id ≡ some rest) ↔ (
        ((topic ≡ realm ++ b'/' ∷ id) × (rest ≡ []))
        ⊎ (topic ≡ realm ++ b'/' ∷ (id ++ b'/' ∷ rest)))
split_device_topic_iff topic realm id rest h = (
  λ e.
      let (t, whole, after) = split_device_topic_sound topic realm id rest e in
      by_rest topic realm id rest t whole after,
  λ shape. elim shape [
    | inl (whole, nil) ↦
        rw whole (rw nil (rw (append_nil id) at (split_device_topic-root realm id [] h)))
    | inr whole ↦ rw whole (split_device_topic-root realm id (b'/' ∷ rest) h)
  ],
)
