-- ===== src/Go/Fields/Laws.antt =====
-- `strings.Fields` takes apart what single spaces join.
use diskforge.Base.{
  ℕ, zero, ◌≤◌, ◌<◌, ◌≡◌, ◌≢◌, refl, sym, ap, ◌∙◌, List, [], ◌∷◌, ◌++◌, Bytes, arith, append-nil,
  append_assoc, All,
}
use diskforge.Go.Strings.{join}
use diskforge.Go.Fields.{fields, fields_from, space_width, wide_space_width, with_field}

-- A byte of ASCII that is neither white space nor a control character below it.
abbrev pub IsPlain : ℕ → Type 0
IsPlain c = (33 ≤ c) × (c < 128)

pub record IsWord (w : Bytes) : Type 0 where
  pub plain : All IsPlain w
  pub not_empty : w ≢ []

wide-plain : (c : ℕ) (s : Bytes) → c < 128 → wide_space_width c s ≡ 0
unfolding wide_space_width
wide-plain c [] h = refl
wide-plain c (a ∷ []) h = ground arith
wide-plain c (a ∷ b ∷ s) h = ground arith

space_width-plain : (c : ℕ) (s : Bytes) → IsPlain c → space_width (c ∷ s) ≡ 0
unfolding space_width
space_width-plain c s (lo, hi) = ground (arith, wide-plain c s hi)

fields_from-plain :
    (current : Bytes) (c : ℕ) (s : Bytes)
    → IsPlain c
    → fields_from zero current (c ∷ s) ≡ fields_from zero (current ++ c ∷ []) s
unfolding fields_from
fields_from-plain current c s h = rw (fields_from, space_width-plain c s h) refl

fields_from-word :
    (current w s : Bytes)
    → All IsPlain w
    → fields_from zero current (w ++ s) ≡ fields_from zero (current ++ w) s
fields_from-word current [] s h = ap (λ t. fields_from zero t s) (sym (append-nil current))
fields_from-word current (c ∷ w) s (p, h) =
    fields_from-plain current c (w ++ s) p
    ∙ fields_from-word (current ++ c ∷ []) w s h
    ∙ ap (λ t. fields_from zero t s) (append_assoc current (c ∷ []) w)

with_field-full : (w : Bytes) (rest : List Bytes) → w ≢ [] → with_field w rest ≡ w ∷ rest
with_field-full [] rest h = absurd (h refl)
with_field-full (c ∷ w) rest h = refl

-- Words joined by single spaces are the fields of the text.
pub fields-join : (ws : List Bytes) → All IsWord ws → fields (join ws b' ') ≡ ws
unfolding fields join fields_from space_width
fields-join [] h = refl
fields-join (w ∷ []) (h, _) =
    ap (fields_from zero []) (sym (append-nil w))
    ∙ fields_from-word [] w [] h.plain
    ∙ with_field-full w [] h.not_empty
fields-join (w ∷ v ∷ ws) (h, hs) =
    fields_from-word [] w (b' ' ∷ join (v ∷ ws) b' ') h.plain
    ∙ with_field-full w (fields_from zero [] (join (v ∷ ws) b' ')) h.not_empty
    ∙ ap (λ t. w ∷ t) (fields-join (v ∷ ws) hs)
