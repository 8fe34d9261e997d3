-- ===== src/Go/Strings/Laws.antt =====
-- Splitting and joining undo one another, and texts with one separator are taken apart in one way.
use diskforge.Base.{
  ℕ, sym, suc, ◌+◌, if◌then◌else◌, length-append, ◌≡◌, ◌≢◌, refl, true, List, [], ◌∷◌, ◌++◌, arith,
  Bytes, Lacks, All, Bool-cases, ◌==◌, length, inl, inr, ap,
}
use diskforge.Go.Strings.{split, join, has_prefix, onto_head}

split-cons_ne : (c sep : ℕ) (s : Bytes) → c ≢ sep → split (c ∷ s) sep ≡ onto_head c (split s sep)
unfolding split
split-cons_ne c sep s h = ground arith

split-cons_eq : (sep : ℕ) (s : Bytes) → split (sep ∷ s) sep ≡ [] ∷ split s sep
unfolding split
split-cons_eq sep s = ground arith

pub split-ne-nil : (s : Bytes) (sep : ℕ) → split s sep ≢ []
unfolding split
split-ne-nil [] sep = cc
split-ne-nil (c ∷ s) sep = ground (arith, split-ne-nil s sep)

pub split-Lacks : (s : Bytes) (sep : ℕ) → Lacks sep s → split s sep ≡ s ∷ []
unfolding split
split-Lacks [] sep h = refl
split-Lacks (c ∷ s) sep (h, hs) = ground (arith, split-Lacks s sep hs)

-- A part without the separator is split off whole.
pub split-append :
    (p s : Bytes) (sep : ℕ) → Lacks sep p → split (p ++ sep ∷ s) sep ≡ p ∷ split s sep
split-append [] s sep h = split-cons_eq sep s
split-append (c ∷ p) s sep (h, hp) = rw (split-cons_ne c sep _ h, split-append p s sep hp)

join-onto_head : (c : ℕ) (ps : List Bytes) (sep : ℕ) → join (onto_head c ps) sep ≡ c ∷ join ps sep
unfolding join
join-onto_head c [] sep = refl
join-onto_head c (p ∷ []) sep = refl
join-onto_head c (p ∷ q ∷ ps) sep = refl

join-nil_cons : (ps : List Bytes) (sep : ℕ) → ps ≢ [] → join ([] ∷ ps) sep ≡ sep ∷ join ps sep
unfolding join
join-nil_cons [] sep h = absurd (h refl)
join-nil_cons (p ∷ ps) sep h = refl

pub join-split : (s : Bytes) (sep : ℕ) → join (split s sep) sep ≡ s
join-split [] sep = unfold split join in refl
join-split (c ∷ s) sep = elim (Bool-cases (c == sep)) [
  | inl e ↦
      let same : c ≡ sep = ground arith in
      rw (same, split-cons_eq sep s, join-nil_cons _ sep (split-ne-nil s sep), join-split s sep)
  | inr e ↦
      rw
        (split-cons_ne c sep s (ground arith), join-onto_head c (split s sep) sep, join-split s sep)
]

All-onto_head :
    (c sep : ℕ) (ps : List Bytes) → c ≢ sep → All (Lacks sep) ps → All (Lacks sep) (onto_head c ps)
All-onto_head c sep [] h ps = ((h, tt), tt)
All-onto_head c sep (p ∷ ps) h (hp, hps) = ((h, hp), hps)

-- No part of a split holds the separator.
pub All-split : (s : Bytes) (sep : ℕ) → All (Lacks sep) (split s sep)
All-split [] sep = unfold split in (tt, tt)
All-split (c ∷ s) sep = elim (Bool-cases (c == sep)) [
  | inl e ↦
      let same : c ≡ sep = ground arith in rw (same, split-cons_eq sep s) (tt, All-split s sep)
  | inr e ↦
      let differ : c ≢ sep = ground arith in
      rw (split-cons_ne c sep s differ) (All-onto_head c sep (split s sep) differ (All-split s sep))
]

-- Where the separator first stands is determined by the text.
pub append_separator_inj :
    (p q s t : Bytes) (sep : ℕ)
    → Lacks sep p
    → Lacks sep q
    → p ++ sep ∷ s ≡ q ++ sep ∷ t
    → (p ≡ q) × (s ≡ t)
append_separator_inj [] [] s t sep hp hq e = (refl, cc)
append_separator_inj [] (b ∷ q) s t sep hp (hb, hq) e = absurd (hb (cc))
append_separator_inj (a ∷ p) [] s t sep (ha, hp) hq e = absurd (ha (cc))
append_separator_inj (a ∷ p) (b ∷ q) s t sep (ha, hp) (hb, hq) e =
    let (same, rest) = append_separator_inj p q s t sep hp hq (cc) in (cc, rest)

-- A prefix test tells the text's beginning.
pub has_prefix_sound : (s p : Bytes) → has_prefix s p ≡ true → (rest : Bytes) × (s ≡ p ++ rest)
unfolding has_prefix
has_prefix_sound s [] h = (s, refl)
has_prefix_sound [] (b ∷ p) h = cc
has_prefix_sound (a ∷ s) (b ∷ p) h = elim (Bool-cases (a == b)) [
  | inl e ↦ let (rest, found) = has_prefix_sound s p (ground arith) in (rest, ground arith)
  | inr e ↦ absurd (ground arith)
]

pub has_prefix-append : (p s : Bytes) → has_prefix (p ++ s) p ≡ true
unfolding has_prefix
has_prefix-append [] s = refl
has_prefix-append (c ∷ p) s = ground (arith, has_prefix-append p s)

pub count : ℕ → Bytes → ℕ
count b [] = 0
count b (c ∷ s) = (if c == b then 1 else 0) + count b s

pub count-nil : (b : ℕ) → count b [] ≡ 0
unfolding count
count-nil b = refl

pub count-append : (b : ℕ) (s t : Bytes) → count b (s ++ t) ≡ count b s + count b t
unfolding count
count-append b [] t = omega arith
count-append b (c ∷ s) t = omega (arith, count-append b s t)

pub count-cons_self : (b : ℕ) (s : Bytes) → count b (b ∷ s) ≡ suc (count b s)
unfolding count
count-cons_self b s = ground arith

pub count-Lacks : (b : ℕ) (s : Bytes) → Lacks b s → count b s ≡ 0
unfolding count
count-Lacks b [] h = refl
count-Lacks b (c ∷ s) (h, hs) = ground (arith, count-Lacks b s hs)

surplus : (q s t : Bytes) (b : ℕ) → count b s ≡ count b t → s ≡ q ++ b ∷ t → ⊥
surplus q s t b h e = omega (arith, ap (count b) e, count-append b q (b ∷ t), count-cons_self b t)

-- What stands behind a separator is determined by how many separators it holds.
pub append_counted_inj :
    (p q s t : Bytes) (b : ℕ) → count b s ≡ count b t → p ++ b ∷ s ≡ q ++ b ∷ t → (p ≡ q) × (s ≡ t)
append_counted_inj [] [] s t b h e = (refl, cc)
append_counted_inj [] (c ∷ q) s t b h e = absurd (surplus q s t b h (cc))
append_counted_inj (c ∷ p) [] s t b h e = absurd (surplus p t s b (sym h) (cc))
append_counted_inj (c ∷ p) (d ∷ q) s t b h e =
    let (same, rest) = append_counted_inj p q s t b h (cc) in (cc, rest)

pub append_length_inj :
    (p q s t : Bytes) → length s ≡ length t → p ++ s ≡ q ++ t → (p ≡ q) × (s ≡ t)
append_length_inj [] [] s t h e = (refl, e)
append_length_inj [] (c ∷ q) s t h e = absurd (omega (arith, ap length e, length-append q t))
append_length_inj (c ∷ p) [] s t h e = absurd (omega (arith, ap length e, length-append p s))
append_length_inj (c ∷ p) (d ∷ q) s t h e =
    let (same, rest) = append_length_inj p q s t h (cc) in (cc, rest)
