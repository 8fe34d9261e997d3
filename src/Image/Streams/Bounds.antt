-- ===== src/Image/Streams/Bounds.antt =====
-- What a limited copy may have left in the destination and reported, however it ends.
use diskforge.Base.{
  ℕ, suc, ◌+◌, ◌-◌, ◌≤◌, ◌<◌, ◌≡◌, refl, sym, ap, ◌∙◌, ◌⊎◌, inl, inr, Option, none, List, [], ◌∷◌,
  ◌++◌, Bytes, length, take, drop, arith, append-nil, append_assoc, length-append, length-take,
  take-append-drop, ltb, ◌==◌, Bool-cases, Option-cases,
}
use diskforge.Errors.{Error}
use diskforge.Go.Strings.{is_empty}
use diskforge.Image.Streams.{Writer, Copied, copy_limited, judge}
use diskforge.Image.Streams.Laws.{flat, empty_eq, take_all, judge-none}

judge-length : (q : Bytes) (a : ℕ × Option Error) → judge q a ≡ none → a.0 ≡ length q
unfolding judge
judge-length q (n, f) h = ground arith

-- `io.Writer`: a write takes no more than it was given.
abbrev pub IsLawful : Writer → Type 0
IsLawful writer = (content q : Bytes) → (writer.accept content q).0 ≤ length q

-- Counts that rise from above `low` up to `high`
abbrev pub IsRising : ℕ → ℕ → List ℕ → Type 0
IsRising low high [] = Unit
IsRising low high (n ∷ ns) = (low < n) × (n ≤ high) × IsRising n high ns

pub record Kept (pieces : List Bytes) (content : Bytes) (remaining : ℕ) (copied : Copied)
    : Type 0 where
  pub taken : Bytes
  pub left : Bytes
  pub content_eq : copied.content ≡ content ++ taken
  pub bytes_eq : flat pieces ≡ taken ++ left
  pub bounded : length taken ≤ remaining
  pub rising : IsRising (length content) (length content + remaining) copied.reports

IsRising-ended :
    (low high k : ℕ) (reports : List ℕ)
    → low + k ≤ high
    → ((k ≡ 0) × (reports ≡ [])) ⊎ ((0 < k) × (reports ≡ (low + k) ∷ []))
    → IsRising low high reports
IsRising-ended low high k reports h (inl (z, e)) = rw e tt
IsRising-ended low high k reports h (inr (z, e)) = rw e (omega arith, h, tt)

IsRising-moved :
    (low high n : ℕ) (reports rest : List ℕ)
    → low + n ≤ high
    → IsRising (low + n) high rest
    → ((n ≡ 0) × (reports ≡ rest)) ⊎ ((0 < n) × (reports ≡ (low + n) ∷ rest))
    → IsRising low high reports
IsRising-moved low high n reports rest h r (inl (z, e)) =
    let m : low + n ≡ low = omega arith in rw e (rw m at r)
IsRising-moved low high n reports rest h r (inr (z, e)) = rw e (omega arith, h, r)

pub IsRising-shift :
    (low low' high high' : ℕ) (ns ms : List ℕ)
    → low ≡ low'
    → high ≡ high'
    → ns ≡ ms
    → IsRising low high ns
    → IsRising low' high' ms
IsRising-shift low low' high high' ns ms a b c h = rw (sym a, sym b, sym c) h

prefix_eq :
    (k n : ℕ) (p s : Bytes) → p ++ s ≡ take k (take n p) ++ (drop k (take n p) ++ (drop n p ++ s))
prefix_eq k n p s =
    ap (λ t. t ++ s) (sym (take-append-drop n p))
    ∙ append_assoc (take n p) (drop n p) s
    ∙ ap (λ t. t ++ (drop n p ++ s)) (sym (take-append-drop k (take n p)))
    ∙ append_assoc (take k (take n p)) (drop k (take n p)) (drop n p ++ s)

module _ (writer : Writer) (lawful : IsLawful writer) (done : ℕ → Option Error)
    (finish : Option Error) where
  -- One step of a copy: it stops, skips an empty piece, ends within a piece, or goes on behind it.
  data Step (index : ℕ) (content : Bytes) (remaining : ℕ) (p : Bytes) (ps : List Bytes) (c : Copied)
      : Type 0 where
    stopped : c.content ≡ content → c.reports ≡ [] → Step index content remaining p ps c
    skipped :
        p ≡ []
        → c ≡ copy_limited writer done finish (suc index) content remaining ps
        → Step index content remaining p ps c
    ended :
        (k : ℕ)
        → k ≤ length (take remaining p)
        → c.content ≡ content ++ take k (take remaining p)
        → ((k ≡ 0) × (c.reports ≡ [])) ⊎ ((0 < k) × (c.reports ≡ (length content + k) ∷ []))
        → Step index content remaining p ps c
    moved :
        (x : Copied)
        → x ≡ copy_limited writer done finish (suc index) (content ++ p) (remaining - length p) ps
        → length p ≤ remaining
        → c.content ≡ x.content
        → ((length p ≡ 0) × (c.reports ≡ x.reports))
          ⊎ ((0 < length p) × (c.reports ≡ (length content + length p) ∷ x.reports))
        → Step index content remaining p ps c

  step :
      (index : ℕ) (content : Bytes) (remaining : ℕ) (p : Bytes) (ps : List Bytes)
      → Step index content remaining p ps
          (copy_limited writer done finish index content remaining (p ∷ ps))
  unfolding copy_limited
  step index content remaining p ps =
      let answer = writer.accept content (take remaining p) in
      let law = lawful content (take remaining p) in
      elim (Bool-cases (remaining == 0)) [
        | inl z ↦ stopped (ground arith) (ground arith)
        | inr z ↦ elim (Option-cases (done index)) [
          | inr (e, d) ↦ stopped (ground arith) (ground arith)
          | inl d ↦ elim (Bool-cases (is_empty p)) [
            | inl e ↦ skipped (empty_eq p e) (ground arith)
            | inr e ↦ elim (Option-cases (judge (take remaining p) answer)) [
              | inr (f, j) ↦ elim (Bool-cases (ltb 0 answer.0)) [
                | inl a ↦ ended answer.0 law (ground arith) (inr (ground arith, ground arith))
                | inr a ↦ ended answer.0 law (ground arith) (inl (ground arith, ground arith))
              ]
              | inl j ↦
                  let k = judge-none (take remaining p) answer j in
                  let n = judge-length (take remaining p) answer j in
                  elim (Bool-cases (ltb remaining (length p))) [
                    | inl l ↦ elim (Bool-cases (ltb 0 answer.0)) [
                      | inl a ↦ ended answer.0 law (ground arith) (inr (ground arith, ground arith))
                      | inr a ↦ ended answer.0 law (ground arith) (inl (ground arith, ground arith))
                    ]
                    | inr l ↦
                        let le : length p ≤ remaining = ground arith in
                        let whole = take_all remaining p le in
                        let m = k ∙ whole in
                        let np : answer.0 ≡ length p = n ∙ ap length whole in
                        let x =
                          copy_limited writer done finish (suc index)
                            (content ++ take answer.0 (take remaining p)) (remaining - length p)
                            ps in
                        let xe =
                          ap
                            (λ t.
                              copy_limited writer done finish (suc index) (content ++ t)
                                (remaining - length p) ps)
                            m in
                        elim (Bool-cases (ltb 0 answer.0)) [
                          | inl a ↦ moved x xe le (ground arith) (inr (ground arith, ground arith))
                          | inr a ↦ moved x xe le (ground arith) (inl (ground arith, ground arith))
                        ]
                  ]
            ]
          ]
        ]
      ]

  pub copy-Kept :
      (index : ℕ) (content : Bytes) (remaining : ℕ) (pieces : List Bytes)
      → Kept pieces content remaining
          (copy_limited writer done finish index content remaining pieces)
  unfolding copy_limited
  copy-Kept index content remaining [] = record {
    taken = [];
    left = [];
    content_eq = ground (arith, append-nil content);
    bytes_eq = refl;
    bounded = omega arith;
    rising = ground arith;
  }
  copy-Kept index content remaining (p ∷ ps) = elim (step index content remaining p ps) [
    | stopped ce re ↦ record {
      taken = [];
      left = flat (p ∷ ps);
      content_eq = ce ∙ sym (append-nil content);
      bytes_eq = refl;
      bounded = omega arith;
      rising = rw re tt;
    }
    | skipped pe ce ↦
        let ih = copy-Kept (suc index) content remaining ps in
        record {
          taken = ih.taken;
          left = ih.left;
          content_eq = ap (λ c. c.content) ce ∙ ih.content_eq;
          bytes_eq = ap (λ x. x ++ flat ps) pe ∙ ih.bytes_eq;
          bounded = ih.bounded;
          rising = rw ce ih.rising;
        }
    | ended k le ce re ↦ record {
      taken = take k (take remaining p);
      left = drop k (take remaining p) ++ (drop remaining p ++ flat ps);
      content_eq = ce;
      bytes_eq = prefix_eq k remaining p (flat ps);
      bounded = omega (arith, length-take k (take remaining p), length-take remaining p);
      rising =
          IsRising-ended (length content) (length content + remaining) k _
            (omega (arith, length-take remaining p)) re;
    }
    | moved x xe le ce re ↦
        let ih = copy-Kept (suc index) (content ++ p) (remaining - length p) ps in
        record {
          taken = p ++ ih.taken;
          left = ih.left;
          content_eq =
              ce ∙ ap (λ c. c.content) xe ∙ ih.content_eq ∙ append_assoc content p ih.taken;
          bytes_eq = ap (λ t. p ++ t) ih.bytes_eq ∙ sym (append_assoc p ih.taken ih.left);
          bounded = let b = ih.bounded in omega (arith, length-append p ih.taken);
          rising =
              IsRising-moved (length content) (length content + remaining) (length p) _ x.reports
                (omega arith)
                (IsRising-shift (length (content ++ p)) (length content + length p)
                  (length (content ++ p) + (remaining - length p)) (length content + remaining) _
                  x.reports (length-append content p) (omega (arith, length-append content p))
                  (ap (λ c. c.reports) (sym xe)) ih.rising)
                re;
        }
  ]
