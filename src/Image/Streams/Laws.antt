-- ===== src/Image/Streams/Laws.antt =====
-- What a limited copy takes of its reader.
use diskforge.Base.{
  ℕ, suc, ◌-◌, ◌≤◌, ◌<◌, ◌≡◌, refl, sym, ap, ◌∙◌, inl, inr, true, false, Option, none, some, List,
  [], ◌∷◌, ◌++◌, Bytes, length, take, drop, arith, append-nil, append_assoc, length-append,
  length-take, take-append-drop, ltb, ◌==◌, Bool-cases, Option-cases,
}
use diskforge.Errors.{Error, ok, is, io_eof}
use diskforge.Go.Strings.{is_empty}
use diskforge.Image.Streams.{Writer, Copied, copy_limited, judge, read_extra, read_all}

-- All the bytes of a reader's pieces
abbrev pub flat : List Bytes → Bytes
flat [] = []
flat (p ∷ ps) = p ++ flat ps

-- The taken bytes are the first of the reader's, and the rest is still in it.
pub record Took (pieces : List Bytes) (content : Bytes) (remaining : ℕ) (copied : Copied)
    : Type 0 where
  pub taken : Bytes
  pub content_eq : copied.content ≡ content ++ taken
  pub bytes_eq : flat pieces ≡ taken ++ flat copied.rest
  pub bounded : length taken ≤ remaining

pub empty_eq : (p : Bytes) → is_empty p ≡ true → p ≡ []
empty_eq [] h = refl
empty_eq (c ∷ p) h = cc

take-length : (q : Bytes) → take (length q) q ≡ q
take-length [] = refl
take-length (c ∷ q) = ap (λ t. c ∷ t) (take-length q)

pub take_all : (n : ℕ) (q : Bytes) → length q ≤ n → take n q ≡ q
take_all ℕ.zero [] h = refl
take_all ℕ.zero (c ∷ q) h = absurd (omega arith)
take_all (suc n) [] h = refl
take_all (suc n) (c ∷ q) h = ap (λ t. c ∷ t) (take_all n q (omega arith))

pub judge-none : (q : Bytes) (a : ℕ × Option Error) → judge q a ≡ none → take a.0 q ≡ q
unfolding judge
judge-none q (n, f) h = let e : n ≡ length q = ground arith in ap (λ k. take k q) e ∙ take-length q

module _ (writer : Writer) (done : ℕ → Option Error) (finish : Option Error) where
  -- One step of a copy that ends well: it stops, skips an empty piece, cuts the last piece, or goes on.
  pub data Step (index : ℕ) (content : Bytes) (remaining : ℕ) (p : Bytes) (ps : List Bytes)
      (c : Copied) : Type 0 where
    stopped :
        remaining ≡ 0 → c.content ≡ content → c.rest ≡ p ∷ ps → Step index content remaining p ps c
    skipped :
        p ≡ []
        → c ≡ copy_limited writer done finish (suc index) content remaining ps
        → Step index content remaining p ps c
    cut :
        remaining < length p
        → c.content ≡ content ++ take remaining p
        → c.rest ≡ drop remaining p ∷ ps
        → Step index content remaining p ps c
    moved :
        (x : Copied)
        → x ≡ copy_limited writer done finish (suc index) (content ++ p) (remaining - length p) ps
        → length p ≤ remaining
        → c.failure ≡ x.failure
        → c.content ≡ x.content
        → c.rest ≡ x.rest
        → Step index content remaining p ps c

  pub step :
      (index : ℕ) (content : Bytes) (remaining : ℕ) (p : Bytes) (ps : List Bytes)
      → (copy_limited writer done finish index content remaining (p ∷ ps)).failure ≡ none
      → Step index content remaining p ps
          (copy_limited writer done finish index content remaining (p ∷ ps))
  unfolding copy_limited
  step index content remaining p ps h =
      let answer = writer.accept content (take remaining p) in
      elim (Bool-cases (remaining == 0)) [
        | inl z ↦ stopped (ground arith) (ground arith) (ground arith)
        | inr z ↦ elim (Option-cases (done index)) [
          | inr (e, d) ↦ absurd (ground arith)
          | inl d ↦ elim (Bool-cases (is_empty p)) [
            | inl e ↦ skipped (empty_eq p e) (ground arith)
            | inr e ↦ elim (Option-cases (judge (take remaining p) answer)) [
              | inr (f, j) ↦ absurd (ground arith)
              | inl j ↦
                  let k = judge-none (take remaining p) answer j in
                  elim (Bool-cases (ltb remaining (length p))) [
                    | inl l ↦ elim (Bool-cases (ltb 0 answer.0)) [
                      | inl a ↦ cut (ground arith) (ground (arith, k)) (ground arith)
                      | inr a ↦ cut (ground arith) (ground (arith, k)) (ground arith)
                    ]
                    | inr l ↦
                        let le : length p ≤ remaining = ground arith in
                        let m = k ∙ take_all remaining p le in
                        let x =
                          copy_limited writer done finish (suc index)
                            (content ++ take answer.0 (take remaining p)) (remaining - length p)
                            ps in
                        let xe =
                          ap
                            (λ t.
                              copy_limited writer done finish (suc index) (content ++ t)
                                (remaining - length p) ps)
                            m in
                        elim (Bool-cases (ltb 0 answer.0)) [
                          | inl a ↦ moved x xe le (ground arith) (ground arith) (ground arith)
                          | inr a ↦ moved x xe le (ground arith) (ground arith) (ground arith)
                        ]
                  ]
            ]
          ]
        ]
      ]

  pub copy_ok :
      (index : ℕ) (content : Bytes) (remaining : ℕ) (pieces : List Bytes)
      → (copy_limited writer done finish index content remaining pieces).failure ≡ none
      → Took pieces content remaining
          (copy_limited writer done finish index content remaining pieces)
  unfolding copy_limited
  copy_ok index content remaining [] h = record {
    taken = [];
    content_eq = ground (arith, append-nil content);
    bytes_eq = ground arith;
    bounded = omega arith;
  }
  copy_ok index content remaining (p ∷ ps) h = elim (step index content remaining p ps h) [
    | stopped ze ce re ↦ record {
      taken = [];
      content_eq = ce ∙ sym (append-nil content);
      bytes_eq = sym (ap flat re);
      bounded = omega arith;
    }
    | skipped pe ce ↦
        let ih = copy_ok (suc index) content remaining ps (sym (ap (λ c. c.failure) ce) ∙ h) in
        record {
          taken = ih.taken;
          content_eq = ap (λ c. c.content) ce ∙ ih.content_eq;
          bytes_eq =
              ap (λ x. x ++ flat ps) pe ∙ ih.bytes_eq ∙ ap (λ c. ih.taken ++ flat c.rest) (sym ce);
          bounded = ih.bounded;
        }
    | cut lt ce re ↦ record {
      taken = take remaining p;
      content_eq = ce;
      bytes_eq =
          ap (λ x. x ++ flat ps) (sym (take-append-drop remaining p))
          ∙ append_assoc (take remaining p) (drop remaining p) (flat ps)
          ∙ ap (λ r. take remaining p ++ flat r) (sym re);
      bounded = omega (arith, length-take remaining p);
    }
    | moved x xe le fe ce re ↦
        let ih =
          copy_ok (suc index) (content ++ p) (remaining - length p) ps
            (sym (ap (λ c. c.failure) xe) ∙ sym fe ∙ h) in
        record {
          taken = p ++ ih.taken;
          content_eq =
              ce ∙ ap (λ c. c.content) xe ∙ ih.content_eq ∙ append_assoc content p ih.taken;
          bytes_eq =
              ap (λ t. p ++ t) ih.bytes_eq
              ∙ sym (append_assoc p ih.taken _)
              ∙ ap (λ r. (p ++ ih.taken) ++ flat r) (sym (re ∙ ap (λ c. c.rest) xe));
          bounded = let b = ih.bounded in omega (arith, length-append p ih.taken);
        }
  ]

read_behind :
    (done : ℕ → Option Error) (finish : Option Error) (index : ℕ) (p : Bytes) (ps : List Bytes)
    {b : Bytes}
    → read_all done finish index (p ∷ ps) ≡ ok b
    → (rest : Bytes) × (read_all done finish (suc index) ps ≡ ok rest) × (b ≡ p ++ rest)
unfolding read_all
read_behind done finish index p ps h = ground arith

pub read_all_ok :
    (done : ℕ → Option Error) (finish : Option Error) (index : ℕ) (pieces : List Bytes) {b : Bytes}
    → read_all done finish index pieces ≡ ok b
    → b ≡ flat pieces
unfolding read_all
read_all_ok done finish index [] h = ground arith
read_all_ok done finish index (p ∷ ps) h =
    let (rest, e, f) = read_behind done finish index p ps h in
    f ∙ ap (λ t. p ++ t) (read_all_ok done finish (suc index) ps e)

pub read_all_ends :
    (done : ℕ → Option Error) (finish : Option Error) (index : ℕ) (pieces : List Bytes) {b : Bytes}
    → read_all done finish index pieces ≡ ok b
    → finish ≡ none
unfolding read_all
read_all_ends done finish index [] h = ground arith
read_all_ends done finish index (p ∷ ps) h =
    let (rest, e, f) = read_behind done finish index p ps h in
    read_all_ends done finish (suc index) ps e

-- Where no context error reads as the end of a file, a reader without a further byte is at its end.
pub read_extra_none :
    (done : ℕ → Option Error)
    → ((i : ℕ) (e : Error) → done i ≡ some e → is e io_eof ≡ false)
    → (finish : Option Error) (index : ℕ) (pieces : List Bytes) (failure : Option Error)
    → read_extra done finish index pieces ≡ (false, failure)
    → ((e : Error) → failure ≡ some e → is e io_eof ≡ true)
    → flat pieces ≡ []
unfolding read_extra
read_extra_none done k finish index [] failure h l = refl
read_extra_none done k finish index (p ∷ ps) failure h l = elim (Option-cases (done index)) [
  | inr (e, d) ↦ absurd (ground (arith, k index e d, l e (ground arith)))
  | inl d ↦ elim (Bool-cases (is_empty p)) [
    | inr e ↦ absurd (ground arith)
    | inl e ↦
        ap (λ t. t ++ flat ps) (empty_eq p e)
        ∙ read_extra_none done k finish (suc index) ps failure (ground arith) l
  ]
]
