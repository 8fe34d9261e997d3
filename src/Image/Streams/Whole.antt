-- ===== src/Image/Streams/Whole.antt =====
-- A limited copy that ends below its limit has taken the whole reader, up to its end.
use diskforge.Base.{
  ℕ, suc, ◌+◌, ◌-◌, ◌<◌, ◌≡◌, sym, ap, ◌∙◌, Option, none, List, [], ◌∷◌, ◌++◌, Bytes, length, arith,
  append-nil, append_assoc, length-append, length-take, take,
}
use diskforge.Errors.{Error}
use diskforge.Image.Streams.{Writer, copy_limited}
use diskforge.Image.Streams.Laws.{flat, step, stopped, skipped, cut, moved}

module _ (writer : Writer) (done : ℕ → Option Error) (finish : Option Error) where
  pub copy_whole :
      (index : ℕ) (content : Bytes) (remaining : ℕ) (pieces : List Bytes)
      → (copy_limited writer done finish index content remaining pieces).failure ≡ none
      → length (copy_limited writer done finish index content remaining pieces).content
        < length content + remaining
      → ((copy_limited writer done finish index content remaining pieces).content
          ≡ content ++ flat pieces)
        × (finish ≡ none)
  copy_whole index content remaining [] h b =
      unfold copy_limited in (ground (arith, append-nil content), ground arith)
  copy_whole index content remaining (p ∷ ps) h b =
      elim (step writer done finish index content remaining p ps h) [
        | stopped ze ce re ↦ absurd (let size = ap length ce in omega arith)
        | cut lt ce re ↦ absurd (
            let size = ap length ce ∙ length-append content (take remaining p) in
            omega (arith, length-take remaining p))
        | skipped pe ce ↦
            let whole = ap (λ c. c.content) ce in
            let (ih, ended) =
              copy_whole (suc index) content remaining ps (sym (ap (λ c. c.failure) ce) ∙ h)
                (let size = ap length whole in omega arith) in
            (whole ∙ ih ∙ ap (λ x. content ++ (x ++ flat ps)) (sym pe), ended)
        | moved x xe le fe ce re ↦
            let whole = ce ∙ ap (λ c. c.content) xe in
            let (ih, ended) =
              copy_whole (suc index) (content ++ p) (remaining - length p) ps
                (sym (ap (λ c. c.failure) xe) ∙ sym fe ∙ h)
                (let size = ap length whole in omega (arith, length-append content p)) in
            (whole ∙ ih ∙ append_assoc content p (flat ps), ended)
      ]
