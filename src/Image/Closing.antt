-- ===== src/Image/Closing.antt =====
-- internal/image/verified.go: `Close` of a held source. What closing a descriptor gives is a parameter.
use diskforge.Base.{ℕ, ◌≡◌, refl, Option, none, some, List, [], ◌∷◌, inl, inr, Option-cases, arith}
use diskforge.Errors.{Result, ok}
use diskforge.Image.Model.{Verified}

-- The result, what the source is afterwards, and the descriptors closed.
unfoldable pub close :
    (ℕ → Result (Unit {0})) → Option Verified → Result (Unit {0}) × Option Verified × List ℕ
close closing none = (ok tt, none, [])
close closing (some v) = elim v.file [
  | none ↦ (ok tt, some v, [])
  | some descriptor ↦ (closing descriptor, some (record v { file = none }), descriptor ∷ [])
]

-- A source closed once is not closed again, whether or not its closing failed: the second call succeeds,
-- changes nothing and closes no descriptor.
pub close-close :
    (closing closing_again : ℕ → Result (Unit {0})) (v : Option Verified)
    → close closing_again (close closing v).1 ≡ (ok tt, (close closing v).1, [])
unfolding close
close-close closing closing_again none = refl
close-close closing closing_again (some v) = elim (Option-cases v.file) [
  | inl n ↦ ground arith
  | inr (d, n) ↦ ground arith
]
