-- ===== src/Go/Strings.antt =====
-- Package `strings`, and indexing: `s[i]` behind a bounds guard.
pub mod Laws
use diskforge.Base.{
  ℕ, ◌≤◌, Bool, true, false, ◌&&◌, Option, none, some, List, [], ◌∷◌, ◌++◌, Bytes, get_elem?, ◌==◌,
  leb, ltb, ◌+◌, if◌then◌else◌, length, drop,
}

-- `p(s[i])` where a guard before it keeps `i` in range; out of range it is false.
unfoldable pub test_at : (ℕ → Bool) → Bytes → ℕ → Bool
test_at p [] i = false
test_at p (c ∷ s) ℕ.zero = p c
test_at p (c ∷ s) (ℕ.suc i) = test_at p s i

abbrev pub is_empty : Bytes → Bool
is_empty [] = true
is_empty (c ∷ s) = false

-- `strings.HasPrefix`
unfoldable pub has_prefix : Bytes → Bytes → Bool
has_prefix s [] = true
has_prefix [] (b ∷ p) = false
has_prefix (a ∷ s) (b ∷ p) = a == b && has_prefix s p

-- `strings.TrimPrefix`
unfoldable pub trim_prefix : Bytes → Bytes → Bytes
unfolding has_prefix
trim_prefix s p = if has_prefix s p then drop (length p) s else s

abbrev pub onto_head : ℕ → List Bytes → List Bytes
onto_head c [] = (c ∷ []) ∷ []
onto_head c (p ∷ ps) = (c ∷ p) ∷ ps

-- `strings.Split` at a separator of one byte; there is always a part.
unfoldable pub split : Bytes → ℕ → List Bytes
split [] sep = [] ∷ []
split (c ∷ s) sep = let rest = split s sep in if c == sep then [] ∷ rest else onto_head c rest

abbrev pub onto_first_of : ℕ → Option (Bytes × Bytes) → Option (Bytes × Bytes)
onto_first_of c none = none
onto_first_of c (some (before, after)) = some (c ∷ before, after)

-- `strings.Cut` at a separator of one byte; none where it is not found.
unfoldable pub cut : Bytes → ℕ → Option (Bytes × Bytes)
cut [] sep = none
cut (c ∷ s) sep = let rest = cut s sep in if c == sep then some ([], s) else onto_first_of c rest

-- `strings.Join` with a separator of one byte
unfoldable pub join : List Bytes → ℕ → Bytes
join [] sep = []
join (p ∷ []) sep = p
join (p ∷ q ∷ ps) sep = p ++ sep ∷ join (q ∷ ps) sep

-- `strings.ToLower` on ASCII; a byte outside `A` to `Z` is kept.
unfoldable pub to_lower : Bytes → Bytes
to_lower [] = []
to_lower (c ∷ s) = (if leb b'A' c && leb c b'Z' then c + 32 else c) ∷ to_lower s
