-- ===== src/Linux/Procfs/Escape.antt =====
-- The names that the kernel escapes in mountinfo and swaps.
use diskforge.Base.{
  ℕ, ◌≡◌, refl, ap, ◌∙◌, false, [], ◌∷◌, ◌++◌, Bytes, codes, ◌==◌, arith, if◌then◌else◌,
}
use diskforge.Linux.Procfs.{unescape_mount, escaped_byte}

-- What the kernel writes for a byte of a name (proc(5)): space, tab, line feed and backslash become a
-- backslash and three octal digits.
unfoldable pub escape_byte : ℕ → Bytes
escape_byte c =
    if c == 32
    then codes "\\040"
    else if c == 9
    then codes "\\011"
    else if c == 10
    then codes "\\012"
    else if c == 92
    then codes "\\134"
    else c ∷ []

unfoldable pub escape_mount : Bytes → Bytes
unfolding escape_byte
escape_mount [] = []
escape_mount (c ∷ s) = escape_byte c ++ escape_mount s

unescape-kept :
    (c : ℕ) (s : Bytes) → c == 92 ≡ false → unescape_mount (c ∷ s) ≡ c ∷ unescape_mount s
unfolding unescape_mount
unescape-kept c [] h = refl
unescape-kept c (d ∷ []) h = refl
unescape-kept c (d ∷ e ∷ []) h = refl
unescape-kept c (d ∷ e ∷ f ∷ s) h = ground arith

unescape-coded :
    (s : Bytes)
    → (unescape_mount (codes "\\040" ++ s) ≡ 32 ∷ unescape_mount s)
      × (unescape_mount (codes "\\011" ++ s) ≡ 9 ∷ unescape_mount s)
      × (unescape_mount (codes "\\012" ++ s) ≡ 10 ∷ unescape_mount s)
      × (unescape_mount (codes "\\134" ++ s) ≡ 92 ∷ unescape_mount s)
unfolding unescape_mount escaped_byte
unescape-coded s = (refl, refl, refl, refl)

unescape-escape_byte :
    (c : ℕ) (s : Bytes) → unescape_mount (escape_byte c ++ s) ≡ c ∷ unescape_mount s
unfolding escape_byte
unescape-escape_byte c s =
    let (space, tab, feed, backslash) = unescape-coded s in ground (arith, unescape-kept c s)

-- Unescaping gives back every name that the kernel escaped, whatever its bytes.
pub unescape-escape : (s : Bytes) → unescape_mount (escape_mount s) ≡ s
unfolding escape_mount
unescape-escape [] = unfold unescape_mount in refl
unescape-escape (c ∷ s) =
    unescape-escape_byte c (escape_mount s) ∙ ap (λ t. c ∷ t) (unescape-escape s)
