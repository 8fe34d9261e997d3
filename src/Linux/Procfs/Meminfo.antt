-- ===== src/Linux/Procfs/Meminfo.antt =====
-- The memory estimate, and the multiplication that wraps around.
use diskforge.Base.{
  ℕ, ◌*◌, ◌^◌, ◌<◌, ◌≡◌, ◌↔◌, refl, ap, false, Option, some, List, [], ◌∷◌, ◌++◌, Bytes, codes,
  arith, bytes_eq, All,
}
use diskforge.Base.Int.{pos, wrap64}
use diskforge.Errors.{Error, ok}
use diskforge.Linux.Procfs.{memory_bytes, available_from, is_available_line}
use diskforge.Go.Fields.{fields}
use diskforge.Go.Decimal.{print}
use diskforge.Go.Numbers.Laws.{parse_int-print}

wrap64_exact : (n : ℕ) → (wrap64 n ≡ pos n) ↔ (n < 2 ^ 63)
wrap64_exact n = ground arith

memory_bytes_iff :
    (kilobytes : ℕ)
    → (memory_bytes (some (pos kilobytes)) ≡ ok (pos (kilobytes * 1024))) ↔ (kilobytes < 2 ^ 53)
unfolding memory_bytes
memory_bytes_iff kilobytes =
    let (a, b) = wrap64_exact (kilobytes * 1024) in
    (λ e. let k = a cc in omega arith, λ h. ap ok (b (omega arith)))

-- The lines before the estimate's own say nothing.
available_from-skips :
    (before : List Bytes) (line : Bytes) (behind : List Bytes) (failure : Option Error)
    → All (λ l. is_available_line (fields l) ≡ false) before
    → available_from (before ++ line ∷ behind) failure ≡ available_from (line ∷ behind) failure
unfolding available_from
available_from-skips [] line behind failure h = refl
available_from-skips (l ∷ before) line behind failure (h, hs) =
    ground (arith, h, available_from-skips before line behind failure hs)

available_from-line :
    (line : Bytes) (n : ℕ) (behind : List Bytes) (failure : Option Error)
    → fields line ≡ codes "MemAvailable:" ∷ print n ∷ codes "kB" ∷ []
    → n < 2 ^ 63
    → available_from (line ∷ behind) failure ≡ memory_bytes (some (pos n))
unfolding available_from is_available_line bytes_eq
available_from-line line n behind failure e h = rw (e, parse_int-print n h) refl

-- Where the first line that states the available memory says `n` kB, the bytes reported are n times
-- 1024 exactly if n is below 2^53; above that the product wraps around.
pub memory_exact_iff :
    (before : List Bytes) (line : Bytes) (n : ℕ) (behind : List Bytes) (failure : Option Error)
    → All (λ l. is_available_line (fields l) ≡ false) before
    → fields line ≡ codes "MemAvailable:" ∷ print n ∷ codes "kB" ∷ []
    → n < 2 ^ 63
    → (available_from (before ++ line ∷ behind) failure ≡ ok (pos (n * 1024))) ↔ (n < 2 ^ 53)
memory_exact_iff before line n behind failure h e b =
    rw
      (
        available_from-skips before line behind failure h,
        available_from-line line n behind failure e b,
      )
      (memory_bytes_iff n)
