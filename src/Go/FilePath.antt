-- ===== src/Go/FilePath.antt =====
-- Package `path/filepath` on Unix. `Clean` reads the path by its elements between slashes.
pub mod Laws
use mathlib.Core.List.{reverse}
use diskforge.Base.{
  ◌≡◌, refl, ℕ, Bool, true, false, ◌&&◌, ◌||◌, List, [], ◌∷◌, Bytes, codes, ◌==◌, bytes_eq,
  if◌then◌else◌,
}
use diskforge.Go.Strings.{is_empty, split, join, has_prefix}

abbrev pub slash : ℕ
slash = b'/'

unfoldable pub is_abs : Bytes → Bool
unfolding has_prefix
is_abs p = has_prefix p (codes "/")

-- `..` takes the last element away; at the root it does nothing, and it stays where none is left.
unfoldable pub pop_element : Bool → List Bytes → List Bytes
pop_element rooted [] = if rooted then [] else codes ".." ∷ []
pop_element rooted (e ∷ es) = if bytes_eq e (codes "..") then codes ".." ∷ e ∷ es else es

-- The elements read so far, the last one first.
unfoldable pub push_element : Bool → Bytes → List Bytes → List Bytes
unfolding pop_element
push_element rooted e es =
    if is_empty e || bytes_eq e (codes ".")
    then es
    else if bytes_eq e (codes "..")
    then pop_element rooted es
    else e ∷ es

unfoldable pub clean_elements : Bool → List Bytes → List Bytes → List Bytes
unfolding push_element
clean_elements rooted [] es = es
clean_elements rooted (e ∷ rest) es = clean_elements rooted rest (push_element rooted e es)

unfoldable pub spell : Bool → List Bytes → Bytes
unfolding join
spell true es = slash ∷ join es slash
spell false [] = codes "."
spell false (e ∷ es) = join (e ∷ es) slash

unfoldable pub clean : Bytes → Bytes
unfolding is_abs clean_elements spell split bytes_eq
clean p = spell (is_abs p) (reverse (clean_elements (is_abs p) (split p slash) []))

-- The last non-empty element, or `d`.
unfoldable pub last_element : Bytes → List Bytes → Bytes
last_element d [] = d
last_element d (e ∷ es) = last_element (if is_empty e then d else e) es

unfoldable pub base : Bytes → Bytes
unfolding last_element split
base p = if is_empty p then codes "." else last_element (codes "/") (split p slash)

-- The text up to its last slash, that one included.
unfoldable pub upto_slash : Bytes → Bytes
upto_slash [] = []
upto_slash (c ∷ s) =
    let rest = upto_slash s in
    if is_empty rest && (if c == slash then false else true) then [] else c ∷ rest

unfoldable pub dir : Bytes → Bytes
unfolding clean upto_slash
dir p = clean (upto_slash p)

unfoldable pub join_path : List Bytes → Bytes
unfolding clean join
join_path [] = []
join_path (e ∷ es) =
    let rest = join_path es in if is_empty e then rest else clean (join (e ∷ es) slash)

clean_examples :
    (clean (codes "/dev/../dev//sda/.") ≡ codes "/dev/sda")
    × (clean [] ≡ codes ".")
    × (clean (codes "../a/../..") ≡ codes "../..")
    × (clean (codes "/..") ≡ codes "/")
unfolding clean
clean_examples = (refl, refl, refl, refl)

base_examples :
    (base (codes "/dev/sda/") ≡ codes "sda")
    × (base (codes "//") ≡ codes "/")
    × (base [] ≡ codes ".")
unfolding base
base_examples = (refl, refl, refl)

dir_examples : (dir (codes "/dev/sda") ≡ codes "/dev") × (dir (codes "sda") ≡ codes ".")
unfolding dir
dir_examples = (refl, refl)
