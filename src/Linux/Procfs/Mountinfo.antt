-- ===== src/Linux/Procfs/Mountinfo.antt =====
-- A line of mountinfo as the kernel writes it (proc(5)), and what the program reads of it.
use diskforge.Base.{
  ℕ, suc, ◌+◌, ◌≤◌, ◌<◌, ◌≡◌, ◌≢◌, refl, ap, ◌∙◌, ◌||◌, some, List, [], ◌∷◌, ◌++◌, Bytes, codes,
  arith, All, All-append, length, length-append, get_elem?, bytes_eq_iff,
}
use diskforge.Errors.{ok}
use diskforge.Go.Strings.{join}
use diskforge.Go.Fields.Laws.{IsWord, fields-join}
use diskforge.Go.Slices.{index}
use diskforge.Linux.Procfs.{unescape_mount, contains_option, mount_of_fields, parse_mount_record}
use diskforge.Linux.Procfs.Escape.{escape_mount, unescape-escape}

-- The fields (1) to (11); the optional ones end at a single hyphen.
pub record MountLine : Type 0 where
  pub mount_id : Bytes
  pub parent_id : Bytes
  pub device : Bytes
  pub root : Bytes
  pub mountpoint : Bytes
  pub options : Bytes
  pub optional : List Bytes
  pub filesystem : Bytes
  pub source : Bytes
  pub super_options : Bytes

abbrev pub hyphen : Bytes
hyphen = codes "-"

-- The fields before the hyphen, and those from it on.
abbrev pub first_fields : MountLine → List Bytes
first_fields l =
    l.mount_id
    ∷ l.parent_id
    ∷ l.device
    ∷ l.root
    ∷ escape_mount l.mountpoint
    ∷ l.options
    ∷ l.optional

abbrev pub last_fields : MountLine → List Bytes
last_fields l = hyphen ∷ l.filesystem ∷ l.source ∷ l.super_options ∷ []

unfoldable pub print_mount_line : MountLine → Bytes
print_mount_line l = join (first_fields l ++ last_fields l) b' '

-- A line that the kernel writes: no field is empty or holds white space behind the escaping, and the
-- hyphen stands for itself alone.
pub record IsMountLine (l : MountLine) : Type 0 where
  pub first_words : All IsWord (first_fields l)
  pub last_words : All IsWord (last_fields l)
  pub one_hyphen : All (λ f. f ≢ hyphen) (first_fields l)

index-append :
    (xs ys : List Bytes) (x : Bytes)
    → All (λ f. f ≢ x) xs
    → index (xs ++ x ∷ ys) x ≡ some (length xs)
unfolding index
index-append [] ys x h = ground (arith, (bytes_eq_iff x x).1 refl)
index-append (f ∷ xs) ys x (n, h) = ground (arith, n, bytes_eq_iff f x, index-append xs ys x h)

get_elem?-append :
    (xs ys : List Bytes) (i : ℕ) → get_elem? (xs ++ ys) (length xs + i) ≡ get_elem? ys i
get_elem?-append [] ys i = let e : 0 + i ≡ i = omega arith in ap (get_elem? ys) e
get_elem?-append (x ∷ xs) ys i =
    let e : suc (length xs) + i ≡ suc (length xs + i) = omega arith in
    ap (get_elem? (x ∷ (xs ++ ys))) e ∙ get_elem?-append xs ys i

mount_of_found :
    (line : Bytes) (fs : List Bytes) (separator : ℕ)
    (device mountpoint options filesystem super : Bytes)
    → index fs hyphen ≡ some separator
    → 6 ≤ length fs
    → separator + 3 < length fs
    → get_elem? fs 2 ≡ some device
    → get_elem? fs 4 ≡ some mountpoint
    → get_elem? fs 5 ≡ some options
    → get_elem? fs (separator + 1) ≡ some filesystem
    → get_elem? fs (separator + 3) ≡ some super
    → mount_of_fields line fs
      ≡ ok (record {
        device = device;
        mountpoint = unescape_mount mountpoint;
        filesystem = filesystem;
        read_only = contains_option options (codes "ro") || contains_option super (codes "ro");
      })
unfolding mount_of_fields
mount_of_found line fs separator device mountpoint options filesystem super at size room d m o f s =
    ground arith

mount_of_printed :
    (line : Bytes) (l : MountLine)
    → IsMountLine l
    → mount_of_fields line (first_fields l ++ last_fields l)
      ≡ ok (record {
        device = l.device;
        mountpoint = l.mountpoint;
        filesystem = l.filesystem;
        read_only =
            contains_option l.options (codes "ro") || contains_option l.super_options (codes "ro");
      })
mount_of_printed line l h =
    let size = length-append (first_fields l) (last_fields l) in
    simp (unescape-escape l.mountpoint) at (
      mount_of_found line (first_fields l ++ last_fields l) (length (first_fields l)) l.device
        (escape_mount l.mountpoint) l.options l.filesystem l.super_options
        (index-append (first_fields l) (l.filesystem ∷ l.source ∷ l.super_options ∷ []) hyphen
          h.one_hyphen)
        (ground arith) (ground (arith, size)) refl refl refl
        (get_elem?-append (first_fields l) (last_fields l) 1)
        (get_elem?-append (first_fields l) (last_fields l) 3))

-- The program reads of a line the device, the mount point as it was before the escaping, the file
-- system, and whether the mount's options or the superblock's have `ro` among them.
pub parse-print_mount_line :
    (l : MountLine)
    → IsMountLine l
    → parse_mount_record (print_mount_line l)
      ≡ ok (record {
        device = l.device;
        mountpoint = l.mountpoint;
        filesystem = l.filesystem;
        read_only =
            contains_option l.options (codes "ro") || contains_option l.super_options (codes "ro");
      })
unfolding parse_mount_record print_mount_line
parse-print_mount_line l h =
    let whole =
      fields-join (first_fields l ++ last_fields l)
        (All-append IsWord (first_fields l) (last_fields l) h.first_words h.last_words) in
    simp whole (mount_of_printed _ l h)
