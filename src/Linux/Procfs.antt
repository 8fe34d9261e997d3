-- ===== src/Linux/Procfs.antt =====
-- internal/linux/observer.go: the parsing of mountinfo, swaps and meminfo.
pub mod Escape
pub mod Mountinfo
pub mod Meminfo
use diskforge.Base.{
  ℕ, zero, suc, ◌+◌, ◌*◌, Bool, true, false, ◌&&◌, ◌||◌, Option, none, some, List, [], ◌∷◌, Bytes,
  String, codes, ltb, leb, ◌==◌, length, get_elem?, bytes_eq, if◌then◌else◌,
}
use diskforge.Base.Int.{ℤ, pos, negsuc, wrap64}
use diskforge.Errors.{
  Error, Result, ok, err, sentinel, wrapped, format, text, refuse_if, ◌>>=◌, ◌>>◌,
  linux_invalid_procfs,
}
use diskforge.Go.Strings.{split}
use diskforge.Go.FilePath.{join_path}
use diskforge.Go.Fields.{fields}
use diskforge.Go.Numbers.{parse_int}
use diskforge.Go.Slices.{contains, index}
use diskforge.Linux.Files.{Files, Observer}

pub record MountRecord : Type 0 where
  pub device : Bytes
  pub mountpoint : Bytes
  pub filesystem : Bytes
  pub read_only : Bool

pub record SwapRecord : Type 0 where
  pub source : Bytes
  pub kind : Bytes

-- The byte that three digits behind a backslash stand for.
unfoldable pub escaped_byte : ℕ → ℕ → ℕ → Option ℕ
escaped_byte a b c =
    if a == b'0' && (b == b'4' && c == b'0')
    then some 32
    else if a == b'0' && (b == b'1' && c == b'1')
    then some 9
    else if a == b'0' && (b == b'1' && c == b'2')
    then some 10
    else if a == b'1' && (b == b'3' && c == b'4')
    then some 92
    else none

-- The replacer's four pairs; at a place at most one of them fits.
unfoldable pub unescape_mount : Bytes → Bytes
unfolding escaped_byte
unescape_mount [] = []
unescape_mount (c ∷ []) = c ∷ []
unescape_mount (c ∷ d ∷ []) = c ∷ d ∷ []
unescape_mount (c ∷ d ∷ e ∷ []) = c ∷ d ∷ e ∷ []
unescape_mount (c ∷ d ∷ e ∷ f ∷ s) =
    let kept = unescape_mount (d ∷ e ∷ f ∷ s) in
    let behind = unescape_mount s in
    if c == 92
    then elim (escaped_byte d e f) [ some b ↦ b ∷ behind | none ↦ c ∷ kept ]
    else c ∷ kept

unfoldable pub contains_option : Bytes → Bytes → Bool
unfolding split contains
contains_option options expected = contains expected (split options b',')

-- `fields[i]` where a guard keeps `i` in range.
abbrev pub field_at : List Bytes → ℕ → Bytes
field_at fs i = elim (get_elem? fs i) [ some f ↦ f | none ↦ [] ]

abbrev pub mount_line_error : Bytes → Error
mount_line_error line =
    wrapped (format "%w: mountinfo line %q" (text line ∷ [])) (sentinel linux_invalid_procfs)

-- From the fields on.
unfoldable pub mount_of_fields : Bytes → List Bytes → Result MountRecord
mount_of_fields line fs = elim (index fs (codes "-")) [
  | none ↦ err (mount_line_error line)
  | some separator ↦
      if ltb (length fs) 6 || leb (length fs) (separator + 3)
      then err (mount_line_error line)
      else ok (record {
        device = field_at fs 2;
        mountpoint = unescape_mount (field_at fs 4);
        filesystem = field_at fs (separator + 1);
        read_only =
            contains_option (field_at fs 5) (codes "ro")
            || contains_option (field_at fs (separator + 3)) (codes "ro");
      })
]

unfoldable pub parse_mount_record : Bytes → Result MountRecord
unfolding mount_of_fields
parse_mount_record line = mount_of_fields line (fields line)

module _ {A : Type 0} where
  -- The loop over a scanner's lines, each parsed in turn.
  unfoldable pub parse_lines : (Bytes → Result A) → List Bytes → Result (List A)
  parse_lines parse [] = ok []
  parse_lines parse (line ∷ lines) = do
    first ← parse line
    rest ← parse_lines parse lines
    ok (first ∷ rest)

  -- `if err := scanner.Err(); err != nil`, behind the loop.
  abbrev pub scanned : String → Option Error → A → Result A
  scanned message none a = ok a
  scanned message (some e) a = err (wrapped (format message []) e)

-- `os.Open` and its error's text.
abbrev pub open_lines : Files → String → Bytes → Result (List Bytes × Option Error)
open_lines files message path = elim (files.scan path) [
  | ok lines ↦ ok lines
  | err e ↦ err (wrapped (format message []) e)
]

unfoldable pub mounts : Observer → Result (List MountRecord)
unfolding parse_mount_record parse_lines
mounts observer = do
  opened ←
      open_lines observer.files "open mountinfo: %w"
        (join_path (observer.proc_root ∷ codes "self" ∷ codes "mountinfo" ∷ []))
  records ← parse_lines parse_mount_record opened.0
  scanned "scan mountinfo: %w" opened.1 records

unfoldable pub parse_swap_record : Bytes → Result SwapRecord
parse_swap_record line = do
  refuse_if (ltb (length (fields line)) 2)
      (wrapped (format "%w: swaps line %q" (text line ∷ [])) (sentinel linux_invalid_procfs))
  ok (record {
    source = unescape_mount (field_at (fields line) 0);
    kind = field_at (fields line) 1;
  })

-- The first line is the table's head.
abbrev pub without_head : List Bytes → List Bytes
without_head [] = []
without_head (head ∷ lines) = lines

unfoldable pub read_swap_records : Observer → Result (List SwapRecord)
unfolding parse_swap_record parse_lines
read_swap_records observer = do
  opened ←
      open_lines observer.files "open swaps: %w"
        (join_path (observer.proc_root ∷ codes "swaps" ∷ []))
  records ← parse_lines parse_swap_record (without_head opened.0)
  scanned "scan swaps: %w" opened.1 records

-- `kilobytes * kilobyteBytes` wraps around as an int64 does.
unfoldable pub memory_bytes : Option ℤ → Result ℤ
memory_bytes none = err (wrapped (format "%w: MemAvailable" []) (sentinel linux_invalid_procfs))
memory_bytes (some (negsuc n)) =
    err (wrapped (format "%w: MemAvailable" []) (sentinel linux_invalid_procfs))
memory_bytes (some (pos kilobytes)) = ok (wrap64 (kilobytes * 1024))

unfoldable pub is_available_line : List Bytes → Bool
is_available_line fs =
    length fs == 3
    && (bytes_eq (field_at fs 0) (codes "MemAvailable:") && bytes_eq (field_at fs 2) (codes "kB"))

-- The loop over the lines, and what comes behind it.
unfoldable pub available_from : List Bytes → Option Error → Result ℤ
unfolding is_available_line memory_bytes parse_int
available_from [] none =
    err (wrapped (format "%w: MemAvailable is absent" []) (sentinel linux_invalid_procfs))
available_from [] (some e) = err (wrapped (format "scan meminfo: %w" []) e)
available_from (line ∷ lines) failure =
    let rest = available_from lines failure in
    if is_available_line (fields line)
    then memory_bytes (parse_int (field_at (fields line) 1))
    else rest

unfoldable pub memory_available_bytes : Observer → Result ℤ
unfolding available_from
memory_available_bytes observer = do
  opened ←
      open_lines observer.files "open meminfo: %w"
        (join_path (observer.proc_root ∷ codes "meminfo" ∷ []))
  available_from opened.0 opened.1
