-- ===== src/Linux/Sysfs.antt =====
-- internal/linux/observer.go: block devices and their relations in sysfs.
pub mod Rules
pub mod Depth
pub mod Relations
use diskforge.Base.{
  ℕ, zero, suc, ◌+◌, Bool, true, false, not, Option, none, some, List, [], ◌∷◌, Bytes, codes,
  length, if◌then◌else◌,
}
use diskforge.Errors.{
  Error, Result, ok, err, sentinel, wrapped, format, text, is, ◌>>=◌, linux_unresolved_device,
  os_not_exist,
}
use diskforge.Go.FilePath.{join_path}
use diskforge.Go.Fields.{trim_space}
use diskforge.Go.Slices.{contains}
use diskforge.Go.Sort.{sort}
use diskforge.Linux.Files.{Files, FileInfo, Observer}

abbrev pub partition_file : Bytes
partition_file = codes "partition"

abbrev pub slaves_directory : Bytes
slaves_directory = codes "slaves"

-- `_, err := os.Stat(path); err == nil`
abbrev pub exists : Files → Bytes → Bool
exists files path = elim (files.stat path) [ ok info ↦ true | err e ↦ false ]

unfoldable pub read_trimmed : Files → Bytes → Result Bytes
read_trimmed files path = elim (files.read_file path) [
  | ok content ↦ ok (trim_space content)
  | err e ↦ err (wrapped (format "read kernel state %q: %w" (text path ∷ [])) e)
]

unfoldable pub sorted_entries : Files → Bytes → Result (List Bytes)
sorted_entries files path = elim (files.read_dir path) [
  | ok directory ↦ ok (sort directory)
  | err e ↦
      if is e os_not_exist
      then ok []
      else err (wrapped (format "read block relations %q: %w" (text path ∷ [])) e)
]

-- The names whose marker file is there, in the directory's order.
unfoldable pub with_marker : Files → Bytes → List Bytes → List Bytes
with_marker files path [] = []
with_marker files path (child ∷ children) =
    let rest = with_marker files path children in
    if exists files (join_path (path ∷ child ∷ partition_file ∷ [])) then child ∷ rest else rest

unfoldable pub partition_children : Files → Bytes → Result (List Bytes)
unfolding with_marker
partition_children files path = elim (files.read_dir path) [
  | ok children ↦ ok (with_marker files path children)
  | err e ↦ err (wrapped (format "read block children %q: %w" (text path ∷ [])) e)
]

-- What a walk leaves: the names seen, an error, or more calls to make than its fuel.
pub data Walk : Type 0 where
  walked : List Bytes → Walk
  failed : Error → Walk
  out_of_fuel : Walk

abbrev pub after : Walk → (List Bytes → Walk) → Walk
after (walked seen) next = next seen
after (failed e) next = failed e
after out_of_fuel next = out_of_fuel

module _ {A : Type 0} where
  -- `if err != nil { return err }` inside a walk
  abbrev pub given : Result A → (A → Walk) → Walk
  given (ok a) next = next a
  given (err e) next = failed e

-- The walks that the walk of one name makes.
abbrev pub Visit : Type 0
Visit = Bytes → List Bytes → Walk

unfoldable pub visit_all : Visit → List Bytes → List Bytes → Walk
visit_all visit [] seen = walked seen
visit_all visit (name ∷ names) seen = after (visit name seen) (visit_all visit names)

module _ (observer : Observer) where
  unfoldable pub block_root : Bytes
  block_root = join_path (observer.sys_root ∷ codes "class" ∷ codes "block" ∷ [])

  unfoldable pub top_level_names : Result (List Bytes)
  unfolding block_root
  top_level_names = elim (observer.files.read_dir block_root) [
    | ok entries ↦ ok (sort entries)
    | err e ↦ err (wrapped (format "read sysfs block directory: %w" []) e)
  ]

  -- The loop of `blockPath`.
  unfoldable pub nested_path : Bytes → List Bytes → Result Bytes
  unfolding block_root
  nested_path name [] = err (
      wrapped (format "%w: %q is absent from sysfs" (text name ∷ []))
        (sentinel linux_unresolved_device))
  nested_path name (parent ∷ parents) =
      let rest = nested_path name parents in
      let candidate = join_path (block_root ∷ parent ∷ name ∷ []) in
      if exists observer.files candidate then ok candidate else rest

  unfoldable pub block_path : Bytes → Result Bytes
  unfolding block_root top_level_names nested_path
  block_path name =
      let direct = join_path (block_root ∷ name ∷ []) in
      if exists observer.files direct
      then ok direct
      else top_level_names >>= λ parents. nested_path name parents

  -- The loop of `partitionParent`.
  unfoldable pub parent_among : Bytes → List Bytes → Option Bytes
  unfolding block_root
  parent_among name [] = none
  parent_among name (parent ∷ parents) =
      let rest = parent_among name parents in
      if exists observer.files (join_path (block_root ∷ parent ∷ name ∷ partition_file ∷ []))
      then some parent
      else rest

  unfoldable pub partition_parent : Bytes → Result (Option Bytes)
  unfolding top_level_names parent_among
  partition_parent name = top_level_names >>= λ parents. ok (parent_among name parents)

  abbrev pub visit_parent : Visit → Option Bytes → List Bytes → Walk
  visit_parent visit none seen = walked seen
  visit_parent visit (some parent) seen = visit parent seen

  -- Behind the slaves: the partitions of the name that the walk starts at.
  unfoldable pub walk_partitions : Visit → Bytes → Bool → List Bytes → Walk
  walk_partitions visit path include_partitions seen =
      if not include_partitions
      then walked seen
      else given (partition_children observer.files path)
          (λ partitions. visit_all visit partitions seen)

  -- The walk of a name that was not seen, which is now among the seen.
  unfoldable pub walk_name : Visit → Bytes → Bool → List Bytes → Walk
  walk_name visit name include_partitions seen = given (block_path name) (λ path.
      given (partition_parent name) (λ parent. after (visit_parent visit parent seen) (λ seen.
        given (sorted_entries observer.files (join_path (path ∷ slaves_directory ∷ []))) (λ slaves.
          after (visit_all visit slaves seen) (walk_partitions visit path include_partitions)))))

  -- `walkRelated`; the fuel bounds the depth of the calls.
  unfoldable pub walk_related : ℕ → Bytes → Bool → List Bytes → Walk
  unfolding walk_name
  walk_related zero name include_partitions seen = out_of_fuel
  walk_related (suc fuel) name include_partitions seen =
      let new =
        walk_name (λ other s. walk_related fuel other false s) name include_partitions
          (name ∷ seen) in
      if contains name seen then walked seen else new

  -- No walk is deeper than the tree has names.
  abbrev pub enough_fuel : ℕ
  enough_fuel = suc (suc (length observer.files.names))

  -- The walk always ends, so that the last case is not met.
  abbrev pub sorted_walk : Walk → Result (List Bytes)
  sorted_walk (walked seen) = ok (sort seen)
  sorted_walk (failed e) = err e
  sorted_walk out_of_fuel = err (sentinel linux_unresolved_device)

  unfoldable pub related : Bytes → Result (List Bytes)
  unfolding walk_related
  related start = sorted_walk (walk_related enough_fuel start true [])
