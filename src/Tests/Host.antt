-- ===== src/Tests/Host.antt =====
-- A small host: a whole disk `sda` with a partition, and `sdb`, which holds the root and a swap area;
-- the definitions of internal/linux over its files, and the theorems at them.
use diskforge.Base.{
  ◌≡◌, ◌≢◌, ◌↔◌, refl, Bool, true, false, Option, none, List, [], ◌∷◌, Bytes, codes, arith,
  bytes_eq, if◌then◌else◌, Any, ◌<◌, ◌^◌, ◌*◌, All,
}
use diskforge.Base.Int.{pos}
use diskforge.Errors.{Error, Result, ok, err, is, sentinel, os_not_exist}
use diskforge.Go.Decimal.{print}
use diskforge.Go.Strings.{has_prefix, split}
use diskforge.Go.FilePath.{base, clean, is_abs, join_path}
use diskforge.Go.Fields.{fields, trim_space}
use diskforge.Go.Numbers.{parse_int}
use diskforge.Go.Slices.{contains, index}
use diskforge.Go.Slices.Laws.{IsIn}
use diskforge.Go.Sort.{sort}
use diskforge.Policy.Model.{TargetIdentity, DeviceMap}
use diskforge.Base.{bytes_eq_iff, sym, all, leb, ltb, ◌&&◌}
use diskforge.Go.Fields.Laws.{IsPlain, IsWord}
use diskforge.Linux.Procfs.{contains_option, available_from, is_available_line}
use diskforge.Linux.Procfs.Escape.{escape_mount}
use diskforge.Linux.Procfs.Mountinfo.{
  MountLine, IsMountLine, hyphen, first_fields, last_fields, print_mount_line,
  parse-print_mount_line,
}
use diskforge.Linux.Procfs.Meminfo.{memory_exact_iff}
use diskforge.Linux.Sysfs.{walk_related, enough_fuel, out_of_fuel}
use diskforge.Linux.Sysfs.Depth.{IsFinite, walk_related_ends}
use diskforge.Linux.Sysfs.Relations.{IsRelated}
use diskforge.Linux.Sysfs.Relations.Collect.{related_iff}
use diskforge.Linux.Devices.Sizes.{IsTarget, target_ok}
use diskforge.Linux.Observer.Mounted.{
  IsActive, IsBelow, IsSwapBelow, mounted_devices_iff, swap_devices_iff,
}
use diskforge.Linux.Observer.Selected.{IsSource, source_ok}
use diskforge.Linux.Files.{FileInfo, Observer}
use diskforge.Linux.Procfs.{
  MountRecord, mounts, read_swap_records, parse_mount_record, unescape_mount,
}
use diskforge.Linux.Sysfs.{
  partition_parent, visit_all, walk_partitions, block_path, related, partition_children,
  sorted_entries, block_root, read_trimmed,
}
use diskforge.Linux.Devices.{target, name_by_device_number}
use diskforge.Linux.Observer.{mounted_devices, swap_devices, source, expand}

module _ {A : Type 0} where
  unfoldable pub found : List (Bytes × A) → Bytes → Result A
  unfolding bytes_eq
  found [] path = err (sentinel os_not_exist)
  found ((p, a) ∷ entries) path =
      let rest = found entries path in if bytes_eq p path then ok a else rest

abbrev pub directories : List (Bytes × List Bytes)
directories =
    (codes "/s/class/block", codes "sdb" ∷ codes "sda1" ∷ codes "sda" ∷ [])
    ∷ (codes "/s/class/block/sda", codes "size" ∷ codes "dev" ∷ codes "sda1" ∷ [])
    ∷ (codes "/s/class/block/sda1", codes "partition" ∷ [])
    ∷ (codes "/s/class/block/sdb", codes "dev" ∷ [])
    ∷ []

abbrev pub contents : List (Bytes × Bytes)
contents =
    (codes "/s/class/block/sda/size", codes "16\n")
    ∷ (codes "/s/class/block/sda/dev", codes "8:0\n")
    ∷ (codes "/s/class/block/sda/serial", codes "S1\n")
    ∷ (codes "/s/class/block/sda1/dev", codes "8:1\n")
    ∷ (codes "/s/class/block/sdb/dev", codes "8:16\n")
    ∷ []

abbrev pub stats : List (Bytes × FileInfo)
stats =
    (codes "/s/class/block/sda", record { size = pos 0; perm = 0 })
    ∷ (codes "/s/class/block/sda1", record { size = pos 0; perm = 0 })
    ∷ (codes "/s/class/block/sdb", record { size = pos 0; perm = 0 })
    ∷ (codes "/s/class/block/sda1/partition", record { size = pos 2; perm = 0 })
    ∷ (codes "/s/class/block/sda/sda1/partition", record { size = pos 2; perm = 0 })
    ∷ (codes "/a", record { size = pos 5; perm = 0 })
    ∷ []

abbrev pub scans : List (Bytes × (List Bytes × Option Error))
scans =
    (
      codes "/p/self/mountinfo",
      (codes "21 1 8:16 / / rw,noatime shared:1 - ext4 /dev/sdb rw" ∷ [], none),
    )
    ∷ (
      codes "/p/swaps",
      (codes "Filename Type Size Used Priority" ∷ codes "/dev/sdb partition 8 0 -2" ∷ [], none),
    )
    ∷ []

abbrev pub host : Observer
host = record {
  proc_root = codes "/p";
  sys_root = codes "/s";
  files = record {
    read_file = found contents;
    read_dir = found directories;
    stat = found stats;
    scan = found scans;
    names =
        codes "sda"
        ∷ codes "sda1"
        ∷ codes "sdb"
        ∷ codes "size"
        ∷ codes "dev"
        ∷ codes "partition"
        ∷ [];
  };
}

unfoldable run_related : Bytes → Result (List Bytes)
unfolding related found block_path partition_children sorted_entries block_root contains sort
    join_path clean partition_parent is visit_all walk_partitions read_trimmed trim_space
run_related = related host

related_run : run_related (codes "sda") ≡ ok (codes "sda" ∷ codes "sda1" ∷ [])
unfolding run_related
related_run = refl

unfoldable pub run_source : Bytes → Result (Bytes × List Bytes)
unfolding source run_related mounts parse_mount_record fields index split contains
    name_by_device_number has_prefix is_abs unescape_mount base
run_source = source host

source_run : run_source (codes "/a") ≡ ok (codes "ext4", codes "sdb" ∷ [])
unfolding run_source
source_run = refl

unfoldable pub run_mounted : Result DeviceMap
unfolding mounted_devices expand run_source
run_mounted = mounted_devices host

mounted_run : run_mounted ≡ ok ((codes "sdb", true) ∷ [])
unfolding run_mounted
mounted_run = refl

unfoldable pub run_swaps : Result DeviceMap
unfolding swap_devices expand read_swap_records run_source
run_swaps = swap_devices host

swaps_run : run_swaps ≡ ok ((codes "sdb", true) ∷ [])
unfolding run_swaps
swaps_run = refl

abbrev pub disk : TargetIdentity
disk = record {
  canonical_path = codes "/dev/sda";
  serial = codes "S1";
  wwn = [];
  size_bytes = pos 8192;
  kname = codes "sda";
  is_partition = false;
  descendants = codes "sda" ∷ codes "sda1" ∷ [];
}

unfoldable pub run_target : Bytes → Result TargetIdentity
unfolding target run_source parse_int
run_target = target host

target_run : run_target (codes "/dev/sda") ≡ ok disk
unfolding run_target
target_run = refl

abbrev root_mount : MountRecord
root_mount = record {
  device = codes "8:16";
  mountpoint = codes "/";
  filesystem = codes "ext4";
  read_only = false;
}

related_iff_example :
    IsIn (codes "sda1") (codes "sda" ∷ codes "sda1" ∷ [])
    ↔ IsRelated host (codes "sda") (codes "sda1")
unfolding run_related
related_iff_example =
    related_iff host (codes "sda") (codes "sda" ∷ codes "sda1" ∷ []) refl (codes "sda1")

mounted_devices_iff_example :
    IsActive (codes "sdb") ((codes "sdb", true) ∷ [])
    ↔ Any (IsBelow host (codes "sdb")) (root_mount ∷ [])
unfolding run_mounted contains_option
mounted_devices_iff_example =
    mounted_devices_iff host ((codes "sdb", true) ∷ []) (root_mount ∷ []) refl refl (codes "sdb")

swap_devices_iff_example :
    IsActive (codes "sdb") ((codes "sdb", true) ∷ [])
    ↔ Any
        (IsSwapBelow host (codes "sdb"))
        (record { source = codes "/dev/sdb"; kind = codes "partition" } ∷ [])
unfolding run_swaps
swap_devices_iff_example =
    swap_devices_iff host ((codes "sdb", true) ∷ [])
      (record { source = codes "/dev/sdb"; kind = codes "partition" } ∷ []) refl refl (codes "sdb")

source_ok_example :
    (records : List MountRecord) × (mounts host ≡ ok records)
    × IsSource host (codes "/a") (codes "ext4") (codes "sdb" ∷ []) records
unfolding run_source
source_ok_example = source_ok host (codes "/a") (codes "ext4") (codes "sdb" ∷ []) refl

target_ok_example : IsTarget host (codes "/dev/sda") disk
unfolding run_target
target_ok_example = target_ok host (codes "/dev/sda") disk refl

-- Every device's slaves are `sda` again.
abbrev circle : Observer
circle = record {
  proc_root = codes "/p";
  sys_root = codes "/s";
  files = record {
    read_file = λ path. err (sentinel os_not_exist);
    read_dir = λ path. ok (codes "sda" ∷ []);
    stat = λ path. ok (record { size = pos 0; perm = 0 });
    scan = λ path. err (sentinel os_not_exist);
    names = codes "sda" ∷ [];
  };
}

circle-IsFinite : IsFinite circle.files
circle-IsFinite path ns e x i = let same : codes "sda" ∷ [] ≡ ns = cc in rw (sym same) at i

walk_related_ends_example :
    walk_related circle (enough_fuel circle) (codes "sda") true [] ≢ out_of_fuel
walk_related_ends_example = walk_related_ends circle circle-IsFinite (codes "sda")

IsPlain-text : (w : Bytes) → all (λ c. leb 33 c && ltb c 128) w ≡ true → All IsPlain w
IsPlain-text [] e = tt
IsPlain-text (c ∷ w) e = ((ground arith, ground arith), IsPlain-text w (ground arith))

abbrev is_word : Bytes → Bool
is_word [] = false
is_word (c ∷ w) = all (λ c. leb 33 c && ltb c 128) (c ∷ w)

words : (ws : List Bytes) → all is_word ws ≡ true → All IsWord ws
words [] e = tt
words ([] ∷ ws) e = absurd (cc)
words ((c ∷ w) ∷ ws) e = (
  record { plain = IsPlain-text (c ∷ w) (ground arith); not_empty = λ f. absurd (cc) },
  words ws (ground arith),
)

no_hyphens : (ws : List Bytes) → contains hyphen ws ≡ false → All (λ f. f ≢ hyphen) ws
unfolding contains
no_hyphens [] e = tt
no_hyphens (w ∷ ws) e = (λ f. ground (arith, bytes_eq_iff hyphen w), no_hyphens ws (ground arith))

-- The mount point has a blank in it.
abbrev line : MountLine
line = record {
  mount_id = codes "36";
  parent_id = codes "35";
  device = codes "98:0";
  root = codes "/";
  mountpoint = codes "/my disk";
  options = codes "ro,noatime";
  optional = codes "master:1" ∷ [];
  filesystem = codes "ext3";
  source = codes "/dev/root";
  super_options = codes "rw";
}

line-IsMountLine : IsMountLine line
unfolding escape_mount contains bytes_eq
line-IsMountLine = record {
  first_words = words (first_fields line) refl;
  last_words = words (last_fields line) refl;
  one_hyphen = no_hyphens (first_fields line) refl;
}

parse-print_mount_line_example :
    parse_mount_record (print_mount_line line)
    ≡ ok (record {
      device = codes "98:0";
      mountpoint = codes "/my disk";
      filesystem = codes "ext3";
      read_only = true;
    })
unfolding contains_option bytes_eq
parse-print_mount_line_example = parse-print_mount_line line line-IsMountLine

-- Too many kilobytes for their bytes to fit in an int64.
memory_exact_iff_example :
    (available_from (codes "MemTotal: 5 kB" ∷ codes "MemAvailable: 18014398509481984 kB" ∷ []) none
      ≡ ok (pos (2 ^ 54 * 1024)))
    ↔ (2 ^ 54 < 2 ^ 53)
unfolding run_source print is_available_line
memory_exact_iff_example =
    memory_exact_iff (codes "MemTotal: 5 kB" ∷ []) (codes "MemAvailable: 18014398509481984 kB")
      (2 ^ 54) [] none (refl, tt) refl (omega arith)
