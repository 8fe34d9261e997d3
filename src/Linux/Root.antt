-- ===== src/Linux/Root.antt =====
-- internal/linux/observer.go: the disk of the root, the SysRq trigger, and mounts that are all read-only.
pub mod Physical
use diskforge.Base.{
  Bool, true, false, not, ◌&&◌, Option, none, some, List, [], ◌∷◌, Bytes, codes, length, ◌==◌,
  bytes_eq, if◌then◌else◌,
}
use Prim.Native.Nat.{bit_and}
use diskforge.Base.Int.{pos}
use diskforge.Errors.{
  Result, ok, err, sentinel, wrapped, format, text, number, ◌>>=◌, linux_invalid_procfs,
  linux_unresolved_device,
}
use diskforge.Go.Strings.{has_prefix}
use diskforge.Go.FilePath.{join_path}
use diskforge.Linux.Files.{FileInfo, Observer}
use diskforge.Linux.Procfs.{MountRecord, mounts}
use diskforge.Linux.Sysfs.{
  exists, read_trimmed, sorted_entries, block_path, related, partition_file, slaves_directory,
}
use diskforge.Linux.Devices.{device_root, name_by_device_number}

abbrev pub one_disk : List Bytes → Result Bytes
one_disk (disk ∷ []) = ok (join_path (device_root ∷ disk ∷ []))
one_disk disks = err (
    wrapped (format "%w: root resolves to %d physical disks" (number (pos (length disks)) ∷ []))
      (sentinel linux_unresolved_device))

abbrev pub root_name : Bytes → Option Bytes → Result Bytes
root_name device none =
    err
      (wrapped (format "%w: root device %s" (text device ∷ [])) (sentinel linux_unresolved_device))
root_name device (some name) = ok name

abbrev pub resolved : Bytes → Result (Option Bytes) → Result (Option Bytes)
resolved device (ok found) = ok found
resolved device (err e) = err (wrapped (format "resolve root device %s: %w" (text device ∷ [])) e)

abbrev writable_bits : Result FileInfo → Result Bool
writable_bits (ok info) = ok (not (bit_and info.perm 0x92 == 0))
writable_bits (err e) = err (wrapped (format "stat SysRq trigger: %w" []) e)

module _ (observer : Observer) where
  -- Whether a block-backed mount was found, unless one of them is writable.
  unfoldable pub all_read_only : Bool → List MountRecord → Result Bool
  all_read_only found [] = ok found
  all_read_only found (mount ∷ records) =
      let backed = all_read_only true records in
      let other = all_read_only found records in
      elim (name_by_device_number observer mount.device) [
        | err e ↦ err e
        | ok none ↦ other
        | ok (some name) ↦ if not mount.read_only then ok false else backed
      ]

  unfoldable pub block_mounts_read_only : Result Bool
  unfolding all_read_only
  block_mounts_read_only = mounts observer >>= all_read_only false

  -- The loop of `physicalRootDisk`: the candidates that are whole disks of their own.
  unfoldable pub physical_among : List Bytes → Result (List Bytes)
  physical_among [] = ok []
  physical_among (candidate ∷ candidates) = do
    path ← block_path observer candidate
    slaves ← sorted_entries observer.files (join_path (path ∷ slaves_directory ∷ []))
    rest ← physical_among candidates
    ok (
        if not (exists observer.files (join_path (path ∷ partition_file ∷ [])))
          && (length slaves == 0 && not (has_prefix candidate (codes "dm-")))
        then candidate ∷ rest
        else rest)

  unfoldable pub physical_root_disk : Bytes → Result Bytes
  unfolding physical_among
  physical_root_disk device = do
    found ← resolved device (name_by_device_number observer device)
    name ← root_name device found
    candidates ← related observer name
    disks ← physical_among candidates
    one_disk disks

  -- The loop of `RootDisk`.
  unfoldable pub root_among : List MountRecord → Result Bytes
  root_among [] = err (
      wrapped (format "%w: root mount is absent from mountinfo" []) (sentinel linux_invalid_procfs))
  root_among (mount ∷ records) =
      let rest = root_among records in
      if bytes_eq mount.mountpoint (codes "/") then physical_root_disk mount.device else rest

  unfoldable pub root_disk : Result Bytes
  unfolding root_among
  root_disk = mounts observer >>= root_among

  -- 0o222 is 0x92.
  unfoldable pub sysrq_trigger_available : Result Bool
  sysrq_trigger_available = do
    control ←
        read_trimmed observer.files
          (join_path (observer.proc_root ∷ codes "sys" ∷ codes "kernel" ∷ codes "sysrq" ∷ []))
    writable_bits
        (observer.files.stat (join_path (observer.proc_root ∷ codes "sysrq-trigger" ∷ [])))
