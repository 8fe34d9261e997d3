-- ===== src/Linux/Root/Physical.antt =====
-- Which disk the root is resolved to.
use diskforge.Base.{
  All, ◌≡◌, ◌≢◌, ◌↔◌, inl, inr, refl, sym, ap, ◌∙◌, Bool, true, false, not, ◌&&◌, Option, none,
  some, List, [], ◌∷◌, ◌++◌, Bytes, codes, arith, length, ◌==◌, bytes_eq, bytes_eq_iff, Bool-cases,
}
use mathlib.Core.Logic.{⊎_elim}
use diskforge.Errors.{ok, Result-cases, bind_ok}
use diskforge.Go.Strings.{has_prefix}
use diskforge.Go.FilePath.{join_path}
use diskforge.Go.Slices.Laws.{IsIn, IsIn-cons, IsIn-head, not_in_nil}
use diskforge.Linux.Files.{Observer}
use diskforge.Linux.Procfs.{MountRecord, mounts}
use diskforge.Linux.Sysfs.{
  exists, sorted_entries, block_path, related, partition_file, slaves_directory,
}
use diskforge.Linux.Sysfs.Relations.{IsRelated}
use diskforge.Linux.Sysfs.Relations.Collect.{related_iff}
use diskforge.Linux.Devices.{device_root, name_by_device_number}
use diskforge.Linux.Root.{
  physical_among, one_disk, root_name, resolved, physical_root_disk, root_among, root_disk,
}

module _ (observer : Observer) where
  -- A device that is no partition, rests on no slave, and is no mapped device by its name.
  pub record IsPhysical (name : Bytes) : Type 0 where
    pub path : Bytes
    pub located : block_path observer name ≡ ok path
    pub whole : exists observer.files (join_path (path ∷ partition_file ∷ [])) ≡ false
    pub bottom : sorted_entries observer.files (join_path (path ∷ slaves_directory ∷ [])) ≡ ok []
    pub unmapped : has_prefix name (codes "dm-") ≡ false

  abbrev is_physical : Bytes → Bytes → List Bytes → Bool
  is_physical name path slaves =
      not (exists observer.files (join_path (path ∷ partition_file ∷ [])))
      && (length slaves == 0 && not (has_prefix name (codes "dm-")))

  IsPhysical-decided :
      (name path : Bytes) (slaves : List Bytes)
      → block_path observer name ≡ ok path
      → sorted_entries observer.files (join_path (path ∷ slaves_directory ∷ [])) ≡ ok slaves
      → (is_physical name path slaves ≡ true) ↔ IsPhysical name
  IsPhysical-decided name path [] p s = (
    λ e. record {
      path = path;
      located = p;
      whole = ground arith;
      bottom = s;
      unmapped = ground arith;
    },
    λ k.
        let same : k.path ≡ path = let l = k.located in cc in
        let whole =
          ap (λ q. exists observer.files (join_path (q ∷ partition_file ∷ []))) (sym same)
          ∙ k.whole in
        let unmapped = k.unmapped in ground arith,
  )
  IsPhysical-decided name path (x ∷ slaves) p s = (
    λ e. absurd (ground arith),
    λ k.
        let same : k.path ≡ path = let l = k.located in cc in
        let bottom =
          ap (λ q. sorted_entries observer.files (join_path (q ∷ slaves_directory ∷ []))) (sym same)
          ∙ k.bottom in
        absurd (cc),
  )

  physical_among_iff :
      (candidates disks : List Bytes)
      → physical_among observer candidates ≡ ok disks
      → (x : Bytes) → IsIn x disks ↔ (IsIn x candidates × IsPhysical x)
  unfolding physical_among
  physical_among_iff [] disks e x =
      let same : disks ≡ [] = cc in (λ i. not_in_nil x (rw same at i), λ (i, k). not_in_nil x i)
  physical_among_iff (c ∷ candidates) disks e x =
      let (path, p, e1) = bind_ok (block_path observer c) _ _ e in
      let (slaves, s, e2) =
        bind_ok (sorted_entries observer.files (join_path (path ∷ slaves_directory ∷ []))) _ _ e1 in
      let (rest, r, e3) = bind_ok (physical_among observer candidates) _ _ e2 in
      let (a, b) = physical_among_iff candidates rest r x in
      let (found, given) = IsPhysical-decided c path slaves p s in
      let (split, joined) = IsIn-cons x c candidates in
      elim (Bool-cases (is_physical c path slaves)) [
        | inl y ↦
            let same : disks ≡ c ∷ rest = ground arith in
            let (first, back) = IsIn-cons x c rest in
            rw same (
              λ i.
                  ⊎_elim (λ f. (joined (inl f), rw f (found y)))
                    (λ j. (joined (inr (a j).0), (a j).1)) (first i),
              λ (i, k). ⊎_elim (λ f. back (inl f)) (λ j. back (inr (b (j, k)))) (split i),
            )
        | inr y ↦
            let same : disks ≡ rest = ground arith in
            rw same (
              λ i. (joined (inr (a i).0), (a i).1),
              λ (i, k).
                  ⊎_elim (λ f. absurd (let z = given (rw f at k) in cc)) (λ j. b (j, k)) (split i),
            )
      ]

  -- The disk of the first mount on `/`: the only physical one on which that mount rests.
  pub record IsRootDisk (path : Bytes) : Type 0 where
    pub records : List MountRecord
    pub listed : mounts observer ≡ ok records
    pub before : List MountRecord
    pub mount : MountRecord
    pub behind : List MountRecord
    pub split : records ≡ before ++ mount ∷ behind
    pub at_root : mount.mountpoint ≡ codes "/"
    pub first : All (λ m. m.mountpoint ≢ codes "/") before
    pub name : Bytes
    pub named : name_by_device_number observer mount.device ≡ ok (some name)
    pub disk : Bytes
    pub path_of : path ≡ join_path (device_root ∷ disk ∷ [])
    pub below : IsRelated observer name disk
    pub physical : IsPhysical disk
    pub only : (x : Bytes) → IsRelated observer name x → IsPhysical x → x ≡ disk

  root_among_ok :
      (records : List MountRecord) (path : Bytes)
      → root_among observer records ≡ ok path
      → (before : List MountRecord) × (mount : MountRecord) × (behind : List MountRecord) × (records
          ≡ before ++ mount ∷ behind)
        × (mount.mountpoint ≡ codes "/")
        × All (λ m. m.mountpoint ≢ codes "/") before
        × (physical_root_disk observer mount.device ≡ ok path)
  unfolding root_among
  root_among_ok [] path e = absurd (cc)
  root_among_ok (mount ∷ records) path e =
      elim (Bool-cases (bytes_eq mount.mountpoint (codes "/"))) [
        | inl y ↦ (
          [],
          mount,
          records,
          refl,
          (bytes_eq_iff mount.mountpoint (codes "/")).0 y,
          tt,
          ground arith,
        )
        | inr y ↦
            let (before, root, behind, s, r, a, p) = root_among_ok records path (ground arith) in
            let other : mount.mountpoint ≢ codes "/" =
              λ f. ground (arith, (bytes_eq_iff mount.mountpoint (codes "/")).1 f) in
            (mount ∷ before, root, behind, ap (λ l. mount ∷ l) s, r, (other, a), p)
      ]

  one_disk_ok :
      (disks : List Bytes) (path : Bytes)
      → one_disk disks ≡ ok path
      → (disk : Bytes) × (disks ≡ disk ∷ []) × (path ≡ join_path (device_root ∷ disk ∷ []))
  one_disk_ok [] path e = absurd (cc)
  one_disk_ok (d ∷ []) path e = (d, refl, ground arith)
  one_disk_ok (d ∷ f ∷ disks) path e = absurd (cc)

  named_ok :
      (device : Bytes) (found : Option Bytes) (name : Bytes)
      → resolved device (name_by_device_number observer device) ≡ ok found
      → root_name device found ≡ ok name
      → name_by_device_number observer device ≡ ok (some name)
  named_ok device none name r e = absurd (cc)
  named_ok device (some n) name r e = elim (Result-cases (name_by_device_number observer device)) [
    | inl (f, ne) ↦ absurd (cc)
    | inr (o, ne) ↦ cc
  ]

  -- What `physicalRootDisk` has found.
  record IsResolved (device path : Bytes) : Type 0 where
    name : Bytes
    named : name_by_device_number observer device ≡ ok (some name)
    disk : Bytes
    path_of : path ≡ join_path (device_root ∷ disk ∷ [])
    below : IsRelated observer name disk
    physical : IsPhysical disk
    only : (x : Bytes) → IsRelated observer name x → IsPhysical x → x ≡ disk

  physical_root_disk-IsResolved :
      (device path : Bytes) → physical_root_disk observer device ≡ ok path → IsResolved device path
  unfolding physical_root_disk
  physical_root_disk-IsResolved device path e =
      let (found, r, e1) =
        bind_ok (resolved device (name_by_device_number observer device)) _ _ e in
      let (name, n, e2) = bind_ok (root_name device found) _ _ e1 in
      let (candidates, c, e3) = bind_ok (related observer name) _ _ e2 in
      let (disks, d, e4) = bind_ok (physical_among observer candidates) _ _ e3 in
      let (disk, single, place) = one_disk_ok disks path e4 in
      let (below, physical) =
        (physical_among_iff candidates disks d disk).0 (rw (sym single) at (IsIn-head disk [])) in
      record {
        name = name;
        named = named_ok device found name r n;
        disk = disk;
        path_of = place;
        below = (related_iff observer name candidates c disk).0 below;
        physical = physical;
        only = λ x i k.
            let listed =
              (physical_among_iff candidates disks d x).1
                ((related_iff observer name candidates c x).1 i, k) in
            ⊎_elim (λ f. f) (not_in_nil x) ((IsIn-cons x disk []).0 (rw single at listed));
      }

  -- `RootDisk` gives the path of the only physical disk on which the first mount on `/` rests.
  pub root_disk-IsRootDisk : (path : Bytes) → root_disk observer ≡ ok path → IsRootDisk path
  unfolding root_disk
  root_disk-IsRootDisk path e =
      let (records, listed, e1) = bind_ok (mounts observer) _ _ e in
      let (before, mount, behind, s, r, a, p) = root_among_ok records path e1 in
      let found = physical_root_disk-IsResolved mount.device path p in
      record {
        records = records;
        listed = listed;
        before = before;
        mount = mount;
        behind = behind;
        split = s;
        at_root = r;
        first = a;
        name = found.name;
        named = found.named;
        disk = found.disk;
        path_of = found.path_of;
        below = found.below;
        physical = found.physical;
        only = found.only;
      }
