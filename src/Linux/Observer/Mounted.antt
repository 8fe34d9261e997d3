-- ===== src/Linux/Observer/Mounted.antt =====
-- Which devices the maps of mounted and swap devices hold.
use diskforge.Base.{
  ◌≡◌, ◌↔◌, ◌⊎◌, inl, inr, sym, ◌∙◌, Option, none, some, List, [], ◌∷◌, Bytes, codes, arith, Any,
  bytes_eq, bytes_eq_iff, Bool-cases,
}
use mathlib.Core.Logic.{⊎_elim}
use diskforge.Errors.{ok, Result-cases}
use diskforge.Go.FilePath.{base}
use diskforge.Go.Slices.{contains}
use diskforge.Go.Slices.Laws.{IsIn, not_in_nil}
use diskforge.Policy.Model.{DeviceMap}
use diskforge.Policy.Inspect.{active_devices}
use diskforge.Linux.Files.{Observer}
use diskforge.Linux.Procfs.{MountRecord, SwapRecord, mounts, read_swap_records}
use diskforge.Linux.Sysfs.{related}
use diskforge.Linux.Sysfs.Relations.{IsRelated}
use diskforge.Linux.Sysfs.Relations.Collect.{related_iff}
use diskforge.Linux.Devices.{name_by_device_number}
use diskforge.Linux.Observer.{
  set_true, set_all, expand, expand_found, mounted_from, mounted_devices, swap_backing, swaps_from,
  swap_devices, source,
}

abbrev pub IsActive : Bytes → DeviceMap → Type 0
IsActive x m = IsIn x (active_devices m)

IsActive-set_true :
    (x d : Bytes) (m : DeviceMap) → IsActive x (set_true d m) ↔ ((x ≡ d) ⊎ IsActive x m)
unfolding set_true active_devices contains
IsActive-set_true x d [] = ground (arith, bytes_eq_iff x d)
IsActive-set_true x d ((k, v) ∷ m) =
    ground (arith, bytes_eq_iff x d, bytes_eq_iff d k, bytes_eq_iff x k, IsActive-set_true x d m)

IsActive-set_all :
    (x : Bytes) (ds : List Bytes) (m : DeviceMap)
    → IsActive x (set_all ds m) ↔ (IsIn x ds ⊎ IsActive x m)
unfolding set_all contains
IsActive-set_all x [] m = ground arith
IsActive-set_all x (d ∷ ds) m =
    ground (arith, bytes_eq_iff x d, IsActive-set_true x d m, IsActive-set_all x ds (set_true d m))

module _ (observer : Observer) where
  -- The mount is on the device or on one that rests on it.
  abbrev pub IsBelow : Bytes → MountRecord → Type 0
  IsBelow x mount =
      (name : Bytes) × (name_by_device_number observer mount.device ≡ ok (some name))
      × IsRelated observer name x

  expand_found_iff :
      (mount : MountRecord) (found : Option Bytes) (m next : DeviceMap)
      → name_by_device_number observer mount.device ≡ ok found
      → expand_found observer m found ≡ ok next
      → (x : Bytes) → IsActive x next ↔ (IsBelow x mount ⊎ IsActive x m)
  expand_found_iff mount none m next ne e x =
      let same : next ≡ m = cc in
      rw same (λ a. inr a, λ o. ⊎_elim (λ (name, other, r). absurd (cc)) (λ a. a) o)
  expand_found_iff mount (some name) m next ne e x = elim (Result-cases (related observer name)) [
    | inl (f, re) ↦ absurd (unfold expand in cc)
    | inr (devices, re) ↦
        let same : next ≡ set_all devices m = unfold expand in cc in
        let (split, joined) = IsActive-set_all x devices m in
        let (found, given) = related_iff observer name devices re x in
        rw same (
          λ a. ⊎_elim (λ i. inl (name, ne, found i)) (λ j. inr j) (split a),
          λ o. joined (
              ⊎_elim (λ (other, oe, r). let one : other ≡ name = cc in inl (given (rw one at r)))
                (λ j. inr j) o),
        )
  ]

  mounted_from_iff :
      (m r : DeviceMap) (records : List MountRecord)
      → mounted_from observer m records ≡ ok r
      → (x : Bytes) → IsActive x r ↔ (Any (IsBelow x) records ⊎ IsActive x m)
  unfolding mounted_from
  mounted_from_iff m r [] e x =
      let same : r ≡ m = cc in rw same (λ a. inr a, ⊎_elim (λ e. absurd e) (λ a. a))
  mounted_from_iff m r (mount ∷ records) e x =
      elim (Result-cases (name_by_device_number observer mount.device)) [
        | inl (f, ne) ↦ absurd (cc)
        | inr (found, ne) ↦ elim (Result-cases (expand_found observer m found)) [
          | inl (f, xe) ↦ absurd (cc)
          | inr (next, xe) ↦
              let (a, b) = expand_found_iff mount found m next ne xe x in
              let (c, d) = mounted_from_iff next r records (ground arith) x in
              (
                λ i.
                    ⊎_elim (λ j. inl (inr j)) (λ j. ⊎_elim (λ k. inl (inl k)) (λ k. inr k) (a j))
                      (c i),
                λ o.
                    d (
                      ⊎_elim (⊎_elim (λ k. inr (b (inl k))) (λ k. inl k)) (λ k. inr (b (inr k))) o),
              )
        ]
      ]

  -- The map of mounted devices holds exactly the devices on which some mount rests: the one of its
  -- device number, its partitions, and all devices below these, at any depth.
  pub mounted_devices_iff :
      (m : DeviceMap) (records : List MountRecord)
      → mounts observer ≡ ok records
      → mounted_devices observer ≡ ok m
      → (x : Bytes) → IsActive x m ↔ Any (IsBelow x) records
  unfolding mounted_devices active_devices
  mounted_devices_iff m records me e x =
      let (a, b) = mounted_from_iff [] m records (ground arith) x in
      (λ i. ⊎_elim (λ j. j) (not_in_nil x) (a i), λ j. b (inl j))

  -- A device on which a swap area rests: a partition, or a file on a device.
  pub data IsSwapBelow (x : Bytes) (swap : SwapRecord) : Type 0 where
    area :
        swap.kind ≡ codes "partition" → IsRelated observer (base swap.source) x → IsSwapBelow x swap
    swap_file :
        {filesystem : Bytes} {backing : List Bytes}
        → swap.kind ≡ codes "file"
        → source observer swap.source ≡ ok (filesystem, backing)
        → IsIn x backing
        → IsSwapBelow x swap

  two_kinds : {R : Type 0} → codes "partition" ≡ codes "file" → R
  two_kinds e = absurd (cc)

  area_iff :
      (swap : SwapRecord) (devices : List Bytes)
      → swap.kind ≡ codes "partition"
      → related observer (base swap.source) ≡ ok devices
      → (x : Bytes) → IsIn x devices ↔ IsSwapBelow x swap
  area_iff swap devices kind e x =
      let (a, b) = related_iff observer (base swap.source) devices e x in
      (λ i. area kind (a i), elim [ area k r ↦ b r | swap_file k s i ↦ two_kinds (sym kind ∙ k) ])

  swap_file_iff :
      (swap : SwapRecord) (filesystem : Bytes) (devices : List Bytes)
      → swap.kind ≡ codes "file"
      → source observer swap.source ≡ ok (filesystem, devices)
      → (x : Bytes) → IsIn x devices ↔ IsSwapBelow x swap
  swap_file_iff swap filesystem devices kind e x = (
    λ i. swap_file kind e i,
    elim [
      | area k r ↦ two_kinds (sym k ∙ kind)
      | swap_file {backing = found} k s i ↦ let same : devices ≡ found = cc in rw same i
    ],
  )

  swap_backing_iff :
      (swap : SwapRecord) (devices : List Bytes)
      → swap_backing observer swap ≡ ok devices
      → (x : Bytes) → IsIn x devices ↔ IsSwapBelow x swap
  unfolding swap_backing
  swap_backing_iff swap devices e = elim (Bool-cases (bytes_eq swap.kind (codes "partition"))) [
    | inl p ↦
        area_iff swap devices ((bytes_eq_iff swap.kind (codes "partition")).0 p) (ground arith)
    | inr p ↦ elim (Bool-cases (bytes_eq swap.kind (codes "file"))) [
      | inl q ↦ elim (Result-cases (source observer swap.source)) [
        | inl (f, se) ↦ absurd (ground arith)
        | inr ((filesystem, []), se) ↦ absurd (ground arith)
        | inr ((filesystem, name ∷ names), se) ↦
            let same : name ∷ names ≡ devices = ground arith in
            swap_file_iff swap filesystem devices ((bytes_eq_iff swap.kind (codes "file")).0 q)
              (rw same at se)
      ]
      | inr q ↦ absurd (ground arith)
    ]
  ]

  swaps_from_iff :
      (m r : DeviceMap) (swaps : List SwapRecord)
      → swaps_from observer m swaps ≡ ok r
      → (x : Bytes) → IsActive x r ↔ (Any (IsSwapBelow x) swaps ⊎ IsActive x m)
  unfolding swaps_from
  swaps_from_iff m r [] e x =
      let same : r ≡ m = cc in rw same (λ a. inr a, ⊎_elim (λ e. absurd e) (λ a. a))
  swaps_from_iff m r (swap ∷ swaps) e x = elim (Result-cases (swap_backing observer swap)) [
    | inl (f, be) ↦ absurd (cc)
    | inr (devices, be) ↦
        let (a, b) = swap_backing_iff swap devices be x in
        let (c, d) = swaps_from_iff (set_all devices m) r swaps (ground arith) x in
        let (split, joined) = IsActive-set_all x devices m in
        (
          λ i.
              ⊎_elim (λ j. inl (inr j)) (λ j. ⊎_elim (λ k. inl (inl (a k))) (λ k. inr k) (split j))
                (c i),
          λ o. d (
              ⊎_elim (⊎_elim (λ k. inr (joined (inl (b k)))) (λ k. inl k))
                (λ k. inr (joined (inr k))) o),
        )
  ]

  -- The map of swap devices holds exactly the devices on which some swap area rests.
  pub swap_devices_iff :
      (m : DeviceMap) (swaps : List SwapRecord)
      → read_swap_records observer ≡ ok swaps
      → swap_devices observer ≡ ok m
      → (x : Bytes) → IsActive x m ↔ Any (IsSwapBelow x) swaps
  unfolding swap_devices active_devices
  swap_devices_iff m swaps se e x =
      let (a, b) = swaps_from_iff [] m swaps (ground arith) x in
      (λ i. ⊎_elim (λ j. j) (not_in_nil x) (a i), λ j. b (inl j))
