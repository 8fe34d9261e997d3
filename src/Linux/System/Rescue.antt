-- ===== src/Linux/System/Rescue.antt =====
-- What an accepted inspection in rescue mode says of the host's files.
use diskforge.Base.{
  ◌≡◌, ◌≢◌, inl, inr, refl, sym, ap, ◌∙◌, true, false, List, [], ◌∷◌, Bytes, arith, All, Any,
}
use diskforge.Base.Int.{ℤ}
use diskforge.Errors.{Result, ok, bind_ok, format}
use diskforge.Image.Streams.{wrap_err}
use diskforge.Go.FilePath.{base}
use diskforge.Go.Slices.{contains}
use diskforge.Go.Slices.Laws.{IsIn, IsIn-cons}
use diskforge.Policy.Model.{
  mode_rescue, TargetIdentity, ImageIdentity, DeviceMap, HostObservation, Inspection,
}
use diskforge.Policy.Inspect.{active_devices}
use diskforge.Policy.Inspect.Devices.{IsForeign}
use diskforge.Policy.Inspect.Gates.{inspect_iff, IsSafe}
use diskforge.Linux.Files.{Observer}
use diskforge.Linux.Procfs.{MountRecord, SwapRecord, mounts, read_swap_records}
use diskforge.Linux.Sysfs.Relations.{IsRelated}
use diskforge.Linux.Devices.{target}
use diskforge.Linux.Devices.Sizes.{IsTarget, target_ok}
use diskforge.Linux.Observer.{mounted_devices, swap_devices, source}
use diskforge.Linux.Observer.Mounted.{
  IsActive, IsBelow, IsSwapBelow, mounted_devices_iff, swap_devices_iff,
}
use diskforge.Linux.Observer.Selected.{IsSource, source_ok}
use diskforge.Linux.Boundary.{Request}
use diskforge.Linux.System.{system_inspect, gather, observe_mode, observe_live}

module _ (P : Bytes → Type 0) where
  IsIn-All : (l : List Bytes) → All P l → (x : Bytes) → IsIn x l → P x
  unfolding contains
  IsIn-All [] a x i = absurd (cc)
  IsIn-All (y ∷ l) (p, a) x i = elim ((IsIn-cons x y l).0 i) [
    | inl e ↦ rw e p
    | inr j ↦ IsIn-All l a x j
  ]

  IsActive-All :
      (m : DeviceMap) → All (λ (d, a). a ≡ true → P d) m → (x : Bytes) → IsActive x m → P x
  unfolding active_devices contains
  IsActive-All [] a x i = absurd (cc)
  IsActive-All ((d, true) ∷ m) (p, a) x i = elim ((IsIn-cons x d (active_devices m)).0 i) [
    | inl e ↦ rw e (p refl)
    | inr j ↦ IsActive-All m a x j
  ]
  IsActive-All ((d, false) ∷ m) (p, a) x i = IsActive-All m a x i

module _ (observer : Observer) where
  -- A device that is none of the ones related to the target.
  abbrev pub IsApart : TargetIdentity → Bytes → Type 0
  IsApart t x = (y : Bytes) → IsRelated observer t.kname y → y ≢ [] → base x ≢ base y

  foreign-IsApart :
      (path : Bytes) (t : TargetIdentity)
      → IsTarget observer path t
      → (x : Bytes) → IsForeign t x
      → IsApart t x
  foreign-IsApart path t is x f y r =
      IsIn-All (λ v. v ≢ [] → base x ≢ base v) t.descendants f.descendants y
        ((is.descendants y).1 r)

  -- No device of a mount or a swap area is related to the target, and none on which the source rests.
  pub record IsRescuable (request : Request) (t : TargetIdentity) : Type 0 where
    pub found : IsTarget observer request.target_path t
    pub records : List MountRecord
    pub listed : mounts observer ≡ ok records
    pub mounted_apart : (x : Bytes) → Any (IsBelow observer x) records → IsApart t x
    pub swaps : List SwapRecord
    pub swaps_listed : read_swap_records observer ≡ ok swaps
    pub swap_apart : (x : Bytes) → Any (IsSwapBelow observer x) swaps → IsApart t x
    pub filesystem : Bytes
    pub backing : List Bytes
    pub held : IsSource observer request.image_path filesystem backing records
    pub source_apart : (x : Bytes) → IsIn x backing → IsApart t x

  -- What the observations of a snapshot have given.
  pub record IsGathered (request : Request) (t : TargetIdentity) (h : HostObservation)
      : Type 0 where
    pub target_read : target observer request.target_path ≡ ok t
    pub mounted_read : mounted_devices observer ≡ ok h.mounted_devices
    pub swaps_read : swap_devices observer ≡ ok h.swap_devices
    pub source_read :
        source observer request.image_path ≡ ok (h.source_filesystem, h.source_backing_devices)

  record Keeps (h k : HostObservation) : Type 0 where
    mounted : k.mounted_devices ≡ h.mounted_devices
    swaps : k.swap_devices ≡ h.swap_devices
    filesystem : k.source_filesystem ≡ h.source_filesystem
    backing : k.source_backing_devices ≡ h.source_backing_devices

  observe_mode-Keeps :
      (request : Request) (h k : HostObservation)
      → observe_mode observer request.mode h ≡ ok k
      → Keeps h k
  unfolding observe_mode observe_live
  observe_mode-Keeps request h k e = record {
    mounted = ground arith;
    swaps = ground arith;
    filesystem = ground arith;
    backing = ground arith;
  }

  pub gather-IsGathered :
      (euid : ℤ) (request : Request) (t : TargetIdentity) (i : ImageIdentity) (h : HostObservation)
      → gather observer euid request ≡ ok (t, i, h)
      → IsGathered request t h
  unfolding gather
  gather-IsGathered euid request t i h e =
      let (t', te, e1) = bind_ok (target observer request.target_path) _ _ e in
      let (m, me, e2) = bind_ok (mounted_devices observer) _ _ e1 in
      let (s, se, e3) = bind_ok (swap_devices observer) _ _ e2 in
      let (b, be, e4) = bind_ok (source observer request.image_path) _ _ e3 in
      let (n, ne, e5) =
        bind_ok
          (wrap_err (format "stat image source: %w" []) (observer.files.stat request.image_path)) _
          _ e4 in
      let (h', he, e6) = bind_ok (observe_mode observer request.mode _) _ _ e5 in
      let kept = observe_mode-Keeps request _ h' he in
      let (same_target, same_host) = outer _ _ _ _ _ _ e6 in
      record {
        target_read = rw same_target at te;
        mounted_read = rw same_host at (me ∙ ap ok (sym kept.mounted));
        swaps_read = rw same_host at (se ∙ ap ok (sym kept.swaps));
        source_read = be ∙ ap ok (rw same_host at (pair (sym kept.filesystem) (sym kept.backing)));
      }
    where
      outer :
          {A B C : Type 0} (a c : A) (i j : B) (b d : C)
          → ◌≡◌ {A = Result (A × B × C)} (ok (a, i, b)) (ok (c, j, d))
          → (a ≡ c) × (b ≡ d)
      outer a c i j b d e = (cc, cc)

      pair : {A B : Type 0} {a c : A} {b d : B} → a ≡ c → b ≡ d → ◌≡◌ {A = A × B} (a, b) (c, d)
      pair p q = cc

  swaps_were_read :
      (m : DeviceMap)
      → swap_devices observer ≡ ok m
      → (swaps : List SwapRecord) × (read_swap_records observer ≡ ok swaps)
  unfolding swap_devices
  swaps_were_read m e =
      let (swaps, listed, each) = bind_ok (read_swap_records observer) _ m e in (swaps, listed)

  gathered-IsRescuable :
      (request : Request) (t : TargetIdentity) (i : ImageIdentity) (h : HostObservation)
      → IsGathered request t h
      → request.mode ≡ mode_rescue
      → IsSafe request.mode t i h
      → IsRescuable request t
  gathered-IsRescuable request t i h g rescue safe =
      let found = target_ok observer request.target_path t g.target_read in
      let apart = foreign-IsApart request.target_path t found in
      let (mounted_idle, swap_idle) = safe.rescue rescue in
      let (records, listed, held) =
        source_ok observer request.image_path h.source_filesystem h.source_backing_devices
          g.source_read in
      let (swaps, swaps_listed) = swaps_were_read h.swap_devices g.swaps_read in
      record {
        found = found;
        records = records;
        listed = listed;
        mounted_apart = λ x b. apart x (
            IsActive-All (IsForeign t) h.mounted_devices mounted_idle x (
              (mounted_devices_iff observer h.mounted_devices records listed g.mounted_read x).1
                b));
        swaps = swaps;
        swaps_listed = swaps_listed;
        swap_apart = λ x b. apart x (
            IsActive-All (IsForeign t) h.swap_devices swap_idle x
              ((swap_devices_iff observer h.swap_devices swaps swaps_listed g.swaps_read x).1 b));
        filesystem = h.source_filesystem;
        backing = h.source_backing_devices;
        held = held;
        source_apart =
            λ x b. apart x (IsIn-All (IsForeign t) h.source_backing_devices safe.source x b);
      }

  -- Where the inspection of a host accepts a request in rescue mode, no device on which a mount, a swap
  -- area or the image rests is the target or related to it: a partition of it, or a device below one.
  pub system_inspect-IsRescuable :
      (sha256 : Bytes → Bytes) (euid : ℤ) (request : Request) (r : Inspection)
      → request.mode ≡ mode_rescue
      → system_inspect sha256 observer euid request ≡ ok r
      → IsRescuable request r.target
  unfolding system_inspect
  system_inspect-IsRescuable sha256 euid request r rescue e =
      let ((t, i, h), gathered, accepted) = bind_ok (gather observer euid request) _ r e in
      let (safe, result) = (inspect_iff sha256 request.mode t i h r).0 accepted in
      let same : t ≡ r.target = sym (ap (λ x. x.target) result) in
      rw same at (
        gathered-IsRescuable request t i h (gather-IsGathered euid request t i h gathered) rescue
          safe)
