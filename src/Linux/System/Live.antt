-- ===== src/Linux/System/Live.antt =====
-- What an accepted inspection in live mode says of the host's files.
use diskforge.Base.{◌*◌, ◌≡◌, sym, ap, ◌∙◌, Bool, true, List, [], Bytes, codes, arith, bytes_eq_iff}
use diskforge.Base.Int.{ℤ, pos, ◌≤ℤ◌}
use diskforge.Errors.{Result, ok, bind_ok, format}
use diskforge.Image.Streams.{wrap_err}
use diskforge.Go.FilePath.{clean}
use diskforge.Policy.Model.{mode_live, TargetIdentity, ImageIdentity, HostObservation, Inspection}
use diskforge.Policy.Inspect.Gates.{inspect_iff}
use diskforge.Linux.Files.{Observer}
use diskforge.Linux.Procfs.{MountRecord, memory_available_bytes}
use diskforge.Linux.Devices.{target}
use diskforge.Linux.Devices.Sizes.{IsTarget, target_ok}
use diskforge.Linux.Observer.{mounted_devices, swap_devices, source}
use diskforge.Linux.Observer.Selected.{IsSource, source_ok}
use diskforge.Linux.Root.{root_disk, sysrq_trigger_available}
use diskforge.Linux.Root.Physical.{IsRootDisk, root_disk-IsRootDisk}
use diskforge.Linux.Boundary.{Request}
use diskforge.Linux.System.{system_inspect, gather, observe_mode, observe_live}
use diskforge.Linux.System.Rescue.{gather-IsGathered}

module _ (observer : Observer) where
  -- The target is the disk of the root, the image is on a tmpfs, and the memory and SysRq are there.
  pub record IsOverwritable (request : Request) (t : TargetIdentity) : Type 0 where
    pub found : IsTarget observer request.target_path t
    pub root_path : Bytes
    pub root : IsRootDisk observer root_path
    pub is_root : clean root_path ≡ t.canonical_path
    pub records : List MountRecord
    pub backing : List Bytes
    pub held : IsSource observer request.image_path (codes "tmpfs") backing records
    pub memory : ℤ
    pub available : memory_available_bytes observer ≡ ok memory
    pub enough : pos (512 * 1024 * 1024) ≤ℤ memory
    pub sysrq : sysrq_trigger_available observer ≡ ok true

  record IsObserved (h : HostObservation) : Type 0 where
    root : root_disk observer ≡ ok h.root_disk
    memory : memory_available_bytes observer ≡ ok h.memory_available_bytes
    sysrq : sysrq_trigger_available observer ≡ ok h.sysrq_trigger_available

  observe_live-IsObserved : (g h : HostObservation) → observe_live observer g ≡ ok h → IsObserved h
  unfolding observe_live
  observe_live-IsObserved g h e =
      let (root, r, e1) = bind_ok (root_disk observer) _ _ e in
      let (memory, m, e2) = bind_ok (memory_available_bytes observer) _ _ e1 in
      let (sysrq, s, e3) = bind_ok (sysrq_trigger_available observer) _ _ e2 in
      made g root memory sysrq h e3 r m s
    where
      made :
          (g : HostObservation) (root : Bytes) (memory : ℤ) (sysrq : Bool) (h : HostObservation)
          → ◌≡◌ {A = Result HostObservation}
              (ok (record g {
                root_disk = root;
                memory_available_bytes = memory;
                sysrq_trigger_available = sysrq;
              }))
              (ok h)
          → root_disk observer ≡ ok root
          → memory_available_bytes observer ≡ ok memory
          → sysrq_trigger_available observer ≡ ok sysrq
          → IsObserved h
      made g root memory sysrq h e r m s = record {
        root = r ∙ ap ok (ground arith);
        memory = m ∙ ap ok (ground arith);
        sysrq = s ∙ ap ok (ground arith);
      }

  gather-IsObserved :
      (euid : ℤ) (request : Request) (t : TargetIdentity) (i : ImageIdentity) (h : HostObservation)
      → request.mode ≡ mode_live
      → gather observer euid request ≡ ok (t, i, h)
      → IsObserved h
  unfolding gather observe_mode
  gather-IsObserved euid request t i h live e =
      let (t', te, e1) = bind_ok (target observer request.target_path) _ _ e in
      let (m, me, e2) = bind_ok (mounted_devices observer) _ _ e1 in
      let (s, se, e3) = bind_ok (swap_devices observer) _ _ e2 in
      let (b, be, e4) = bind_ok (source observer request.image_path) _ _ e3 in
      let (n, ne, e5) =
        bind_ok
          (wrap_err (format "stat image source: %w" []) (observer.files.stat request.image_path)) _
          _ e4 in
      let (h', he, e6) = bind_ok (observe_mode observer request.mode _) _ _ e5 in
      rw (last _ _ _ _ _ _ e6) at (in_live _ h' he)
    where
      last :
          {A B C : Type 0} (a c : A) (i j : B) (b d : C)
          → ◌≡◌ {A = Result (A × B × C)} (ok (a, i, b)) (ok (c, j, d))
          → b ≡ d
      last a c i j b d e = cc

      in_live : (g k : HostObservation) → observe_mode observer request.mode g ≡ ok k → IsObserved k
      in_live g k f =
          let is_live = (bytes_eq_iff request.mode mode_live).1 live in
          observe_live-IsObserved g k (ground arith)

  -- Where the inspection of a host accepts a request in live mode, the target is the only physical disk
  -- on which the first mount on `/` rests, the image's mount is a tmpfs, 512 MiB are available and the
  -- SysRq trigger is writable.
  pub system_inspect-IsOverwritable :
      (sha256 : Bytes → Bytes) (euid : ℤ) (request : Request) (r : Inspection)
      → request.mode ≡ mode_live
      → system_inspect sha256 observer euid request ≡ ok r
      → IsOverwritable request r.target
  unfolding system_inspect
  system_inspect-IsOverwritable sha256 euid request r live e =
      let ((t, i, h), gathered, accepted) = bind_ok (gather observer euid request) _ r e in
      let (safe, result) = (inspect_iff sha256 request.mode t i h r).0 accepted in
      let same : t ≡ r.target = sym (ap (λ x. x.target) result) in
      let g = gather-IsGathered observer euid request t i h gathered in
      let o = gather-IsObserved euid request t i h live gathered in
      let ready = safe.live live in
      let (records, listed, held) =
        source_ok observer request.image_path h.source_filesystem h.source_backing_devices
          g.source_read in
      let host : IsOverwritable request t = record {
        found = target_ok observer request.target_path t g.target_read;
        root_path = h.root_disk;
        root = root_disk-IsRootDisk observer h.root_disk o.root;
        is_root = ready.root_disk;
        records = records;
        backing = h.source_backing_devices;
        held = rw ready.tmpfs at held;
        memory = h.memory_available_bytes;
        available = o.memory;
        enough = ready.memory;
        sysrq = o.sysrq ∙ ap ok ready.sysrq;
      } in
      rw same at host
