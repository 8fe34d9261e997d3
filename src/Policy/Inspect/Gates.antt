-- ===== src/Policy/Inspect/Gates.antt =====
-- `Inspect`: what an accepted inspection says of the host, and what it does not depend on.
use mathlib.Core.List.{Permᴰ}
use diskforge.Base.{
  ◌*◌, ◌≡◌, ◌≢◌, ◌↔◌, ◌⊎◌, inl, inr, sym, ap, ◌∙◌, true, false, not, ◌&&◌, none, arith, Bytes,
  codes, bytes_eq, bytes_eq_iff, All, Bool-cases,
}
use diskforge.Base.Int.{pos, ◌≤ℤ◌, ◌<ℤ◌, ltb_ℤ, eq_ℤ, eq_ℤ_iff}
use diskforge.Go.FilePath.{clean}
use diskforge.Go.Hex.Laws.{IsDigest}
use diskforge.Errors.{ok}
use diskforge.Policy.Model.{
  Mode, mode_rescue, mode_live, TargetIdentity, ImageIdentity, DeviceMap, HostObservation,
  Inspection,
}
use diskforge.Policy.Confirmation.{confirmation_token, format_token}
use diskforge.Policy.Confirmation.Token.{IsConfirmable, confirmation_token_iff}
use diskforge.Policy.Inspect.{
  inspect, inspect_mode, inspect_rescue, inspect_live, intersects, map_from_slice, device_names,
  minimum_live_available_bytes, tmpfs_filesystem,
}
use diskforge.Policy.Inspect.Devices.{
  IsForeign, IsIdle, intersects-none_iff, intersects-slice_iff, intersects-Perm,
}

-- What live mode asks of the host.
pub record IsLiveReady (t : TargetIdentity) (h : HostObservation) : Type 0 where
  pub root_disk : clean h.root_disk ≡ t.canonical_path
  pub tmpfs : h.source_filesystem ≡ codes "tmpfs"
  pub memory : pos (512 * 1024 * 1024) ≤ℤ h.memory_available_bytes
  pub sysrq : h.sysrq_trigger_available ≡ true

-- Everything that an accepted inspection has shown.
pub record IsSafe (mode : Mode) (t : TargetIdentity) (i : ImageIdentity) (h : HostObservation)
    : Type 0 where
  pub known_mode : (mode ≡ mode_rescue) ⊎ (mode ≡ mode_live)
  pub root : h.euid ≡ pos 0
  pub whole : t.is_partition ≡ false
  pub fits : i.uncompressed_bytes ≤ℤ t.size_bytes
  pub target : IsConfirmable t
  pub expands : pos 0 <ℤ i.uncompressed_bytes
  pub digest : IsDigest i.sha256
  pub source : All (IsForeign t) h.source_backing_devices
  pub rescue : mode ≡ mode_rescue → IsIdle t h.mounted_devices × IsIdle t h.swap_devices
  pub live : mode ≡ mode_live → IsLiveReady t h

rescue_iff :
    (t : TargetIdentity) (h : HostObservation)
    → (inspect_rescue h (device_names t) ≡ ok tt)
      ↔ (IsIdle t h.mounted_devices × IsIdle t h.swap_devices)
rescue_iff t h = (
  λ e.
      let (a, b) = tests e in
      ((intersects-none_iff t h.mounted_devices).0 a, (intersects-none_iff t h.swap_devices).0 b),
  λ (a, b).
      unfold inspect_rescue in
      rw
        ((intersects-none_iff t h.mounted_devices).1 a, (intersects-none_iff t h.swap_devices).1 b),
)
  where
    tests :
        inspect_rescue h (device_names t) ≡ ok tt
        → (intersects h.mounted_devices (device_names t) ≡ none)
          × (intersects h.swap_devices (device_names t) ≡ none)
    tests e = unfold inspect_rescue in ground arith

live_iff : (t : TargetIdentity) (h : HostObservation) → (inspect_live t h ≡ ok tt) ↔ IsLiveReady t h
unfolding inspect_live
live_iff t h = (
  λ e. record {
    root_disk = (bytes_eq_iff (clean h.root_disk) t.canonical_path).0 (ground arith);
    tmpfs = (bytes_eq_iff h.source_filesystem tmpfs_filesystem).0 (ground arith);
    memory = ground arith;
    sysrq = ground arith;
  },
  λ r.
      let m : ltb_ℤ h.memory_available_bytes minimum_live_available_bytes ≡ false =
        ground (arith, r.memory) in
      rw (
        (bytes_eq_iff (clean h.root_disk) t.canonical_path).1 r.root_disk,
        (bytes_eq_iff h.source_filesystem tmpfs_filesystem).1 r.tmpfs,
        m,
        r.sysrq,
      ),
)

module _ (sha256 : Bytes → Bytes) (mode : Mode) (t : TargetIdentity) (i : ImageIdentity)
    (h : HostObservation) where
  -- The tests of an accepted run, one by one.
  record Accepted (r : Inspection) : Type 0 where
    known_mode : (not (bytes_eq mode mode_rescue) && not (bytes_eq mode mode_live)) ≡ false
    root : eq_ℤ h.euid (pos 0) ≡ true
    whole : t.is_partition ≡ false
    fits : ltb_ℤ t.size_bytes i.uncompressed_bytes ≡ false
    token : confirmation_token sha256 t i ≡ ok r.confirmation_token
    source : intersects (map_from_slice h.source_backing_devices) (device_names t) ≡ none
    gates : inspect_mode mode t h (device_names t) ≡ ok tt
    result :
        r ≡ record { mode = mode; target = t; image = i; confirmation_token = r.confirmation_token }

  inspect-Accepted : (r : Inspection) → inspect sha256 mode t i h ≡ ok r → Accepted r
  unfolding inspect
  inspect-Accepted r e = ground arith

  inspect_of : (r : Inspection) → Accepted r → inspect sha256 mode t i h ≡ ok r
  inspect_of r x =
      unfold inspect in
      simp (x.known_mode, x.root, x.whole, x.fits, x.token, x.source, x.gates)
        (ap ok (sym x.result))

  mode_iff :
      ((not (bytes_eq mode mode_rescue) && not (bytes_eq mode mode_live)) ≡ false)
      ↔ ((mode ≡ mode_rescue) ⊎ (mode ≡ mode_live))
  mode_iff = (
    λ e. elim (Bool-cases (bytes_eq mode mode_rescue)) [
      | inl a ↦ inl ((bytes_eq_iff mode mode_rescue).0 a)
      | inr a ↦ inr ((bytes_eq_iff mode mode_live).0 (ground arith))
    ],
    elim [
      | inl a ↦ rw ((bytes_eq_iff mode mode_rescue).1 a)
      | inr a ↦ ground (arith, (bytes_eq_iff mode mode_live).1 a)
    ],
  )

  modes_differ : mode ≡ mode_rescue → mode ≢ mode_live
  modes_differ a b = cc

  mode_gates_rescue :
      mode ≡ mode_rescue
      → inspect_mode mode t h (device_names t) ≡ inspect_rescue h (device_names t)
  mode_gates_rescue a = unfold inspect_mode in rw ((bytes_eq_iff mode mode_rescue).1 a)

  mode_gates_live : mode ≡ mode_live → inspect_mode mode t h (device_names t) ≡ inspect_live t h
  mode_gates_live a = unfold inspect_mode bytes_eq in rw a

  -- The gates of the mode that was asked for.
  mode_gates_iff :
      (mode ≡ mode_rescue) ⊎ (mode ≡ mode_live)
      → (inspect_mode mode t h (device_names t) ≡ ok tt) ↔ (
          (mode ≡ mode_rescue → IsIdle t h.mounted_devices × IsIdle t h.swap_devices)
          × (mode ≡ mode_live → IsLiveReady t h))
  mode_gates_iff (inl a) = (
    λ e.
        let g = (rescue_iff t h).0 (sym (mode_gates_rescue a) ∙ e) in
        (λ _. g, λ b. absurd (modes_differ a b)),
    λ (f, _). mode_gates_rescue a ∙ (rescue_iff t h).1 (f a),
  )
  mode_gates_iff (inr b) = (
    λ e.
        let g = (live_iff t h).0 (sym (mode_gates_live b) ∙ e) in
        (λ a. absurd (modes_differ a b), λ _. g),
    λ (_, f). mode_gates_live b ∙ (live_iff t h).1 (f b),
  )

  -- `Inspect` accepts exactly where every gate of the mode holds: a known mode, root, a whole disk
  -- with room for the expanded image, a confirmable target and digest, no source device on the
  -- target, in rescue mode no mounted or swapping device on it, and in live mode the root disk, a
  -- tmpfs source, 512 MiB of memory and SysRq. The result repeats the inputs and holds the token.
  pub inspect_iff :
      (r : Inspection)
      → (inspect sha256 mode t i h ≡ ok r) ↔ (
          IsSafe mode t i h
          × (r ≡ record {
            mode = mode;
            target = t;
            image = i;
            confirmation_token = format_token sha256 t i;
          }))
  inspect_iff r = (forth, back)
    where
      forth :
          inspect sha256 mode t i h ≡ ok r
          → IsSafe mode t i h
            × (r ≡ record {
              mode = mode;
              target = t;
              image = i;
              confirmation_token = format_token sha256 t i;
            })
      forth e =
          let x = inspect-Accepted r e in
          let known = mode_iff.0 x.known_mode in
          let (c, u, d, k) = (confirmation_token_iff sha256 t i r.confirmation_token).0 x.token in
          let (f, g) = (mode_gates_iff known).0 x.gates in
          (
            record {
              known_mode = known;
              root = (eq_ℤ_iff h.euid (pos 0)).0 x.root;
              whole = x.whole;
              fits = ground (arith, x.fits);
              target = c;
              expands = u;
              digest = d;
              source = (intersects-slice_iff t h.source_backing_devices).0 x.source;
              rescue = f;
              live = g;
            },
            cc (x.result, k),
          )

      back :
          IsSafe mode t i h
            × (r ≡ record {
              mode = mode;
              target = t;
              image = i;
              confirmation_token = format_token sha256 t i;
            })
          → inspect sha256 mode t i h ≡ ok r
      back (s, e) = inspect_of r (record {
        known_mode = mode_iff.1 s.known_mode;
        root = (eq_ℤ_iff h.euid (pos 0)).1 s.root;
        whole = s.whole;
        fits = ground (arith, s.fits);
        token =
            (confirmation_token_iff sha256 t i r.confirmation_token).1
              (s.target, s.expands, s.digest, ap (λ x. x.confirmation_token) e);
        source = (intersects-slice_iff t h.source_backing_devices).1 s.source;
        gates = (mode_gates_iff s.known_mode).1 (s.rescue, s.live);
        result = cc e;
      })

  -- The order in which Go iterates over the two device maps changes nothing, the device that a refusal
  -- names included.
  pub inspect-Perm :
      (mounted swap : DeviceMap)
      → Permᴰ h.mounted_devices mounted
      → Permᴰ h.swap_devices swap
      → inspect sha256 mode t i (record h { mounted_devices = mounted; swap_devices = swap })
        ≡ inspect sha256 mode t i h
  unfolding inspect inspect_mode inspect_rescue inspect_live
  inspect-Perm mounted swap p q = rw (
    ← intersects-Perm h.mounted_devices mounted (device_names t) p,
    ← intersects-Perm h.swap_devices swap (device_names t) q,
  )
