-- ===== src/Linux/Execute/Live.antt =====
-- What the calls around a write have answered where they all succeed.
use diskforge.Base.{◌≡◌, [], ◌∷◌, ◌++◌, arith, bytes_eq_iff}
use diskforge.Errors.{ok}
use diskforge.Policy.Model.{mode_live}
use diskforge.Image.Model.{Verified, WriteResult}
use diskforge.Linux.Boundary
use diskforge.Linux.Boundary.{Request, Call, Trace, Target}
use diskforge.Linux.Execute.{prepare_live, reboot_live, write_target}

module _ (system : Boundary.Boundary) (request : Request) where
  -- The four preparations have succeeded one behind the other.
  pub record IsPrepared (before : Trace) : Type 0 where
    pub locked : system.mlockall before ≡ ok tt
    pub swapless : system.swapoff (before ++ Call.mlockall ∷ []) ≡ ok tt
    pub enabled : system.enable_sysrq ((before ++ Call.mlockall ∷ []) ++ Call.swapoff ∷ []) ≡ ok tt
    pub remounted :
        system.remount_read_only
          (((before ++ Call.mlockall ∷ []) ++ Call.swapoff ∷ []) ++ Call.enable_sysrq ∷ [])
        ≡ ok tt

  pub prepare_live-IsPrepared :
      (before : Trace) {made : Trace}
      → request.mode ≡ mode_live
      → prepare_live system request.mode before ≡ (ok tt, made)
      → IsPrepared before
  unfolding prepare_live
  prepare_live-IsPrepared before live h =
      let is_live = (bytes_eq_iff request.mode mode_live).1 live in
      record {
        locked = ground arith;
        swapless = ground arith;
        enabled = ground arith;
        remounted = ground arith;
      }

  -- The SysRq sync and the reboot behind it have succeeded.
  pub record IsRebooted (before : Trace) : Type 0 where
    pub synced : system.sysrq_sync before ≡ ok tt
    pub rebooted : system.sysrq_reboot (before ++ Call.sysrq_sync ∷ []) ≡ ok tt

  reboot_live-IsRebooted :
      (before : Trace) {made : Trace}
      → request.mode ≡ mode_live
      → reboot_live system request.mode before ≡ (ok tt, made)
      → IsRebooted before
  unfolding reboot_live
  reboot_live-IsRebooted before live h =
      let is_live = (bytes_eq_iff request.mode mode_live).1 live in
      record { synced = ground arith; rebooted = ground arith }

  abbrev writing : Verified → Target → Call
  writing verified target = Call.write_verified verified target request.expected_bytes

  -- The write and what follows it have succeeded, in live mode the reboot too.
  pub record IsFlushed (verified : Verified) (target : Target) (r : WriteResult) (before : Trace)
      : Type 0 where
    pub written : system.write_verified before verified target request.expected_bytes ≡ ok r
    pub synced : system.fdatasync (before ++ writing verified target ∷ []) target ≡ ok tt
    pub flushed :
        system.flush_block
          ((before ++ writing verified target ∷ []) ++ Call.fdatasync target ∷ [])
          target
        ≡ ok tt
    pub rebooted :
        request.mode ≡ mode_live
        → IsRebooted (
            ((before ++ writing verified target ∷ []) ++ Call.fdatasync target ∷ [])
            ++ Call.flush_block target ∷ [])

  abbrev behind_flush : Verified → Target → Trace → Trace
  behind_flush verified target before =
      ((before ++ writing verified target ∷ []) ++ Call.fdatasync target ∷ [])
      ++ Call.flush_block target ∷ []

  rebooting_run :
      (verified : Verified) (target : Target) (before : Trace) {r : WriteResult} {made : Trace}
      → write_target system request verified target before ≡ (ok r, made)
      → (more : Trace) × (reboot_live system request.mode (behind_flush verified target before)
          ≡ (ok tt, more))
  unfolding write_target
  rebooting_run verified target before h =
      ((reboot_live system request.mode (behind_flush verified target before)).1, ground arith)

  pub write_target-IsFlushed :
      (verified : Verified) (target : Target) (before : Trace) {r : WriteResult} {made : Trace}
      → write_target system request verified target before ≡ (ok r, made)
      → IsFlushed verified target r before
  unfolding write_target
  write_target-IsFlushed verified target before h = record {
    written = ground arith;
    synced = ground arith;
    flushed = ground arith;
    rebooted = λ live.
        let (more, run) = rebooting_run verified target before h in
        reboot_live-IsRebooted (behind_flush verified target before) live run;
  }
