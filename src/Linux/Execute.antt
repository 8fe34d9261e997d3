-- ===== src/Linux/Execute.antt =====
-- internal/linux/execute.go: the guarded sequence of a write.
pub mod Order
pub mod Gated
pub mod Outcomes
pub mod Identity
pub mod Live
use diskforge.Base.{
  Bool, true, false, not, ◌&&◌, Option, none, some, List, [], ◌∷◌, Bytes, bytes_eq, if◌then◌else◌,
}
use diskforge.Base.Int.{ℤ, eq_ℤ}
use diskforge.Errors.{Error, gate, format, live_reboot_required, identity_changed}
use diskforge.Policy.Model.{Mode, mode_live, Inspection}
use diskforge.Image.Model.{Verified, WriteResult}
use diskforge.Linux.Boundary
use diskforge.Linux.Boundary.{
  Request, Target, Call, Trace, Program, pure, raise, call, wrapping, closing, ◌>>=◌, ◌>>◌,
}

unfoldable pub same_identity : Request → Inspection → Option Verified → Bool
same_identity request inspection none = false
same_identity request inspection (some verified) =
    bytes_eq inspection.mode request.mode
    && (bytes_eq inspection.target.canonical_path request.target_path
        && (bytes_eq inspection.image.path request.image_path
            && (bytes_eq inspection.image.sha256 request.sha256
                && (eq_ℤ inspection.image.uncompressed_bytes request.expected_bytes
                    && (bytes_eq verified.path inspection.image.path
                        && (bytes_eq verified.sha256 inspection.image.sha256
                            && eq_ℤ verified.compressed_bytes
                                inspection.image.compressed_bytes))))))

abbrev pub identity_changed_error : Error
identity_changed_error =
    gate identity_changed
      (format "target or image identity changed between inspection and verification" [])

abbrev pub live_reboot_error : Error
live_reboot_error =
    gate live_reboot_required (format "live overwrite requires explicit immediate reboot" [])

-- The check behind the two calls; `Close` on a nil source does nothing.
unfoldable pub hold_identical :
    Request → Inspection → Option Verified → Program (Inspection × Verified)
hold_identical request inspection none = raise identity_changed_error
hold_identical request inspection (some verified) =
    if not (same_identity request inspection (some verified))
    then closing (Call.close_source verified) (raise identity_changed_error)
    else pure (inspection, verified)

module _ (system : Boundary.Boundary) where
  unfoldable pub prepare : Request → Program (Inspection × Verified)
  prepare request = do
    inspection ← call (Call.inspect request) (λ t. system.inspect t request)
    verified ←
        call (Call.verify_image request.image_path request.sha256)
          (λ t. system.verify_image t request.image_path request.sha256)
    hold_identical request inspection verified

  unfoldable pub prepare_live : Mode → Program (Unit {0})
  prepare_live mode = if not (bytes_eq mode mode_live) then pure tt else do
    wrapping (format "lock process memory: %w" []) (call Call.mlockall system.mlockall)
    wrapping (format "disable swap: %w" []) (call Call.swapoff system.swapoff)
    wrapping (format "enable SysRq: %w" []) (call Call.enable_sysrq system.enable_sysrq)
    wrapping (format "remount filesystems read-only: %w" [])
        (call Call.remount_read_only system.remount_read_only)

  unfoldable pub reboot_live : Mode → Program (Unit {0})
  reboot_live mode = if not (bytes_eq mode mode_live) then pure tt else do
    wrapping (format "SysRq sync: %w" []) (call Call.sysrq_sync system.sysrq_sync)
    wrapping (format "SysRq reboot: %w" []) (call Call.sysrq_reboot system.sysrq_reboot)

  -- From the opened target on.
  unfoldable pub write_target : Request → Verified → Target → Program WriteResult
  write_target request verified target = do
    result ←
        call (Call.write_verified verified target request.expected_bytes)
          (λ t. system.write_verified t verified target request.expected_bytes)
    call (Call.fdatasync target) (λ t. system.fdatasync t target)
    call (Call.flush_block target) (λ t. system.flush_block t target)
    reboot_live request.mode
    pure result

  -- The gates between the held source and the opened target.
  unfoldable pub pass_gates : Request → Inspection → Program (Unit {0})
  pass_gates request inspection = do
    call (Call.confirm request.confirmation inspection.confirmation_token)
        (λ t. system.confirm t request.confirmation inspection.confirmation_token)
    if bytes_eq request.mode mode_live && not request.reboot
        then raise live_reboot_error
        else prepare_live request.mode

  -- From the passed gates on.
  unfoldable pub open_and_write : Request → Inspection → Verified → Program WriteResult
  open_and_write request inspection verified = do
    target ←
        call (Call.open_target request.target_path request.mode inspection.target)
          (λ t. system.open_target t request.target_path request.mode inspection.target)
    closing (Call.close_target target) (write_target request verified target)

  -- From the held source on.
  unfoldable pub execute_held : Request → Inspection → Verified → Program WriteResult
  execute_held request inspection verified = do
    pass_gates request inspection
    open_and_write request inspection verified

  unfoldable pub execute : Request → Program WriteResult
  execute request = do
    held ← prepare request
    closing (Call.close_source held.1) (execute_held request held.0 held.1)
