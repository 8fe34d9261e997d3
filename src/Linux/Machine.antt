-- ===== src/Linux/Machine.antt =====
-- internal/linux/system.go: `System` as the boundary of internal/linux/execute.go. A machine is what
-- the kernel answers behind the calls made so far; SHA-256 and the zstd decoder are parameters.
pub mod Rescued
pub mod Overwritten
use diskforge.Base.{ℕ, Bool, Option, none, some, List, [], Bytes}
use diskforge.Base.Int.{ℤ}
use diskforge.Errors.{Error, Result, ok, err, format}
use diskforge.Image.Model.{Verified, WriteResult}
use diskforge.Image.Streams.{Reader, Writer, wrap_err}
use diskforge.Image.Verify.{SourceFile, verify}
use diskforge.Image.Write.{ContextErrors, HeldFile, write}
use diskforge.Linux.Files.{Observer}
use diskforge.Linux.Boundary.{Boundary, Trace, Target, Request}
use diskforge.Linux.Controls.{
  MemoryCalls, SwapCalls, Controls, confirm, mlockall, swapoff, enable_sysrq, sysrq_sync,
  sysrq_reboot, remount_read_only,
}
use diskforge.Linux.OpenedTarget.{Descriptors, open_target}
use diskforge.Linux.System.{system_inspect}

pub record Machine : Type 0 where
  pub euid : ℤ
  pub observer : Trace → Observer
  pub polls : Trace → ℕ → Observer
  pub memory : Trace → MemoryCalls
  pub swap : Trace → SwapCalls
  pub controls : Trace → Controls
  pub descriptors : Trace → Descriptors
  pub open_image : Trace → Bytes → Result ℕ
  pub image_file : Trace → Bytes → SourceFile
  pub context : Trace → Option ContextErrors
  pub held_file : Trace → Verified → HeldFile
  pub writer : Trace → Target → Writer
  pub reporting : Bool
  pub fdatasync : Trace → Target → Result (Unit {0})
  pub flush_block : Trace → Target → Result (Unit {0})
  pub close_source : Trace → Verified → Result (Unit {0})

abbrev pub held_or_nil : Result Verified → Result (Option Verified)
held_or_nil (ok verified) = ok (some verified)
held_or_nil (err e) = err e

module _ (sha256 : Bytes → Bytes) (decode : Reader → Result Reader) where
  unfoldable pub system_boundary : Machine → Boundary
  system_boundary machine = record {
    inspect = λ t request. system_inspect sha256 (machine.observer t) machine.euid request;
    verify_image = λ t path digest.
        held_or_nil
          ((verify sha256 path digest (machine.open_image t path) (machine.image_file t path)).0);
    confirm = λ t provided expected. confirm provided expected;
    mlockall = λ t. mlockall (machine.memory t);
    swapoff = λ t. swapoff (machine.swap t) (machine.observer t);
    enable_sysrq = λ t. enable_sysrq (machine.controls t) (machine.observer t).proc_root;
    remount_read_only = λ t.
        remount_read_only (machine.controls t) (machine.observer t).proc_root (machine.polls t);
    sysrq_sync = λ t. sysrq_sync (machine.controls t) (machine.observer t).proc_root;
    sysrq_reboot = λ t. sysrq_reboot (machine.controls t) (machine.observer t).proc_root;
    open_target = λ t path mode expected.
        (open_target (machine.observer t) (machine.descriptors t) path mode expected).0;
    write_verified = λ t source target expected.
        (write sha256 decode (machine.context t) (some source) (machine.held_file t source)
          (some (machine.writer t target)) expected machine.reporting).result;
    fdatasync =
        λ t target. wrap_err (format "fdatasync target: %w" []) (machine.fdatasync t target);
    flush_block =
        λ t target. wrap_err (format "flush block buffers: %w" []) (machine.flush_block t target);
    close_source = λ t source. machine.close_source t source;
  }
