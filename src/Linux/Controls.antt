-- ===== src/Linux/Controls.antt =====
-- internal/linux/system.go: the calls that change the running kernel's state. What the kernel answers
-- is a parameter.
pub mod Remount
use diskforge.Base.{
  ℕ, zero, suc, ◌+◌, Bool, true, false, List, [], ◌∷◌, Bytes, codes, length, bytes_eq, bytes_eq_iff,
  ◌==◌, not, ◌||◌, ◌≡◌, ◌↔◌, refl, arith,
}
use diskforge.Errors.{
  Error, Result, ok, err, sentinel, wrapped, gate, format, text, refuse_if, ◌>>=◌, ◌>>◌,
  linux_remount_incomplete, confirmation_mismatch,
}
use diskforge.Go.FilePath.{join_path}
use diskforge.Image.Streams.{wrap_err}
use diskforge.Linux.Files.{Observer}
use diskforge.Linux.Procfs.{SwapRecord, read_swap_records}
use diskforge.Linux.Root.{block_mounts_read_only}

abbrev pub confirmation_error : Error
confirmation_error =
    gate confirmation_mismatch
      (format "confirmation token does not match inspected target and image" [])

-- `subtle.ConstantTimeCompare` is an equality test.
unfoldable pub confirm : Bytes → Bytes → Result (Unit {0})
confirm provided expected =
    refuse_if (not (length provided == length expected) || not (bytes_eq provided expected))
      confirmation_error

-- `unix.Rlimit`
pub record Rlimit : Type 0 where
  pub current : ℕ
  pub maximum : ℕ

pub record MemoryCalls : Type 0 where
  pub getrlimit : Result Rlimit
  pub setrlimit : Rlimit → Result (Unit {0})
  pub lock_all : Result (Unit {0})

unfoldable pub mlockall : MemoryCalls → Result (Unit {0})
mlockall calls = do
  limit ← wrap_err (format "read memlock limit: %w" []) calls.getrlimit
  wrap_err (format "raise memlock limit: %w" [])
      (calls.setrlimit (record limit { current = limit.maximum }))
  wrap_err (format "lock process memory: %w" []) calls.lock_all

-- `unix.BytePtrFromString` and the system call
pub record SwapCalls : Type 0 where
  pub encode : Bytes → Result (Unit {0})
  pub turn_off : Bytes → Result (Unit {0})

unfoldable pub swapoff_path : SwapCalls → Bytes → Result (Unit {0})
swapoff_path calls path = do
  wrap_err (format "encode swap path: %w" []) (calls.encode path)
  calls.turn_off path

-- The loop of `Swapoff`.
unfoldable pub swapoff_each : SwapCalls → List SwapRecord → Result (Unit {0})
unfolding swapoff_path
swapoff_each calls [] = ok tt
swapoff_each calls (swap ∷ swaps) = do
  wrap_err (format "swapoff %s: %w" (text swap.source ∷ [])) (swapoff_path calls swap.source)
  swapoff_each calls swaps

unfoldable pub swapoff : SwapCalls → Observer → Result (Unit {0})
unfolding swapoff_each
swapoff calls observer = read_swap_records observer >>= swapoff_each calls

-- What a control file answers to its opening, the write of a value, and `Close`.
pub record ControlFile : Type 0 where
  pub opened : Result (Unit {0})
  pub written : Bytes → Result (Unit {0})
  pub closed : Result (Unit {0})

abbrev pub Controls : Type 0
Controls = Bytes → ControlFile

unfoldable pub write_control : Controls → Bytes → Bytes → Result (Unit {0})
write_control controls path value = do
  wrap_err (format "open kernel control %q: %w" (text path ∷ [])) (controls path).opened
  wrap_err (format "write kernel control %q: %w" (text path ∷ [])) ((controls path).written value)
  wrap_err (format "close kernel control %q: %w" (text path ∷ [])) (controls path).closed

abbrev pub sysrq_trigger : Bytes → Bytes
sysrq_trigger proc_root = join_path (proc_root ∷ codes "sysrq-trigger" ∷ [])

unfoldable pub enable_sysrq : Controls → Bytes → Result (Unit {0})
unfolding write_control
enable_sysrq controls proc_root =
    write_control controls
      (join_path (proc_root ∷ codes "sys" ∷ codes "kernel" ∷ codes "sysrq" ∷ [])) (codes "1\n")

unfoldable pub sysrq_sync : Controls → Bytes → Result (Unit {0})
unfolding write_control
sysrq_sync controls proc_root = write_control controls (sysrq_trigger proc_root) (codes "s")

unfoldable pub sysrq_reboot : Controls → Bytes → Result (Unit {0})
unfolding write_control
sysrq_reboot controls proc_root = write_control controls (sysrq_trigger proc_root) (codes "b")

abbrev pub remount_poll_attempts : ℕ
remount_poll_attempts = 600

-- The loop of `RemountReadOnly`: the attempts left, and the files of the host at each poll from the
-- next one on, which is a sleep behind the last.
unfoldable pub poll : ℕ → (ℕ → Observer) → Result (Unit {0})
poll zero at = err (sentinel linux_remount_incomplete)
poll (suc attempts) at =
    let rest = poll attempts (λ n. at (n + 1)) in
    elim (block_mounts_read_only (at 0)) [ err e ↦ err e | ok true ↦ ok tt | ok false ↦ rest ]

unfoldable pub remount_read_only : Controls → Bytes → (ℕ → Observer) → Result (Unit {0})
unfolding write_control poll
remount_read_only controls proc_root at = do
  wrap_err (format "SysRq remount read-only: %w" [])
      (write_control controls (sysrq_trigger proc_root) (codes "u"))
  poll remount_poll_attempts at

-- The confirmation passes exactly when it is the whole token.
pub confirm_iff :
    (provided expected : Bytes) → (confirm provided expected ≡ ok tt) ↔ (provided ≡ expected)
unfolding confirm
confirm_iff provided expected = (
  λ e. (bytes_eq_iff provided expected).0 (ground arith),
  λ e. rw e (ground (arith, (bytes_eq_iff expected expected).1 refl)),
)
