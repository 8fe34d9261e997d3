-- ===== src/Linux/Boundary.antt =====
-- The interfaces of internal/linux/execute.go. What a method answers may depend on every call made
-- before it, so a boundary is a function of the calls so far; the calls made are the program's trace.
pub mod Laws
use diskforge.Base.{ℕ, Bool, true, false, Option, none, some, List, [], ◌∷◌, ◌++◌, Bytes}
use diskforge.Base.Int.{ℤ}
use diskforge.Errors.{Error, Message, wrapped, Result, ok, err}
use diskforge.Policy.Model.{Mode, TargetIdentity, Inspection}
use diskforge.Image.Model.{Verified, WriteResult}

pub record Request : Type 0 where
  pub mode : Mode
  pub target_path : Bytes
  pub image_path : Bytes
  pub sha256 : Bytes
  pub expected_bytes : ℤ
  pub confirmation : Bytes
  pub reboot : Bool

-- `Target`, an opened descriptor
abbrev pub Target : Type 0
Target = ℕ

-- A call of a boundary's method, or of `Close` on what it opened, with its arguments. The context and
-- the progress callback are passed on unchanged and are left out.
pub data Call : Type 0 where
  inspect : Request → Call
  verify_image : Bytes → Bytes → Call
  confirm : Bytes → Bytes → Call
  mlockall swapoff enable_sysrq remount_read_only sysrq_sync sysrq_reboot : Call
  open_target : Bytes → Mode → TargetIdentity → Call
  write_verified : Verified → Target → ℤ → Call
  fdatasync flush_block close_target : Target → Call
  close_source : Verified → Call

abbrev pub Trace : Type 0
Trace = List Call

pub record Boundary : Type 0 where
  pub inspect : Trace → Request → Result Inspection
  pub verify_image : Trace → Bytes → Bytes → Result (Option Verified)
  pub confirm : Trace → Bytes → Bytes → Result (Unit {0})
  pub mlockall : Trace → Result (Unit {0})
  pub swapoff : Trace → Result (Unit {0})
  pub enable_sysrq : Trace → Result (Unit {0})
  pub remount_read_only : Trace → Result (Unit {0})
  pub sysrq_sync : Trace → Result (Unit {0})
  pub sysrq_reboot : Trace → Result (Unit {0})
  pub open_target : Trace → Bytes → Mode → TargetIdentity → Result Target
  pub write_verified : Trace → Verified → Target → ℤ → Result WriteResult
  pub fdatasync : Trace → Target → Result (Unit {0})
  pub flush_block : Trace → Target → Result (Unit {0})
  pub close_source : Trace → Verified → Result (Unit {0})

-- A program over a boundary: from the calls made before it, its result and the calls that it makes.
abbrev pub Program : Type 0 → Type 0
Program A = Trace → Result A × Trace

module _ {A : Type 0} where
  abbrev pub pure : A → Program A
  pure a before = (ok a, [])

  abbrev pub raise : Error → Program A
  raise e before = (err e, [])

  abbrev pub call : Call → (Trace → Result A) → Program A
  call c answer before = (answer before, c ∷ [])

  abbrev wrap_result : Message → Result A → Result A
  wrap_result m (ok a) = ok a
  wrap_result m (err e) = err (wrapped m e)

  -- `if err := …; err != nil { return fmt.Errorf("…: %w", err) }`
  abbrev pub wrapping : Message → Program A → Program A
  wrapping m p before = let (r, made) = p before in (wrap_result m r, made)

  -- `defer`, of a close whose error is dropped
  abbrev pub closing : Call → Program A → Program A
  closing c p before = let (r, made) = p before in (r, made ++ c ∷ [])

module _ {A B : Type 0} where
  abbrev pub and_then : Result A × Trace → (A → Program B) → Trace → Result B × Trace
  and_then (ok a, made) f before = let (r, more) = f a (before ++ made) in (r, made ++ more)
  and_then (err e, made) f before = (err e, made)

  infixl 5 ◌>>=◌ ◌>>◌
  abbrev pub ◌>>=◌ : Program A → (A → Program B) → Program B
  ◌>>=◌ p f before = and_then (p before) f before

  abbrev pub ◌>>◌ : Program A → Program B → Program B
  p >> q = p >>= λ _. q
