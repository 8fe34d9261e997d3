-- ===== src/Errors.antt =====
-- Go errors as values. A formatted text is kept as its format and its arguments, and `%w` keeps the
-- error that it wraps, so that `errors.Is` and `errors.As` walk the chain as the program has them do.
use diskforge.Base.{
  ◌≡◌, ◌⊎◌, inl, inr, refl, ℕ, ◌+◌, Bool, true, false, Option, none, some, List, Bytes, String,
  ◌==◌, codes,
}
use diskforge.Base.Int.{ℤ}

-- internal/policy/model.go, `GateCode`: the refusals that the program has.
pub data GateCode : Type 0 where
  invalid_target invalid_digest invalid_image_size invalid_mode not_root : GateCode
  target_partition target_too_small target_mounted target_swap source_on_target : GateCode
  live_target_not_root live_source_not_tmpfs live_memory live_sysrq : GateCode
  live_reboot_required confirmation_mismatch identity_changed : GateCode

-- The string that a code is.
unfoldable pub text_of : GateCode → Bytes
text_of invalid_target = codes "invalid_target"
text_of invalid_digest = codes "invalid_digest"
text_of invalid_image_size = codes "invalid_image_size"
text_of invalid_mode = codes "invalid_mode"
text_of not_root = codes "not_root"
text_of target_partition = codes "target_partition"
text_of target_too_small = codes "target_too_small"
text_of target_mounted = codes "target_mounted"
text_of target_swap = codes "target_swap"
text_of source_on_target = codes "source_on_target"
text_of live_target_not_root = codes "live_target_not_root"
text_of live_source_not_tmpfs = codes "live_source_not_tmpfs"
text_of live_memory = codes "live_memory"
text_of live_sysrq = codes "live_sysrq"
text_of live_reboot_required = codes "live_reboot_required"
text_of confirmation_mismatch = codes "confirmation_mismatch"
text_of identity_changed = codes "identity_changed"

-- The error values that the program compares with, and those of the packages that it calls.
pub data Sentinel : Type 0 where
  image_invalid_argument image_invalid_digest image_invalid_source image_digest_mismatch : Sentinel
  image_download_rejected image_size_mismatch image_source_changed : Sentinel
  image_unsupported_format : Sentinel
  linux_invalid_block_device linux_invalid_procfs linux_unresolved_device : Sentinel
  linux_remount_incomplete invalid_request : Sentinel
  context_canceled context_deadline_exceeded os_closed os_not_exist io_eof : Sentinel
  io_unexpected_eof io_short_write io_invalid_write : Sentinel
  other_error : ℕ → Sentinel

abbrev number_of : Sentinel → ℕ
number_of image_invalid_argument = 0
number_of image_invalid_digest = 1
number_of image_invalid_source = 2
number_of image_digest_mismatch = 3
number_of image_download_rejected = 4
number_of image_size_mismatch = 5
number_of image_source_changed = 6
number_of image_unsupported_format = 7
number_of linux_invalid_block_device = 8
number_of linux_invalid_procfs = 9
number_of linux_unresolved_device = 10
number_of linux_remount_incomplete = 11
number_of invalid_request = 12
number_of context_canceled = 13
number_of context_deadline_exceeded = 14
number_of os_closed = 15
number_of os_not_exist = 16
number_of io_eof = 17
number_of io_unexpected_eof = 18
number_of io_short_write = 19
number_of io_invalid_write = 20
number_of (other_error n) = 21 + n

abbrev pub sentinel_eq : Sentinel → Sentinel → Bool
sentinel_eq a b = number_of a == number_of b

pub data Argument : Type 0 where
  text : Bytes → Argument
  number : ℤ → Argument

mutual
  -- A formatted text; `shown` formats an error's own text (`%v` or `err.Error()`).
  pub data Message : Type 0 where
    format : String → List Argument → Message
    shown : String → Error → Message

  -- `gate` is `policy.GateError` and `public_gate` the public `GateError`, whose cause may be nil.
  pub data Error : Type 0 where
    sentinel : Sentinel → Error
    wrapped : Message → Error → Error
    gate : GateCode → Message → Error
    public_gate : Bytes → Message → Cause → Error

  pub data Cause : Type 0 where
    no_cause : Cause
    cause : Error → Cause

-- `errors.Is` at an error value
unfoldable mutual
  pub is : Error → Sentinel → Bool
  is (sentinel s) t = sentinel_eq s t
  is (wrapped m e) t = is e t
  is (gate c m) t = false
  is (public_gate c m e) t = is_cause e t

  pub is_cause : Cause → Sentinel → Bool
  is_cause no_cause t = false
  is_cause (cause e) t = is e t

-- `errors.As` at `*policy.GateError`
unfoldable mutual
  pub as_gate : Error → Option (GateCode × Message)
  as_gate (sentinel s) = none
  as_gate (wrapped m e) = as_gate e
  as_gate (gate c m) = some (c, m)
  as_gate (public_gate c m e) = as_gate_cause e

  pub as_gate_cause : Cause → Option (GateCode × Message)
  as_gate_cause no_cause = none
  as_gate_cause (cause e) = as_gate e

-- `(T, error)` where the value is meant only if the error is nil
pub data Result (T : Type 0) : Type 0 where
  err : Error → Result T
  ok : T → Result T

module _ {S T : Type 0} where
  infixl 5 ◌>>=◌
  -- `if err != nil { return …, err }`
  abbrev pub ◌>>=◌ : Result S → (S → Result T) → Result T
  ◌>>=◌ (err failure) rest = err failure
  ◌>>=◌ (ok value) rest = rest value

  pub bind_ok :
      (x : Result S) (rest : S → Result T) (t : T)
      → (x >>= rest) ≡ ok t
      → (s : S) × (x ≡ ok s) × (rest s ≡ ok t)
  bind_ok (err failure) rest t e = absurd (cc)
  bind_ok (ok s) rest t e = (s, refl, e)

module _ {T : Type 0} where
  infixl 5 ◌>>◌
  abbrev pub ◌>>◌ : Result (Unit {0}) → Result T → Result T
  check >> rest = check >>= λ _. rest

-- `if refused { return …, e }`
abbrev pub refuse_if : Bool → Error → Result (Unit {0})
refuse_if true failure = err failure
refuse_if false failure = ok tt

pub Result-cases :
    {A : Type 0} (x : Result A) → ((e : Error) × (x ≡ err e)) ⊎ ((a : A) × (x ≡ ok a))
Result-cases (err e) = inl (e, refl)
Result-cases (ok a) = inr (a, refl)
