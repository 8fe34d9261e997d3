-- ===== src/Linux/OpenedTarget.antt =====
-- internal/linux/system.go: `OpenTarget` and the validation of the descriptor that it opens.
pub mod Identity
use Prim.Native.Nat.{bit_and}
use diskforge.Base.{
  ℕ, Bool, true, false, not, ◌&&◌, ◌||◌, Option, none, some, List, [], ◌∷◌, Bytes, codes, bytes_eq,
  ◌==◌, if◌then◌else◌,
}
use diskforge.Base.Int.{ℤ, eq_ℤ}
use diskforge.Errors.{
  Error, Message, Result, ok, err, sentinel, wrapped, gate, format, shown, text, refuse_if, ◌>>=◌,
  ◌>>◌, linux_invalid_block_device, linux_invalid_procfs, identity_changed,
}
use diskforge.Go.Strings.{cut}
use diskforge.Go.FilePath.{join_path}
use diskforge.Go.Numbers.{parse_uint32}
use diskforge.Image.Streams.{wrap_err}
use diskforge.Policy.Model.{Mode, mode_rescue, TargetIdentity}
use diskforge.Linux.Files.{Observer}
use diskforge.Linux.Sysfs.{block_path, read_trimmed}
use diskforge.Linux.Devices.{target}

-- `unix.Stat_t` of a descriptor: the mode, and `unix.Major` and `unix.Minor` of `Rdev`.
pub record DescriptorStat : Type 0 where
  pub mode : ℕ
  pub major : ℕ
  pub minor : ℕ

-- What the kernel answers: `Open` at a path, exclusively or not, and the two `Fstat` of a descriptor.
pub record Descriptors : Type 0 where
  pub open_path : Bytes → Bool → Result ℕ
  pub fstat : ℕ → Result DescriptorStat
  pub fstat_again : ℕ → Result DescriptorStat

unfoldable pub same_strings : List Bytes → List Bytes → Bool
same_strings [] [] = true
same_strings [] (y ∷ ys) = false
same_strings (x ∷ xs) [] = false
same_strings (x ∷ xs) (y ∷ ys) = bytes_eq x y && same_strings xs ys

abbrev same_flag : Bool → Bool → Bool
same_flag true b = b
same_flag false b = not b

unfoldable pub same_target : TargetIdentity → TargetIdentity → Bool
unfolding same_strings
same_target current expected =
    bytes_eq current.canonical_path expected.canonical_path
    && (bytes_eq current.serial expected.serial
        && (bytes_eq current.wwn expected.wwn
            && (eq_ℤ current.size_bytes expected.size_bytes
                && (bytes_eq current.kname expected.kname
                    && (same_flag current.is_partition expected.is_partition
                        && same_strings current.descendants expected.descendants)))))

abbrev number_part : Error → Option ℕ → Result ℕ
number_part e none = err e
number_part e (some n) = ok n

-- The two numbers that the text of a `dev` file gives.
unfoldable pub parse_device_number : Bytes → Result (ℕ × ℕ)
unfolding cut
parse_device_number value = elim (cut value b':') [
  | none ↦
      err
        (wrapped (format "%w: device number %q" (text value ∷ [])) (sentinel linux_invalid_procfs))
  | some parts ↦ do
    major ←
        number_part
          (wrapped (format "%w: major device number %q" (text parts.0 ∷ []))
            (sentinel linux_invalid_procfs))
          (parse_uint32 parts.0)
    minor ←
        number_part
          (wrapped (format "%w: minor device number %q" (text parts.1 ∷ []))
            (sentinel linux_invalid_procfs))
          (parse_uint32 parts.1)
    ok (major, minor)
]

unfoldable pub device_number : Observer → Bytes → Result (ℕ × ℕ)
unfolding parse_device_number
device_number observer name = do
  path ← block_path observer name
  value ← read_trimmed observer.files (join_path (path ∷ codes "dev" ∷ []))
  parse_device_number value

module _ {A : Type 0} where
  -- `if err != nil { return identityChanged("…%v", err) }`
  abbrev pub or_changed : (Error → Message) → Result A → Result A
  or_changed message (ok a) = ok a
  or_changed message (err e) = err (gate identity_changed (message e))

unfoldable pub validate_opened_target :
    Observer → Result DescriptorStat → TargetIdentity → Result (Unit {0})
unfolding same_target device_number
validate_opened_target observer stat expected = do
  current ← or_changed (shown "observe opened target: %v") (target observer expected.canonical_path)
  refuse_if (not (same_target current expected))
      (gate identity_changed (format "sysfs target identity no longer matches confirmation" []))
  numbers ←
      or_changed (shown "read opened target device number: %v")
        (device_number observer expected.kname)
  opened ← wrap_err (format "stat opened target: %w" []) stat
  refuse_if (not (opened.major == numbers.0) || not (opened.minor == numbers.1))
      (gate identity_changed (format "opened descriptor does not match confirmed sysfs device" []))

-- `S_IFMT` and `S_IFBLK`
unfoldable pub is_block_device : DescriptorStat → Bool
is_block_device stat = bit_and stat.mode 0xf000 == 0x6000

unfoldable pub validate_descriptor : Observer → Descriptors → ℕ → TargetIdentity → Result (Unit {0})
unfolding is_block_device validate_opened_target
validate_descriptor observer calls descriptor expected = do
  stat ← wrap_err (format "stat block target: %w" []) (calls.fstat descriptor)
  refuse_if (not (is_block_device stat)) (
      wrapped (format "%w: target descriptor is not a block device" [])
        (sentinel linux_invalid_block_device))
  validate_opened_target observer (calls.fstat_again descriptor) expected

abbrev pub keep_or_close : ℕ → Result (Unit {0}) → Result ℕ × List ℕ
keep_or_close descriptor (ok done) = (ok descriptor, [])
keep_or_close descriptor (err e) = (err e, descriptor ∷ [])

-- The opened target, and the descriptors closed again. `O_EXCL` is for rescue mode.
unfoldable pub open_target :
    Observer → Descriptors → Bytes → Mode → TargetIdentity → Result ℕ × List ℕ
unfolding validate_descriptor
open_target observer calls path mode expected =
    elim (calls.open_path path (bytes_eq mode mode_rescue)) [
      | err e ↦ (err (wrapped (format "open block target: %w" []) e), [])
      | ok descriptor ↦
          keep_or_close descriptor (validate_descriptor observer calls descriptor expected)
    ]
