-- ===== src/Engine/Requests.antt =====
-- diskforge.go: the tests on requests and the conversions between the public and the inner types.
-- `url.ParseRequestURI` is the parameter `parse_request_uri`.
use diskforge.Base.{
  Bool, true, false, not, ◌&&◌, ◌||◌, Option, none, some, [], ◌∷◌, Bytes, codes, bytes_eq,
}
use diskforge.Base.Int.{pos, leb_ℤ, eq_ℤ, max_int64}
use diskforge.Go.Strings.{is_empty}
use diskforge.Go.FilePath.{is_abs, clean, base, dir}
use diskforge.Digest.{digest_test}
use diskforge.Errors.{
  Error, wrapped, sentinel, invalid_request, public_gate, no_cause, format, text, Result, ok,
  refuse_if, ◌>>◌, Message, err,
}
use diskforge.Engine.Types
use diskforge.Engine.Types.{
  Mode, InspectRequest, StageRequest, WriteRequest, gate_invalid_target, gate_invalid_digest,
  gate_invalid_image_size, gate_invalid_mode, gate_confirmation,
}
use diskforge.Policy.Model
use diskforge.Linux.Boundary.{Request}

-- A context: nil, or what its `Err` gives at the entry.
abbrev pub Context : Type 0
Context = Option (Option Error)

-- `fmt.Errorf("%w: …", ErrInvalidRequest)`
abbrev pub invalid : Message → Error
invalid m = wrapped m (sentinel invalid_request)

unfoldable pub validate_context : Context → Result (Unit {0})
validate_context none = err (invalid (format "%w: context is nil" []))
validate_context (some none) = ok tt
validate_context (some (some e)) = err e

abbrev pub mode_error : Mode → Error
mode_error mode =
    public_gate gate_invalid_mode (format "unsupported write mode %q" (text mode ∷ [])) no_cause

unfoldable pub validate_mode : Mode → Result (Unit {0})
validate_mode mode =
    refuse_if (not (bytes_eq mode Types.mode_rescue) && not (bytes_eq mode Types.mode_live))
      (mode_error mode)

abbrev pub target_path_error : Error
target_path_error =
    public_gate gate_invalid_target (format "target must be a canonical /dev/<name> path" [])
      no_cause

unfoldable pub validate_target_path : Bytes → Result (Unit {0})
validate_target_path path =
    refuse_if
      (not (bytes_eq (clean path) path)
        || (not (is_abs path)
            || (not (bytes_eq (dir path) (codes "/dev")) || bytes_eq (base path) (codes "."))))
      target_path_error

abbrev pub image_path_error : Error
image_path_error = invalid (format "%w: image path must be canonical and absolute" [])

unfoldable pub validate_image_path : Bytes → Result (Unit {0})
validate_image_path path =
    refuse_if (is_empty path || (not (is_abs path) || not (bytes_eq (clean path) path)))
      image_path_error

abbrev pub digest_error : Error
digest_error =
    public_gate gate_invalid_digest
      (format "SHA-256 digest must contain exactly 64 lowercase hexadecimal characters" []) no_cause

unfoldable pub validate_digest : Bytes → Result (Unit {0})
validate_digest value = refuse_if (not (digest_test value)) digest_error

abbrev pub image_size_error : Error
image_size_error =
    public_gate gate_invalid_image_size (format "expected image size must be positive" []) no_cause

unfoldable pub validate_inspect_request : InspectRequest → Result (Unit {0})
validate_inspect_request request = do
  validate_mode request.mode
  validate_target_path request.target_path
  validate_image_path request.image_path
  validate_digest request.sha256
  refuse_if (leb_ℤ request.expected_bytes (pos 0)) image_size_error

-- `url.URL`, as far as it is read: the scheme, the host and whether `User` is there.
pub record Url : Type 0 where
  pub scheme : Bytes
  pub host : Bytes
  pub has_user : Bool

unfoldable pub refused_url : Option Url → Bool
refused_url none = true
refused_url (some parsed) =
    is_empty parsed.host
    || (parsed.has_user
        || (not (bytes_eq parsed.scheme (codes "http"))
            && not (bytes_eq parsed.scheme (codes "https"))))

unfoldable pub validate_stage_request : (Bytes → Option Url) → StageRequest → Result (Unit {0})
validate_stage_request parse_request_uri request = do
  refuse_if (refused_url (parse_request_uri request.url))
      (invalid (format "%w: stage URL must be an absolute HTTP(S) URL without userinfo" []))
  validate_image_path request.destination
  validate_digest request.sha256
  refuse_if (leb_ℤ request.maximum_bytes (pos 0) || eq_ℤ request.maximum_bytes (pos max_int64))
      (invalid (format "%w: maximum stage size must be positive and bounded" []))

-- The `InspectRequest` that `validateWriteRequest` and `linuxWriteRequest` both build.
unfoldable pub inspect_part : WriteRequest → InspectRequest
inspect_part request = record {
  mode = request.mode;
  target_path = request.target_path;
  image_path = request.image_path;
  sha256 = request.sha256;
  expected_bytes = request.expected_bytes;
}

unfoldable pub validate_write_request : WriteRequest → Result (Unit {0})
validate_write_request request = do
  validate_inspect_request (inspect_part request)
  refuse_if (not request.dry_run && is_empty request.confirmation)
      (public_gate gate_confirmation (format "confirmation token is required" []) no_cause)
  refuse_if (bytes_eq request.mode Types.mode_rescue && request.reboot)
      (invalid (format "%w: reboot is valid only in live mode" []))

unfoldable pub linux_request : InspectRequest → Request
linux_request request = record {
  mode = request.mode;
  target_path = request.target_path;
  image_path = request.image_path;
  sha256 = request.sha256;
  expected_bytes = request.expected_bytes;
  confirmation = [];
  reboot = false;
}

unfoldable pub linux_write_request : WriteRequest → Request
unfolding linux_request inspect_part
linux_write_request request = record (linux_request (inspect_part request)) {
  confirmation = request.confirmation;
  reboot = request.reboot;
}

-- `append([]string(nil), …)` gives an equal list.
unfoldable pub to_policy_target : Types.TargetIdentity → Model.TargetIdentity
to_policy_target target = record {
  canonical_path = target.canonical_path;
  serial = target.serial;
  wwn = target.wwn;
  size_bytes = target.size_bytes;
  kname = target.kname;
  is_partition = target.is_partition;
  descendants = target.descendants;
}

unfoldable pub to_policy_image : Types.ImageIdentity → Model.ImageIdentity
to_policy_image source = record {
  path = source.path;
  sha256 = source.sha256;
  format = source.format;
  compressed_bytes = source.compressed_bytes;
  uncompressed_bytes = source.uncompressed_bytes;
}

unfoldable pub from_policy_target : Model.TargetIdentity → Types.TargetIdentity
from_policy_target target = record {
  canonical_path = target.canonical_path;
  serial = target.serial;
  wwn = target.wwn;
  size_bytes = target.size_bytes;
  kname = target.kname;
  is_partition = target.is_partition;
  descendants = target.descendants;
}

unfoldable pub from_policy_image : Model.ImageIdentity → Types.ImageIdentity
from_policy_image source = record {
  path = source.path;
  sha256 = source.sha256;
  format = source.format;
  compressed_bytes = source.compressed_bytes;
  uncompressed_bytes = source.uncompressed_bytes;
}

unfoldable pub from_policy_inspection : Model.Inspection → Types.Inspection
unfolding from_policy_target from_policy_image
from_policy_inspection inspection = record {
  mode = inspection.mode;
  target = from_policy_target inspection.target;
  image = from_policy_image inspection.image;
  confirmation_token = inspection.confirmation_token;
}
