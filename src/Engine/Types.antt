-- ===== src/Engine/Types.antt =====
-- types.go and the codes of errors.go: the public types, which repeat those of internal/policy.
use diskforge.Base.{Bool, false, not, ◌&&◌, ◌||◌, List, [], Bytes, codes, bytes_eq}
use diskforge.Base.Int.{ℤ, pos}
use diskforge.Go.Strings.{is_empty}
use diskforge.Errors.{Error, Cause, sentinel, wrapped, gate, public_gate, no_cause, cause}

abbrev pub Mode : Type 0
Mode = Bytes

abbrev pub mode_rescue : Mode
mode_rescue = codes "rescue"

abbrev pub mode_live : Mode
mode_live = codes "live"

pub record TargetIdentity : Type 0 where
  pub canonical_path : Bytes
  pub serial : Bytes
  pub wwn : Bytes
  pub size_bytes : ℤ
  pub kname : Bytes
  pub is_partition : Bool
  pub descendants : List Bytes

pub record ImageIdentity : Type 0 where
  pub path : Bytes
  pub sha256 : Bytes
  pub format : Bytes
  pub compressed_bytes : ℤ
  pub uncompressed_bytes : ℤ

pub record Inspection : Type 0 where
  pub mode : Mode
  pub target : TargetIdentity
  pub image : ImageIdentity
  pub confirmation_token : Bytes

pub record InspectRequest : Type 0 where
  pub mode : Mode
  pub target_path : Bytes
  pub image_path : Bytes
  pub sha256 : Bytes
  pub expected_bytes : ℤ

pub record StageRequest : Type 0 where
  pub url : Bytes
  pub destination : Bytes
  pub sha256 : Bytes
  pub maximum_bytes : ℤ

pub record WriteRequest : Type 0 where
  pub mode : Mode
  pub target_path : Bytes
  pub image_path : Bytes
  pub sha256 : Bytes
  pub expected_bytes : ℤ
  pub confirmation : Bytes
  pub reboot : Bool
  pub dry_run : Bool

pub record WriteResult : Type 0 where
  pub written_bytes : ℤ
  pub dry_run : Bool
  pub inspection : Inspection

-- `Inspection{}`
abbrev pub zero_inspection : Inspection
zero_inspection = record {
  mode = [];
  target = record {
    canonical_path = [];
    serial = [];
    wwn = [];
    size_bytes = pos 0;
    kname = [];
    is_partition = false;
    descendants = [];
  };
  image = record {
    path = [];
    sha256 = [];
    format = [];
    compressed_bytes = pos 0;
    uncompressed_bytes = pos 0;
  };
  confirmation_token = [];
}

abbrev pub gate_invalid_target : Bytes
gate_invalid_target = codes "invalid_target"

abbrev pub gate_invalid_digest : Bytes
gate_invalid_digest = codes "invalid_digest"

abbrev pub gate_invalid_image_size : Bytes
gate_invalid_image_size = codes "invalid_image_size"

abbrev pub gate_invalid_mode : Bytes
gate_invalid_mode = codes "invalid_mode"

abbrev pub gate_confirmation : Bytes
gate_confirmation = codes "confirmation_mismatch"

-- `errors.Is(err, &GateError{Code: code})`, which asks `GateError.Is` along the chain.
unfoldable mutual
  pub is_refusal : Error → Bytes → Bool
  is_refusal (sentinel s) code = false
  is_refusal (wrapped m e) code = is_refusal e code
  is_refusal (gate c m) code = false
  is_refusal (public_gate own m e) code =
      (not (is_empty code) && bytes_eq own code) || is_refusal_cause e code

  pub is_refusal_cause : Cause → Bytes → Bool
  is_refusal_cause no_cause code = false
  is_refusal_cause (cause e) code = is_refusal e code
