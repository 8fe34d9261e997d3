-- ===== src/Linux/Execute/Identity.antt =====
-- What `sameIdentity` compares.
use diskforge.Base.{◌≡◌, ◌↔◌, some, true, arith, bytes_eq_iff}
use diskforge.Base.Int.{eq_ℤ_iff}
use diskforge.Policy.Model.{Inspection}
use diskforge.Image.Model.{Verified}
use diskforge.Linux.Boundary.{Request}
use diskforge.Linux.Execute.{same_identity}

-- The request, the inspection and the verified source speak of one mode, target and image.
pub record IsIdentical (request : Request) (inspection : Inspection) (verified : Verified)
    : Type 0 where
  pub mode : inspection.mode ≡ request.mode
  pub target_path : inspection.target.canonical_path ≡ request.target_path
  pub image_path : inspection.image.path ≡ request.image_path
  pub image_sha256 : inspection.image.sha256 ≡ request.sha256
  pub expanded : inspection.image.uncompressed_bytes ≡ request.expected_bytes
  pub verified_path : verified.path ≡ inspection.image.path
  pub verified_sha256 : verified.sha256 ≡ inspection.image.sha256
  pub verified_bytes : verified.compressed_bytes ≡ inspection.image.compressed_bytes

pub same_identity_iff :
    (request : Request) (inspection : Inspection) (verified : Verified)
    → (same_identity request inspection (some verified) ≡ true)
      ↔ IsIdentical request inspection verified
unfolding same_identity
same_identity_iff request inspection verified = (
  λ e. record {
    mode = (bytes_eq_iff inspection.mode request.mode).0 (ground arith);
    target_path =
        (bytes_eq_iff inspection.target.canonical_path request.target_path).0 (ground arith);
    image_path = (bytes_eq_iff inspection.image.path request.image_path).0 (ground arith);
    image_sha256 = (bytes_eq_iff inspection.image.sha256 request.sha256).0 (ground arith);
    expanded =
        (eq_ℤ_iff inspection.image.uncompressed_bytes request.expected_bytes).0 (ground arith);
    verified_path = (bytes_eq_iff verified.path inspection.image.path).0 (ground arith);
    verified_sha256 = (bytes_eq_iff verified.sha256 inspection.image.sha256).0 (ground arith);
    verified_bytes =
        (eq_ℤ_iff verified.compressed_bytes inspection.image.compressed_bytes).0 (ground arith);
  },
  λ i. ground (
    arith,
    (bytes_eq_iff inspection.mode request.mode).1 i.mode,
    (bytes_eq_iff inspection.target.canonical_path request.target_path).1 i.target_path,
    (bytes_eq_iff inspection.image.path request.image_path).1 i.image_path,
    (bytes_eq_iff inspection.image.sha256 request.sha256).1 i.image_sha256,
    (eq_ℤ_iff inspection.image.uncompressed_bytes request.expected_bytes).1 i.expanded,
    (bytes_eq_iff verified.path inspection.image.path).1 i.verified_path,
    (bytes_eq_iff verified.sha256 inspection.image.sha256).1 i.verified_sha256,
    (eq_ℤ_iff verified.compressed_bytes inspection.image.compressed_bytes).1 i.verified_bytes,
  ),
)
