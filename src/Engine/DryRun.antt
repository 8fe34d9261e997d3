-- ===== src/Engine/DryRun.antt =====
-- What a dry run of the public `Write` has seen and reports.
use diskforge.Base.{◌≡◌, true, some, [], ◌∷◌, ◌++◌}
use diskforge.Base.Int.{pos}
use diskforge.Errors.{ok}
use diskforge.Policy.Model.{Inspection}
use diskforge.Image.Model.{Verified}
use diskforge.Linux.Boundary
use diskforge.Linux.Boundary.{Request, Call, Trace}
use diskforge.Linux.Execute.Identity.{IsIdentical}
use diskforge.Engine.Types
use diskforge.Engine.Types.{WriteRequest, WriteResult}

-- The request that is passed on, field by field.
abbrev pub passed_on : WriteRequest → Request
passed_on request = record {
  mode = request.mode;
  target_path = request.target_path;
  image_path = request.image_path;
  sha256 = request.sha256;
  expected_bytes = request.expected_bytes;
  confirmation = request.confirmation;
  reboot = request.reboot;
}

-- The reported inspection, field by field.
abbrev pub reported : Inspection → Types.Inspection
reported inspection = record {
  mode = inspection.mode;
  target = record {
    canonical_path = inspection.target.canonical_path;
    serial = inspection.target.serial;
    wwn = inspection.target.wwn;
    size_bytes = inspection.target.size_bytes;
    kname = inspection.target.kname;
    is_partition = inspection.target.is_partition;
    descendants = inspection.target.descendants;
  };
  image = record {
    path = inspection.image.path;
    sha256 = inspection.image.sha256;
    format = inspection.image.format;
    compressed_bytes = inspection.image.compressed_bytes;
    uncompressed_bytes = inspection.image.uncompressed_bytes;
  };
  confirmation_token = inspection.confirmation_token;
}

-- Inspection and verification have succeeded with one identity, and the source was closed behind them.
pub record IsDryRun (system : Boundary.Boundary) (request : WriteRequest) (before : Trace)
    (r : WriteResult) (made : Trace) : Type 0 where
  pub inspection : Inspection
  pub verified : Verified
  pub traced :
      made
      ≡ Call.inspect (passed_on request)
        ∷ Call.verify_image request.image_path request.sha256
        ∷ Call.close_source verified
        ∷ []
  pub inspected : system.inspect before (passed_on request) ≡ ok inspection
  pub verifying :
      system.verify_image
        (before ++ Call.inspect (passed_on request) ∷ [])
        request.image_path
        request.sha256
      ≡ ok (some verified)
  pub identical : IsIdentical (passed_on request) inspection verified
  pub unwritten : r.written_bytes ≡ pos 0
  pub dry : r.dry_run ≡ true
  pub shown : r.inspection ≡ reported inspection
