-- ===== src/Engine/Validation.antt =====
-- The write and stage requests that diskforge.go accepts.
use diskforge.Base.{
  ◌≡◌, refl, sym, ◌≢◌, ◌↔◌, ◌⊎◌, true, false, [], ◌∷◌, Bytes, codes, Option, some, Option-cases,
  inl, inr, arith, bytes_eq_iff,
}
use diskforge.Base.Int.{pos, ◌<ℤ◌, max_int64, eq_ℤ_iff}
use diskforge.Errors.{ok}
use diskforge.Go.Strings.{is_empty, has_prefix}
use diskforge.Go.FilePath.{clean, is_abs}
use diskforge.Go.Hex.Laws.{IsDigest}
use diskforge.Digest.{digest_test_iff}
use diskforge.Engine.Types.{StageRequest, WriteRequest, mode_rescue, mode_live, Mode}
use diskforge.Engine.Requests.{
  validate_write_request, validate_inspect_request, validate_mode, validate_image_path,
  validate_digest, inspect_part, Url, refused_url, validate_stage_request,
}
use diskforge.Engine.TargetPath.{IsDevicePath, validate_target_path_iff}

pub record IsWritable (request : WriteRequest) : Type 0 where
  pub known_mode : (request.mode ≡ mode_rescue) ⊎ (request.mode ≡ mode_live)
  pub device : IsDevicePath request.target_path
  pub absolute : is_abs request.image_path ≡ true
  pub cleaned : clean request.image_path ≡ request.image_path
  pub digest : IsDigest request.sha256
  pub expands : pos 0 <ℤ request.expected_bytes
  pub confirmed : request.dry_run ≡ false → request.confirmation ≢ []
  pub rescue_stays : request.mode ≡ mode_rescue → request.reboot ≡ false

is_empty_iff : (s : Bytes) → (is_empty s ≡ true) ↔ (s ≡ [])
is_empty_iff [] = (λ e. refl, λ e. refl)
is_empty_iff (c ∷ s) = (λ e. cc, λ e. cc)

validate_mode_iff :
    (mode : Mode) → (validate_mode mode ≡ ok tt) ↔ ((mode ≡ mode_rescue) ⊎ (mode ≡ mode_live))
unfolding validate_mode
validate_mode_iff mode = ground (arith, bytes_eq_iff mode mode_rescue, bytes_eq_iff mode mode_live)

validate_digest_iff : (value : Bytes) → (validate_digest value ≡ ok tt) ↔ IsDigest value
unfolding validate_digest
validate_digest_iff value = ground (arith, digest_test_iff value)

abs_not_empty : (path : Bytes) → is_abs path ≡ true → is_empty path ≡ false
unfolding is_abs has_prefix
abs_not_empty [] h = sym h
abs_not_empty (c ∷ s) h = refl

validate_image_path_iff :
    (path : Bytes)
    → (validate_image_path path ≡ ok tt) ↔ ((is_abs path ≡ true) × (clean path ≡ path))
unfolding validate_image_path
validate_image_path_iff path = ground (arith, abs_not_empty path, bytes_eq_iff (clean path) path)

-- A write request is accepted exactly if its mode is known, its target is a device path, its image
-- path is absolute and clean, its digest is 64 lowercase hexadecimal digits, its size is positive, a
-- confirmation is there unless it is a dry run, and no reboot is asked for in rescue mode.
pub validate_write_request_iff :
    (request : WriteRequest) → (validate_write_request request ≡ ok tt) ↔ IsWritable request
unfolding validate_write_request validate_inspect_request inspect_part
validate_write_request_iff request = (forth, back)
  where
    forth : validate_write_request request ≡ ok tt → IsWritable request
    forth h = record {
      known_mode = (validate_mode_iff request.mode).0 (ground arith);
      device = (validate_target_path_iff request.target_path).0 (ground arith);
      absolute = ((validate_image_path_iff request.image_path).0 (ground arith)).0;
      cleaned = ((validate_image_path_iff request.image_path).0 (ground arith)).1;
      digest = (validate_digest_iff request.sha256).0 (ground arith);
      expands = ground arith;
      confirmed = λ d e. absurd (ground (arith, (is_empty_iff request.confirmation).1 e));
      rescue_stays = λ m. ground (arith, (bytes_eq_iff request.mode mode_rescue).1 m);
    }

    back : IsWritable request → validate_write_request request ≡ ok tt
    back w =
        let e1 = (validate_mode_iff request.mode).1 w.known_mode in
        let e2 = (validate_target_path_iff request.target_path).1 w.device in
        let e3 = (validate_image_path_iff request.image_path).1 (w.absolute, w.cleaned) in
        let e4 = (validate_digest_iff request.sha256).1 w.digest in
        let e5 = w.expands in
        let e6 = w.confirmed in
        let e7 = w.rescue_stays in
        ground (arith, is_empty_iff request.confirmation, bytes_eq_iff request.mode mode_rescue)

-- A stage request with an HTTP or HTTPS URL of a host, without userinfo, and a clean destination, whose
-- bound is positive and below the largest int64.
pub record IsStageable (parse_request_uri : Bytes → Option Url) (request : StageRequest)
    : Type 0 where
  pub parsed : Url
  pub read : parse_request_uri request.url ≡ some parsed
  pub hosted : parsed.host ≢ []
  pub userless : parsed.has_user ≡ false
  pub scheme : (parsed.scheme ≡ codes "http") ⊎ (parsed.scheme ≡ codes "https")
  pub absolute : is_abs request.destination ≡ true
  pub cleaned : clean request.destination ≡ request.destination
  pub digest : IsDigest request.sha256
  pub positive : pos 0 <ℤ request.maximum_bytes
  pub bounded : request.maximum_bytes ≢ pos max_int64

url_ok :
    (parsed : Url)
    → refused_url (some parsed) ≡ false
    → (parsed.host ≢ [])
      × (parsed.has_user ≡ false)
      × ((parsed.scheme ≡ codes "http") ⊎ (parsed.scheme ≡ codes "https"))
unfolding refused_url
url_ok parsed h = (
  λ e. absurd (ground (arith, (is_empty_iff parsed.host).1 e)),
  ground arith,
  ground (
    arith,
    bytes_eq_iff parsed.scheme (codes "http"),
    bytes_eq_iff parsed.scheme (codes "https"),
  ),
)

pub validate_stage_request-IsStageable :
    (parse_request_uri : Bytes → Option Url) (request : StageRequest)
    → validate_stage_request parse_request_uri request ≡ ok tt
    → IsStageable parse_request_uri request
unfolding validate_stage_request
validate_stage_request-IsStageable parse_request_uri request h =
    elim (Option-cases (parse_request_uri request.url)) [
      | inl n ↦ absurd (unfold refused_url in ground arith)
      | inr (parsed, n) ↦
          let accepted : refused_url (some parsed) ≡ false = ground arith in
          let (hosted, userless, scheme) = url_ok parsed accepted in
          let (absolute, cleaned) =
            (validate_image_path_iff request.destination).0 (ground arith) in
          record {
            parsed = parsed;
            read = n;
            hosted = hosted;
            userless = userless;
            scheme = scheme;
            absolute = absolute;
            cleaned = cleaned;
            digest = (validate_digest_iff request.sha256).0 (ground arith);
            positive = ground arith;
            bounded =
                λ e. absurd (ground (arith, (eq_ℤ_iff request.maximum_bytes (pos max_int64)).1 e));
          }
    ]
