-- ===== src/Engine/Staging.antt =====
-- diskforge.go: `Stage` and `StagedImage.Close`.
use diskforge.Base.{
  ℕ, ◌≡◌, inl, inr, refl, ap, ◌∙◌, true, false, Option, none, some, List, [], Bytes, bytes_eq_iff,
  arith,
}
use diskforge.Base.Int.{ℤ, IsInt64}
use diskforge.Errors.{Error, Result, ok, err, ◌>>◌, Result-cases}
use diskforge.Image.Model.{Verified, Format}
use diskforge.Image.Closing.{close}
use diskforge.Image.Stage.{Client, Response, Disk, Published, nothing, stage, cleaned}
use diskforge.Image.Verify.Outcomes.{described}
use diskforge.Go.Hex.{encode_to_string}
use diskforge.Image.Stage.Inputs.{IsAsked}
use diskforge.Image.Stage.Outcomes.{
  IsStored, stage_publishes, stage-EndsClean, refused, discarded, unsynced, published,
}
use diskforge.Image.Stage.Publication.{IsReceived}
use diskforge.Engine.Validation.{IsStageable, validate_stage_request-IsStageable}
use diskforge.Engine.{public_error}
use diskforge.Engine.Types.{StageRequest}
use diskforge.Engine.Requests.{Context, Url, validate_context, validate_stage_request}

-- `close` is none if nil, and otherwise the `Close` of the verified source.
pub record StagedImage : Type 0 where
  pub path : Bytes
  pub sha256 : Bytes
  pub format : Format
  pub compressed_bytes : ℤ
  pub source : Option Verified

-- `StagedImage.Close`: the result, the image afterwards, and the descriptors closed.
unfoldable pub close_staged :
    (ℕ → Result (Unit {0})) → Option StagedImage → Result (Unit {0}) × Option StagedImage × List ℕ
unfolding close
close_staged closing none = (ok tt, none, [])
close_staged closing (some staged) = elim staged.source [
  | none ↦ (ok tt, some staged, [])
  | some v ↦
      let (result, source, closed) = close closing (some v) in
      (result, some (record staged { source = source }), closed)
]

abbrev pub staged_of : Verified → StagedImage
staged_of v = record {
  path = v.path;
  sha256 = v.sha256;
  format = v.format;
  compressed_bytes = v.compressed_bytes;
  source = some v;
}

abbrev pub staged_result : Result Verified → Result StagedImage
staged_result (ok v) = ok (staged_of v)
staged_result (err e) = err (public_error e)

module _ (sha256 : Bytes → Bytes) (parse_request_uri : Bytes → Option Url) where
  -- `again` is what the context's `Err` gives inside `image.Stage`.
  unfoldable pub engine_stage :
      Context → Option Error → Client → Disk → StageRequest → Result StagedImage × Published
  engine_stage context again client disk request =
      elim (validate_context context >> validate_stage_request parse_request_uri request) [
        | err e ↦ (err e, nothing e)
        | ok done ↦
            let p =
              stage sha256 (some again) (some client) disk request.url request.destination
                request.sha256 request.maximum_bytes in
            (staged_result p.result, p)
      ]

  staged_ok :
      (r : Result Verified) (image : StagedImage)
      → staged_result r ≡ ok image
      → (v : Verified) × (r ≡ ok v) × (image ≡ staged_of v)
  staged_ok (err e) image h = absurd (cc)
  staged_ok (ok v) image h = (v, refl, cc)

  module _ (context : Context) (again : Option Error) (client : Client) (disk : Disk)
      (request : StageRequest) where
    abbrev inner : Published
    inner =
        stage sha256 (some again) (some client) disk request.url request.destination request.sha256
          request.maximum_bytes

    -- What a successful stage has left: the image says what was asked for and what was read back, and
    -- its source holds the descriptor of the partial file.
    pub record IsStagedAs (image : StagedImage) : Type 0 where
      pub accepted : IsStageable parse_request_uri request
      pub response : Response
      pub asked :
          IsAsked sha256
            (some again)
            (some client)
            disk
            request.url
            request.destination
            request.sha256
            request.maximum_bytes
            response
      pub stored :
          IsStored sha256
            (some again)
            (some client)
            disk
            request.url
            request.destination
            request.sha256
            request.maximum_bytes
            response
      pub received :
          IsReceived sha256 response request.destination request.sha256 request.maximum_bytes
      pub path : image.path ≡ request.destination
      pub digest : image.sha256 ≡ request.sha256
      pub format : image.format ≡ stored.verified.format
      pub size : image.compressed_bytes ≡ stored.verified.compressed_bytes
      pub source : image.source ≡ some stored.verified
      pub descriptor : stored.verified.file ≡ some stored.partial.descriptor
      pub left :
          (engine_stage context again client disk request).1
          ≡ record { result = ok stored.verified; renamed = true; closed = false; removed = true }

    kept :
        (v : Verified)
        → IsInt64 request.maximum_bytes
        → inner.result ≡ ok v
        → inner ≡ cleaned true (ok v)
    kept v i h =
        elim (stage-EndsClean sha256 (some again) (some client) disk request.url request.destination
          request.sha256 request.maximum_bytes i) [
            | refused e why same ↦ absurd (let f = ap (λ p. p.result) same in cc)
            | discarded e partial made same ↦ absurd (let f = ap (λ p. p.result) same in cc)
            | unsynced e partial made moved s same ↦ absurd (let f = ap (λ p. p.result) same in cc)
            | published w partial made moved s same ↦
                let f = ap (λ p. p.result) same in
                let one : w ≡ v = cc in same ∙ ap (λ x. cleaned true (ok x)) one
          ]

    -- A successful public Stage had a request with an HTTP or HTTPS URL and a clean absolute
    -- destination, has published the whole body of a successful response there, bounded and with the
    -- requested hash, and gives an image with the destination, the requested hash, and the format and
    -- size that were read back from the partial file, whose descriptor the image's source keeps open.
    pub engine_stage_ok :
        (image : StagedImage)
        → IsInt64 request.maximum_bytes
        → (engine_stage context again client disk request).0 ≡ ok image
        → IsStagedAs image
    unfolding engine_stage
    engine_stage_ok image i h =
        elim (Result-cases
          (validate_context context >> validate_stage_request parse_request_uri request)) [
            | inl (e, v) ↦ absurd (ground arith)
            | inr (done, v) ↦
                let (w, found, staged) = staged_ok inner.result image (ground arith) in
                let whole = kept w i found in
                let (response, asked, stored, received) =
                  stage_publishes sha256 (some again) (some client) disk request.url
                    request.destination request.sha256 request.maximum_bytes i
                    (ap (λ p. p.renamed) whole) in
                let same : w ≡ stored.verified = stored.given w found in
                let (content, a, b, c, path, digest, size, file, format) =
                  described sha256 request.destination request.sha256 (ok 0) stored.partial.source
                    stored.partial.descriptor stored.checked in
                record {
                  accepted =
                      validate_stage_request-IsStageable parse_request_uri request (ground arith);
                  response = response;
                  asked = asked;
                  stored = stored;
                  received = received;
                  path = ap (λ x. x.path) staged ∙ ap (λ x. x.path) same ∙ path;
                  digest =
                      ap (λ x. x.sha256) staged
                      ∙ ap (λ x. x.sha256) same
                      ∙ digest
                      ∙ (bytes_eq_iff (encode_to_string (sha256 content)) request.sha256).0 c;
                  format = ap (λ x. x.format) staged ∙ ap (λ x. x.format) same;
                  size = ap (λ x. x.compressed_bytes) staged ∙ ap (λ x. x.compressed_bytes) same;
                  source = ap (λ x. x.source) staged ∙ ap some same;
                  descriptor = file;
                  left =
                      let begun : (engine_stage context again client disk request).1 ≡ inner =
                        ground arith in
                      begun ∙ whole ∙ ap (λ x. cleaned true (ok x)) same;
                }
          ]
