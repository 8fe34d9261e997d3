-- ===== src/Image/Stage/Publication.antt =====
-- What the body of a published image has passed.
use diskforge.Base.{
  ℕ, ◌+◌, ◌^◌, ◌<◌, ◌≡◌, refl, sym, ap, ◌∙◌, none, [], Bytes, arith, length, bytes_eq_iff,
}
use diskforge.Base.Int.{ℤ, pos, ◌≤ℤ◌, eq_ℤ_iff}
use diskforge.Errors.{Result, ok, err, bind_ok, format}
use diskforge.Go.Hex.{encode_to_string}
use diskforge.Image.Model.{Verified}
use diskforge.Image.Streams.{wrap_err, copy_limited}
use diskforge.Image.Streams.Laws.{flat}
use diskforge.Image.Streams.Whole.{copy_whole}
use diskforge.Image.Verify.{verify_descriptor, no_context}
use diskforge.Image.Stage.{
  Response, Partial, read_limit, copy_body, copied_content, check_received, fill,
}

-- A size that the guards accept.
abbrev pub IsMaximum : ℤ → Type 0
IsMaximum maximum = (n : ℕ) × (maximum ≡ pos n) × (0 < n) × (n + 1 < 2 ^ 63)

-- Below the largest int64, one more is no overflow.
read_limit-IsMaximum :
    (maximum : ℤ) (n : ℕ) → maximum ≡ pos n → n + 1 < 2 ^ 63 → read_limit maximum ≡ n + 1
unfolding read_limit
read_limit-IsMaximum maximum n e b = rw e (ground arith)

module _ (sha256 : Bytes → Bytes) (response : Response) (destination expected : Bytes)
    (maximum : ℤ) where
  -- What the body of a response has passed.
  pub record IsReceived : Type 0 where
    pub ended : response.finish ≡ none
    pub bounded : pos (length (flat response.body)) ≤ℤ maximum
    pub announced :
        pos 0 ≤ℤ response.content_length
        → pos (length (flat response.body)) ≡ response.content_length
    pub digest : encode_to_string (sha256 (flat response.body)) ≡ expected

  check_received_ok :
      (content : Bytes)
      → check_received sha256 content response.content_length expected maximum ≡ ok tt
      → (pos (length content) ≤ℤ maximum)
        × (pos 0 ≤ℤ response.content_length → pos (length content) ≡ response.content_length)
        × (encode_to_string (sha256 content) ≡ expected)
  unfolding check_received
  check_received_ok content e = (
    ground arith,
    λ k. (eq_ℤ_iff (pos (length content)) response.content_length).0 (ground arith),
    (bytes_eq_iff (encode_to_string (sha256 content)) expected).0 (ground arith),
  )

  copied_whole :
      (partial : Partial) (content : Bytes)
      → IsMaximum maximum
      → copied_content (copy_body partial response maximum) ≡ ok content
      → pos (length content) ≤ℤ maximum
      → (content ≡ flat response.body) × (response.finish ≡ none)
  unfolding copy_body
  copied_whole partial content (n, same, positive, small) e b =
      let limit = read_limit-IsMaximum maximum n same small in
      let quiet : (copy_limited partial.writer no_context response.finish 0 [] (read_limit maximum)
            response.body).failure
          ≡ none =
        ground arith in
      let copied : (copy_limited partial.writer no_context response.finish 0 [] (read_limit maximum)
            response.body).content
          ≡ content =
        ground arith in
      let size = ap length copied in
      let room : length content < n + 1 = ground arith in
      let (taken, ended) =
        copy_whole partial.writer no_context response.finish 0 [] (read_limit maximum) response.body
          quiet (omega (arith, size, limit, room)) in
      (sym copied ∙ taken, ended)

  synced_ok :
      (r : Result (Unit {0})) → wrap_err (format "sync partial image: %w" []) r ≡ ok tt → r ≡ ok tt
  synced_ok (err e) h = absurd (cc)
  synced_ok (ok done) h = refl

  pub fill_ok :
      (partial : Partial) (v : Verified)
      → IsMaximum maximum
      → fill sha256 partial response destination expected maximum ≡ ok v
      → IsReceived
        × (verify_descriptor sha256 partial.descriptor partial.source destination expected ≡ ok v)
        × (partial.writer.sync (flat response.body) ≡ ok tt)
  unfolding fill
  fill_ok partial v bound e =
      let (u1, c1, e1) =
        bind_ok (wrap_err (format "set partial image permissions: %w" []) partial.chmod) _ v e in
      let (content, c2, e2) =
        bind_ok (copied_content (copy_body partial response maximum)) _ v e1 in
      let (u3, c3, e3) =
        bind_ok (check_received sha256 content response.content_length expected maximum) _ v e2 in
      let (u4, c4, e4) =
        bind_ok (wrap_err (format "sync partial image: %w" []) (partial.writer.sync content)) _ v
          e3 in
      let (small, announced, digest) = check_received_ok content c3 in
      let (whole, ended) = copied_whole partial content bound c2 small in
      (
        record {
          ended = ended;
          bounded = rw whole at small;
          announced = rw whole at announced;
          digest = rw whole at digest;
        },
        e4,
        rw whole at (synced_ok (partial.writer.sync content) c4),
      )
