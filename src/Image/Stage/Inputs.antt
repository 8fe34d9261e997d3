-- ===== src/Image/Stage/Inputs.antt =====
-- From the accepted inputs of a stage to the response whose body is published.
use diskforge.Base.{
  ◌≡◌, ◌⊎◌, ◌∷◌, ◌++◌, codes, inl, inr, refl, sym, ap, ◌∙◌, false, ◌||◌, Option, none, some, Bytes,
  arith, Option-cases, [],
}
use diskforge.Base.Int.{ℤ, pos, negsuc, IsInt64, ◌≤ℤ◌, ◌<ℤ◌, leb_ℤ, eq_ℤ, max_int64}
use diskforge.Go.FilePath.{base, dir}
use diskforge.Errors.{Error, Result, ok, err, wrapped, format, Result-cases, bind_ok, refuse_if}
use diskforge.Go.Hex.Laws.{IsDigest}
use diskforge.Digest.{digest_test_iff}
use diskforge.Image.Verify.{validate_digest}
use diskforge.Image.Stage.{
  Response, Client, Disk, context_error, required_client, validate_stage_inputs, download,
  validate_response, nothing, publish_response, stage_response, stage,
}
use diskforge.Image.Stage.Publication.{IsMaximum}

module _ (sha256 : Bytes → Bytes) (context : Option (Option Error)) (client : Option Client)
    (disk : Disk) (url destination expected : Bytes) (maximum : ℤ) where
  context_ok : context_error context ≡ ok tt → context ≡ some none
  context_ok e = elim (Option-cases context) [
    | inl n ↦ absurd (cc)
    | inr (none, n) ↦ n
    | inr (some f, n) ↦ absurd (cc)
  ]

  client_ok : (present : Client) → required_client client ≡ ok present → client ≡ some present
  client_ok present e = elim (Option-cases client) [
    | inl n ↦ absurd (cc)
    | inr (c, n) ↦ let same : c ≡ present = cc in n ∙ ap some same
  ]

  accepted-IsMaximum :
      (size : ℤ)
      → IsInt64 size
      → (leb_ℤ size (pos 0) || eq_ℤ size (pos max_int64)) ≡ false
      → IsMaximum size
  accepted-IsMaximum (negsuc n) i e = absurd (ground arith)
  accepted-IsMaximum (pos n) (low, high) e = (n, refl, ground arith, ground arith)

  digest_ok :
      (digest : Bytes)
      → validate_digest expected ≡ ok digest
      → (digest ≡ expected) × IsDigest expected
  unfolding validate_digest
  digest_ok digest e = (ground arith, (digest_test_iff expected).0 (ground arith))

  -- From the accepted inputs and the response on.
  pub record IsAsked (response : Response) : Type 0 where
    pub present : Client
    pub given : client ≡ some present
    pub answered : download present url ≡ ok response
    pub alive : context ≡ some none
    pub digest : IsDigest expected
    pub accepted : IsMaximum maximum
    pub successful : (pos 200 ≤ℤ response.status) × (response.status <ℤ pos 300)

  inputs_ok :
      (present : Client) (digest : Bytes)
      → IsInt64 maximum
      → validate_stage_inputs context client expected maximum ≡ ok (present, digest)
      → (context ≡ some none)
        × (client ≡ some present)
        × (digest ≡ expected)
        × IsDigest expected
        × IsMaximum maximum
  unfolding validate_stage_inputs
  inputs_ok present digest i e =
      let (u, c1, e1) = bind_ok (context_error context) _ _ e in
      let (p, c2, e2) = bind_ok (required_client client) _ _ e1 in
      let (w, c3, e3) =
        bind_ok (refuse_if (leb_ℤ maximum (pos 0) || eq_ℤ maximum (pos max_int64)) _) _ _ e2 in
      let (d, c4, e4) = bind_ok (validate_digest expected) _ _ e3 in
      let (same, valid) = digest_ok d c4 in
      let passed : (leb_ℤ maximum (pos 0) || eq_ℤ maximum (pos max_int64)) ≡ false = ground arith in
      let one : p ≡ present = first _ _ _ _ e4 in
      let other : d ≡ digest = second _ _ _ _ e4 in
      (
        context_ok c1,
        client_ok p c2 ∙ ap some one,
        sym other ∙ same,
        valid,
        accepted-IsMaximum maximum i passed,
      )
    where
      first :
          {A B : Type 0} (a c : A) (b d : B)
          → ◌≡◌ {A = Result (A × B)} (ok (a, b)) (ok (c, d))
          → a ≡ c
      first a c b d e = cc

      second :
          {A B : Type 0} (a c : A) (b d : B)
          → ◌≡◌ {A = Result (A × B)} (ok (a, b)) (ok (c, d))
          → b ≡ d
      second a c b d e = cc

  valid_response :
      (response : Response)
      → validate_response response maximum ≡ ok tt
      → (pos 200 ≤ℤ response.status) × (response.status <ℤ pos 300)
  unfolding validate_response
  valid_response response e = (ground arith, ground arith)

  -- The failures before there is a partial file, with the error that each of them gives.
  pub data HasNoPartial (e : Error) : Type 0 where
    refused_inputs : validate_stage_inputs context client expected maximum ≡ err e → HasNoPartial e
    no_response :
        (present : Client) → client ≡ some present → download present url ≡ err e → HasNoPartial e
    refused_response :
        (present : Client) (response : Response)
        → client ≡ some present
        → download present url ≡ ok response
        → validate_response response maximum ≡ err e
        → HasNoPartial e
    no_directory :
        (cause : Error)
        → disk.mkdir_all (dir destination) ≡ err cause
        → e ≡ wrapped (format "create destination directory: %w" []) cause
        → HasNoPartial e
    no_temp :
        (cause : Error)
        → disk.create_temp (dir destination) (b'.' ∷ (base destination ++ codes ".partial-*"))
          ≡ err cause
        → e ≡ wrapped (format "create partial image: %w" []) cause
        → HasNoPartial e

  pub reached :
      IsInt64 maximum
      → ((e : Error) × HasNoPartial e
          × (stage sha256 context client disk url destination expected maximum ≡ nothing e))
        ⊎ ((response : Response) × IsAsked response
            × (stage sha256 context client disk url destination expected maximum
                ≡ publish_response sha256 disk response destination expected maximum))
  unfolding stage stage_response
  reached i = elim (Result-cases (validate_stage_inputs context client expected maximum)) [
    | inl (e, v) ↦ inl (e, refused_inputs v, ground arith)
    | inr ((present, digest), v) ↦ elim (Result-cases (download present url)) [
      | inl (e, d) ↦
          let (alive, given, same, valid, accepted) = inputs_ok present digest i v in
          inl (e, no_response present given d, ground arith)
      | inr (response, d) ↦ elim (Result-cases (validate_response response maximum)) [
        | inl (e, r) ↦
            let (alive, given, same, valid, accepted) = inputs_ok present digest i v in
            inl (e, refused_response present response given d r, ground arith)
        | inr (done, r) ↦
            let (alive, given, same, valid, accepted) = inputs_ok present digest i v in
            let whole : stage sha256 context client disk url destination expected maximum
                ≡ publish_response sha256 disk response destination digest maximum =
              ground arith in
            inr (
              response,
              record {
                present = present;
                given = given;
                answered = d;
                alive = alive;
                digest = valid;
                accepted = accepted;
                successful = valid_response response r;
              },
              whole ∙ ap (λ x. publish_response sha256 disk response destination x maximum) same,
            )
      ]
    ]
  ]
