-- ===== src/Image/Stage/Outcomes.antt =====
-- How a stage ends, and what a publication has shown.
use diskforge.Base.{
  ◌≡◌, inl, inr, refl, sym, ap, ◌∙◌, true, false, Option, [], ◌∷◌, ◌++◌, Bytes, codes, arith,
}
use diskforge.Base.Int.{ℤ, IsInt64}
use diskforge.Errors.{Error, Result, ok, err, Result-cases, format, wrapped}
use diskforge.Go.FilePath.{base, dir}
use diskforge.Image.Streams.Laws.{flat}
use diskforge.Image.Model.{Verified}
use diskforge.Image.Verify.{verify_descriptor}
use diskforge.Image.Stage.{
  Response, Client, Partial, Directory, Disk, Published, sync_directory, fill, rename_filled,
  publish_partial, publish_response, stage, then_keep, cleaned,
}
use diskforge.Image.Stage.Inputs.{IsAsked, HasNoPartial, no_directory, no_temp, reached}
use diskforge.Image.Stage.Publication.{IsMaximum, IsReceived, fill_ok}

-- The directory was opened, synchronized and closed.
abbrev pub IsSynced : Directory → Type 0
IsSynced directory =
    (directory.opened ≡ ok tt) × (directory.synced ≡ ok tt) × (directory.closed ≡ ok tt)

sync_directory_ok : (directory : Directory) → sync_directory directory ≡ ok tt → IsSynced directory
unfolding sync_directory
sync_directory_ok directory h = (ground arith, ground arith, ground arith)

module _ (sha256 : Bytes → Bytes) (context : Option (Option Error)) (client : Option Client)
    (disk : Disk) (url destination expected : Bytes) (maximum : ℤ) where
  -- The partial file was created, in the destination's directory.
  abbrev pub IsPartial : Partial → Type 0
  IsPartial partial =
      disk.create_temp (dir destination) (b'.' ∷ (base destination ++ codes ".partial-*"))
      ≡ ok partial

  -- The four ways in which a publication ends: with no partial file, with one that was closed and
  -- removed, and with one that was moved, whose directory could be synchronized or not.
  pub data EndsClean (p : Published) : Type 0 where
    refused :
        (e : Error)
        → HasNoPartial sha256 context client disk url destination expected maximum e
        → p ≡ record { result = err e; renamed = false; closed = false; removed = false }
        → EndsClean p
    discarded :
        (e : Error) (partial : Partial)
        → IsPartial partial
        → p ≡ record { result = err e; renamed = false; closed = true; removed = true }
        → EndsClean p
    unsynced :
        (e : Error) (partial : Partial)
        → IsPartial partial
        → disk.rename partial.path destination ≡ ok tt
        → sync_directory (disk.directory (dir destination)) ≡ err e
        → p ≡ record { result = err e; renamed = true; closed = true; removed = true }
        → EndsClean p
    published :
        (v : Verified) (partial : Partial)
        → IsPartial partial
        → disk.rename partial.path destination ≡ ok tt
        → IsSynced (disk.directory (dir destination))
        → p ≡ record { result = ok v; renamed = true; closed = false; removed = true }
        → EndsClean p

  rename_filled-EndsClean :
      (partial : Partial) (filled : Result Verified)
      → IsPartial partial
      → EndsClean (rename_filled sha256 disk partial.path destination filled)
  unfolding rename_filled
  rename_filled-EndsClean partial (err e) i = discarded e partial i refl
  rename_filled-EndsClean partial (ok v) i =
      elim (Result-cases (disk.rename partial.path destination)) [
        | inl (e, r) ↦
            discarded (wrapped (format "publish staged image: %w" []) e) partial i (ground arith)
        | inr (done, r) ↦ elim (Result-cases (sync_directory (disk.directory (dir destination)))) [
          | inl (e, s) ↦ unsynced e partial i r s (ground arith)
          | inr (done, s) ↦ published v partial i r (sync_directory_ok _ s) (ground arith)
        ]
      ]

  publish_response-EndsClean :
      (response : Response)
      → EndsClean (publish_response sha256 disk response destination expected maximum)
  unfolding publish_response publish_partial
  publish_response-EndsClean response = elim (Result-cases (disk.mkdir_all (dir destination))) [
    | inl (e, m) ↦
        let wrapper = wrapped (format "create destination directory: %w" []) e in
        refused wrapper (no_directory e m refl) (ground arith)
    | inr (done, m) ↦
        elim (Result-cases
          (disk.create_temp (dir destination) (b'.' ∷ (base destination ++ codes ".partial-*")))) [
            | inl (e, t) ↦
                let wrapper = wrapped (format "create partial image: %w" []) e in
                refused wrapper (no_temp e t refl) (ground arith)
            | inr (partial, t) ↦
                let same : publish_response sha256 disk response destination expected maximum
                    ≡ rename_filled sha256 disk partial.path destination
                        (fill sha256 partial response destination expected maximum) =
                  ground arith in
                rw same (rename_filled-EndsClean partial _ t)
          ]
  ]

  -- A stage ends in one of four ways: with an error of its inputs, of the response, of the directory
  -- or of the creation of the partial file, without one; with an error, the partial file closed and
  -- removed and nothing moved; with the error of the directory's synchronization, the partial file
  -- moved to the destination before; or with the verified image moved there, the directory synchronized
  -- and closed, and its descriptor kept open.
  pub stage-EndsClean :
      IsInt64 maximum
      → EndsClean (stage sha256 context client disk url destination expected maximum)
  stage-EndsClean i = elim (reached sha256 context client disk url destination expected maximum i) [
    | inl (e, why, same) ↦ refused e why same
    | inr (response, asked, same) ↦ rw same (publish_response-EndsClean response)
  ]

  -- The partial file of a publication.
  pub record IsStored (response : Response) : Type 0 where
    pub partial : Partial
    pub verified : Verified
    pub created :
        disk.create_temp (dir destination) (b'.' ∷ (base destination ++ codes ".partial-*"))
        ≡ ok partial
    pub checked :
        verify_descriptor sha256 partial.descriptor partial.source destination expected
        ≡ ok verified
    pub synced : partial.writer.sync (flat response.body) ≡ ok tt
    pub moved : disk.rename partial.path destination ≡ ok tt
    pub given :
        (v : Verified)
        → (stage sha256 context client disk url destination expected maximum).result ≡ ok v
        → v ≡ verified

  then_keep_ok : (r : Result (Unit {0})) (v w : Verified) → then_keep r v ≡ ok w → w ≡ v
  then_keep_ok (err e) v w h = absurd (cc)
  then_keep_ok (ok done) v w h = cc

  cleaned-result : (r : Result Verified) (w : Verified) → (cleaned true r).result ≡ ok w → r ≡ ok w
  cleaned-result (err e) w h = absurd (cc)
  cleaned-result (ok v) w h = h

  rename_filled_ok :
      (path : Bytes) (filled : Result Verified)
      → (rename_filled sha256 disk path destination filled).renamed ≡ true
      → (v : Verified) × (filled ≡ ok v)
        × (disk.rename path destination ≡ ok tt)
        × ((w : Verified)
            → (rename_filled sha256 disk path destination filled).result ≡ ok w
            → w ≡ v)
  unfolding rename_filled
  rename_filled_ok path (err e) h = absurd (cc)
  rename_filled_ok path (ok v) h = elim (Result-cases (disk.rename path destination)) [
    | inl (e, r) ↦ absurd (ground arith)
    | inr (done, r) ↦ (
      v,
      refl,
      r,
      λ w k. then_keep_ok (sync_directory (disk.directory (dir destination))) v w (
          cleaned-result (then_keep (sync_directory (disk.directory (dir destination))) v) w
            (ground arith)),
    )
  ]

  stored :
      (response : Response)
      → IsMaximum maximum
      → stage sha256 context client disk url destination expected maximum
        ≡ publish_response sha256 disk response destination expected maximum
      → (publish_response sha256 disk response destination expected maximum).renamed ≡ true
      → IsStored response × IsReceived sha256 response destination expected maximum
  unfolding publish_response publish_partial
  stored response bound whole h = elim (Result-cases (disk.mkdir_all (dir destination))) [
    | inl (e, m) ↦ absurd (ground arith)
    | inr (done, m) ↦
        elim (Result-cases
          (disk.create_temp (dir destination) (b'.' ∷ (base destination ++ codes ".partial-*")))) [
            | inl (e, t) ↦ absurd (ground arith)
            | inr (partial, t) ↦
                let (v, filled, moved, given) =
                  rename_filled_ok partial.path
                    (fill sha256 partial response destination expected maximum) (ground arith) in
                let (received, checked, synced) =
                  fill_ok sha256 response destination expected maximum partial v bound filled in
                (
                  record {
                    partial = partial;
                    verified = v;
                    created = t;
                    checked = checked;
                    synced = synced;
                    moved = moved;
                    given = λ w k.
                        let result = ap (λ p. p.result) whole in given w (ground (arith, result));
                  },
                  received,
                )
          ]
  ]

  -- Nothing is published but the whole body of a response of status 2xx, up to its end, no longer
  -- than the positive maximum and as long as announced, whose hash is the expected digest, and which
  -- the partial file, once synchronized, gave again with that hash when it was read back.
  pub stage_publishes :
      IsInt64 maximum
      → (stage sha256 context client disk url destination expected maximum).renamed ≡ true
      → (response : Response) × IsAsked sha256 context client disk url destination expected maximum
          response
        × IsStored response
        × IsReceived sha256 response destination expected maximum
  stage_publishes i h =
      elim (reached sha256 context client disk url destination expected maximum i) [
        | inl (e, why, same) ↦ absurd (let no = ap (λ p. p.renamed) same in cc)
        | inr (response, asked, same) ↦
            let (store, received) =
              stored response asked.accepted same (sym (ap (λ p. p.renamed) same) ∙ h) in
            (response, asked, store, received)
      ]
