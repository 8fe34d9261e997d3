-- ===== src/Image/Verify/Outcomes.antt =====
-- What `Verify` shows of a file that it accepts.
use diskforge.Base.{
  ℕ, ◌≡◌, ◌≢◌, none, ◌↔◌, sym, ap, ◌∙◌, ◌||◌, inl, inr, Bool, true, false, some, Bytes, length,
  arith, bytes_eq, bytes_eq_iff, Bool-cases,
}
use diskforge.Base.Int.{pos}
use diskforge.Errors.{is, io_eof, io_unexpected_eof, Result-cases, Error, Result, ok, err}
use diskforge.Go.Hex.{encode_to_string}
use diskforge.Go.Hex.Laws.{IsDigest}
use diskforge.Digest.{digest_test, digest_test_iff}
use diskforge.Image.Model.{Format, Verified, format_raw, format_zstd}
use diskforge.Image.Streams.{read_all}
use diskforge.Image.Streams.Laws.{flat, read_all_ok, read_all_ends}
use diskforge.Image.Verify.{
  SourceFile, validate_digest, read_full, zstd_magic, descriptor_format, header_failure,
  verify_descriptor, verify, no_context,
}

module _ (sha256 : Bytes → Bytes) (path expected : Bytes) (opened : Result ℕ)
    (file : SourceFile) where
  pub record Hashed (v : Verified) : Type 0 where
    pub digest : IsDigest expected
    pub regular : file.regular ≡ ok true
    pub rewound :
        (file.hash_rewind ≡ ok tt) × (file.header_rewind ≡ ok tt) × (file.last_rewind ≡ ok tt)
    pub ended : file.hash_finish ≡ none
    pub hash : encode_to_string (sha256 (flat file.hash_pieces)) ≡ expected
    pub path_kept : v.path ≡ path
    pub sha256_kept : v.sha256 ≡ expected
    pub size : v.compressed_bytes ≡ pos (length (flat file.hash_pieces))
    pub held : (descriptor : ℕ) × (opened ≡ ok descriptor) × (v.file ≡ some descriptor)
    pub headed :
        (e : Error)
        → (read_full 4 file.header_finish file.header_pieces).1 ≡ some e
        → (is e io_unexpected_eof || is e io_eof) ≡ true
    pub zstd :
        (v.format ≡ format_zstd)
        ↔ ((read_full 4 file.header_finish file.header_pieces).0 ≡ zstd_magic)
    pub raw :
        (v.format ≡ format_raw)
        ↔ ((read_full 4 file.header_finish file.header_pieces).0 ≢ zstd_magic)

  found_zstd :
      (found : Format)
      → descriptor_format file ≡ ok found
      → (found ≡ format_zstd) ↔ ((read_full 4 file.header_finish file.header_pieces).0 ≡ zstd_magic)
  unfolding descriptor_format
  found_zstd found h =
      ground (arith, bytes_eq_iff (read_full 4 file.header_finish file.header_pieces).0 zstd_magic)

  found_raw :
      (found : Format)
      → descriptor_format file ≡ ok found
      → (found ≡ format_raw) ↔ ((read_full 4 file.header_finish file.header_pieces).0 ≢ zstd_magic)
  unfolding descriptor_format
  found_raw found h =
      ground (arith, bytes_eq_iff (read_full 4 file.header_finish file.header_pieces).0 zstd_magic)

  header_rewound :
      (found : Format)
      → descriptor_format file ≡ ok found
      → (file.header_rewind ≡ ok tt) × (file.last_rewind ≡ ok tt)
  unfolding descriptor_format
  header_rewound found h = (ground arith, ground arith)

  header_ended :
      (found : Format)
      → descriptor_format file ≡ ok found
      → (e : Error) → (read_full 4 file.header_finish file.header_pieces).1 ≡ some e
      → (is e io_unexpected_eof || is e io_eof) ≡ true
  unfolding descriptor_format header_failure
  header_ended found h e k = ground arith

  hash_rewound :
      (descriptor : ℕ) {v : Verified}
      → verify_descriptor sha256 descriptor file path expected ≡ ok v
      → file.hash_rewind ≡ ok tt
  unfolding verify_descriptor
  hash_rewound descriptor h = ground arith

  pub described :
      (descriptor : ℕ) {v : Verified}
      → verify_descriptor sha256 descriptor file path expected ≡ ok v
      → (content : Bytes) × (read_all no_context file.hash_finish 0 file.hash_pieces ≡ ok content)
        × (file.regular ≡ ok true)
        × (bytes_eq (encode_to_string (sha256 content)) expected ≡ true)
        × (v.path ≡ path)
        × (v.sha256 ≡ encode_to_string (sha256 content))
        × (v.compressed_bytes ≡ pos (length content))
        × (v.file ≡ some descriptor)
        × (descriptor_format file ≡ ok v.format)
  unfolding verify_descriptor
  described descriptor h =
      elim (Result-cases (read_all no_context file.hash_finish 0 file.hash_pieces)) [
        | inl (e, f) ↦ absurd (ground arith)
        | inr (content, f) ↦ elim (Result-cases (descriptor_format file)) [
          | inl (e, g) ↦ absurd (ground arith)
          | inr (found, g) ↦ (
            content,
            f,
            ground arith,
            ground arith,
            ground arith,
            ground arith,
            ground arith,
            ground arith,
            ground arith,
          )
        ]
      ]

  -- A descriptor is closed again exactly if the verification of an opened file fails.
  pub verify_closes : ((verify sha256 path expected opened file).1 ≡ true) ↔ (
      (descriptor : ℕ) × (e : Error) × IsDigest expected
      × (opened ≡ ok descriptor)
      × (verify_descriptor sha256 descriptor file path expected ≡ err e))
  unfolding verify validate_digest
  verify_closes = (forth, λ (d, e, i, o, f). ground (arith, (digest_test_iff expected).1 i))
    where
      forth :
          (verify sha256 path expected opened file).1 ≡ true
          → (descriptor : ℕ) × (e : Error) × IsDigest expected
            × (opened ≡ ok descriptor)
            × (verify_descriptor sha256 descriptor file path expected ≡ err e)
      forth h = elim (Bool-cases (digest_test expected)) [
        | inr t ↦ absurd (ground arith)
        | inl t ↦ elim (Result-cases opened) [
          | inl (e, o) ↦ absurd (ground arith)
          | inr (d, o) ↦ elim (Result-cases (verify_descriptor sha256 d file path expected)) [
            | inr (v, f) ↦ absurd (ground arith)
            | inl (e, f) ↦ (d, e, (digest_test_iff expected).0 t, o, f)
          ]
        ]
      ]

  -- A verified source holds a regular file's descriptor, which stays open; the expected digest is well
  -- formed and is the hash of all that was read, from a rewind up to the end of the file, whose length
  -- is the size kept; the header's reading failed at most at the end of the file, and the format is
  -- zstd exactly if the first four bytes are its magic number, and raw exactly if they are not.
  pub verify_ok :
      {v : Verified} {closed : Bool}
      → verify sha256 path expected opened file ≡ (ok v, closed)
      → Hashed v × (closed ≡ false)
  unfolding verify validate_digest
  verify_ok {v = v} h = elim (Bool-cases (digest_test expected)) [
    | inr t ↦ absurd (ground arith)
    | inl t ↦ elim (Result-cases opened) [
      | inl (e, o) ↦ absurd (ground arith)
      | inr (d, o) ↦ elim (Result-cases (verify_descriptor sha256 d file path expected)) [
        | inl (e, f) ↦ absurd (ground arith)
        | inr (w, f) ↦
            let (content, a, b, c, p, s, n, k, g) = described d {v = v} (ground arith) in
            let flat_eq = read_all_ok no_context file.hash_finish 0 file.hash_pieces a in
            let hash = (bytes_eq_iff (encode_to_string (sha256 content)) expected).0 c in
            (
              record {
                digest = (digest_test_iff expected).0 t;
                regular = b;
                rewound =
                    let (before, behind) = header_rewound v.format g in
                    (hash_rewound d {v = v} (ground arith), before, behind);
                ended = read_all_ends no_context file.hash_finish 0 file.hash_pieces a;
                hash = ap (λ x. encode_to_string (sha256 x)) (sym flat_eq) ∙ hash;
                path_kept = p;
                sha256_kept = s ∙ hash;
                size = n ∙ ap (λ x. pos (length x)) flat_eq;
                held = (d, o, k);
                headed = header_ended v.format g;
                zstd = found_zstd v.format g;
                raw = found_raw v.format g;
              },
              ground arith,
            )
      ]
    ]
  ]
