-- ===== src/Policy/Confirmation/Token.antt =====
-- `ConfirmationToken`: when it gives a token, what the token binds and what it leaves out.
use diskforge.Base.{
  ℕ, suc, ◌<◌, ◌≡◌, ◌≢◌, ◌↔◌, ◌⊎◌, inl, inr, refl, sym, ap, ◌∙◌, Bool, true, false, List, [], ◌∷◌,
  ◌++◌, arith, Bytes, codes, length, take, All, Bool-cases, bytes_eq, bytes_eq_iff, append_assoc,
  length-take,
}
use diskforge.Base.Int.{ℤ, pos, ◌<ℤ◌, leb_ℤ}
use diskforge.Go.Strings.{has_prefix}
use diskforge.Go.Strings.Laws.{append_length_inj}
use diskforge.Go.FilePath.{is_abs, clean, base}
use diskforge.Go.Hex.{encode_to_string}
use diskforge.Go.Hex.Laws.{IsDigest, length-encode, encode_inj}
use diskforge.Digest.{digest_test, digest_test_iff}
use diskforge.Errors.{ok}
use diskforge.Naming.{valid_label}
use diskforge.Naming.Label.{IsLabel, valid_label_iff}
use diskforge.Policy.Model.{TargetIdentity, ImageIdentity}
use diskforge.Policy.Confirmation.{
  refused_target, confirmation_token, confirmation_record, format_token, valid_identity_text,
}
use diskforge.Policy.Confirmation.Text.{
  IsIdentityText, valid_identity_text_iff, SameBinding, confirmation_record_inj,
}

-- A target that a token can be made for.
pub record IsConfirmable (t : TargetIdentity) : Type 0 where
  pub absolute : is_abs t.canonical_path ≡ true
  pub canonical : clean t.canonical_path ≡ t.canonical_path
  pub device : has_prefix t.canonical_path (codes "/dev/") ≡ true
  pub capacity : pos 0 <ℤ t.size_bytes
  pub label : IsLabel (base t.canonical_path)
  pub serial : IsIdentityText t.serial
  pub wwn : IsIdentityText t.wwn

accepted_target :
    (t : TargetIdentity)
    → refused_target t ≡ false
    → (is_abs t.canonical_path ≡ true)
      × (bytes_eq (clean t.canonical_path) t.canonical_path ≡ true)
      × (has_prefix t.canonical_path (codes "/dev/") ≡ true)
      × (leb_ℤ t.size_bytes (pos 0) ≡ false)
      × (valid_label (base t.canonical_path) ≡ true)
      × (valid_identity_text t.serial ≡ true)
      × (valid_identity_text t.wwn ≡ true)
unfolding refused_target
accepted_target t h = ground arith

refused_target_iff : (t : TargetIdentity) → (refused_target t ≡ false) ↔ IsConfirmable t
refused_target_iff t = (forth, back)
  where
    forth : refused_target t ≡ false → IsConfirmable t
    forth h =
        let (a, c, d, s, l, x, y) = accepted_target t h in
        record {
          absolute = a;
          canonical = (bytes_eq_iff _ _).0 c;
          device = d;
          capacity = ground arith;
          label = (valid_label_iff _).0 l;
          serial = (valid_identity_text_iff _).0 x;
          wwn = (valid_identity_text_iff _).0 y;
        }

    back : IsConfirmable t → refused_target t ≡ false
    back c =
        let s : leb_ℤ t.size_bytes (pos 0) ≡ false = ground (arith, c.capacity) in
        unfold refused_target in
        rw (
          c.absolute,
          (bytes_eq_iff _ _).1 c.canonical,
          c.device,
          s,
          (valid_label_iff _).1 c.label,
          (valid_identity_text_iff _).1 c.serial,
          (valid_identity_text_iff _).1 c.wwn,
        )

module _ (sha256 : Bytes → Bytes) where
  token_tests :
      (t : TargetIdentity) (i : ImageIdentity) {k : Bytes}
      → confirmation_token sha256 t i ≡ ok k
      → (refused_target t ≡ false)
        × (leb_ℤ i.uncompressed_bytes (pos 0) ≡ false)
        × (digest_test i.sha256 ≡ true)
        × (k ≡ format_token sha256 t i)
  unfolding confirmation_token
  token_tests t i h = ground arith

  token_of :
      (t : TargetIdentity) (i : ImageIdentity)
      → refused_target t ≡ false
      → leb_ℤ i.uncompressed_bytes (pos 0) ≡ false
      → digest_test i.sha256 ≡ true
      → confirmation_token sha256 t i ≡ ok (format_token sha256 t i)
  unfolding confirmation_token
  token_of t i a b c = ground arith

  -- `ConfirmationToken` gives a token exactly for a confirmable target, a positive expanded size and
  -- a digest of 64 lowercase hexadecimal digits, and the token is then the formatted one.
  pub confirmation_token_iff :
      (t : TargetIdentity) (i : ImageIdentity) (k : Bytes)
      → (confirmation_token sha256 t i ≡ ok k) ↔ (
          IsConfirmable t
          × (pos 0 <ℤ i.uncompressed_bytes)
          × IsDigest i.sha256
          × (k ≡ format_token sha256 t i))
  confirmation_token_iff t i k = (forth, back)
    where
      forth :
          confirmation_token sha256 t i ≡ ok k
          → IsConfirmable t
            × (pos 0 <ℤ i.uncompressed_bytes)
            × IsDigest i.sha256
            × (k ≡ format_token sha256 t i)
      forth h =
          let (a, b, c, e) = token_tests t i h in
          ((refused_target_iff t).0 a, ground arith, (digest_test_iff _).0 c, e)

      back :
          IsConfirmable t
            × (pos 0 <ℤ i.uncompressed_bytes)
            × IsDigest i.sha256
            × (k ≡ format_token sha256 t i)
          → confirmation_token sha256 t i ≡ ok k
      back (a, b, c, e) =
          token_of t i ((refused_target_iff t).1 a) (ground arith) ((digest_test_iff _).1 c)
          ∙ ap ok (sym e)

  -- The token is a function of six fields: the kernel name, the partition flag, the descendants, the
  -- image's path, format and compressed size can all change and the token stays, and no mode enters.
  pub confirmation_token_ignores :
      (t : TargetIdentity) (i : ImageIdentity) (kname path format : Bytes) (is_partition : Bool)
      (descendants : List Bytes) (compressed : ℤ)
      → confirmation_token sha256
          (record t { kname = kname; is_partition = is_partition; descendants = descendants })
          (record i { path = path; format = format; compressed_bytes = compressed })
        ≡ confirmation_token sha256 t i
  unfolding confirmation_token refused_target format_token
  confirmation_token_ignores t i kname path format is_partition descendants compressed = refl

-- `sha256.Sum256`: 32 bytes.
pub record IsHash (sha256 : Bytes → Bytes) : Type 0 where
  pub size : (s : Bytes) → length (sha256 s) ≡ 32
  pub bytes : (s : Bytes) → All (λ b. b < 256) (sha256 s)

All-take {ℓ κ} : {A : Type ℓ} (P : A → Type κ) (n : ℕ) (xs : List A) → All P xs → All P (take n xs)
All-take P ℕ.zero xs h = tt
All-take P (suc n) [] h = tt
All-take P (suc n) (x ∷ xs) (p, h) = (p, All-take P n xs h)

module _ (sha256 : Bytes → Bytes) (hash : IsHash sha256) where
  suffix : TargetIdentity → ImageIdentity → Bytes
  suffix t i = encode_to_string (take 8 (sha256 (confirmation_record t i)))

  length-suffix : (t : TargetIdentity) (i : ImageIdentity) → length (suffix t i) ≡ 16
  unfolding suffix
  length-suffix t i =
      let r = confirmation_record t i in
      omega (arith, length-encode (take 8 (sha256 r)), length-take 8 (sha256 r), hash.size r)

  stem : TargetIdentity → ImageIdentity → Bytes
  stem t i =
      codes "confirm-v1-" ++ (base t.canonical_path ++ b'-' ∷ (take 12 i.sha256 ++ b'-' ∷ []))

  stem-append :
      (t : TargetIdentity) (i : ImageIdentity) → format_token sha256 t i ≡ stem t i ++ suffix t i
  unfolding format_token stem suffix
  stem-append t i = simp append_assoc

  suffix_of_token :
      (t : TargetIdentity) (i : ImageIdentity) (t' : TargetIdentity) (i' : ImageIdentity)
      → format_token sha256 t i ≡ format_token sha256 t' i'
      → suffix t i ≡ suffix t' i'
  suffix_of_token t i t' i' e =
      (append_length_inj (stem t i) (stem t' i') (suffix t i) (suffix t' i')
        (length-suffix t i ∙ sym (length-suffix t' i'))
        (sym (stem-append t i) ∙ e ∙ stem-append t' i')).1

  hash_of_token :
      (t : TargetIdentity) (i : ImageIdentity) (t' : TargetIdentity) (i' : ImageIdentity)
      → format_token sha256 t i ≡ format_token sha256 t' i'
      → take 8 (sha256 (confirmation_record t i)) ≡ take 8 (sha256 (confirmation_record t' i'))
  unfolding suffix
  hash_of_token t i t' i' e =
      encode_inj _ _ (All-take _ 8 _ (hash.bytes _)) (All-take _ 8 _ (hash.bytes _))
        (suffix_of_token t i t' i' e)

  -- Two inspected pairs share a token only if they agree in path, serial, WWN, capacity, expanded size
  -- and digest, or else their two records are different texts whose hashes begin with the same 8 bytes.
  pub confirmation_token_binds :
      (t : TargetIdentity) (i : ImageIdentity) (t' : TargetIdentity) (i' : ImageIdentity)
      (k : Bytes)
      → confirmation_token sha256 t i ≡ ok k
      → confirmation_token sha256 t' i' ≡ ok k
      → SameBinding t i t' i'
        ⊎ ((confirmation_record t i ≢ confirmation_record t' i')
            × (take 8 (sha256 (confirmation_record t i))
                ≡ take 8 (sha256 (confirmation_record t' i'))))
  confirmation_token_binds t i t' i' k h h' =
      let (c, u, d, e) = (confirmation_token_iff sha256 t i k).0 h in
      let (c', u', d', e') = (confirmation_token_iff sha256 t' i' k).0 h' in
      let same = hash_of_token t i t' i' (sym e ∙ e') in
      elim (Bool-cases (bytes_eq (confirmation_record t i) (confirmation_record t' i'))) [
        | inl r ↦ inl (
            confirmation_record_inj t i t' i'
              (record { serial = c.serial; wwn = c.wwn; sha256 = d })
              (record { serial = c'.serial; wwn = c'.wwn; sha256 = d' }) ((bytes_eq_iff _ _).0 r))
        | inr r ↦ inr (λ q. cc (r, (bytes_eq_iff _ _).1 q), same)
      ]
