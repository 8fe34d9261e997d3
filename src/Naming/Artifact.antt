-- ===== src/Naming/Artifact.antt =====
-- `ArtifactName`: when it gives a name, what errors it gives, and what a name tells.
use diskforge.Base.{
  ℕ, ◌≤◌, ◌≡◌, ◌↔◌, refl, sym, ap, ◌∙◌, true, ◌∷◌, ◌++◌, arith, Bytes, codes, length, Lacks,
  All-append,
}
use diskforge.Go.Strings.Laws.{append_separator_inj}
use diskforge.Go.Decimal.{print, print-Lacks}
use diskforge.Naming.{
  artifact_name, format_artifact_name, name, valid_semver_tag, valid_label, valid_extension,
}
use diskforge.Naming.Label.{IsLabel, valid_label_iff, IsLabel-Lacks}
use diskforge.Naming.Semver.{valid_semver_tag_iff, tag_of}
use diskforge.Naming.Extension.{IsExtension, valid_extension_iff}

-- What is asked of the four parts of a name and of their total length.
pub record AreParts (version goos goarch extension : Bytes) : Type 0 where
  pub version_IsTag : (major : ℕ) × (minor : ℕ) × (patch : ℕ) × (version ≡ tag_of major minor patch)
  pub goos_IsLabel : IsLabel goos
  pub goarch_IsLabel : IsLabel goarch
  pub extension_IsExtension : IsExtension extension
  pub short : length (format_artifact_name version goos goarch extension) ≤ 255

module _ (v o a e : Bytes) where
  -- The tests of a run that gives a name.
  tests_of :
      {n : Bytes}
      → artifact_name v o a e ≡ name n
      → (valid_semver_tag v ≡ true)
        × (valid_label o ≡ true)
        × (valid_label a ≡ true)
        × (valid_extension e ≡ true)
        × (length (format_artifact_name v o a e) ≤ 255)
        × (n ≡ format_artifact_name v o a e)
  tests_of h = unfold artifact_name in ground arith

  name_of :
      valid_semver_tag v ≡ true
      → valid_label o ≡ true
      → valid_label a ≡ true
      → valid_extension e ≡ true
      → length (format_artifact_name v o a e) ≤ 255
      → artifact_name v o a e ≡ name (format_artifact_name v o a e)
  name_of hv ho ha he hl = unfold artifact_name in ground arith

  -- `ArtifactName` returns a name exactly when the version is a stable tag, the two labels and the
  -- extension are well formed and the name has at most 255 bytes, and the name is then the four parts
  -- in the release format.
  pub artifact_name_iff :
      (n : Bytes)
      → (artifact_name v o a e ≡ name n) ↔ (AreParts v o a e × (n ≡ format_artifact_name v o a e))
  artifact_name_iff n = (forth, back)
    where
      forth : artifact_name v o a e ≡ name n → AreParts v o a e × (n ≡ format_artifact_name v o a e)
      forth h =
          let (hv, ho, ha, he, hl, hn) = tests_of h in
          (
            record {
              version_IsTag = (valid_semver_tag_iff v).0 hv;
              goos_IsLabel = (valid_label_iff o).0 ho;
              goarch_IsLabel = (valid_label_iff a).0 ha;
              extension_IsExtension = (valid_extension_iff e).0 he;
              short = hl;
            },
            hn,
          )

      back : AreParts v o a e × (n ≡ format_artifact_name v o a e) → artifact_name v o a e ≡ name n
      back (p, hn) =
          name_of ((valid_semver_tag_iff v).1 p.version_IsTag)
            ((valid_label_iff o).1 p.goos_IsLabel) ((valid_label_iff a).1 p.goarch_IsLabel)
            ((valid_extension_iff e).1 p.extension_IsExtension) p.short
          ∙ ap name (sym hn)

core_of : ℕ → ℕ → ℕ → Bytes
core_of a b c = print a ++ b'.' ∷ (print b ++ b'.' ∷ print c)

core-Lacks : (a b c : ℕ) → Lacks b'_' (core_of a b c)
unfolding core_of
core-Lacks a b c = All-append _ (print a) _ (print-Lacks b'_' a (ground arith)) (
  omega arith,
  All-append _ (print b) _ (print-Lacks b'_' b (ground arith))
      (omega arith, print-Lacks b'_' c (ground arith)),
)

format-tag :
    (a b c : ℕ) (o r e : Bytes)
    → format_artifact_name (tag_of a b c) o r e
      ≡ codes "diskforge_" ++ (core_of a b c ++ b'_' ∷ (o ++ b'_' ∷ (r ++ b'.' ∷ e)))
unfolding format_artifact_name core_of
format-tag a b c o r e = refl

-- The separators of a name stand where no part can hold them.
tail_inj :
    (c o r e c' o' r' e' : Bytes)
    → Lacks b'_' c
    → Lacks b'_' o
    → Lacks b'.' r
    → Lacks b'_' c'
    → Lacks b'_' o'
    → Lacks b'.' r'
    → codes "diskforge_" ++ (c ++ b'_' ∷ (o ++ b'_' ∷ (r ++ b'.' ∷ e)))
      ≡ codes "diskforge_" ++ (c' ++ b'_' ∷ (o' ++ b'_' ∷ (r' ++ b'.' ∷ e')))
    → (c ≡ c') × (o ≡ o') × (r ≡ r') × (e ≡ e')
tail_inj c o r e c' o' r' e' lc lo lr lc' lo' lr' h =
    let (ec, h') = append_separator_inj c c' _ _ b'_' lc lc' (cc) in
    let (eo, h'') = append_separator_inj o o' _ _ b'_' lo lo' h' in
    let (er, ee) = append_separator_inj r r' _ _ b'.' lr lr' h'' in (ec, eo, er, ee)

tag_inj : (a b c a' b' c' : ℕ) → core_of a b c ≡ core_of a' b' c' → tag_of a b c ≡ tag_of a' b' c'
unfolding core_of
tag_inj a b c a' b' c' h = ap (λ t. b'v' ∷ t) h

-- Two calls that return the same name were given the same version, labels and extension.
pub artifact_name_inj :
    (v o a e v' o' a' e' n : Bytes)
    → artifact_name v o a e ≡ name n
    → artifact_name v' o' a' e' ≡ name n
    → (v ≡ v') × (o ≡ o') × (a ≡ a') × (e ≡ e')
artifact_name_inj v o a e v' o' a' e' n h h' =
    let (p, en) = (artifact_name_iff v o a e n).0 h in
    let (p', en') = (artifact_name_iff v' o' a' e' n).0 h' in
    let (x, y, z, ev) = p.version_IsTag in
    let (x', y', z', ev') = p'.version_IsTag in
    let (ec, eo, er, ee) =
      tail_inj (core_of x y z) o a e (core_of x' y' z') o' a' e' (core-Lacks x y z)
        (IsLabel-Lacks b'_' o p.goos_IsLabel (omega arith))
        (IsLabel-Lacks b'.' a p.goarch_IsLabel (omega arith)) (core-Lacks x' y' z')
        (IsLabel-Lacks b'_' o' p'.goos_IsLabel (omega arith))
        (IsLabel-Lacks b'.' a' p'.goarch_IsLabel (omega arith))
        (sym (format-tag x y z o a e)
          ∙ ap (λ t. format_artifact_name t o a e) (sym ev)
          ∙ sym en
          ∙ en'
          ∙ ap (λ t. format_artifact_name t o' a' e') ev'
          ∙ format-tag x' y' z' o' a' e') in
    (ev ∙ tag_inj x y z x' y' z' ec ∙ sym ev', eo, er, ee)
