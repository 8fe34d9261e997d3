-- ===== src/Engine/TargetPath.antt =====
-- The target paths that diskforge.go accepts.
use mathlib.Core.List.{reverse, reverse-reverse}
use diskforge.Base.{
  ◌≡◌, refl, sym, ap, ◌∙◌, ◌≢◌, ◌↔◌, ◌⊎◌, inl, inr, true, false, List, [], ◌∷◌, ◌++◌, Bytes, codes,
  arith, Lacks, bytes_eq_iff, bytes_eq, Bool-cases,
}
use diskforge.Errors.{ok}
use diskforge.Go.Strings.{split, join, is_empty, has_prefix}
use diskforge.Go.FilePath.{
  slash, clean, dir, base, is_abs, spell, push_element, pop_element, upto_slash, clean_elements,
  last_element,
}
use diskforge.Go.FilePath.Laws.{
  clean-last, is_abs-last, last_place, upto_slash-append, join_one, upto_slash-Lacks,
}
use diskforge.Go.Strings.Laws.{split-Lacks}
use diskforge.Engine.Requests.{validate_target_path}

-- `/dev/<name>`, with a name that is an element of its own.
pub record IsDevicePath (path : Bytes) : Type 0 where
  pub name : Bytes
  pub path_eq : path ≡ codes "/dev/" ++ name
  pub one_element : Lacks slash name
  pub not_empty : name ≢ []
  pub not_dot : name ≢ codes "."
  pub not_dots : name ≢ codes ".."

-- What the last element does behind `/dev`.
data Last (name : Bytes) (es : List Bytes) : Type 0 where
  dropped : es ≡ codes "dev" ∷ [] → Last name es
  root : es ≡ [] → Last name es
  kept :
      name ≢ [] → name ≢ codes "." → name ≢ codes ".." → es ≡ name ∷ codes "dev" ∷ [] → Last name es

not_empty : (s : Bytes) → is_empty s ≡ false → s ≢ []
not_empty [] h = cc
not_empty (c ∷ s) h = λ e. cc

differ : (s t : Bytes) → bytes_eq s t ≡ false → s ≢ t
differ s t h e = absurd (ground (arith, (bytes_eq_iff s t).1 e))

differs : (s t : Bytes) → s ≢ t → bytes_eq s t ≡ false
differs s t h = elim (Bool-cases (bytes_eq s t)) [
  | inl e ↦ absurd (h ((bytes_eq_iff s t).0 e))
  | inr e ↦ e
]

is_full : (s : Bytes) → s ≢ [] → is_empty s ≡ false
is_full [] h = absurd (h refl)
is_full (c ∷ s) h = refl

push-dev : (name : Bytes) → Last name (push_element true name (codes "dev" ∷ []))
unfolding push_element pop_element
push-dev name = elim (Bool-cases (is_empty name)) [
  | inl e ↦ dropped (ground arith)
  | inr e ↦ elim (Bool-cases (bytes_eq name (codes "."))) [
    | inl f ↦ dropped (ground arith)
    | inr f ↦ elim (Bool-cases (bytes_eq name (codes ".."))) [
      | inl g ↦ root (unfold bytes_eq in ground arith)
      | inr g ↦
          kept (not_empty name e) (differ name (codes ".") f) (differ name (codes "..") g)
            (ground arith)
    ]
  ]
]

module _ (name : Bytes) (h : Lacks slash name) where
  clean_dev :
      clean (codes "/dev/" ++ name)
      ≡ spell true (reverse (push_element true name (codes "dev" ∷ [])))
  unfolding is_abs clean_elements split bytes_eq
  clean_dev = clean-last (codes "/dev") name h

  dir_dev : dir (codes "/dev/" ++ name) ≡ codes "/dev"
  unfolding dir
  dir_dev = rw (upto_slash-append (codes "/dev") name h) refl

  base_dev : name ≢ [] → base (codes "/dev/" ++ name) ≡ name
  unfolding base last_element split
  base_dev n = simp (split-Lacks name slash h) (rw (is_full name n) refl)

  pushed :
      name ≢ []
      → name ≢ codes "."
      → name ≢ codes ".."
      → push_element true name (codes "dev" ∷ []) ≡ name ∷ codes "dev" ∷ []
  unfolding push_element
  pushed a b c =
      ground (arith, is_full name a, differs name (codes ".") b, differs name (codes "..") c)

clean_rooted :
    (v name : Bytes)
    → Lacks slash name
    → is_abs (v ++ slash ∷ name) ≡ true
    → clean (v ++ slash ∷ name)
      ≡ spell true (reverse (push_element true name (clean_elements true (split v slash) [])))
clean_rooted v name h a =
    clean-last v name h
    ∙ ap (λ r. spell r (reverse (push_element r name (clean_elements r (split v slash) [])))) a

dev_only :
    (es : List Bytes)
    → spell true (reverse (push_element true [] es)) ≡ codes "/dev"
    → es ≡ codes "dev" ∷ []
unfolding spell push_element
dev_only es h =
    sym (reverse-reverse es)
    ∙ ap reverse (join_one (reverse es) (codes "dev") (λ e. cc) (ground arith) cc)

spelt :
    (name : Bytes) (es : List Bytes)
    → es ≡ name ∷ codes "dev" ∷ []
    → spell true (reverse es) ≡ codes "/dev/" ++ name
unfolding spell join
spelt name es e = rw e refl

not_in_dev : (path : Bytes) → path ≡ codes "/dev" ⊎ path ≡ codes "/" → dir path ≢ codes "/dev"
unfolding dir clean spell clean_elements push_element pop_element upto_slash split bytes_eq
not_in_dev path (inl e) h = let f : codes "/" ≡ codes "/dev" = ap dir (sym e) ∙ h in absurd (cc)
not_in_dev path (inr e) h = let f : codes "/" ≡ codes "/dev" = ap dir (sym e) ∙ h in absurd (cc)

no_dir : (path : Bytes) → Lacks slash path → dir path ≢ codes "/dev"
unfolding dir clean spell clean_elements push_element upto_slash split bytes_eq join
no_dir path h e =
    let f : codes "." ≡ codes "/dev" = ap clean (sym (upto_slash-Lacks path h)) ∙ e in absurd (cc)

-- Where the directory of a clean absolute path is `/dev`.
module _ (path : Bytes) (cleaned : clean path ≡ path) (rooted : is_abs path ≡ true)
    (in_dev : dir path ≡ codes "/dev") where
  before_last :
      (v name : Bytes)
      → path ≡ v ++ slash ∷ name
      → Lacks slash name
      → clean_elements true (split v slash) [] ≡ codes "dev" ∷ []
  unfolding dir
  before_last v name e h =
      let d : clean (v ++ slash ∷ []) ≡ codes "/dev" =
        ap clean (sym (upto_slash-append v name h)) ∙ ap dir (sym e) ∙ in_dev in
      let a : is_abs (v ++ slash ∷ []) ≡ true =
        is_abs-last v [] name ∙ ap is_abs (sym e) ∙ rooted in
      dev_only (clean_elements true (split v slash) []) (sym (clean_rooted v [] tt a) ∙ d)

  respelt :
      (v name : Bytes)
      → path ≡ v ++ slash ∷ name
      → Lacks slash name
      → path ≡ spell true (reverse (push_element true name (codes "dev" ∷ [])))
  respelt v name e h =
      sym cleaned
      ∙ ap clean e
      ∙ clean_rooted v name h (ap is_abs (sym e) ∙ rooted)
      ∙ ap (λ es. spell true (reverse (push_element true name es))) (before_last v name e h)

  named : (v name : Bytes) → path ≡ v ++ slash ∷ name → Lacks slash name → IsDevicePath path
  unfolding spell
  named v name e h = elim (push-dev name) [
    | dropped f ↦
        absurd
          (not_in_dev path (inl (respelt v name e h ∙ ap (λ es. spell true (reverse es)) f)) in_dev)
    | root f ↦
        absurd
          (not_in_dev path (inr (respelt v name e h ∙ ap (λ es. spell true (reverse es)) f)) in_dev)
    | kept a b c f ↦ record {
      name = name;
      path_eq = respelt v name e h ∙ spelt name (push_element true name (codes "dev" ∷ [])) f;
      one_element = h;
      not_empty = a;
      not_dot = b;
      not_dots = c;
    }
  ]

  is_device_path : IsDevicePath path
  is_device_path = elim (last_place slash path) [
    | inl h ↦ absurd (no_dir path h in_dev)
    | inr (v, name, e, h) ↦ named v name e h
  ]

clean_device :
    (name : Bytes)
    → Lacks slash name
    → name ≢ []
    → name ≢ codes "."
    → name ≢ codes ".."
    → clean (codes "/dev/" ++ name) ≡ codes "/dev/" ++ name
clean_device name h a b c =
    clean_dev name h ∙ spelt name (push_element true name (codes "dev" ∷ [])) (pushed name h a b c)

accepted_device :
    (name : Bytes)
    → Lacks slash name
    → name ≢ []
    → name ≢ codes "."
    → name ≢ codes ".."
    → validate_target_path (codes "/dev/" ++ name) ≡ ok tt
unfolding validate_target_path is_abs has_prefix
accepted_device name h a b c =
    let e1 = (bytes_eq_iff _ _).1 (clean_device name h a b c) in
    let e2 = (bytes_eq_iff _ _).1 (dir_dev name h) in
    let e3 =
      differs (base (codes "/dev/" ++ name)) (codes ".") (λ e. b (sym (base_dev name h a) ∙ e)) in
    simp (e1, e2, e3)

accepted : (path : Bytes) → IsDevicePath path → validate_target_path path ≡ ok tt
accepted path p =
    ap validate_target_path p.path_eq
    ∙ accepted_device p.name p.one_element p.not_empty p.not_dot p.not_dots

-- A target path is accepted exactly if it is `/dev/` and one element, which is not empty, `.` or `..`.
pub validate_target_path_iff :
    (path : Bytes) → (validate_target_path path ≡ ok tt) ↔ IsDevicePath path
unfolding validate_target_path
validate_target_path_iff path = (
  λ h.
      is_device_path path ((bytes_eq_iff (clean path) path).0 (ground arith)) (ground arith)
        ((bytes_eq_iff (dir path) (codes "/dev")).0 (ground arith)),
  accepted path,
)
