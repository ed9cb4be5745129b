-- ===== src/RuntimeSettings/Validity.antt =====
-- Which stores are sound.
use momo_core.Prelude.{
  ◌≡◌, refl, ap, ◌∙◌, subst, true, not, List, [], ◌∷◌, arith, Text, Outcome, err, ok, Succeeds,
  >>=-ok, >>-ok, unless-passed, ok-injective, Values, DistinctKeys,
}
use momo_core.Governance.Settings.{
  Floating, MomoRuntimeSettings, GovernanceError, invalid, overrides_not_an_object,
}
use momo_core.Governance.Validation.{validate as validate_settings}
use momo_core.RuntimeSettings.Json.{Json, is_object}
use momo_core.RuntimeSettings.Merge.{merge_patch, IsDistinct}
use momo_core.RuntimeSettings.Prune.{Fits}
use momo_core.RuntimeSettings.Store.{
  StoredSettings, Storage, report, as_invalid, decode, validate, validate_patch, validate_spaces,
}

module _ {float : Floating} {Leaf : Type 0} (files : Storage float Leaf) where
  -- What the settings' documents promise. They are objects whose keys are distinct, they are read
  -- back as the settings that they were written from, also when they are laid over the document of
  -- others, and a merge with an object where the settings have none is not read.
  pub record Documents : Type 0 where
    pub written : (s : MomoRuntimeSettings float) → is_object Leaf (files.to_value s) ≡ true
    pub distinct : (s : MomoRuntimeSettings float) → IsDistinct Leaf (files.to_value s)
    pub read :
        (s : MomoRuntimeSettings float)
        → validate_settings float s ≡ ok tt
        → files.from_value (files.to_value s) ≡ ok s
    pub laid_over :
        (s t : MomoRuntimeSettings float)
        → validate_settings float t ≡ ok tt
        → files.from_value (merge_patch Leaf (files.to_value s) (files.to_value t)) ≡ ok t
    pub fits :
        (s r : MomoRuntimeSettings float) (patch : Json Leaf)
        → IsDistinct Leaf patch
        → files.from_value (merge_patch Leaf (files.to_value s) patch) ≡ ok r
        → Fits Leaf (files.to_value s) patch

  abbrev pub Decodes : Json Leaf → Type 0
  Decodes value =
      (s : MomoRuntimeSettings float) × (files.from_value value ≡ ok s)
      × (validate_settings float s ≡ ok tt)

  -- An override that is an object and with which the defaults are valid settings.
  pub record IsPatch (defaults : MomoRuntimeSettings float) (patch : Json Leaf) : Type 0 where
    pub shaped : is_object Leaf patch ≡ true
    pub keys : IsDistinct Leaf patch
    pub decodes : Decodes (merge_patch Leaf (files.to_value defaults) patch)

  pub record IsStored (stored : StoredSettings float Leaf) : Type 0 where
    pub valid : validate_settings float stored.defaults ≡ ok tt
    pub patches : Values (IsPatch stored.defaults) stored.spaces
    pub keys : DistinctKeys stored.spaces

  pub report-ok :
      {A : Type 0} (wrap : Text → GovernanceError) (r : Outcome Text A) (a : A)
      → report wrap r ≡ ok a
      → r ≡ ok a
  report-ok wrap (err x) a h = absurd (ground arith)
  report-ok wrap (ok y) a h = cc

  pub decode-Decodes :
      (value : Json Leaf) (s : MomoRuntimeSettings float)
      → decode files value ≡ ok s
      → (files.from_value value ≡ ok s) × (validate_settings float s ≡ ok tt)
  unfolding decode
  decode-Decodes value s h =
      let (a, e, p) = >>=-ok (report as_invalid (files.from_value value)) _ h in
      let (v, q) = >>-ok (validate_settings float a) _ p in
      let same : a ≡ s = ok-injective q in
      (
        report-ok as_invalid (files.from_value value) s (e ∙ ap ok same),
        subst (λ x. validate_settings float x ≡ ok tt) same v,
      )

  Decodes-decode : (value : Json Leaf) → Decodes value → Succeeds (decode files value)
  unfolding decode
  Decodes-decode value (s, e, v) = (s, rw (e, v) refl)

  patches-of-validate :
      (d : MomoRuntimeSettings float) (spaces : List (Text × Json Leaf))
      → validate_spaces files d spaces ≡ ok tt
      → Values (IsDistinct Leaf) spaces
      → Values (IsPatch d) spaces
  unfolding validate_spaces validate_patch
  patches-of-validate d [] h k = tt
  patches-of-validate d ((id, patch) ∷ rest) h k =
      let (p, q) = >>-ok (validate_patch files d patch) _ h in
      let (o, r) =
        unless-passed (not (is_object Leaf patch)) (invalid overrides_not_an_object) _ p in
      let (s, e, _) = >>=-ok (decode files (merge_patch Leaf (files.to_value d) patch)) _ r in
      (
        record {
          shaped = ground (arith, o);
          keys = k.0;
          decodes =
              let (f, v) = decode-Decodes (merge_patch Leaf (files.to_value d) patch) s e in
              (s, f, v);
        },
        patches-of-validate d rest q k.1,
      )

  validate-of-patches :
      (d : MomoRuntimeSettings float) (spaces : List (Text × Json Leaf))
      → Values (IsPatch d) spaces
      → validate_spaces files d spaces ≡ ok tt
  unfolding validate_spaces validate_patch
  validate-of-patches d [] h = refl
  validate-of-patches d ((id, patch) ∷ rest) (p, q) =
      let (s, e) = Decodes-decode (merge_patch Leaf (files.to_value d) patch) p.decodes in
      rw (p.shaped, e) (validate-of-patches d rest q)

  -- `validate` accepts exactly the stores that are sound, given that no object names a key twice.
  pub validate-IsStored :
      (stored : StoredSettings float Leaf)
      → Values (IsDistinct Leaf) stored.spaces
      → DistinctKeys stored.spaces
      → validate files stored ≡ ok tt
      → IsStored stored
  unfolding validate
  validate-IsStored stored k d h =
      let (v, p) = >>-ok (validate_settings float stored.defaults) _ h in
      record {
        valid = v;
        patches = patches-of-validate stored.defaults stored.spaces p k;
        keys = d;
      }

  pub IsStored-validate :
      (stored : StoredSettings float Leaf) → IsStored stored → validate files stored ≡ ok tt
  unfolding validate
  IsStored-validate stored h =
      rw h.valid (validate-of-patches stored.defaults stored.spaces h.patches)
