-- ===== src/RuntimeSettings/Tests.antt =====
-- A run of the settings store, and instances of its theorems.
use momo_core.Prelude.{
  ℕ, ◌≡◌, refl, ap, ◌∙◌, true, false, none, some, List, [], ◌∷◌, arith, Text, text_eq, text_eq_refl,
  text_eq_iff, codes, Outcome, err, ok, leb, ltb, ◌==◌, lookup, put, Bool-cases, inl, inr,
}
use momo_core.Governance.Settings.{Floating, MomoRuntimeSettings, default_settings}
use momo_core.Governance.Validation.{
  validate as validate_settings, find_reserved, has_name, window_refused, lifecycle_refused,
  intervals_refused, limits_refused, refuse_reserved,
}
use momo_core.RuntimeSettings.Json.{
  Json, Fields, null, leaf, object, end, field, is_object, or_null, fields_of, get,
  put as put_field, remove,
}
use momo_core.RuntimeSettings.Merge.{
  merge_patch, merge_fields, prune_empty_objects, IsDistinct, DistinctFields, patched,
  merge_patch-patched,
}
use momo_core.RuntimeSettings.Prune.{Fits, FitsFields}
use momo_core.RuntimeSettings.Sources.{normalize_space_overrides}
use momo_core.RuntimeSettings.Store.{
  StoredSettings, Storage, decode, validate, validate_patch, validate_spaces, effective, resource,
}
use momo_core.RuntimeSettings.Update.{edit, next_revision, seal, write, update, load}
use momo_core.RuntimeSettings.Validity.{Documents, IsStored}
use momo_core.RuntimeSettings.Soundness.{IsUpdate, update-IsUpdate}
use momo_core.RuntimeSettings.Reload.{update-load}
use momo_core.RuntimeSettings.Effect.{update-effective, asked}

-- Numbers in tenths.
abbrev tenths : Floating
tenths = record {
  Number = ℕ;
  is_finite = λ x. true;
  below_one = λ x. ltb x 10;
  is_zero = λ x. x == 0;
  up_to_two = λ x. leb x 20;
  nine_tenths = 9;
}

abbrev Settings : Type 0
Settings = MomoRuntimeSettings tenths

-- Documents with one field, whose leaf is all the settings.
abbrev written : Settings → Json Settings
written s = object (field (codes "all") (leaf s) end)

abbrev plain : Settings
plain = default_settings tenths

abbrev quiet : Settings
quiet = record {
  schema_version = plain.schema_version;
  history_window = record { enabled = true; trigger_turns = 20; evict_turns = 4 };
  request_overrides = plain.request_overrides;
  runtime = plain.runtime;
  mo_state = plain.mo_state;
  roleplay = record { enabled = false };
  vision = plain.vision;
}

abbrev house : StoredSettings tenths Settings
house = record {
  schema = "momo.runtime-settings/1";
  revision = 4;
  defaults = plain;
  spaces = (codes "hall", written quiet) ∷ [];
}

abbrev refurbished : StoredSettings tenths Settings
refurbished = record {
  schema = "momo.runtime-settings/1";
  revision = 5;
  defaults = plain;
  spaces = (codes "hall", written quiet) ∷ (codes "attic", written quiet) ∷ [];
}

abbrev read : Json Settings → Outcome Text Settings
read (object (field key (leaf s) end)) = ok s
read _ = err (codes "unknown field")

abbrev files : Storage tenths Settings
files = record {
  to_value = written;
  from_value = read;
  to_vec_pretty = λ stored. ok (stored.revision ∷ []);
  from_slice = λ bytes. ok refurbished;
  persist = λ bytes. ok tt;
}

read-leaves :
    (m : Fields Settings) (r : Settings) (key : Text) (g : Fields Settings)
    → read (object m) ≡ ok r
    → get Settings m key ≡ some (object g)
    → ⊥
unfolding get
read-leaves end r key g h e = ground (arith, h)
read-leaves (field k null end) r key g h e = ground (arith, h)
read-leaves (field k (object f) end) r key g h e = ground (arith, h)
read-leaves (field k (leaf s) end) r key g h e = ground (arith, e)
read-leaves (field k null (field l w rest)) r key g h e = ground (arith, h)
read-leaves (field k (object f) (field l w rest)) r key g h e = ground (arith, h)
read-leaves (field k (leaf s) (field l w rest)) r key g h e = ground (arith, h)

no_object :
    (target v : Json Settings) → ((g : Fields Settings) → v ≡ object g → ⊥) → Fits Settings target v
no_object target null h = tt
no_object target (leaf s) h = tt
no_object target (object g) h = absurd (h g refl)

FitsFields-leaves :
    (current fields : Fields Settings)
    → DistinctFields Settings fields
    → ((key : Text) (g : Fields Settings) → get Settings fields key ≡ some (object g) → ⊥)
    → FitsFields Settings current fields
unfolding get
FitsFields-leaves current end d h = tt
FitsFields-leaves current (field k v rest) d h =
    let later = FitsFields-leaves current rest d.2 λ key g e. elim (Bool-cases (text_eq k key)) [
      | inl t ↦
          let same : k ≡ key = (text_eq_iff k key).0 t in
          ground (arith, e, d.0, ap (get Settings rest) same)
      | inr t ↦ h key g (rw (t, get) e)
    ] in
    (
      no_object (or_null Settings (get Settings current k)) v
          λ g e. h k g (ground (arith, e, text_eq_refl k)),
      later,
    )

fits :
    (s r : Settings) (patch : Json Settings)
    → IsDistinct Settings patch
    → read (merge_patch Settings (written s) patch) ≡ ok r
    → Fits Settings (written s) patch
unfolding merge_patch
fits s r null d h = tt
fits s r (leaf x) d h = tt
fits s r (object fields) d h = (
  refl,
  FitsFields-leaves (field (codes "all") (leaf s) end) fields d λ key g e.
      read-leaves (merge_fields Settings (field (codes "all") (leaf s) end) fields) r key _ h (
        (merge_patch-patched Settings (written s) fields key d).1
        ∙ ap (patched Settings (get Settings (field (codes "all") (leaf s) end) key)) e),
)

documents : Documents files
unfolding merge_patch get put_field text_eq
documents = record {
  written = λ s. refl;
  distinct = λ s. (refl, tt, tt);
  read = λ s v. refl;
  laid_over = λ s t v. refl;
  fits = fits;
}

quiet_accepted : validate_settings tenths quiet ≡ ok tt
unfolding validate_settings has_name find_reserved window_refused lifecycle_refused
    intervals_refused limits_refused refuse_reserved
quiet_accepted = refl

plain_accepted : validate_settings tenths plain ≡ ok tt
unfolding validate_settings has_name find_reserved window_refused lifecycle_refused
    intervals_refused limits_refused refuse_reserved
plain_accepted = refl

house-IsStored : IsStored files house
unfolding merge_patch get lookup put_field text_eq
house-IsStored = record {
  valid = plain_accepted;
  patches = (
    record { shaped = refl; keys = (refl, tt, tt); decodes = (quiet, refl, quiet_accepted) },
    tt,
  );
  keys = (refl, tt);
}

house_updated :
    update files house (some (codes "attic")) (some 4) (some (written quiet)) true
    ≡ ok (refurbished, resource files refurbished (some (codes "attic")))
unfolding update edit seal write validate validate_spaces validate_patch decode merge_patch get put
    put_field text_eq lookup prune_empty_objects normalize_space_overrides next_revision
    validate_settings has_name find_reserved window_refused lifecycle_refused intervals_refused
    limits_refused refuse_reserved
house_updated = refl

written-IsDistinct : (s : Settings) → IsDistinct Settings (written s)
unfolding get
written-IsDistinct s = (refl, tt, tt)

update-IsUpdate_example :
    IsUpdate files documents house
      (some 4)
      refurbished
      (resource files refurbished (some (codes "attic")))
update-IsUpdate_example =
    update-IsUpdate files documents house (some (codes "attic")) (some 4) (some (written quiet))
      true refurbished (resource files refurbished (some (codes "attic"))) house-IsStored
      (written-IsDistinct quiet) house_updated

update-effective_example :
    (effective files refurbished (some (codes "attic"))
      ≡ read (asked files documents house (some (codes "attic")) (some (written quiet)) true))
    × ((id : Text)
        → some (codes "attic") ≡ some id
        → (effective files refurbished none ≡ effective files house none)
          × ((other : Text)
              → text_eq id other ≡ false
              → effective files refurbished (some other) ≡ effective files house (some other)))
update-effective_example =
    update-effective files documents house (some (codes "attic")) (some 4) (some (written quiet))
      true refurbished (resource files refurbished (some (codes "attic"))) house-IsStored
      (written-IsDistinct quiet) house_updated

update-load_example :
    (bytes : List ℕ) × (files.to_vec_pretty refurbished ≡ ok bytes)
    × (files.persist bytes ≡ ok tt)
    × (load files (ok (some bytes)) ≡ ok refurbished)
update-load_example =
    update-load files documents house (some (codes "attic")) (some 4) (some (written quiet)) true
      refurbished (resource files refurbished (some (codes "attic"))) house-IsStored
      (written-IsDistinct quiet) refl (λ bytes e. refl) house_updated

-- {"a": 1, "b": {"c": 2}} and {"a": null, "b": {"d": 3}, "e": {}}
abbrev target : Json ℕ
target =
    object
      (field (codes "a") (leaf 1) (field (codes "b") (object (field (codes "c") (leaf 2) end)) end))

abbrev changes : Fields ℕ
changes = field (codes "a") null (field (codes "b") (object (field (codes "d") (leaf 3) end)) end)

merge_patch_run :
    merge_patch ℕ target (object changes)
    ≡ object (
        field
          (codes "b")
          (object (field (codes "c") (leaf 2) (field (codes "d") (leaf 3) end)))
          end)
unfolding merge_patch get put_field remove text_eq
merge_patch_run = refl

changes-DistinctFields : DistinctFields ℕ changes
unfolding get text_eq
changes-DistinctFields = (refl, tt, (refl, (refl, tt, tt), tt))

merge_patch-patched_example :
    (is_object ℕ (merge_patch ℕ target (object changes)) ≡ true)
    × (get ℕ (fields_of ℕ (merge_patch ℕ target (object changes))) (codes "b")
        ≡ patched ℕ (get ℕ (fields_of ℕ target) (codes "b")) (get ℕ changes (codes "b")))
    × ((x : ℕ) → merge_patch ℕ target (leaf x) ≡ leaf x)
merge_patch-patched_example =
    merge_patch-patched ℕ target changes (codes "b") changes-DistinctFields

-- {"b": {}}
abbrev hollow : Json ℕ
hollow = object (field (codes "b") (object end) end)

hollow_run : (prune_empty_objects ℕ hollow).1 ≡ object end
unfolding prune_empty_objects
hollow_run = refl

hollow-IsDistinct : IsDistinct ℕ hollow
unfolding get
hollow-IsDistinct = (refl, tt, tt)

hollow-Fits : Fits ℕ target hollow
unfolding get text_eq
hollow-Fits = (refl, ((refl, tt), tt))
