-- ===== src/RuntimeSettings/Store.antt =====
-- settings.rs, `SettingsStore`: the settings as they are stored, their validation, the settings in
-- effect, and an update.
use momo_core.Prelude.{
  ℕ, ◌*◌, not, Option, none, some, List, [], ◌∷◌, String, Text, lookup, Outcome, err, ok, ◌>>=◌,
  ◌>>◌, unless,
}
use momo_core.Governance.Settings.{
  Floating, MomoRuntimeSettings, GovernanceError, Result, invalid, overrides_not_an_object,
  reported,
}
use momo_core.Governance.Validation.{validate as validate_settings}
use momo_core.RuntimeSettings.Json.{Json, is_object}
use momo_core.RuntimeSettings.Merge.{merge_patch}
use momo_core.RuntimeSettings.Sources.{field_sources, source_of}

pub record StoredSettings (float : Floating) (Leaf : Type 0) : Type 0 where
  pub schema : String
  pub revision : ℕ
  pub defaults : MomoRuntimeSettings float
  pub spaces : List (Text × Json Leaf)

pub record RuntimeSettingsResource (float : Floating) : Type 0 where
  pub revision : ℕ
  pub space_id : Option Text
  pub source : String
  pub settings : MomoRuntimeSettings float
  pub sources : List (Text × String)

-- What the store uses of `serde_json` and of the file system: the documents of the settings, the
-- file's bytes and their reading, and the replacement of the file.
pub record Storage (float : Floating) (Leaf : Type 0) : Type 0 where
  pub to_value : MomoRuntimeSettings float → Json Leaf
  pub from_value : Json Leaf → Outcome Text (MomoRuntimeSettings float)
  pub to_vec_pretty : StoredSettings float Leaf → Outcome Text (List ℕ)
  pub from_slice : List ℕ → Outcome Text (StoredSettings float Leaf)
  pub persist : List ℕ → Outcome Text (Unit {0})

abbrev pub max_spaces : ℕ
max_spaces = 1024

abbrev pub max_file : ℕ
max_file = 4 * 1024 * 1024

abbrev pub stored_schema : String
stored_schema = "momo.runtime-settings/1"

-- `map_err`
abbrev pub report {ℓ} : {A : Type ℓ} → (Text → GovernanceError) → Outcome Text A → Result A
report wrap (err text) = err (wrap text)
report wrap (ok value) = ok value

abbrev pub as_invalid : Text → GovernanceError
as_invalid text = invalid (reported text)

module _ {float : Floating} {Leaf : Type 0} (files : Storage float Leaf) where
  unfoldable pub decode : Json Leaf → Result (MomoRuntimeSettings float)
  decode value = do
    settings ← report as_invalid (files.from_value value)
    validate_settings float settings
    ok settings

  unfoldable pub validate_patch : MomoRuntimeSettings float → Json Leaf → Result (Unit {0})
  validate_patch defaults patch = do
    unless (not (is_object Leaf patch)) (invalid overrides_not_an_object)
    decoded ← decode (merge_patch Leaf (files.to_value defaults) patch)
    ok tt

  unfoldable pub validate_spaces :
      MomoRuntimeSettings float → List (Text × Json Leaf) → Result (Unit {0})
  validate_spaces defaults [] = ok tt
  validate_spaces defaults ((id, patch) ∷ rest) = do
    validate_patch defaults patch
    validate_spaces defaults rest

  unfoldable pub validate : StoredSettings float Leaf → Result (Unit {0})
  validate stored = do
    validate_settings float stored.defaults
    validate_spaces stored.defaults stored.spaces

  abbrev pub patch_of : StoredSettings float Leaf → Option Text → Option (Json Leaf)
  patch_of stored none = none
  patch_of stored (some id) = lookup stored.spaces id

  abbrev pub merged : Json Leaf → Option (Json Leaf) → Json Leaf
  merged value none = value
  merged value (some patch) = merge_patch Leaf value patch

  -- The document that `effective` reads, which it expects to be accepted.
  unfoldable pub effective :
      StoredSettings float Leaf → Option Text → Outcome Text (MomoRuntimeSettings float)
  effective stored space =
      files.from_value (merged (files.to_value stored.defaults) (patch_of stored space))

  -- An error is the panic of `expect`.
  unfoldable pub resource :
      StoredSettings float Leaf → Option Text → Outcome Text (RuntimeSettingsResource float)
  resource stored space = do
    settings ← effective stored space
    ok (record {
      revision = stored.revision;
      space_id = space;
      source = source_of (patch_of stored space);
      settings = settings;
      sources = field_sources (files.to_value settings) (patch_of stored space) [] [];
    })
