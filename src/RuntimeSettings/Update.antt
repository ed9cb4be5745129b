-- ===== src/RuntimeSettings/Update.antt =====
-- settings.rs, `SettingsStore::load` and `SettingsStore::update`.
use momo_core.Prelude.{
  ℕ, ◌+◌, ◌^◌, Bool, true, false, not, Option, none, some, List, [], Text, if◌then◌else◌, ◌==◌, ltb,
  length, lookup, put, discard, Outcome, err, ok, ◌>>=◌, ◌>>◌, unless, str_eq,
}
use momo_core.Governance.Settings.{
  Floating, MomoRuntimeSettings, default_settings, Result, invalid, conflict, persistence,
  settings_not_an_object, too_many_overrides, revision_exhausted, file_too_large,
  unsupported_stored_settings,
}
use momo_core.RuntimeSettings.Json.{Json, object, end, is_object}
use momo_core.RuntimeSettings.Merge.{merge_patch}
use momo_core.RuntimeSettings.Sources.{normalize_space_overrides}
use momo_core.RuntimeSettings.Store.{
  StoredSettings, RuntimeSettingsResource, Storage, max_spaces, max_file, stored_schema, report,
  as_invalid, decode, validate, resource,
}

-- `checked_add(1)` on a `u64`
unfoldable pub next_revision : ℕ → Result ℕ
next_revision revision =
    if ltb (revision + 1) (2 ^ 64) then ok (revision + 1) else err (invalid revision_exhausted)

module _ {float : Floating} {Leaf : Type 0} (files : Storage float Leaf) where
  -- `entry(id).or_insert_with(|| json!({}))`
  abbrev pub or_object : Option (Json Leaf) → Json Leaf
  or_object none = object end
  or_object (some patch) = patch

  abbrev pub with_patch : StoredSettings float Leaf → Text → Json Leaf → StoredSettings float Leaf
  with_patch stored id patch = record {
    schema = stored.schema;
    revision = stored.revision;
    defaults = stored.defaults;
    spaces = put stored.spaces id patch;
  }

  abbrev pub with_defaults :
      StoredSettings float Leaf → MomoRuntimeSettings float → StoredSettings float Leaf
  with_defaults stored defaults = record {
    schema = stored.schema;
    revision = stored.revision;
    defaults = defaults;
    spaces = stored.spaces;
  }

  -- The match of `update`, by the space, the value and whether it is a patch.
  unfoldable pub edit :
      StoredSettings float Leaf
      → Option Text
      → Option (Json Leaf)
      → Bool
      → Result (StoredSettings float Leaf)
  edit stored (some id) (some value) true = do
    unless (not (is_object Leaf value)) (invalid settings_not_an_object)
    ok (with_patch stored id (merge_patch Leaf (or_object (lookup stored.spaces id)) value))
  edit stored (some id) (some value) false = do
    unless (not (is_object Leaf value)) (invalid settings_not_an_object)
    settings ← decode files value
    ok (with_patch stored id (files.to_value settings))
  edit stored (some id) none patch = ok (record {
    schema = stored.schema;
    revision = stored.revision;
    defaults = stored.defaults;
    spaces = discard stored.spaces id;
  })
  edit stored none (some value) true = do
    unless (not (is_object Leaf value)) (invalid settings_not_an_object)
    settings ← decode files (merge_patch Leaf (files.to_value stored.defaults) value)
    ok (with_defaults stored settings)
  edit stored none (some value) false = do
    unless (not (is_object Leaf value)) (invalid settings_not_an_object)
    settings ← decode files value
    ok (with_defaults stored settings)
  edit stored none none patch = ok (with_defaults stored (default_settings float))

  abbrev pub with_spaces :
      StoredSettings float Leaf → ℕ → List (Text × Json Leaf) → StoredSettings float Leaf
  with_spaces stored revision spaces = record {
    schema = stored.schema;
    revision = revision;
    defaults = stored.defaults;
    spaces = spaces;
  }

  -- The settings without the empty overrides, at the next revision, and within the limits.
  unfoldable pub seal : StoredSettings float Leaf → Result (StoredSettings float Leaf)
  seal next = do
    validate files next
    unless (ltb max_spaces (length (normalize_space_overrides next.spaces)))
        (invalid too_many_overrides)
    revision ← next_revision next.revision
    ok (with_spaces next revision (normalize_space_overrides next.spaces))

  unfoldable pub write : StoredSettings float Leaf → Result (Unit {0})
  write next = do
    bytes ← report as_invalid (files.to_vec_pretty next)
    unless (ltb max_file (length bytes)) (invalid file_too_large)
    report persistence (files.persist bytes)

  abbrev pub refuse_stale : Option ℕ → ℕ → Result (Unit {0})
  refuse_stale none actual = ok tt
  refuse_stale (some expected) actual = unless (not (expected == actual)) (conflict expected actual)

  -- The store after the update and the resource that the update answers with. An error leaves the
  -- store as it was.
  unfoldable pub update :
      StoredSettings float Leaf
      → Option Text
      → Option ℕ
      → Option (Json Leaf)
      → Bool
      → Result (StoredSettings float Leaf × Outcome Text (RuntimeSettingsResource float))
  update stored space expected value patch = do
    refuse_stale expected stored.revision
    edited ← edit stored space value patch
    next ← seal edited
    write next
    ok (next, resource files next space)

  abbrev pub opened : Option (List ℕ) → Result (StoredSettings float Leaf)
  opened none = ok (record {
    schema = stored_schema;
    revision = 0;
    defaults = default_settings float;
    spaces = [];
  })
  opened (some bytes) = do
    unless (ltb max_file (length bytes)) (invalid file_too_large)
    report as_invalid (files.from_slice bytes)

  -- `load`, of what the file says, if there is one.
  unfoldable pub load : Outcome Text (Option (List ℕ)) → Result (StoredSettings float Leaf)
  load file = do
    read ← report persistence file
    stored ← opened read
    unless (not (str_eq stored.schema stored_schema)) (invalid unsupported_stored_settings)
    validate files stored
    unless (ltb max_spaces (length (normalize_space_overrides stored.spaces)))
        (invalid unsupported_stored_settings)
    ok (with_spaces stored stored.revision (normalize_space_overrides stored.spaces))
