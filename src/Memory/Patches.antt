-- ===== src/Memory/Patches.antt =====
-- patch.rs and workspace.rs: the patch document, and the parts of `prepare_patch` that read no file.
use momo_core.Prelude.{
  Bool, true, false, not, ◌&&◌, ◌||◌, Option, none, some, List, [], ◌∷◌, Text, codes, text_eq, ◌==◌,
  if◌then◌else◌, Outcome, ok, err, ◌>>◌, unless,
}
use momo_core.Ddm.Profile.{Double}
use momo_core.Memory.Times.{ℤ}
use momo_core.Memory.Components.{PathBuf, normal}
use momo_core.Memory.Metadata.{
  MemoryError, yaml, index_version, not_active, duplicate_id, active, Metadata, MemoryDocument,
}
use momo_core.Memory.Paths.{ok_or}
use momo_core.Memory.Access.{AccessConfig}
use momo_core.Memory.Index.{MemoryIndex, has_entry}
use momo_core.Memory.Document.{Yaml}
use momo_core.Memory.Escapes.{
  escape_quoted_content_backslashes, escape_unknown_double_quoted_yaml_escapes,
}
use momo_core.Memory.Operations.{
  CreateMetadata, PatchOperation, append, replace, create, update_frontmatter,
}

abbrev pub index_path : PathBuf
index_path = normal (codes "indexes") ∷ normal (codes "memory_index.yaml") ∷ []

abbrev pub empty_index : MemoryIndex
empty_index = record { version = 1; entries = [] }

-- A text that is no index of version 1 is read as an empty one.
abbrev pub index_or_empty : Option MemoryIndex → MemoryIndex
index_or_empty none = empty_index
index_or_empty (some index) = if index.version == 1 then index else empty_index

module _ (f64 : Double) where
  pub record FilePatch : Type 0 where
    pub target_file : Text
    pub operations : List (PatchOperation f64)

  -- What stands in files, read and written as YAML.
  pub record Formats : Type 0 where
    pub metadata : Yaml f64
    pub patches : Text → Option (List FilePatch)
    pub access : Text → Option AccessConfig
    pub index : Text → Option MemoryIndex
    pub index_text : MemoryIndex → Option Text

  unfoldable pub is_create : PatchOperation f64 → Bool
  is_create (append section content) = false
  is_create (replace section content) = false
  is_create (create frontmatter content) = true
  is_create (update_frontmatter fields) = false

  unfoldable pub any_create : List (PatchOperation f64) → Bool
  unfolding is_create
  any_create [] = false
  any_create (operation ∷ rest) = is_create operation || any_create rest

  -- `creates == 1 && item.operations.len() == 1`
  unfoldable pub sole_create : List (PatchOperation f64) → Option (CreateMetadata f64 × Text)
  sole_create (create frontmatter content ∷ []) = some (frontmatter, content)
  sole_create _ = none

  unfoldable pub parse_patch_document : Formats → Text → Outcome MemoryError (List FilePatch)
  unfolding escape_quoted_content_backslashes escape_unknown_double_quoted_yaml_escapes
  parse_patch_document formats text =
      let quoted = escape_quoted_content_backslashes text in
      let repaired = escape_unknown_double_quoted_yaml_escapes quoted in
      elim (formats.patches quoted) [
        | some patch ↦ ok patch
        | none ↦ if text_eq repaired quoted then err yaml else ok_or (formats.patches repaired) yaml
      ]

  abbrev pub touched_at : ℤ → MemoryDocument f64 → MemoryDocument f64
  touched_at time document = record {
    metadata = record document.metadata { touch_at = time };
    body = document.body;
  }

  abbrev pub is_created : List (PatchOperation f64) → Bool
  is_created operations = elim (sole_create operations) [ none ↦ false | some made ↦ true ]

  -- The guards on a document that a patch creates.
  unfoldable pub check_created :
      Bool → Bool → MemoryIndex → Metadata f64 → Outcome MemoryError (Unit {0})
  unfolding has_entry
  check_created creates replayed index metadata =
      unless
        (creates
          && (not (text_eq metadata.status active) || text_eq metadata.kind (codes "current")))
        not_active
      >> unless (creates && not replayed && has_entry index.entries metadata.id) duplicate_id

  unfoldable pub encode_index : Formats → MemoryIndex → Outcome MemoryError Text
  encode_index formats index =
      unless (not (index.version == 1)) index_version >> ok_or (formats.index_text index) yaml
