-- ===== src/Memory/Prepare.antt =====
-- workspace.rs, `prepare_patch`: from the text of a patch to the changes of files, without making
-- them. YAML, the Unicode tables and the directory walk are parameters.
pub mod Managed
pub mod Tests
use momo_core.Prelude.{
  ℕ, Bool, true, false, not, ◌&&◌, ◌||◌, Option, none, some, List, [], ◌∷◌, ◌++◌, Text, codes,
  text_eq, member, is_empty, ◌==◌, if◌then◌else◌, Outcome, ok, err, ◌>>=◌, ◌>>◌, unless,
}
use momo_core.Ddm.Profile.{Double}
use momo_core.Commit.Transaction.{Files, FileMutation, write}
use momo_core.Memory.Times.{ℤ}
use momo_core.Memory.Same.{same_document}
use momo_core.Memory.Components.{PathBuf, normal, components}
use momo_core.Memory.Metadata.{
  MemoryError, unsafe_path, yaml, io, index_version, duplicate_target, create_differs,
  create_not_alone, id_changed, not_active, duplicate_id, active, Metadata, MemoryDocument,
}
use momo_core.Memory.Paths.{
  ok_or, validate_relative, validate_patch_target, expected_kind_for_path,
  validate_document_location,
}
use momo_core.Memory.Access
use momo_core.Memory.Access.{AccessConfig, require_write}
use momo_core.Memory.Terms.{Unicode}
use momo_core.Memory.Index.{
  MemoryIndex, IndexEntry, portable_path, has_entry, update_index_entry, build_entries,
}
use momo_core.Memory.Document.{Yaml, parse, encode}
use momo_core.Memory.Escapes.{
  escape_quoted_content_backslashes, escape_unknown_double_quoted_yaml_escapes,
}
use momo_core.Memory.Operations.{
  CreateMetadata, PatchOperation, append, replace, create, update_frontmatter, into_metadata,
  apply_operations,
}
use momo_core.Memory.Patches.{
  FilePatch, Formats, any_create, sole_create, parse_patch_document, touched_at, is_created,
  check_created, encode_index, index_path, empty_index, index_or_empty,
}

module _ (f64 : Double) where
  -- `refused` stands for links and directories on the way to a path, and `walked` for the paths of
  -- the long-term memories, sorted.
  module _ (formats : Formats f64) (unicode : Unicode) (refused : Text → Bool)
      (walked : List PathBuf) (files : Files) (now : ℤ) where
    unfoldable pub resolve : PathBuf → Outcome MemoryError Text
    unfolding validate_relative portable_path
    resolve relative =
        validate_relative relative
        >> unless (refused (portable_path relative)) (unsafe_path relative)
        >> ok (portable_path relative)

    unfoldable pub read_unchecked : PathBuf → Outcome MemoryError (MemoryDocument f64)
    unfolding resolve parse
    read_unchecked relative = do
      path ← resolve relative
      text ← ok_or (files path) io
      parse formats.metadata text

    -- A created document, or the same one if it is there: then the flag is set.
    unfoldable pub created_document :
        PathBuf → MemoryDocument f64 → Outcome MemoryError (Bool × MemoryDocument f64)
    unfolding resolve read_unchecked same_document
    created_document relative proposed = elim (files (portable_path relative)) [
      | none ↦ ok (false, proposed)
      | some text ↦ do
        existing ← read_unchecked relative
        done ←
            unless
              (not
                (same_document f64 (touched_at f64 existing.metadata.touch_at proposed) existing))
              create_differs
        ok (true, existing)
    ]

    unfoldable pub edited_document :
        PathBuf → List (PatchOperation f64) → Outcome MemoryError (Bool × MemoryDocument f64)
    unfolding any_create read_unchecked apply_operations
    edited_document relative operations =
        unless (any_create f64 operations || is_empty operations) create_not_alone >> (do
          original ← read_unchecked relative
          document ← apply_operations f64 original operations
          done ← unless (not (text_eq document.metadata.id original.metadata.id)) id_changed
          ok (false, document))

    unfoldable pub patched_document :
        PathBuf → List (PatchOperation f64) → Outcome MemoryError (Bool × MemoryDocument f64)
    unfolding sole_create created_document edited_document into_metadata
    patched_document relative operations = elim (sole_create f64 operations) [
      | some (frontmatter, content) ↦
          created_document relative
            (record { metadata = into_metadata f64 frontmatter; body = content })
      | none ↦ edited_document relative operations
    ]

    -- One round of the loop: the index and the change that it adds.
    unfoldable pub prepare_item :
        AccessConfig
        → MemoryIndex
        → FilePatch f64
        → Outcome MemoryError (MemoryIndex × FileMutation)
    unfolding validate_patch_target expected_kind_for_path require_write resolve patched_document
        validate_document_location check_created update_index_entry encode components sole_create
    prepare_item access index item =
        let relative = components item.target_file in
        do
          target ← validate_patch_target relative
          kind ← ok_or (expected_kind_for_path relative) (unsafe_path relative)
          allowed ← require_write access kind
          path ← resolve relative
          (replayed, patched) ← patched_document relative item.operations
          let document = if replayed then patched else touched_at f64 now patched
          located ← validate_document_location f64 relative document.metadata
          checked ←
              check_created f64 (is_created f64 item.operations) replayed index document.metadata
          next ← update_index_entry unicode index relative document
          text ← encode formats.metadata document
          ok (next, write path text)

    unfoldable pub prepare_items :
        AccessConfig
        → List Text
        → MemoryIndex
        → List (FilePatch f64)
        → Outcome MemoryError (MemoryIndex × List FileMutation)
    unfolding prepare_item
    prepare_items access touched index [] = ok (index, [])
    prepare_items access touched index (item ∷ rest) = do
      once ← unless (member touched item.target_file) duplicate_target
      (next, mutation) ← prepare_item access index item
      (last, mutations) ← prepare_items access (item.target_file ∷ touched) next rest
      ok (last, mutation ∷ mutations)

    unfoldable pub load_access : Outcome MemoryError AccessConfig
    unfolding resolve Access.validate components
    load_access = do
      path ← resolve (components (codes "config/access.yaml"))
      text ← ok_or (files path) io
      access ← ok_or (formats.access text) yaml
      Access.validate access >> ok access

    unfoldable pub load_index_for_rebuild : Outcome MemoryError MemoryIndex
    unfolding resolve
    load_index_for_rebuild = do
      path ← resolve index_path
      ok (elim (files path) [
        | none ↦ empty_index
        | some text ↦ index_or_empty (formats.index text)
      ])

    unfoldable pub build_index_data : MemoryIndex → Outcome MemoryError MemoryIndex
    unfolding build_entries read_unchecked
    build_index_data previous = do
      entries ← build_entries unicode read_unchecked previous.entries [] walked
      ok (record { version = 1; entries = entries })

    unfoldable pub prepare_patches :
        AccessConfig → List (FilePatch f64) → Outcome MemoryError (List FileMutation)
    unfolding load_index_for_rebuild build_index_data prepare_items encode_index resolve
    prepare_patches access [] = ok []
    prepare_patches access (item ∷ rest) = do
      existing_index ← load_index_for_rebuild
      index ← build_index_data existing_index
      (last, mutations) ← prepare_items access [] index (item ∷ rest)
      path ← resolve index_path
      text ← encode_index f64 formats last
      ok (mutations ++ write path text ∷ [])

    -- `prepare_patch_for_identity` for no identity.
    unfoldable pub prepare_patch : Text → Outcome MemoryError (List FileMutation)
    unfolding load_access parse_patch_document prepare_patches
    prepare_patch text = do
      access ← load_access
      patches ← parse_patch_document f64 formats text
      prepare_patches access patches
