-- ===== src/Memory/Index.antt =====
-- lib.rs and workspace.rs: the index of the long-term memories.
use momo_core.Prelude.{
  ℕ, Bool, true, false, ◌||◌, Option, none, some, List, [], ◌∷◌, ◌++◌, Text, codes, text_eq, trim,
  is_empty, strip_prefix, any, lookup, put, if◌then◌else◌, Outcome, ok, ◌>>=◌, ◌>>◌, unless,
}
use momo_core.Ddm.Profile.{Double}
use momo_core.Memory.Components.{PathBuf, component_name}
use momo_core.Memory.Metadata.{MemoryError, duplicate_id, Metadata, MemoryDocument}
use momo_core.Memory.Paths.{validate_document_location}
use momo_core.Memory.Section.{lines}
use momo_core.Memory.Terms.{Unicode, normalize, body_identifiers, body_terms}

pub record IndexEntry : Type 0 where
  pub path : Text
  pub kind : Text
  pub status : Option Text
  pub aliases : List Text
  pub tags : List Text
  pub body_identifiers : List Text
  pub body_terms : List Text

pub record MemoryIndex : Type 0 where
  pub version : ℕ
  pub entries : List (Text × IndexEntry)

-- The names of a path, joined by "/".
unfoldable pub portable_path : PathBuf → Text
portable_path [] = []
portable_path (c ∷ path) =
    let rest = portable_path path in
    elim (component_name c) [
      | none ↦ rest
      | some name ↦ if is_empty rest then name else name ++ (codes "/" ++ rest)
    ]

unfoldable pub first_title : List Text → Option Text
unfolding strip_prefix trim
first_title [] = none
first_title (line ∷ rest) =
    let later = first_title rest in
    elim (strip_prefix (codes "# ") line) [ none ↦ later | some title ↦ some (trim title) ]

-- `entries.contains_key(id)`
unfoldable pub has_entry : List (Text × IndexEntry) → Text → Bool
unfolding lookup
has_entry entries id = elim (lookup entries id) [ none ↦ false | some entry ↦ true ]

module _ (unicode : Unicode) where
  unfoldable pub add_title_alias : List Text → Text → Text → List Text
  unfolding first_title lines normalize
  add_title_alias aliases id body = elim (first_title (lines body)) [
    | none ↦ aliases
    | some title ↦
        let normalized_title = normalize unicode title in
        if is_empty title
          || text_eq normalized_title (normalize unicode id)
          || any (λ alias. text_eq (normalize unicode alias) normalized_title) aliases
        then aliases
        else aliases ++ title ∷ []
  ]

  module _ {f64 : Double} where
    abbrev aliases_of : List (Text × IndexEntry) → Metadata f64 → List Text
    aliases_of entries metadata =
        if is_empty metadata.aliases
        then elim (lookup entries metadata.id) [ none ↦ [] | some entry ↦ entry.aliases ]
        else metadata.aliases

    unfoldable pub entry_of : List (Text × IndexEntry) → PathBuf → MemoryDocument f64 → IndexEntry
    unfolding add_title_alias body_identifiers body_terms portable_path lookup
    entry_of entries relative document =
        let metadata = document.metadata in
        record {
          path = portable_path relative;
          kind = metadata.kind;
          status = some metadata.status;
          aliases = add_title_alias (aliases_of entries metadata) metadata.id document.body;
          tags = metadata.tags;
          body_identifiers = body_identifiers unicode document.body;
          body_terms = body_terms unicode document.body;
        }

    unfoldable pub update_index_entry :
        MemoryIndex → PathBuf → MemoryDocument f64 → Outcome MemoryError MemoryIndex
    unfolding validate_document_location entry_of
    update_index_entry index relative document =
        if text_eq document.metadata.kind (codes "current")
        then ok index
        else validate_document_location f64 relative document.metadata
          >> ok (record index {
            entries =
                put index.entries document.metadata.id (entry_of index.entries relative document);
          })

    -- `build_index_data`, its loop over the paths; `read_unchecked` is the argument `read`.
    unfoldable pub build_entries :
        (PathBuf → Outcome MemoryError (MemoryDocument f64))
        → List (Text × IndexEntry)
        → List (Text × IndexEntry)
        → List PathBuf
        → Outcome MemoryError (List (Text × IndexEntry))
    unfolding validate_document_location entry_of has_entry
    build_entries read previous entries [] = ok entries
    build_entries read previous entries (relative ∷ rest) = do
      document ← read relative
      done ← validate_document_location f64 relative document.metadata
      unused ← unless (has_entry entries document.metadata.id) duplicate_id
      build_entries read previous
          (put entries document.metadata.id (entry_of previous relative document)) rest
