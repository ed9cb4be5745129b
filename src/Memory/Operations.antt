-- ===== src/Memory/Operations.antt =====
-- patch.rs: the operations of a patch on one document.
pub mod Kept
use momo_core.Prelude.{
  ℕ, Bool, true, false, not, ◌&&◌, Option, none, some, List, [], ◌∷◌, Text, Outcome, ok, err, ◌>>=◌,
  ◌>>◌, unless,
}
use momo_core.Ddm.Profile.{Double}
use momo_core.Memory.Times.{ℤ, pos}
use momo_core.Memory.Metadata.{
  MemoryError, empty_update, create_on_existing, Metadata, MemoryDocument, is_some,
  validate_metadata,
}
use momo_core.Memory.Section.{mutate_section}

module _ (f64 : Double) where
  pub record CreateMetadata : Type 0 where
    pub id : Text
    pub kind : Text
    pub importance : f64.Number
    pub weight : f64.Number
    pub decay_at : ℤ
    pub relations : List (Text × List Text)
    pub tags : List Text
    pub aliases : List Text
    pub injection_scope : Option Text
    pub injection_conversation_id : Option Text
    pub injection_character_id : Option Text
    pub status : Text

  unfoldable pub into_metadata : CreateMetadata → Metadata f64
  into_metadata create = record {
    id = create.id;
    kind = create.kind;
    importance = some create.importance;
    weight = some create.weight;
    touch_at = pos 0;
    decay_at = some create.decay_at;
    archived_at = none;
    relations = create.relations;
    tags = create.tags;
    aliases = create.aliases;
    injection_scope = create.injection_scope;
    injection_conversation_id = create.injection_conversation_id;
    injection_character_id = create.injection_character_id;
    status = create.status;
  }

  pub record MetadataUpdate : Type 0 where
    pub importance : Option f64.Number
    pub weight : Option f64.Number
    pub decay_at : Option ℤ
    pub relations : Option (List (Text × List Text))
    pub tags : Option (List Text)
    pub aliases : Option (List Text)
    pub injection_scope : Option Text
    pub injection_conversation_id : Option Text
    pub injection_character_id : Option Text
    pub status : Option Text

  pub data PatchOperation : Type 0 where
    append replace : Text → Text → PatchOperation
    create : CreateMetadata → Text → PatchOperation
    update_frontmatter : MetadataUpdate → PatchOperation

  unfoldable pub is_unset : MetadataUpdate → Bool
  is_unset fields =
      not (is_some fields.importance)
      && not (is_some fields.weight)
      && not (is_some fields.decay_at)
      && not (is_some fields.relations)
      && not (is_some fields.tags)
      && not (is_some fields.aliases)
      && not (is_some fields.injection_scope)
      && not (is_some fields.injection_conversation_id)
      && not (is_some fields.injection_character_id)
      && not (is_some fields.status)

  -- `if let Some(value) = update { field = Some(value) }`, and the same for a field without option
  abbrev pub over : {A : Type 0} → Option A → Option A → Option A
  over none old = old
  over (some value) old = some value

  abbrev pub or_old : {A : Type 0} → Option A → A → A
  or_old none old = old
  or_old (some value) old = value

  abbrev pub updated : MetadataUpdate → Metadata f64 → Metadata f64
  updated fields old = record {
    id = old.id;
    kind = old.kind;
    importance = over fields.importance old.importance;
    weight = over fields.weight old.weight;
    touch_at = old.touch_at;
    decay_at = over fields.decay_at old.decay_at;
    archived_at = old.archived_at;
    relations = or_old fields.relations old.relations;
    tags = or_old fields.tags old.tags;
    aliases = or_old fields.aliases old.aliases;
    injection_scope = over fields.injection_scope old.injection_scope;
    injection_conversation_id = over fields.injection_conversation_id old.injection_conversation_id;
    injection_character_id = over fields.injection_character_id old.injection_character_id;
    status = or_old fields.status old.status;
  }

  abbrev with_body : MemoryDocument f64 → Text → MemoryDocument f64
  with_body document body = record { metadata = document.metadata; body = body }

  unfoldable pub changed_by :
      MemoryDocument f64 → PatchOperation → Outcome MemoryError (MemoryDocument f64)
  unfolding mutate_section is_unset
  changed_by document (append section content) = do
    body ← mutate_section document.body section content false
    ok (with_body document body)
  changed_by document (replace section content) = do
    body ← mutate_section document.body section content true
    ok (with_body document body)
  changed_by document (update_frontmatter fields) =
      unless (is_unset fields) empty_update
      >> ok (record { metadata = updated fields document.metadata; body = document.body })
  changed_by document (create frontmatter content) = err create_on_existing

  unfoldable pub apply_operation :
      MemoryDocument f64 → PatchOperation → Outcome MemoryError (MemoryDocument f64)
  unfolding changed_by validate_metadata
  apply_operation document operation = do
    next ← changed_by document operation
    validate_metadata f64 next.metadata >> ok next

  unfoldable pub apply_operations :
      MemoryDocument f64 → List PatchOperation → Outcome MemoryError (MemoryDocument f64)
  unfolding apply_operation
  apply_operations document [] = ok document
  apply_operations document (operation ∷ rest) = do
    next ← apply_operation document operation
    apply_operations next rest
