-- ===== src/Memory/Operations/Kept.antt =====
-- What the operations of a patch cannot change.
use momo_core.Prelude.{
  ◌≡◌, refl, true, false, ◌∙◌, subst, List, [], ◌∷◌, ok, >>=-ok, >>-ok, unless-passed, ok-injective,
}
use momo_core.Ddm.Profile.{Double}
use momo_core.Memory.Metadata.{Metadata, MemoryDocument, validate_metadata, empty_update}
use momo_core.Memory.Section.{mutate_section}
use momo_core.Memory.Operations.{
  PatchOperation, append, replace, create, update_frontmatter, is_unset, changed_by,
  apply_operation, apply_operations,
}

module _ {f64 : Double} where
  -- Who the memory is and when it was touched and archived.
  pub record IsKept (old new : Metadata f64) : Type 0 where
    pub id : new.id ≡ old.id
    pub kind : new.kind ≡ old.kind
    pub touch_at : new.touch_at ≡ old.touch_at
    pub archived_at : new.archived_at ≡ old.archived_at

  IsKept-refl : (m : Metadata f64) → IsKept m m
  IsKept-refl m = record { id = refl; kind = refl; touch_at = refl; archived_at = refl }

  IsKept-trans : {a b c : Metadata f64} → IsKept a b → IsKept b c → IsKept a c
  IsKept-trans h k = record {
    id = k.id ∙ h.id;
    kind = k.kind ∙ h.kind;
    touch_at = k.touch_at ∙ h.touch_at;
    archived_at = k.archived_at ∙ h.archived_at;
  }

  changed_by-IsKept :
      (document next : MemoryDocument f64) (operation : PatchOperation f64)
      → changed_by f64 document operation ≡ ok next
      → IsKept document.metadata next.metadata
  unfolding changed_by
  changed_by-IsKept document next (append section content) h =
      let (body, _, q) = >>=-ok (mutate_section document.body section content false) _ h in
      subst (λ d. IsKept document.metadata d.metadata) (ok-injective q)
        (IsKept-refl document.metadata)
  changed_by-IsKept document next (replace section content) h =
      let (body, _, q) = >>=-ok (mutate_section document.body section content true) _ h in
      subst (λ d. IsKept document.metadata d.metadata) (ok-injective q)
        (IsKept-refl document.metadata)
  changed_by-IsKept document next (update_frontmatter fields) h =
      let (_, q) = unless-passed (is_unset f64 fields) empty_update _ h in
      subst (λ d. IsKept document.metadata d.metadata) (ok-injective q)
        (record { id = refl; kind = refl; touch_at = refl; archived_at = refl })
  changed_by-IsKept document next (create frontmatter content) h = cc

  apply_operation-IsKept :
      (document next : MemoryDocument f64) (operation : PatchOperation f64)
      → apply_operation f64 document operation ≡ ok next
      → IsKept document.metadata next.metadata × (validate_metadata f64 next.metadata ≡ ok tt)
  unfolding apply_operation
  apply_operation-IsKept document next operation h =
      let (changed, q, h1) = >>=-ok (changed_by f64 document operation) _ h in
      let (valid, r) = >>-ok (validate_metadata f64 changed.metadata) _ h1 in
      subst (λ d. IsKept document.metadata d.metadata × (validate_metadata f64 d.metadata ≡ ok tt))
        (ok-injective r) (changed_by-IsKept document changed operation q, valid)

  -- Operations that succeed on a document with valid metadata leave the metadata valid, and the
  -- identifier, the kind, and the times of the last touch and of archiving as they are.
  pub apply_operations-IsKept :
      (operations : List (PatchOperation f64)) (document next : MemoryDocument f64)
      → validate_metadata f64 document.metadata ≡ ok tt
      → apply_operations f64 document operations ≡ ok next
      → IsKept document.metadata next.metadata × (validate_metadata f64 next.metadata ≡ ok tt)
  unfolding apply_operations
  apply_operations-IsKept [] document next valid h =
      subst (λ d. IsKept document.metadata d.metadata × (validate_metadata f64 d.metadata ≡ ok tt))
        (ok-injective h) (IsKept-refl document.metadata, valid)
  apply_operations-IsKept (operation ∷ rest) document next valid h =
      let (first, q, h1) = >>=-ok (apply_operation f64 document operation) _ h in
      let (kept, then_valid) = apply_operation-IsKept document first operation q in
      let (later, last_valid) = apply_operations-IsKept rest first next then_valid h1 in
      (IsKept-trans kept later, last_valid)
