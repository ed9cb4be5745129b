-- ===== src/Memory/Same.antt =====
-- lib.rs: the derived comparison of documents.
use momo_core.Prelude.{Bool, true, false, ◌&&◌, Option, none, some, List, [], ◌∷◌, Text, text_eq}
use momo_core.Ddm.Profile.{Double}
use momo_core.Memory.Times.{same_time}
use momo_core.Memory.Metadata.{Metadata, MemoryDocument}

unfoldable pub same_option : {A : Type 0} → (A → A → Bool) → Option A → Option A → Bool
same_option eq none none = true
same_option eq (some a) (some b) = eq a b
same_option eq _ _ = false

unfoldable pub same_list : {A : Type 0} → (A → A → Bool) → List A → List A → Bool
same_list eq [] [] = true
same_list eq (a ∷ xs) (b ∷ ys) = eq a b && same_list eq xs ys
same_list eq _ _ = false

abbrev same_relation : Text × List Text → Text × List Text → Bool
same_relation (name, ids) (other, others) = text_eq name other && same_list text_eq ids others

module _ (f64 : Double) where
  unfoldable pub same_metadata : Metadata f64 → Metadata f64 → Bool
  unfolding same_option same_list
  same_metadata a b =
      text_eq a.id b.id
      && text_eq a.kind b.kind
      && same_option f64.equal a.importance b.importance
      && same_option f64.equal a.weight b.weight
      && same_time a.touch_at b.touch_at
      && same_option same_time a.decay_at b.decay_at
      && same_option same_time a.archived_at b.archived_at
      && same_list same_relation a.relations b.relations
      && same_list text_eq a.tags b.tags
      && same_list text_eq a.aliases b.aliases
      && same_option text_eq a.injection_scope b.injection_scope
      && same_option text_eq a.injection_conversation_id b.injection_conversation_id
      && same_option text_eq a.injection_character_id b.injection_character_id
      && text_eq a.status b.status

  unfoldable pub same_document : MemoryDocument f64 → MemoryDocument f64 → Bool
  unfolding same_metadata
  same_document a b = same_metadata a.metadata b.metadata && text_eq a.body b.body
