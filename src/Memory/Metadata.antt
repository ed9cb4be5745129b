-- ===== src/Memory/Metadata.antt =====
-- lib.rs, `Metadata` and `MemoryDocument`, and patch.rs, `validate_metadata`.
use momo_core.Prelude.{
  Bool, true, false, not, ◌&&◌, ◌||◌, Option, none, some, List, [], ◌∷◌, Text, codes, text_eq, trim,
  is_empty, member, if◌then◌else◌, Outcome, ◌>>◌, unless,
}
use momo_core.Ddm.Profile.{Double}
use momo_core.Memory.Times.{ℤ}
use momo_core.Memory.Components.{PathBuf}

pub data MemoryError : Type 0 where
  unsafe_path : PathBuf → MemoryError
  yaml invalid_frontmatter : MemoryError
  missing_section : Text → MemoryError
  -- an index that panics
  panic : MemoryError
  unsupported_type wrong_type archive_exists : Text → MemoryError
  empty_update create_on_existing create_differs create_not_alone id_changed not_active
        duplicate_target duplicate_id :
      MemoryError
  access_denied : Text → MemoryError
  access_version unknown_kind index_version io : MemoryError
  not_found : MemoryError

abbrev pub kinds : List Text
kinds =
    codes "current" ∷ codes "character" ∷ codes "relationship" ∷ codes "event" ∷ codes "world" ∷ []

abbrev pub active : Text
active = codes "active"

abbrev pub archived : Text
archived = codes "archived"

abbrev pub is_some {ℓ} : {A : Type ℓ} → Option A → Bool
is_some none = false
is_some (some a) = true

-- `value.as_deref().unwrap_or_default().trim().is_empty()`
abbrev pub is_blank : Option Text → Bool
is_blank none = true
is_blank (some value) = is_empty (trim value)

-- Numbers are the `f64` of the source, a parameter.
module _ (f64 : Double) where
  pub record Metadata : Type 0 where
    pub id : Text
    pub kind : Text
    pub importance : Option f64.Number
    pub weight : Option f64.Number
    pub touch_at : ℤ
    pub decay_at : Option ℤ
    pub archived_at : Option ℤ
    pub relations : List (Text × List Text)
    pub tags : List Text
    pub aliases : List Text
    pub injection_scope : Option Text
    pub injection_conversation_id : Option Text
    pub injection_character_id : Option Text
    pub status : Text

  pub record MemoryDocument : Type 0 where
    pub metadata : Metadata
    pub body : Text

  abbrev pub out_of_range : Option f64.Number → Bool
  out_of_range none = false
  out_of_range (some value) = not (f64.le (f64.decimal 0 0) value && f64.le value (f64.decimal 1 0))

  unfoldable pub scope_refused : Metadata → Bool
  scope_refused metadata = elim metadata.injection_scope [
    | none ↦ false
    | some scope ↦
        if text_eq scope (codes "conversation")
        then is_blank metadata.injection_conversation_id
        else if text_eq scope (codes "character")
        then is_blank metadata.injection_character_id
        else not (text_eq scope (codes "account"))
  ]

  unfoldable pub shape_refused : Metadata → Bool
  shape_refused metadata =
      if text_eq metadata.kind (codes "current")
      then is_some metadata.importance
        || is_some metadata.weight
        || is_some metadata.decay_at
        || is_some metadata.archived_at
        || is_some metadata.injection_scope
        || is_some metadata.injection_conversation_id
        || is_some metadata.injection_character_id
        || not (text_eq metadata.status active)
      else not (is_some metadata.importance)
        || not (is_some metadata.weight)
        || not (is_some metadata.decay_at)
        || (text_eq metadata.status active && is_some metadata.archived_at)

  unfoldable pub validate_metadata : Metadata → Outcome MemoryError (Unit {0})
  unfolding scope_refused shape_refused
  validate_metadata metadata =
      unless
        (is_empty (trim metadata.id)
          || not (member kinds metadata.kind)
          || not (text_eq metadata.status active || text_eq metadata.status archived))
        invalid_frontmatter
      >> unless (out_of_range metadata.importance || out_of_range metadata.weight)
          invalid_frontmatter
      >> unless (scope_refused metadata) invalid_frontmatter
      >> unless (shape_refused metadata) invalid_frontmatter
