-- ===== src/Lifecycle/Policy.antt =====
-- provenance.rs of crates/momo-domain: who may use a record.
use momo_core.Prelude.{
  ℕ, Bool, true, false, ◌&&◌, ◌||◌, Option, none, some, List, [], ◌∷◌, ◌++◌, Text, text_eq, leb,
  ltb, ◌==◌, member, utf8_len, length, Outcome, unless, ◌>>◌,
}

pub data FactKind : Type 0 where
  experience relationship commitment preference knowledge rule unknown : FactKind

pub record MemoryIdentity : Type 0 where
  pub personal_space_id : Text
  pub conversation_id : Text
  pub character_id : Text
  pub continuity_id : Text
  pub function_id : Option Text

pub record RecordPolicy : Type 0 where
  pub revision : ℕ
  pub local_space_id : Text
  pub personal_space_id : Text
  pub owner_character_id : Option Text
  pub readers : List Text
  pub continuity_ids : List Text
  pub function_ids : List Text
  pub fact_kind : FactKind
  pub subjects : List Text
  pub participants : List Text
  pub responsible_characters : List Text
  pub valid_from : Option ℕ
  pub valid_until : Option ℕ

-- `== Some(text)`
abbrev pub is_text : Option Text → Text → Bool
is_text none text = false
is_text (some found) text = text_eq found text

abbrev pub is_empty_list : {A : Type 0} → List A → Bool
is_empty_list [] = true
is_empty_list (x ∷ xs) = false

abbrev pub is_member : List Text → Option Text → Bool
is_member ids none = false
is_member ids (some id) = member ids id

abbrev pub not_before : Option ℕ → ℕ → Bool
not_before none now = true
not_before (some from) now = leb from now

abbrev pub not_after : Option ℕ → ℕ → Bool
not_after none now = true
not_after (some until) now = leb now until

unfoldable pub permits : RecordPolicy → Text → MemoryIdentity → ℕ → Bool
permits policy space identity now =
    text_eq policy.local_space_id space
    && text_eq policy.personal_space_id identity.personal_space_id
    && (is_text policy.owner_character_id identity.character_id
        || member policy.readers identity.character_id)
    && (is_empty_list policy.continuity_ids || member policy.continuity_ids identity.continuity_id)
    && (is_empty_list policy.function_ids || is_member policy.function_ids identity.function_id)
    && not_before policy.valid_from now
    && not_after policy.valid_until now

-- `a > b`, where both are there
abbrev pub reversed : Option ℕ → Option ℕ → Bool
reversed (some a) (some b) = ltb b a
reversed _ _ = false

unfoldable pub bad_name : List Text → Bool
bad_name [] = false
bad_name (s ∷ rest) = is_empty_list s || ltb 512 (utf8_len s) || bad_name rest

abbrev pub is_rule : FactKind → Bool
is_rule rule = true
is_rule _ = false

pub data PolicyError : Type 0 where
  invalid_record_policy rules_require_a_mapping : PolicyError

unfoldable pub validate : RecordPolicy → Outcome PolicyError (Unit {0})
validate policy = do
  unless
      (policy.revision == 0
        || ltb 256 (length policy.readers)
        || ltb 256 (length policy.continuity_ids)
        || ltb 64 (length policy.function_ids)
        || ltb 256 (length policy.subjects)
        || ltb 256 (length policy.participants)
        || ltb 256 (length policy.responsible_characters)
        || bad_name (policy.function_ids ++ policy.subjects)
        || reversed policy.valid_from policy.valid_until)
      invalid_record_policy
  unless (is_rule policy.fact_kind && is_empty_list policy.continuity_ids) rules_require_a_mapping
