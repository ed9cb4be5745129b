-- ===== src/PromptSpaces/Registry.antt =====
-- prompt_spaces.rs: the names of the prompts, and what is read, replaced, reset and loaded.
use momo_core.Prelude.{
  ℕ, ◌*◌, Bool, not, ◌||◌, Option, none, some, List, [], ◌∷◌, map, Text, codes, text_eq, trim,
  utf8_len, is_empty, ltb, ◌==◌, if◌then◌else◌, Outcome, err, ok, ◌>>=◌, ◌>>◌, unless,
}

pub data PromptSpaceId : Type 0 where
  assistant vision_fallback roleplay_director memory_distillation semantic_graph_governance :
      PromptSpaceId
  ddm_profile_generation : PromptSpaceId

abbrev pub all_ids : List PromptSpaceId
all_ids =
    assistant ∷ vision_fallback ∷ roleplay_director ∷ memory_distillation
    ∷ semantic_graph_governance ∷ ddm_profile_generation ∷ []

abbrev pub as_str : PromptSpaceId → Text
as_str assistant = codes "assistant"
as_str vision_fallback = codes "vision_fallback"
as_str roleplay_director = codes "roleplay_director"
as_str memory_distillation = codes "memory_distillation"
as_str semantic_graph_governance = codes "semantic_graph_governance"
as_str ddm_profile_generation = codes "ddm_profile_generation"

-- `==` on the identifiers
abbrev pub number : PromptSpaceId → ℕ
number assistant = 0
number vision_fallback = 1
number roleplay_director = 2
number memory_distillation = 3
number semantic_graph_governance = 4
number ddm_profile_generation = 5

abbrev pub same_id : PromptSpaceId → PromptSpaceId → Bool
same_id a b = number a == number b

abbrev pub prompt_spaces_schema : Text
prompt_spaces_schema = codes "momo.prompt-spaces/1.0"

abbrev pub max_prompt_space_bytes : ℕ
max_prompt_space_bytes = 256 * 1024

pub data PromptSpaceSource : Type 0 where
  builtin override : PromptSpaceSource

pub record PromptSpace : Type 0 where
  pub id : PromptSpaceId
  pub content : Text
  pub source : PromptSpaceSource
  pub revision : Text

-- An I/O or JSON error by its text.
pub data PromptSpacesError : Type 0 where
  unknown : Text → PromptSpacesError
  invalid_content : PromptSpaceId → ℕ → PromptSpacesError
  unsupported_schema : Text → PromptSpacesError
  failed : Text → PromptSpacesError

-- `BTreeMap<PromptSpaceId, String>`
abbrev pub Overrides : Type 0
Overrides = PromptSpaceId → Option Text

abbrev pub insert : Overrides → PromptSpaceId → Option Text → Overrides
insert overrides id content other = if same_id other id then content else overrides other

-- `iter().find(|id| id.as_str() == value)`
unfoldable pub find_id : List PromptSpaceId → Text → Outcome PromptSpacesError PromptSpaceId
find_id [] value = err (unknown value)
find_id (id ∷ rest) value =
    let later = find_id rest value in if text_eq (as_str id) value then ok id else later

unfoldable pub from_str : Text → Outcome PromptSpacesError PromptSpaceId
from_str value = find_id all_ids value

unfoldable pub validate_content : PromptSpaceId → Text → Outcome PromptSpacesError (Unit {0})
validate_content id content =
    unless (is_empty (trim content) || ltb max_prompt_space_bytes (utf8_len content))
      (invalid_content id max_prompt_space_bytes)

-- The texts compiled in, the SHA-256 digest in hexadecimal, and the replacement of the file, which
-- succeeds at once where there is no path.
pub record Product : Type 0 where
  pub default_content : PromptSpaceId → Text
  pub digest : Text → Text
  pub persist : Overrides → Outcome PromptSpacesError (Unit {0})

module _ (product : Product) where
  unfoldable pub prompt_space : PromptSpaceId → Option Text → PromptSpace
  prompt_space id none = record {
    id = id;
    content = product.default_content id;
    source = builtin;
    revision = product.digest (product.default_content id);
  }
  prompt_space id (some content) = record {
    id = id;
    content = content;
    source = override;
    revision = product.digest content;
  }

  unfoldable pub get : Overrides → PromptSpaceId → PromptSpace
  get overrides id = prompt_space id (overrides id)

  unfoldable pub list : Overrides → List PromptSpace
  list overrides = map (get overrides) all_ids

  -- What the closure of `replace` makes of the overrides.
  abbrev pub replaced : Overrides → PromptSpaceId → Text → Overrides
  replaced overrides id content =
      if text_eq content (product.default_content id)
      then insert overrides id none
      else insert overrides id (some content)

  -- The overrides afterwards, and the prompt. An error leaves them as they were.
  unfoldable pub replace :
      Overrides → PromptSpaceId → Text → Outcome PromptSpacesError (Overrides × PromptSpace)
  replace overrides id content = do
    validate_content id content
    product.persist (replaced overrides id content)
    ok (replaced overrides id content, prompt_space id (replaced overrides id content id))

  unfoldable pub reset :
      Overrides → PromptSpaceId → Outcome PromptSpacesError (Overrides × PromptSpace)
  reset overrides id = replace overrides id (product.default_content id)

abbrev pub validate_at : PromptSpaceId → Option Text → Outcome PromptSpacesError (Unit {0})
validate_at id none = ok tt
validate_at id (some content) = validate_content id content

-- `for (id, content) in &stored.overrides`
unfoldable pub validate_each : List PromptSpaceId → Overrides → Outcome PromptSpacesError (Unit {0})
validate_each [] overrides = ok tt
validate_each (id ∷ rest) overrides = do validate_at id (overrides id); validate_each rest overrides

abbrev pub no_overrides : Overrides
no_overrides id = none

-- `load_or_default`, of the schema and the overrides that the file holds, if there is one.
unfoldable pub load_or_default :
    Option (Outcome PromptSpacesError (Text × Overrides)) → Outcome PromptSpacesError Overrides
load_or_default none = ok no_overrides
load_or_default (some read) = do
  (schema, overrides) ← read
  unless (not (text_eq schema prompt_spaces_schema)) (unsupported_schema schema)
  validate_each all_ids overrides
  ok overrides
