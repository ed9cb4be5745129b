-- ===== src/PromptSpaces/Names.antt =====
-- prompt_spaces.rs, the names of the prompts.
use momo_core.Prelude.{
  ℕ, ◌≡◌, refl, sym, ap, ◌∙◌, true, Bool-cases, inl, inr, List, [], ◌∷◌, Text, text_eq, text_eq_iff,
  arith, ◌==◌, if◌then◌else◌, ok, ok-injective,
}
use momo_core.PromptSpaces.Registry.{
  PromptSpaceId, assistant, vision_fallback, roleplay_director, memory_distillation,
  semantic_graph_governance, ddm_profile_generation, all_ids, as_str, number, same_id, find_id,
  from_str,
}

find_id-as_str :
    (ids : List PromptSpaceId) (value : Text) (id : PromptSpaceId)
    → find_id ids value ≡ ok id
    → as_str id ≡ value
unfolding find_id
find_id-as_str [] value id h = absurd (ground (arith, h))
find_id-as_str (first ∷ rest) value id h = elim (Bool-cases (text_eq (as_str first) value)) [
  | inl e ↦
      ap as_str (sym (ok-injective (rw (e, find_id) at h))) ∙ (text_eq_iff (as_str first) value).0 e
  | inr e ↦ find_id-as_str rest value id (rw (e, find_id) at h)
]

from_str-own : (id : PromptSpaceId) → from_str (as_str id) ≡ ok id
unfolding from_str find_id text_eq
from_str-own assistant = refl
from_str-own vision_fallback = refl
from_str-own roleplay_director = refl
from_str-own memory_distillation = refl
from_str-own semantic_graph_governance = refl
from_str-own ddm_profile_generation = refl

-- The name of a prompt is read as this prompt, and no other text is read as it.
pub from_str-as_str :
    (id : PromptSpaceId)
    → (from_str (as_str id) ≡ ok id) × ((value : Text) → from_str value ≡ ok id → as_str id ≡ value)
unfolding from_str
from_str-as_str id = (from_str-own id, λ value. find_id-as_str all_ids value id)

abbrev of_number : ℕ → PromptSpaceId
of_number n =
    if n == 0
    then assistant
    else if n == 1
    then vision_fallback
    else if n == 2
    then roleplay_director
    else if n == 3
    then memory_distillation
    else if n == 4
    then semantic_graph_governance
    else ddm_profile_generation

of_number-number : (id : PromptSpaceId) → of_number (number id) ≡ id
of_number-number assistant = refl
of_number-number vision_fallback = refl
of_number-number roleplay_director = refl
of_number-number memory_distillation = refl
of_number-number semantic_graph_governance = refl
of_number-number ddm_profile_generation = refl

pub same_id_lem : (a b : PromptSpaceId) → same_id a b ≡ true → a ≡ b
same_id_lem a b h =
    let e : number a ≡ number b = ground (arith, h) in
    sym (of_number-number a) ∙ ap of_number e ∙ of_number-number b

pub same_id_refl : (a : PromptSpaceId) → same_id a a ≡ true
same_id_refl a = ground arith
