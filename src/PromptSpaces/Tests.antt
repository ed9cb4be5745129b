-- ===== src/PromptSpaces/Tests.antt =====
-- A prompt that is replaced, and instances of the theorems.
use momo_core.Prelude.{◌≡◌, refl, Text, codes, some, text_eq, trim, utf8_len, ok}
use momo_core.PromptSpaces.Registry.{
  assistant, memory_distillation, PromptSpace, override, Overrides, no_overrides, from_str, as_str,
  validate_content, validate_at, load_or_default, prompt_spaces_schema, Product, replaced, replace,
  prompt_space,
}
use momo_core.PromptSpaces.Overrides.{
  in_memory, after_replace, IsReplaced, replace-IsReplaced, Reachable-reload,
}
use momo_core.PromptSpaces.Names.{from_str-as_str}

abbrev product : Product
product = record {
  default_content = λ id. codes "Be kind.";
  digest = λ text. codes "digest";
  persist = λ overrides. ok tt;
}

abbrev brief : Text
brief = codes "Be brief."

abbrev after : Overrides
after = replaced product no_overrides assistant brief

abbrev shown : PromptSpace
shown = record { id = assistant; content = brief; source = override; revision = codes "digest" }

replace_run : replace product no_overrides assistant brief ≡ ok (after, shown)
unfolding replace validate_content prompt_space trim utf8_len text_eq
replace_run = refl

replace-IsReplaced_example : IsReplaced product no_overrides assistant brief after shown
replace-IsReplaced_example =
    replace-IsReplaced product no_overrides assistant brief after shown replace_run

Reachable-reload_example :
    (validate_at assistant (after assistant) ≡ ok tt)
    × (load_or_default (some (ok (prompt_spaces_schema, after))) ≡ ok after)
Reachable-reload_example =
    Reachable-reload product after assistant
      (after_replace no_overrides assistant brief after shown in_memory replace_run)

from_str-as_str_example :
    (from_str (as_str memory_distillation) ≡ ok memory_distillation)
    × ((value : Text)
        → from_str value ≡ ok memory_distillation
        → as_str memory_distillation ≡ value)
from_str-as_str_example = from_str-as_str memory_distillation
