-- ===== src/RuntimeSettings/Sources.antt =====
-- settings.rs, `normalize_space_overrides` and `field_sources`.
use momo_core.Prelude.{
  Bool, true, false, Option, none, some, List, [], ◌∷◌, ◌++◌, String, Text, codes, if◌then◌else◌,
  put,
}
use momo_core.RuntimeSettings.Json.{Json, Fields, null, leaf, object, end, field, get}
use momo_core.RuntimeSettings.Merge.{prune_empty_objects}

abbrev pub is_some : {A : Type 0} → Option A → Bool
is_some none = false
is_some (some value) = true

abbrev pub field_name : Text → Text → Text
field_name [] key = key
field_name (c ∷ prefix) key = (c ∷ prefix) ++ codes "." ++ key

abbrev pub source_of : {A : Type 0} → Option A → String
source_of overrides = if is_some overrides then "space_override" else "instance"

module _ {Leaf : Type 0} where
  abbrev pub keep_patch :
      Text → Bool × Json Leaf → List (Text × Json Leaf) → List (Text × Json Leaf)
  keep_patch id (empty, patch) rest = if empty then rest else (id, patch) ∷ rest

  unfoldable pub normalize_space_overrides : List (Text × Json Leaf) → List (Text × Json Leaf)
  normalize_space_overrides [] = []
  normalize_space_overrides ((id, patch) ∷ rest) =
      keep_patch id (prune_empty_objects Leaf patch) (normalize_space_overrides rest)

  -- `value.get(key)`
  abbrev pub value_get : Json Leaf → Text → Option (Json Leaf)
  value_get (object fields) key = get Leaf fields key
  value_get _ key = none

  abbrev pub overrides_at : Option (Json Leaf) → Text → Option (Json Leaf)
  overrides_at none key = none
  overrides_at (some value) key = value_get value key

  unfoldable mutual
    pub field_sources :
        Json Leaf → Option (Json Leaf) → Text → List (Text × String) → List (Text × String)
    field_sources null overrides prefix sources = put sources prefix (source_of overrides)
    field_sources (leaf x) overrides prefix sources = put sources prefix (source_of overrides)
    field_sources (object fields) overrides prefix sources =
        each_source fields overrides prefix sources

    pub each_source :
        Fields Leaf → Option (Json Leaf) → Text → List (Text × String) → List (Text × String)
    each_source end overrides prefix sources = sources
    each_source (field key value rest) overrides prefix sources =
        each_source rest overrides prefix
          (field_sources value (overrides_at overrides key) (field_name prefix key) sources)
