-- ===== src/Memory/Document.antt =====
-- lib.rs, `MemoryDocument::parse` and `encode`. The YAML of the front matter is a parameter.
pub mod RoundTrip
use momo_core.Prelude.{
  ℕ, zero, suc, Bool, ◌&&◌, Option, none, some, [], ◌∷◌, ◌++◌, Text, codes, length, strip_prefix,
  split_once, ◌==◌, if◌then◌else◌, Outcome, ok, err, ◌>>=◌, ◌>>◌,
}
use momo_core.Ddm.Profile.{Double}
use momo_core.Memory.Metadata.{
  MemoryError, yaml, invalid_frontmatter, Metadata, MemoryDocument, validate_metadata,
}
use momo_core.Memory.Section.{starts_line_end}
use momo_core.Memory.Paths.{ok_or}

-- `yaml_serde::from_str` and `to_string` for metadata
pub record Yaml (f64 : Double) : Type 0 where
  pub from_str : Text → Option (Metadata f64)
  pub to_string : Metadata f64 → Option Text

abbrev pub fence : Text
fence = codes "---\n"

abbrev pub inner_fence : Text
inner_fence = codes "\n---\n"

-- `text.replace("\r\n", "\n")`
unfoldable pub normalized : Text → Text
normalized [] = []
normalized (c ∷ cs) =
    let rest = normalized cs in if c == 13 && starts_line_end cs then rest else c ∷ rest

-- `text.trim_start_matches(pat)`, one round for each time the pattern is dropped
unfoldable pub trim_rounds : ℕ → Text → Text → Text
trim_rounds zero pat text = text
trim_rounds (suc rounds) pat text = elim (strip_prefix pat text) [
  | none ↦ text
  | some rest ↦ trim_rounds rounds pat rest
]

unfoldable pub trim_start_matches : Text → Text → Text
unfolding trim_rounds strip_prefix
trim_start_matches pat text = trim_rounds (length text) pat text

module _ {f64 : Double} (format : Yaml f64) where
  unfoldable pub parse : Text → Outcome MemoryError (MemoryDocument f64)
  unfolding normalized strip_prefix split_once validate_metadata
  parse text = do
    remainder ← ok_or (strip_prefix fence (normalized text)) invalid_frontmatter
    (frontmatter, body) ← ok_or (split_once inner_fence remainder) invalid_frontmatter
    metadata ← ok_or (format.from_str frontmatter) yaml
    validate_metadata f64 metadata >> ok (record { metadata = metadata; body = body })

  unfoldable pub encode : MemoryDocument f64 → Outcome MemoryError Text
  unfolding validate_metadata trim_start_matches
  encode document = validate_metadata f64 document.metadata >> (do
    frontmatter ← ok_or (format.to_string document.metadata) yaml
    ok (fence ++ (trim_start_matches fence frontmatter ++ (fence ++ document.body))))
