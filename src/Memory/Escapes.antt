-- ===== src/Memory/Escapes.antt =====
-- patch.rs: the repairs of a patch whose double-quoted YAML escapes too little.
pub mod Settled
use momo_core.Prelude.{
  Bool, true, false, not, ◌&&◌, ◌||◌, none, some, List, [], ◌∷◌, ◌++◌, Text, codes, split_once, any,
  ◌==◌, if◌then◌else◌, ℕ,
}

abbrev backslash : ℕ
backslash = 92

abbrev quote : ℕ
quote = 34

-- `value.split_inclusive('\n')`
abbrev onto_line : ℕ → List Text → List Text
onto_line c [] = (c ∷ []) ∷ []
onto_line c (line ∷ rest) = (c ∷ line) ∷ rest

unfoldable pub inclusive_lines : Text → List Text
inclusive_lines [] = []
inclusive_lines (c ∷ cs) =
    let rest = inclusive_lines cs in if c == 10 then (c ∷ []) ∷ rest else onto_line c rest

-- The loop behind the quote: only `\\` and `\"` stay as they are.
unfoldable pub escaped : Text → Text
escaped [] = []
escaped (c ∷ []) = if c == backslash then backslash ∷ backslash ∷ [] else c ∷ []
escaped (c ∷ d ∷ cs) =
    let after_next = escaped cs in
    let after = escaped (d ∷ cs) in
    if not (c == backslash)
    then c ∷ after
    else if d == backslash || d == quote
    then backslash ∷ d ∷ after_next
    else backslash ∷ backslash ∷ d ∷ after_next

abbrev content_marker : Text
content_marker = codes "content: \""

abbrev escape_line : Text → Text
escape_line line = elim (split_once content_marker line) [
  | none ↦ line
  | some (start, content) ↦ start ++ (content_marker ++ escaped content)
]

unfoldable pub escape_lines : List Text → Text
unfolding split_once escaped
escape_lines [] = []
escape_lines (line ∷ rest) = escape_line line ++ escape_lines rest

unfoldable pub escape_quoted_content_backslashes : Text → Text
unfolding inclusive_lines escape_lines
escape_quoted_content_backslashes value = escape_lines (inclusive_lines value)

-- The escapes that YAML knows.
abbrev known_escapes : Text
known_escapes = codes "0abtnvfre \"/\\N_LPxuU\n\r\t"

unfoldable pub is_known : ℕ → Bool
unfolding any
is_known c = any (λ d. d == c) known_escapes

-- The Boolean is `in_double_quote`.
unfoldable pub repaired : Bool → Text → Text
unfolding is_known
repaired inside [] = []
repaired inside (c ∷ []) = if inside && c == backslash then backslash ∷ backslash ∷ [] else c ∷ []
repaired inside (c ∷ d ∷ cs) =
    let after_next = repaired inside cs in
    let toggled = repaired (not inside) (d ∷ cs) in
    let after = repaired inside (d ∷ cs) in
    if c == quote
    then c ∷ toggled
    else if inside && c == backslash
    then (if is_known d then backslash ∷ d ∷ after_next else backslash ∷ backslash ∷ d ∷ after_next)
    else c ∷ after

unfoldable pub escape_unknown_double_quoted_yaml_escapes : Text → Text
unfolding repaired
escape_unknown_double_quoted_yaml_escapes value = repaired false value
