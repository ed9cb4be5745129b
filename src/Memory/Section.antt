-- ===== src/Memory/Section.antt =====
-- patch.rs, `mutate_section`, with the byte offsets that it counts.
pub mod Lines
pub mod Parts
pub mod Frame
use momo_core.Prelude.{
  ℕ, ◌+◌, ◌-◌, Bool, true, false, not, ◌&&◌, ◌||◌, Option, none, some, List, [], ◌∷◌, ◌++◌, Text,
  codes, text_eq, trim, strip_prefix, split_once, ends_with, utf8_len, ltb, ◌==◌, if◌then◌else◌,
  Outcome, ok, err,
}
use mathlib.Core.List.{reverse}
use momo_core.Memory.Metadata.{MemoryError, missing_section, panic}

abbrev pub newline : Text
newline = 10 ∷ []

abbrev pub mark : Text
mark = codes "## "

abbrev pub next_mark : Text
next_mark = codes "\n## "

abbrev pub starts_line_end : Text → Bool
starts_line_end [] = false
starts_line_end (c ∷ cs) = c == 10

abbrev pub onto_first : ℕ → List Text → List Text
onto_first c [] = (c ∷ []) ∷ []
onto_first c (line ∷ lines) = (c ∷ line) ∷ lines

-- `str::lines`: a newline ends a line, with a carriage return before it.
unfoldable pub lines : Text → List Text
lines [] = []
lines (c ∷ cs) =
    let rest = lines cs in
    if c == 10 then [] ∷ rest else if c == 13 && starts_line_end cs then rest else onto_first c rest

-- The offset of the first line that is the heading.
unfoldable pub find_line : Text → ℕ → List Text → Option ℕ
find_line heading offset [] = none
find_line heading offset (line ∷ rest) =
    let later = find_line heading (offset + (utf8_len line + 1)) rest in
    if text_eq line heading then some offset else later

abbrev pub utf8_width : ℕ → ℕ
utf8_width c = utf8_len (c ∷ [])

abbrev pub onto_before : ℕ → Option (Text × Text) → Option (Text × Text)
onto_before c none = none
onto_before c (some (before, after)) = some (c ∷ before, after)

-- `(&s[..offset], &s[offset..])`, which panics off the text and inside a character.
unfoldable pub split_at : Text → ℕ → Option (Text × Text)
unfolding utf8_len
split_at [] offset = if offset == 0 then some ([], []) else none
split_at (c ∷ cs) offset =
    let later = split_at cs (offset - utf8_width c) in
    if offset == 0
    then some ([], c ∷ cs)
    else if ltb offset (utf8_width c)
    then none
    else onto_before c later

-- `trim_matches('\n')`
unfoldable pub trim_newlines_start : Text → Text
trim_newlines_start [] = []
trim_newlines_start (c ∷ cs) = if c == 10 then trim_newlines_start cs else c ∷ cs

unfoldable pub trim_newlines : Text → Text
unfolding trim_newlines_start
trim_newlines s = reverse (trim_newlines_start (reverse (trim_newlines_start s)))

-- `existing.strip_suffix(addition).is_some_and(|prefix| prefix.ends_with('\n'))`
unfoldable pub ends_with_line : Text → Text → Bool
unfolding strip_prefix
ends_with_line existing addition = elim (strip_prefix (reverse addition) (reverse existing)) [
  | none ↦ false
  | some prefix ↦ starts_line_end prefix
]

-- What stands after the heading: the section's own text, and the text from the next heading on.
unfoldable pub section_parts : Text → Text × Text
unfolding split_once
section_parts after = elim (split_once next_mark after) [
  | none ↦ (after, [])
  | some (own, later) ↦ (own ++ newline, mark ++ later)
]

abbrev pub end_line : Text → Text
end_line output = if ends_with output newline then output else output ++ newline

-- The section's new text after its heading, given the output up to there.
unfoldable pub rewrite_section : Text → Text → Text → Bool → Text
unfolding ends_with
rewrite_section output existing addition replace =
    if replace
    then (output ++ newline) ++ addition ++ newline
    else end_line ((output ++ newline) ++ existing) ++ addition ++ newline

unfoldable pub mutate_at : Text → Text → Text → Text → Bool → Text
unfolding rewrite_section section_parts trim_newlines ends_with_line trim
mutate_at body output after content replace =
    let (own, rest) = section_parts after in
    let existing = trim_newlines own in
    let addition = trim content in
    if not replace && (text_eq existing addition || ends_with_line existing addition)
    then body
    else rewrite_section output existing addition replace ++ rest

unfoldable pub mutate_section : Text → Text → Text → Bool → Outcome MemoryError Text
unfolding mutate_at lines find_line split_at trim utf8_len
mutate_section body section content replace =
    let heading = mark ++ trim section in
    elim (find_line heading 0 (lines body)) [
      | none ↦ err (missing_section section)
      | some start ↦ elim (split_at body (start + utf8_len heading)) [
        | none ↦ err panic
        | some (output, after) ↦ ok (mutate_at body output after content replace)
      ]
    ]
