-- ===== src/Memory/Section/Frame.antt =====
-- What a mutation of a section leaves alone.
use momo_core.Prelude.{
  if◌then◌else◌, ℕ, ◌+◌, ◌≡◌, refl, sym, ap, ◌∙◌, Bool, true, false, ◌||◌, ◌⊎◌, inl, inr, none,
  some, List, [], ◌∷◌, ◌++◌, Text, contains_text, text_eq, trim, any, utf8_len, Bool-cases,
  Option-cases, arith, ok, err,
}
use mathlib.Core.List.{append_assoc}
use momo_core.Memory.Metadata.{missing_section}
use momo_core.Memory.Section.{
  newline, mark, next_mark, lines, find_line, split_at, trim_newlines, ends_with_line, mutate_at,
  mutate_section,
}
use momo_core.Memory.Section.Lines.{
  NoReturn, IsAt, find_line-IsAt, split_at-append, utf8_len-append,
}
use momo_core.Memory.Section.Parts.{EndsSection}

-- The section's text is the content, or ends with it on lines of its own.
abbrev pub is_held : Text → Text → Bool
is_held content own =
    text_eq (trim_newlines own) (trim content) || ends_with_line (trim_newlines own) (trim content)

-- What stands in a section after an addition of what is not held, given what stood there.
abbrev pub IsAdded : Text → Text → Text → Type 0
IsAdded content own new =
    (gap : Text) × ((gap ≡ []) ⊎ (gap ≡ newline))
    × (new ≡ newline ++ (trim_newlines own ++ (gap ++ (trim content ++ newline))))

-- What stands in a section after a mutation, given what stood there; the Boolean is `replace`.
abbrev pub IsWritten : Text → Text → Bool → Text → Type 0
IsWritten content own true new = new ≡ newline ++ (trim content ++ newline)
IsWritten content own false new =
    ((is_held content own ≡ true) × (new ≡ own))
    ⊎ ((is_held content own ≡ false) × IsAdded content own new)

-- The body before and after a mutation: they differ in the section's own text, which reaches from
-- the heading's line to the next heading, if there is one, and no further.
pub record IsMutated (body section content : Text) (replace : Bool) (result : Text) : Type 0 where
  pub above : Text
  pub own : Text
  pub own_after : Text
  pub rest : Text
  pub whole : body ≡ above ++ ((mark ++ trim section) ++ (own ++ rest))
  pub result_whole : result ≡ above ++ ((mark ++ trim section) ++ (own_after ++ rest))
  pub ends_line : (own ++ rest ≡ []) ⊎ ((below : Text) × (own ++ rest ≡ newline ++ below))
  pub opens : (above ≡ []) ⊎ ((earlier : Text) × (above ≡ earlier ++ newline))
  pub closes : EndsSection rest
  pub one_section : contains_text next_mark own ≡ false
  pub changed : IsWritten content own replace own_after

-- The index after the heading splits the body there.
heading_split :
    (body heading : Text) (start : ℕ) (at : IsAt body heading 0 start)
    → split_at body (start + utf8_len heading) ≡ some (at.above ++ heading, at.below)
heading_split body heading start at =
    let whole : body ≡ (at.above ++ heading) ++ at.below =
      at.whole ∙ sym (append_assoc at.above heading at.below) in
    let counted : start + utf8_len heading ≡ utf8_len (at.above ++ heading) =
      omega (arith, at.distance, utf8_len-append at.above heading) in
    ap (split_at body) counted
    ∙ ap (λ b. split_at b (utf8_len (at.above ++ heading))) whole
    ∙ split_at-append (at.above ++ heading) at.below

find_line-any :
    (heading : Text) (offset : ℕ) (found : List Text)
    → find_line heading offset found ≡ none
    → any (λ line. text_eq line heading) found ≡ false
unfolding find_line any
find_line-any heading offset [] h = refl
find_line-any heading offset (line ∷ rest) h =
    ground (arith, h, find_line-any heading (offset + (utf8_len line + 1)) rest)

any-find_line :
    (heading : Text) (offset : ℕ) (found : List Text) {start : ℕ}
    → find_line heading offset found ≡ some start
    → any (λ line. text_eq line heading) found ≡ true
unfolding find_line any
any-find_line heading offset [] h = cc
any-find_line heading offset (line ∷ rest) {start} h = elim (Bool-cases (text_eq line heading)) [
  | inl t ↦ rw t refl
  | inr t ↦ rw t (
      any-find_line heading (offset + (utf8_len line + 1)) rest {start = start}
        (ground (arith, t, h)))
]

-- In a body without carriage returns, a mutation succeeds if a line is the section's heading, and
-- otherwise reports that the section is missing; no index panics.
pub mutate_section-total :
    (body section content : Text) (replace : Bool)
    → NoReturn body
    → (result : Text) × (mutate_section body section content replace ≡ (
        if any (λ line. text_eq line (mark ++ trim section)) (lines body)
        then ok result
        else err (missing_section section)))
unfolding mutate_section
mutate_section-total body section content replace clean =
    let heading = mark ++ trim section in
    elim (Option-cases (find_line heading 0 (lines body))) [
      | inl e ↦ (body, rw (e, find_line-any heading 0 (lines body) e, mutate_section) refl)
      | inr (start, e) ↦
          let at : IsAt body heading 0 start =
            find_line-IsAt heading 0 body (lines body) clean refl e in
          (
            mutate_at body (at.above ++ heading) at.below content replace,
            rw
                (
                  e,
                  heading_split body heading start at,
                  any-find_line heading 0 (lines body) e,
                  mutate_section,
                )
                refl,
          )
    ]
