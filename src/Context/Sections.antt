-- ===== src/Context/Sections.antt =====
-- context.rs: the sections of the system message, and how they are cut to a token budget.
use momo_core.Prelude.{
  ℕ, zero, suc, ◌+◌, ◌-◌, ◌*◌, Bool, true, false, not, ◌||◌, Option, none, some, List, [], ◌∷◌,
  ◌++◌, map, leb, ltb, ◌==◌, if◌then◌else◌, Text, codes, is_empty, text_eq, trim, split_once,
  contains_text, split, sat_add, length, drop,
}
use momo_core.Context.Tokens.{ContextSections, ContextSectionAudit}
use momo_core.Context.Truncate.{truncate_message_content_with}
use momo_core.Context.Quotas.{Share, fill}

-- An entry of `raw_sections`: the section's name, its text with the heading, and its weight.
pub record Section : Type 0 where
  pub name : Text
  pub text : Text
  pub weight : ℕ

-- One `if !text.trim().is_empty() { output.push((name, format!(heading, trimmed), weight)) }`
unfoldable pub push_section : Text → Text → ℕ → Text → List Section → List Section
push_section name heading weight text rest =
    if is_empty (trim text)
    then rest
    else record { name = name; text = heading ++ trim text; weight = weight } ∷ rest

unfoldable pub system_sections : ContextSections → List Section
unfolding push_section
system_sections s =
    push_section (codes "runtime_instructions") (codes "# Runtime Instructions\n") 4
      s.runtime_instructions
      (push_section (codes "character") (codes "# Character\n") 6 s.character (
        push_section (codes "user") (codes "# User\n") 3 s.user (
          push_section (codes "memory") (codes "# Relevant Memory\n") 3 s.memory (
            push_section (codes "state") [] 3 s.state (
              push_section (codes "semantic_graph") (codes "# Active Lore Context\n") 2
                s.semantic_graph
                (push_section (codes "roleplay_director") (codes "# Roleplay Direction\n") 6
                  s.roleplay_director []))))))

unfoldable pub nonempty : List Text → List Text
nonempty [] = []
nonempty (t ∷ rest) = if is_empty t then nonempty rest else t ∷ nonempty rest

-- `values.join(separator)`
unfoldable pub join_texts : Text → List Text → Text
join_texts separator [] = []
join_texts separator (t ∷ []) = t
join_texts separator (t ∷ u ∷ rest) = t ++ (separator ++ join_texts separator (u ∷ rest))

abbrev pub blank_line : Text
blank_line = codes "\n\n"

-- The closure `join`.
unfoldable pub join : List Text → Text
unfolding nonempty join_texts
join values = join_texts blank_line (nonempty values)

abbrev pub record_open : Text
record_open = codes "<momo-record>"

abbrev pub record_close : Text
record_close = codes "</momo-record>"

-- `s.pop()`
unfoldable pub drop_last : Text → Text
drop_last [] = []
drop_last (c ∷ []) = []
drop_last (c ∷ d ∷ s) = c ∷ drop_last (d ∷ s)

-- The last text that is not empty loses a character, or all where it holds records; `none`
-- where every text is empty.
unfoldable pub shrink_last : List Text → Option (List Text)
unfolding drop_last
shrink_last [] = none
shrink_last (t ∷ rest) =
    let later = shrink_last rest in
    elim later [
      | some rest' ↦ some (t ∷ rest')
      | none ↦
          if is_empty t
          then none
          else some ((if contains_text record_open t then [] else drop_last t) ∷ rest)
    ]

unfoldable pub total_length : List Text → ℕ
total_length [] = 0
total_length (t ∷ rest) = length t + total_length rest

module _ (counter : Text → ℕ) where
  -- `for rest in text.split("<momo-record>").skip(1)`: whole records, as long as they fit.
  unfoldable pub keep_records : ℕ → Text → Bool → List Text → Text
  keep_records quota result any [] = if any then result else []
  keep_records quota result any (rest ∷ later) =
      let skipped = keep_records quota result any later in
      elim (split_once record_close rest) [
        | none ↦ skipped
        | some (body, _) ↦
            let candidate = result ++ (record_open ++ (body ++ (record_close ++ blank_line))) in
            let kept = keep_records quota candidate true later in
            if leb (counter candidate) quota then kept else skipped
      ]

  unfoldable pub fit_memory_records : Text → ℕ → Text
  unfolding keep_records
  fit_memory_records text quota = elim (split_once record_open text) [
    | none ↦ []
    | some (heading, _) ↦ keep_records quota heading false (drop 1 (split record_open text))
  ]

  -- The text of a section under its quota.
  unfoldable pub fit_section : Text → ℕ → Text
  fit_section text quota =
      if quota == 0
      then []
      else if contains_text record_open text
      then fit_memory_records text quota
      else (truncate_message_content_with counter text (sat_add quota 6)).0

  unfoldable pub fit_each : List Section → List Share → List Text
  unfolding fit_section
  fit_each [] shares = []
  fit_each (s ∷ sections) [] = []
  fit_each (s ∷ sections) (share ∷ shares) =
      fit_section s.text share.quota ∷ fit_each sections shares

  -- `while counter(&join(&kept)) > content_budget`: every turn removes a character at least.
  unfoldable pub shrink_rounds : ℕ → ℕ → List Text → List Text
  shrink_rounds zero content_budget kept = kept
  shrink_rounds (suc rounds) content_budget kept =
      if ltb content_budget (counter (join kept))
      then elim (shrink_last kept) [
        | none ↦ kept
        | some kept' ↦ shrink_rounds rounds content_budget kept'
      ]
      else kept

  unfoldable pub shrink_to_fit : ℕ → List Text → List Text
  unfolding shrink_rounds shrink_last total_length
  shrink_to_fit content_budget kept = shrink_rounds (total_length kept) content_budget kept

  unfoldable pub starting_shares : List Section → List Share
  starting_shares [] = []
  starting_shares (s ∷ sections) =
      record { weight = s.weight; cost = counter s.text; quota = 0 } ∷ starting_shares sections

  unfoldable pub audit_each : List Section → List Text → List ContextSectionAudit
  audit_each [] kept = []
  audit_each (s ∷ sections) [] = []
  audit_each (s ∷ sections) (injected ∷ kept) =
      record {
        section = s.name;
        original_tokens = counter s.text;
        injected_tokens = counter injected;
        truncated = not (text_eq s.text injected);
        omitted = is_empty injected;
      }
      ∷ audit_each sections kept

  abbrev pub texts : List Section → List Text
  texts = map (λ s. s.text)

  -- The test `message_budget <= 6 || counter(&full) > content_budget`.
  unfoldable pub overflows : List Section → ℕ → Bool
  overflows sections message_budget =
      leb message_budget 6 || ltb (message_budget - 6) (counter (join (texts sections)))

  -- The texts that are kept.
  unfoldable pub fit_texts : List Section → ℕ → List Text
  unfolding fit_each starting_shares
  fit_texts sections message_budget =
      let content_budget = message_budget - 6 in
      let separator_reserve = (length sections - 1) * counter blank_line in
      let shares = fill (content_budget - separator_reserve) (starting_shares sections) in
      if overflows sections message_budget
      then shrink_to_fit content_budget (fit_each sections shares)
      else texts sections

  unfoldable pub fit_system_sections : List Section → ℕ → Text × List ContextSectionAudit
  fit_system_sections sections message_budget =
      let kept = fit_texts sections message_budget in (join kept, audit_each sections kept)
