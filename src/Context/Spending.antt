-- ===== src/Context/Spending.antt =====
-- The estimate of the prepared prompt is what its messages cost.
use mathlib.Core.List.{reverse, reverse-reverse}
use momo_core.Prelude.{
  ℕ, ◌+◌, ◌-◌, ◌≤◌, ◌<◌, ◌≡◌, refl, ap, ◌∙◌, sym, subst, ◌⊎◌, true, false, List, [], ◌∷◌, ◌++◌, ltb,
  is_empty, sat_add, length, length-append, Text, arith, usize_max, Bool-cases, inl, inr,
}
use momo_core.Context.Tokens.{
  system, ChatInput, ContextSectionAudit, ContextRequest, IsCounter, estimate_message_tokens_with,
}
use momo_core.Context.Sections.{Section, system_sections, fit_system_sections}
use momo_core.Context.Truncate.{truncate_message_content_with}
use momo_core.Context.Budget.{system_part-used, take_newest-tokens}
use momo_core.Context.Recency.{take_newest-Recent}
use momo_core.Context.Shown.{cost, IsFull, IsShown, length-shown}
use momo_core.Context.Prepare.{
  input_limit, newest_reserve, system_part_of, system_part, shorten_newest, take_newest,
  prepare_context_with_counter,
}

sat_add-small : (a b : ℕ) → a + b < usize_max → sat_add a b ≡ a + b
unfolding sat_add
sat_add-small a b h = omega arith

-- What system messages cost.
abbrev pub system_cost : (Text → ℕ) → List ChatInput → ℕ
system_cost counter sys = cost (λ m. estimate_message_tokens_with m counter) sys

module _ (counter : Text → ℕ) (message_tokens : ChatInput → ℕ) where
  -- The text of the sections within a budget; no section, no text.
  abbrev pub fitted : List Section → ℕ → Text
  fitted [] budget = []
  fitted (s ∷ sections) budget = (fit_system_sections counter (s ∷ sections) budget).0

  shorten_newest-cost :
      (m : ChatInput) (available h : ℕ)
      → available < usize_max
      → h ≡ 0
      → (shorten_newest counter message_tokens m available h).tokens
        ≡ cost message_tokens (shorten_newest counter message_tokens m available h).retained
  unfolding shorten_newest
  shorten_newest-cost m available h small zero =
      let content = (truncate_message_content_with counter m.content (available - h)).0 in
      let shortened : ChatInput = record m { content = content } in
      elim (Bool-cases (is_empty content)) [
        | inl e ↦ rw (e, shorten_newest) zero
        | inr e ↦ elim (Bool-cases (ltb (available - h) (message_tokens shortened))) [
          | inl f ↦ rw (e, f, shorten_newest) zero
          | inr f ↦ rw (e, f, shorten_newest) (unfold sat_add in ground (arith, f))
        ]
      ]

  take_newest-cost :
      (available : ℕ) (newest_first : List ChatInput) (h : ℕ) (retained : List ChatInput)
      → available < usize_max
      → h ≡ cost message_tokens retained
      → (take_newest counter message_tokens available newest_first h retained).tokens
        ≡ cost message_tokens
            (take_newest counter message_tokens available newest_first h retained).retained
  unfolding take_newest
  take_newest-cost available [] h retained small e = e
  take_newest-cost available (m ∷ older) h retained small e =
      elim (Bool-cases (ltb available (sat_add h (message_tokens m)))) [
        | inr f ↦
            rw (f, take_newest)
              (take_newest-cost available older (h + message_tokens m) (m ∷ retained) small
                (omega (arith, e)))
        | inl f ↦ stopped retained e f
      ]
    where
      stopped :
          (r : List ChatInput)
          → h ≡ cost message_tokens r
          → ltb available (sat_add h (message_tokens m)) ≡ true
          → (take_newest counter message_tokens available (m ∷ older) h r).tokens
            ≡ cost message_tokens
                (take_newest counter message_tokens available (m ∷ older) h r).retained
      stopped [] e f = rw (f, take_newest) (shorten_newest-cost m available h small e)
      stopped (r ∷ rs) e f = rw (f, take_newest) e

  system_part_of-cost :
      (p : Text × List ContextSectionAudit)
      → (system_part_of counter message_tokens p).used
        ≡ system_cost counter (system_part_of counter message_tokens p).selected
  unfolding system_part_of
  system_part_of-cost (content, audit) = elim (Bool-cases (is_empty content)) [
    | inl e ↦ rw (e, system_part_of) refl
    | inr e ↦ rw (e, system_part_of) (omega arith)
  ]

  system_part-cost :
      (sections : List Section) (limit : ℕ) (messages : List ChatInput)
      → (system_part counter message_tokens sections limit messages).used
        ≡ system_cost counter (system_part counter message_tokens sections limit messages).selected
  unfolding system_part
  system_part-cost [] limit messages = refl
  system_part-cost (s ∷ sections) limit messages = system_part_of-cost (
      fit_system_sections counter (s ∷ sections)
        (limit - newest_reserve counter message_tokens limit messages))

  -- The text that the system message is to hold.
  abbrev pub system_text : ContextRequest → Text
  system_text request = fitted (system_sections request.sections) (
      input_limit request.budget
      - newest_reserve counter message_tokens (input_limit request.budget) request.messages)

  -- A text that is empty has no message.
  abbrev pub IsSystemMessage : Text → List ChatInput → Type 0
  IsSystemMessage content sys =
      ((is_empty content ≡ true) × (sys ≡ []))
      ⊎ ((is_empty content ≡ false) × (sys ≡ record { role = system; content = content } ∷ []))

  system_part_of-message :
      (content : Text) (audit : List ContextSectionAudit)
      → IsSystemMessage content (system_part_of counter message_tokens (content, audit)).selected
  unfolding system_part_of
  system_part_of-message content audit = elim (Bool-cases (is_empty content)) [
    | inl e ↦ inl (e, rw (e, system_part_of) refl)
    | inr e ↦ inr (e, rw (e, system_part_of) refl)
  ]

  system_part-message :
      (sections : List Section) (limit : ℕ) (messages : List ChatInput)
      → IsSystemMessage
          (fitted sections (limit - newest_reserve counter message_tokens limit messages))
          (system_part counter message_tokens sections limit messages).selected
  unfolding system_part
  system_part-message [] limit messages = inl (refl, refl)
  system_part-message (s ∷ sections) limit messages =
      let parts =
        fit_system_sections counter (s ∷ sections)
          (limit - newest_reserve counter message_tokens limit messages) in
      system_part_of-message parts.0 parts.1

module _ (counter : Text → ℕ) (message_tokens : ChatInput → ℕ) (request : ContextRequest) where
  -- The parts of a prompt: the system message, and the messages kept, with what is left for them.
  pub record IsPrompt (prompt : List ChatInput) (left_out : ℕ) : Type 0 where
    pub sys : List ChatInput
    pub omitted : List ChatInput
    pub kept : List ChatInput
    pub shown : List ChatInput
    pub built : prompt ≡ sys ++ shown
    pub headed :
        IsSystemMessage counter message_tokens (system_text counter message_tokens request) sys
    pub split : request.messages ≡ omitted ++ kept
    pub full :
        IsFull counter message_tokens
          (input_limit request.budget - system_cost counter sys)
          omitted
          kept
    pub counted : left_out ≡ length omitted
    pub as_shown :
        IsShown counter message_tokens
          (input_limit request.budget - system_cost counter sys)
          kept
          shown

  -- The parts that the budgeter puts the prompt together from.
  unfoldable prompt_parts :
      IsPrompt
        (prepare_context_with_counter counter message_tokens request).messages
        (prepare_context_with_counter counter message_tokens request).omitted_messages
  unfolding prepare_context_with_counter
  prompt_parts =
      let limit = input_limit request.budget in
      let sections = system_sections request.sections in
      let sys = system_part counter message_tokens sections limit request.messages in
      let history =
        take_newest counter message_tokens (limit - sys.used) (reverse request.messages) 0 [] in
      let recent =
        take_newest-Recent counter message_tokens (limit - sys.used) (reverse request.messages) in
      let all = sym (reverse-reverse request.messages) ∙ recent.split in
      record {
        sys = sys.selected;
        omitted = recent.omitted;
        kept = recent.kept;
        shown = history.retained;
        built = refl;
        headed = system_part-message counter message_tokens sections limit request.messages;
        split = all;
        full =
            subst (λ u. IsFull counter message_tokens (limit - u) recent.omitted recent.kept)
              (system_part-cost counter message_tokens sections limit request.messages) recent.full;
        counted = omega (
          arith,
          ap length all,
          length-append recent.omitted recent.kept,
          length-shown counter message_tokens (limit - sys.used) recent.kept history.retained
              recent.as_shown,
        );
        as_shown =
            subst (λ u. IsShown counter message_tokens (limit - u) recent.kept history.retained)
              (system_part-cost counter message_tokens sections limit request.messages)
              recent.as_shown;
      }

module _ (counter : Text → ℕ) (message_tokens : ChatInput → ℕ) (is_counter : IsCounter counter)
    (request : ContextRequest) where
  -- With any counter that charges for every nonempty text, any charge for a message, and a context
  -- window that fits 64 bits, the system message and the messages shown cost together exactly what
  -- the estimate of the prompt says, and that is at most the input limit: the context window less
  -- the output reserve and the safety margin, but at least 1.
  pub prompt_cost :
      request.budget.context_window ≤ usize_max
      → (parts : IsPrompt counter message_tokens request
          (prepare_context_with_counter counter message_tokens request).messages
          (prepare_context_with_counter counter message_tokens request).omitted_messages)
        × ((prepare_context_with_counter counter message_tokens request).estimated_input_tokens
            ≡ system_cost counter parts.sys + cost message_tokens parts.shown)
        × (system_cost counter parts.sys + cost message_tokens parts.shown
            ≤ input_limit request.budget)
  unfolding prepare_context_with_counter prompt_parts
  prompt_cost window =
      let limit = input_limit request.budget in
      let sections = system_sections request.sections in
      let sys = system_part counter message_tokens sections limit request.messages in
      let history =
        take_newest counter message_tokens (limit - sys.used) (reverse request.messages) 0 [] in
      let within : sys.used + history.tokens ≤ limit = omega (
        arith,
        system_part-used counter message_tokens is_counter sections limit request.messages,
        take_newest-tokens counter message_tokens (limit - sys.used) (reverse request.messages) 0 []
            (omega arith) (omega arith),
      ) in
      let paid : sys.used + history.tokens
          ≡ system_cost counter sys.selected + cost message_tokens history.retained =
        omega (
          arith,
          system_part-cost counter message_tokens sections limit request.messages,
          take_newest-cost counter message_tokens (limit - sys.used) (reverse request.messages) 0 []
              (omega arith) refl,
        ) in
      (
        prompt_parts counter message_tokens request,
        sat_add-small sys.used history.tokens (omega (arith, within)) ∙ paid,
        omega (arith, within, paid),
      )
