-- ===== src/History/Budget.antt =====
-- The expanded prompt costs what the budget was charged for it.
use momo_core.Prelude.{
  ℕ, ◌+◌, ◌-◌, ◌≤◌, ◌≡◌, refl, sym, ap, ◌∙◌, subst, none, some, Option-cases, Bool-cases, inl, inr,
  List, [], ◌∷◌, ◌++◌, text_eq, text_eq_refl, text_eq_iff, sat_add, length, drop, lookup, arith,
  usize_max, length-append, lookup-Values, Values, All,
}
use momo_core.Context.Tokens.{
  ChatInput, PreparedContext, ContextRequest, estimate_text_tokens, estimate_message_tokens_with,
  estimate_text_tokens-IsCounter,
}
use momo_core.Context.Prepare.{input_limit, prepare_context_with_message_tokens}
use momo_core.Context.Shown.{cost, IsShown, shortened_to, length-shown}
use momo_core.Context.Spending.{system_cost, prompt_cost}
use momo_core.History.Messages.{
  GatewayMessage, gateway_message, ToolJson, estimate_gateway_message_tokens, gateway_tokens,
  content_tokens,
}
use momo_core.History.Evidence.{Entry, HistoryContext}
use momo_core.History.Expand.{
  message_tokens, prepare_context, Expanded, expand_one, expand_from, expand,
}

module _ {ℓ} {A : Type ℓ} where
  drop-append : (xs ys : List A) → drop (length xs) (xs ++ ys) ≡ ys
  drop-append [] ys = refl
  drop-append (x ∷ xs) ys = drop-append xs ys

  All-append-right {κ} : (P : A → Type κ) (xs ys : List A) → All P (xs ++ ys) → All P ys
  All-append-right P [] ys h = h
  All-append-right P (x ∷ xs) ys h = All-append-right P xs ys h.1

-- Shortening a message without evidence does not make it the text of some evidence.
abbrev pub StaysPlain : HistoryContext → ChatInput → Type 0
StaysPlain history m =
    (size : ℕ)
    → lookup history.entries m.content ≡ none
    → lookup history.entries (shortened_to estimate_text_tokens m size).content ≡ none

module _ (json : ToolJson) where
  gateway_tokens-append :
      (xs ys : List GatewayMessage)
      → gateway_tokens json (xs ++ ys) ≡ gateway_tokens json xs + gateway_tokens json ys
  gateway_tokens-append [] ys = omega arith
  gateway_tokens-append (x ∷ xs) ys = omega (arith, gateway_tokens-append xs ys)

  -- A plain message costs what the budgeter counts.
  plain_tokens :
      (m : ChatInput)
      → estimate_gateway_message_tokens json (gateway_message m)
        ≡ sat_add (estimate_text_tokens m.content) 6
  unfolding estimate_gateway_message_tokens gateway_message content_tokens sat_add
  plain_tokens m = ground arith

  -- An entry is charged what its messages cost.
  abbrev pub IsMeasured : Entry → Type 0
  IsMeasured entry = entry.estimated_input_tokens ≡ gateway_tokens json entry.messages

  module _ (history : HistoryContext) (measured : Values IsMeasured history.entries) where
    expand_from-system :
        (sys rest sources : List ChatInput)
        → gateway_tokens json (expand_from history (length sys) (sys ++ rest) sources).output
          ≡ system_cost estimate_text_tokens sys
            + gateway_tokens json (expand_from history 0 rest sources).output
    unfolding expand_from estimate_message_tokens_with
    expand_from-system [] rest sources = omega arith
    expand_from-system (m ∷ sys) rest sources =
        omega (arith, expand_from-system sys rest sources, plain_tokens m)

    expand_one-whole :
        (m : ChatInput) (later : Expanded)
        → gateway_tokens json
            (expand_one
              (lookup history.entries m.content)
              (text_eq m.content m.content)
              m
              later).output
          ≡ message_tokens history m + gateway_tokens json later.output
    unfolding message_tokens
    expand_one-whole m later = elim (Option-cases (lookup history.entries m.content)) [
      | inl e ↦ rw (e, message_tokens) (omega (arith, plain_tokens m))
      | inr (entry, e) ↦
          let charged = lookup-Values IsMeasured history.entries m.content entry measured e in
          rw (e, text_eq_refl m.content, message_tokens)
            (gateway_tokens-append entry.messages later.output ∙ omega (arith, charged))
    ]

    -- Messages that are shown whole cost what they were charged.
    expand_from-whole :
        (kept : List ChatInput)
        → gateway_tokens json (expand_from history 0 kept kept).output
          ≡ cost (message_tokens history) kept
    unfolding expand_from
    expand_from-whole [] = refl
    expand_from-whole (m ∷ rest) =
        expand_one-whole m (expand_from history 0 rest rest) ∙ omega (arith, expand_from-whole rest)

    expand-aligned :
        (prepared : PreparedContext) (sys omitted kept shown : List ChatInput)
        → history.messages ≡ omitted ++ kept
        → prepared.messages ≡ sys ++ shown
        → prepared.omitted_messages ≡ length omitted
        → length shown ≡ length kept
        → (expand history prepared).0 ≡ expand_from history (length sys) (sys ++ shown) kept
    unfolding expand
    expand-aligned prepared sys omitted kept shown split built left size =
        let retained : length history.messages - prepared.omitted_messages ≡ length kept =
          omega (arith, ap length split, length-append omitted kept, left) in
        let leading : length prepared.messages
              - (length history.messages - prepared.omitted_messages)
            ≡ length sys =
          omega (arith, retained, ap length built, length-append sys shown, size) in
        let first : length history.messages - (length history.messages - prepared.omitted_messages)
            ≡ length omitted =
          omega (arith, retained, ap length split, length-append omitted kept) in
        let sources : drop
              (length history.messages - (length history.messages - prepared.omitted_messages))
              history.messages
            ≡ kept =
          ap (λ n. drop n history.messages) first
          ∙ ap (drop (length omitted)) split
          ∙ drop-append omitted kept in
        ap
          (λ n. expand_from history n prepared.messages (
            drop (length history.messages - (length history.messages - prepared.omitted_messages))
              history.messages))
          leading
        ∙ ap
            (λ ms. expand_from history (length sys) ms (
              drop (length history.messages - (length history.messages - prepared.omitted_messages))
                history.messages))
            built
        ∙ ap (λ rest. expand_from history (length sys) (sys ++ shown) rest) sources

    expand_from-shortened :
        (m : ChatInput) (size : ℕ)
        → StaysPlain history m
        → gateway_tokens json
            (expand_from history 0 (shortened_to estimate_text_tokens m size ∷ []) (m ∷ [])).output
          ≤ message_tokens history (shortened_to estimate_text_tokens m size) + 0
    unfolding expand_from message_tokens
    expand_from-shortened m size plain =
        let s : ChatInput = shortened_to estimate_text_tokens m size in
        elim (Option-cases (lookup history.entries m.content)) [
          | inl e ↦ rw (e, message_tokens, plain size e) (omega (arith, plain_tokens s))
          | inr (entry, e) ↦ elim (Bool-cases (text_eq m.content s.content)) [
            | inl t ↦
                let same : lookup history.entries s.content ≡ some entry =
                  subst (λ c. lookup history.entries c ≡ some entry)
                    ((text_eq_iff m.content s.content).0 t) e in
                let charged = lookup-Values IsMeasured history.entries m.content entry measured e in
                rw (e, t, message_tokens, same)
                  (omega (arith, charged, gateway_tokens-append entry.messages []))
            | inr t ↦ rw (e, t) (omega arith)
          ]
        ]

    expand_from-shown :
        (kept shown : List ChatInput) {available : ℕ}
        → All (StaysPlain history) kept
        → IsShown estimate_text_tokens (message_tokens history) available kept shown
        → gateway_tokens json (expand_from history 0 shown kept).output
          ≤ cost (message_tokens history) shown
    expand_from-shown kept shown plain (inl e) = rw e (omega (arith, expand_from-whole kept))
    expand_from-shown kept shown {available} plain (inr (m, e, f, over, fits)) =
        let p : All (StaysPlain history) (m ∷ []) = subst (All (StaysPlain history)) e plain in
        rw (e, f) (expand_from-shortened m available p.0)

    -- If the history is what the budget was asked for, the messages that `expand` makes of the
    -- prepared prompt cost at most what the prompt was estimated at, and so at most the input limit,
    -- provided that no message without evidence becomes, shortened, the text of some evidence.
    pub expand-within :
        (request : ContextRequest)
        → request.messages ≡ history.messages
        → request.budget.context_window ≤ usize_max
        → All (StaysPlain history) history.messages
        → (gateway_tokens json (expand history (prepare_context history request)).0.output
            ≤ (prepare_context history request).estimated_input_tokens)
          × ((prepare_context history request).estimated_input_tokens ≤ input_limit request.budget)
    unfolding prepare_context prepare_context_with_message_tokens
    expand-within request asked window plain =
        let (parts, paid, within) =
          prompt_cost estimate_text_tokens (message_tokens history) estimate_text_tokens-IsCounter
            request window in
        let all : history.messages ≡ parts.omitted ++ parts.kept = sym asked ∙ parts.split in
        let aligned =
          expand-aligned (prepare_context history request) parts.sys parts.omitted parts.kept
            parts.shown all parts.built parts.counted
            (length-shown estimate_text_tokens (message_tokens history) _ parts.kept parts.shown
              parts.as_shown) in
        let rest = subst (All (StaysPlain history)) all plain in
        (
          omega (
            arith,
            ap (λ x. gateway_tokens json x.output) aligned,
            expand_from-system parts.sys parts.shown parts.kept,
            expand_from-shown parts.kept parts.shown
                (All-append-right (StaysPlain history) parts.omitted parts.kept rest)
                parts.as_shown,
            paid,
          ),
          omega (arith, paid, within),
        )
