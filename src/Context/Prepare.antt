-- ===== src/Context/Prepare.antt =====
-- context.rs, `prepare_context_with_counter`: the system message and the newest messages that fit.
use mathlib.Core.List.{reverse}
use momo_core.Prelude.{
  ℕ, ◌+◌, ◌-◌, Bool, true, false, List, [], ◌∷◌, ◌++◌, ltb, if◌then◌else◌, min, max, is_empty,
  sat_add, div_ceil, length, Text,
}
use momo_core.Context.Tokens.{
  system, ChatInput, ContextBudget, ContextSectionAudit, PreparedContext, ContextRequest,
  estimate_text_tokens, estimate_message_tokens_with,
}
use momo_core.Context.Truncate.{truncate_message_content_with}
use momo_core.Context.Sections.{Section, system_sections, fit_system_sections}

-- `CONTEXT_SAFETY_MARGIN`
abbrev pub context_safety_margin : ℕ
context_safety_margin = 128

abbrev pub input_limit : ContextBudget → ℕ
input_limit b = max (b.context_window - b.reserve_output_tokens - context_safety_margin) 1

abbrev pub any_truncated : List ContextSectionAudit → Bool
any_truncated [] = false
any_truncated (a ∷ rest) = if a.truncated then true else any_truncated rest

-- What the part about the system sections leaves in `selected`, `used`, `truncated_messages` and
-- `section_audit`.
pub record SystemPart : Type 0 where
  pub selected : List ChatInput
  pub used : ℕ
  pub truncated : ℕ
  pub audit : List ContextSectionAudit

-- What the loop over the messages leaves in `reverse_messages` (turned round), `history_tokens`
-- and `truncated_messages`.
pub record History : Type 0 where
  pub retained : List ChatInput
  pub tokens : ℕ
  pub truncated : ℕ

module _ (counter : Text → ℕ) (message_tokens : ChatInput → ℕ) where
  -- `request.messages.last().map(message_tokens).unwrap_or_default()`
  unfoldable pub last_tokens : List ChatInput → ℕ
  last_tokens [] = 0
  last_tokens (m ∷ []) = message_tokens m
  last_tokens (m ∷ n ∷ rest) = last_tokens (n ∷ rest)

  unfoldable pub system_part_of : Text × List ContextSectionAudit → SystemPart
  system_part_of (content, audit) =
      let message : ChatInput = record { role = system; content = content } in
      if is_empty content
      then record {
        selected = [];
        used = 0;
        truncated = if any_truncated audit then 1 else 0;
        audit = audit;
      }
      else record {
        selected = message ∷ [];
        used = estimate_message_tokens_with message counter;
        truncated = if any_truncated audit then 1 else 0;
        audit = audit;
      }

  abbrev pub newest_reserve : ℕ → List ChatInput → ℕ
  newest_reserve limit messages = min (last_tokens messages) (div_ceil limit 2)

  -- `if !raw_sections.is_empty()`
  unfoldable pub system_part : List Section → ℕ → List ChatInput → SystemPart
  unfolding system_part_of
  system_part [] limit messages = record { selected = []; used = 0; truncated = 0; audit = [] }
  system_part (s ∷ sections) limit messages =
      system_part_of
        (fit_system_sections counter (s ∷ sections) (limit - newest_reserve limit messages))

  -- The newest message does not fit whole: a shortened copy of it, if that fits.
  unfoldable pub shorten_newest : ChatInput → ℕ → ℕ → History
  shorten_newest message available history_tokens =
      let remaining = available - history_tokens in
      let (content, was_truncated) =
        truncate_message_content_with counter message.content remaining in
      let shortened = record message { content = content } in
      if is_empty content
      then record { retained = []; tokens = history_tokens; truncated = 0 }
      else if ltb remaining (message_tokens shortened)
      then record { retained = []; tokens = history_tokens; truncated = 0 }
      else record {
        retained = shortened ∷ [];
        tokens = sat_add history_tokens (message_tokens shortened);
        truncated = if was_truncated then 1 else 0;
      }

  -- `for message in request.messages.iter().rev()`: the list is the messages, newest first.
  unfoldable pub take_newest : ℕ → List ChatInput → ℕ → List ChatInput → History
  take_newest available [] history_tokens retained = record {
    retained = retained;
    tokens = history_tokens;
    truncated = 0;
  }
  take_newest available (message ∷ older) history_tokens retained =
      let tokens = message_tokens message in
      let further = take_newest available older (history_tokens + tokens) (message ∷ retained) in
      if ltb available (sat_add history_tokens tokens)
      then if is_empty retained
        then shorten_newest message available history_tokens
        else record { retained = retained; tokens = history_tokens; truncated = 0 }
      else further

  unfoldable pub prepare_context_with_counter : ContextRequest → PreparedContext
  prepare_context_with_counter request =
      let limit = input_limit request.budget in
      let sys = system_part (system_sections request.sections) limit request.messages in
      let history = take_newest (limit - sys.used) (reverse request.messages) 0 [] in
      record {
        messages = sys.selected ++ history.retained;
        estimated_input_tokens = sat_add sys.used history.tokens;
        omitted_messages = length request.messages - length history.retained;
        truncated_messages = sys.truncated + history.truncated;
        section_audit = sys.audit;
      }

-- `prepare_context_with_message_tokens`
unfoldable pub prepare_context_with_message_tokens :
    ContextRequest → (ChatInput → ℕ) → PreparedContext
unfolding prepare_context_with_counter
prepare_context_with_message_tokens request message_tokens =
    prepare_context_with_counter estimate_text_tokens message_tokens request

unfoldable pub prepare_context : ContextRequest → PreparedContext
unfolding prepare_context_with_message_tokens
prepare_context request =
    prepare_context_with_message_tokens request
      (λ message. estimate_message_tokens_with message estimate_text_tokens)
