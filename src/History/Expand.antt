-- ===== src/History/Expand.antt =====
-- history.rs, `HistoryContext::prepare_context` and `expand`, and `tool_context`.
use momo_core.Prelude.{
  ℕ, ◌+◌, ◌-◌, zero, suc, Bool, Option, none, some, List, [], ◌∷◌, ◌++◌, text_eq, sat_add,
  if◌then◌else◌, length, drop, lookup,
}
use momo_core.Context.Tokens.{ChatInput, PreparedContext, ContextRequest, estimate_text_tokens}
use momo_core.Context.Prepare.{prepare_context_with_message_tokens}
use momo_core.History.Messages.{GatewayMessage, gateway_message}
use momo_core.History.Evidence.{Entry, HistoryContext}

abbrev pub entry_tokens : Option Entry → ChatInput → ℕ
entry_tokens none message = sat_add (estimate_text_tokens message.content) 6
entry_tokens (some entry) message = entry.estimated_input_tokens

unfoldable pub message_tokens : HistoryContext → ChatInput → ℕ
message_tokens history message = entry_tokens (lookup history.entries message.content) message

-- The request's messages are the history's, and in `respond` others behind them.
unfoldable pub prepare_context : HistoryContext → ContextRequest → PreparedContext
prepare_context history request =
    prepare_context_with_message_tokens request (message_tokens history)

pub record Expanded : Type 0 where
  pub output : List GatewayMessage
  pub image_count : ℕ
  pub tool_exchange_count : ℕ
  pub admitted_blocks : ℕ

abbrev pub nothing_expanded : Expanded
nothing_expanded = record {
  output = [];
  image_count = 0;
  tool_exchange_count = 0;
  admitted_blocks = 0;
}

abbrev pub before : List GatewayMessage → Expanded → Expanded
before messages later = record {
  output = messages ++ later.output;
  image_count = later.image_count;
  tool_exchange_count = later.tool_exchange_count;
  admitted_blocks = later.admitted_blocks;
}

abbrev pub admit_entry : Entry → Expanded → Expanded
admit_entry entry later = record {
  output = entry.messages ++ later.output;
  image_count = entry.image_count + later.image_count;
  tool_exchange_count = entry.tool_exchange_count + later.tool_exchange_count;
  admitted_blocks = later.admitted_blocks + 1;
}

-- One message of the prompt, by the entry of its source and whether the source is shown whole.
abbrev pub expand_one : Option Entry → Bool → ChatInput → Expanded → Expanded
expand_one none whole message later = before (gateway_message message ∷ []) later
expand_one (some entry) whole message later = if whole then admit_entry entry later else later

module _ (history : HistoryContext) where
  -- The loop, from the position in the prompt on which the retained messages begin. The sources are
  -- those from the first retained one on.
  unfoldable pub expand_from : ℕ → List ChatInput → List ChatInput → Expanded
  expand_from leading [] sources = nothing_expanded
  expand_from (suc leading) (message ∷ rest) sources =
      before (gateway_message message ∷ []) (expand_from leading rest sources)
  expand_from zero (message ∷ rest) [] =
      before (gateway_message message ∷ []) (expand_from zero rest [])
  expand_from zero (message ∷ rest) (source ∷ sources) =
      expand_one (lookup history.entries source.content) (text_eq source.content message.content)
        message (expand_from zero rest sources)

  -- The messages, the images and the tool exchanges, and the evidence blocks left out.
  unfoldable pub expand : PreparedContext → Expanded × ℕ
  expand prepared =
      let retained = length history.messages - prepared.omitted_messages in
      let leading = length prepared.messages - retained in
      let first = length history.messages - retained in
      let expanded = expand_from leading prepared.messages (drop first history.messages) in
      (expanded, history.omitted_blocks + length history.entries - expanded.admitted_blocks)
