-- ===== src/Context/Tests.antt =====
-- Runs of the prompt budgeter, and instances of its theorems.
use momo_core.Prelude.{
  ℕ, ◌+◌, ◌-◌, ◌/◌, ◌≤◌, ◌<◌, ◌≡◌, refl, some, List, [], ◌∷◌, ◌++◌, arith, Text, codes, text_eq,
  trim, split_once, contains_text, split, sat_add, div_ceil, usize_max, min,
}
use momo_core.Context.Tokens.{
  user, assistant, ChatInput, ContextSections, ContextRequest, estimate_text_tokens,
  estimate_message_tokens_with, estimate_text_tokens_lem, estimate_text_tokens-IsCounter,
  ascii_count, other_count,
}
use momo_core.Context.Truncate.{
  candidate, search, search_fuel, marker, truncate_message_content_with,
}
use momo_core.Context.Largest.{Best, truncate-Best}
use momo_core.Context.Quotas.{Share, fill_rounds, fill, Filled, fill-Filled}
use momo_core.Context.Sections.{
  Section, fit_texts, overflows, shrink_to_fit, system_sections, join, texts, fit_system_sections,
}
use momo_core.Context.Prepare.{
  input_limit, system_part, last_tokens, take_newest, prepare_context_with_counter, prepare_context,
}
use momo_core.Context.Recency.{newest-whole}
use momo_core.Context.Shown.{cost}
use momo_core.Context.Spending.{IsPrompt, prompt_cost, system_cost}

abbrev older_message : ChatInput
older_message = record { role = assistant; content = codes "Once there was a lighthouse." }

abbrev newest_message : ChatInput
newest_message = record { role = user; content = codes "And then?" }

abbrev message_cost : ChatInput → ℕ
message_cost m = estimate_message_tokens_with m estimate_text_tokens

abbrev card : ContextSections
card = record {
  runtime_instructions = codes "Answer briefly.";
  roleplay_director = [];
  character = codes "  A keeper of the light. ";
  user = [];
  memory = [];
  state = [];
  semantic_graph = [];
}

-- 160 - 10 - 128 = 22 tokens for the whole input.
abbrev request : ContextRequest
request = record {
  sections = card;
  messages = older_message ∷ newest_message ∷ [];
  budget = record { context_window = 160; reserve_output_tokens = 10 };
}

prepared_within_limit : (prepare_context request).estimated_input_tokens ≡ 22
unfolding prepare_context prepare_context_with_counter system_sections fit_system_sections
    estimate_text_tokens estimate_message_tokens_with truncate_message_content_with search candidate
    fill join trim split_once contains_text split text_eq sat_add div_ceil system_part fit_texts
    overflows last_tokens shrink_to_fit take_newest
prepared_within_limit = refl

prompt_cost_example :
    (parts : IsPrompt estimate_text_tokens message_cost request
      (prepare_context_with_counter estimate_text_tokens message_cost request).messages
      (prepare_context_with_counter estimate_text_tokens message_cost request).omitted_messages)
    × ((prepare_context_with_counter estimate_text_tokens message_cost
          request).estimated_input_tokens
        ≡ system_cost estimate_text_tokens parts.sys + cost message_cost parts.shown)
    × (system_cost estimate_text_tokens parts.sys + cost message_cost parts.shown ≤ 22)
prompt_cost_example =
    prompt_cost estimate_text_tokens message_cost estimate_text_tokens-IsCounter request
      (omega arith)

newest_cost : message_cost newest_message ≤ div_ceil (input_limit request.budget) 2
unfolding estimate_message_tokens_with estimate_text_tokens sat_add div_ceil
newest_cost = omega arith

newest-whole_example :
    (before : List ChatInput) × ((prepare_context_with_counter estimate_text_tokens message_cost
        request).messages
      ≡ before ++ (newest_message ∷ []))
newest-whole_example =
    newest-whole estimate_text_tokens message_cost request (older_message ∷ []) newest_message
      estimate_text_tokens-IsCounter (omega arith) refl newest_cost

abbrev two_sections : List Section
two_sections =
    record { name = codes "character"; text = codes "# Character\nA keeper."; weight = 6 }
    ∷ record { name = codes "user"; text = codes "# User\nA guest."; weight = 3 }
    ∷ []

two_sections_cost : estimate_text_tokens (join (texts estimate_text_tokens two_sections)) ≤ 40 - 6
unfolding estimate_text_tokens join sat_add div_ceil
two_sections_cost = omega arith

abbrev two_shares : List Share
two_shares =
    record { weight = 6; cost = 20; quota = 0 } ∷ record { weight = 3; cost = 4; quota = 0 } ∷ []

shares_filled :
    fill 15 two_shares
    ≡ record { weight = 6; cost = 20; quota = 12 } ∷ record { weight = 3; cost = 4; quota = 3 } ∷ []
unfolding fill
shares_filled = refl

fill-Filled_example :
    (fill_rounds 15 15 two_shares ≡ some (fill 15 two_shares))
    × Filled 15 two_shares (fill 15 two_shares)
fill-Filled_example = fill-Filled 15 two_shares (omega arith) (omega arith)

marker_small : estimate_text_tokens marker ≤ 2
unfolding estimate_text_tokens sat_add div_ceil
marker_small = omega arith

search_fuel_example :
    (found : Text) × (search estimate_text_tokens 4 (codes "abc") 2 0 3 marker ≡ some found)
    × (estimate_text_tokens found ≤ 2)
search_fuel_example =
    search_fuel estimate_text_tokens 4 (codes "abc") 2 0 3 marker (omega arith) (omega arith)
      marker_small

abbrev long_text : Text
long_text = codes "The lamp turns all night."

long_text_cost : 9 - 6 < estimate_text_tokens long_text
unfolding estimate_text_tokens sat_add div_ceil
long_text_cost = omega arith

marker_cost : estimate_text_tokens marker ≤ 9 - 6
unfolding estimate_text_tokens sat_add div_ceil
marker_cost = omega arith

truncate-Best_example :
    Best estimate_text_tokens long_text 3
      (truncate_message_content_with estimate_text_tokens long_text 9).0
truncate-Best_example =
    truncate-Best long_text 9 (omega arith) (omega arith) long_text_cost marker_cost

estimate_text_tokens_lem_example :
    estimate_text_tokens long_text
    ≡ min ((ascii_count long_text + 3) / 4 + other_count long_text) usize_max
estimate_text_tokens_lem_example = estimate_text_tokens_lem long_text
