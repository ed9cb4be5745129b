-- ===== src/History/Tests.antt =====
-- A run of the history's evidence, and instances of its theorems.
use momo_core.Prelude.{
  ◌≤◌, ◌≡◌, refl, true, false, none, List, [], ◌∷◌, Text, codes, arith, All, ok, trim, utf8_len,
  all, member, sat_add, lookup, put, discard, collect, text_eq,
}
use momo_core.Context.Tokens.{ContextRequest, user, assistant}
use momo_core.History.Messages.{
  Message, StoredToolExchange, MessageContext, user_images, tool_exchanges, ToolJson,
  gateway_tokens,
}
use momo_core.History.Evidence.{
  claim, attach, new, new_entry, entry_parts, evidence_content, digits,
}
use momo_core.History.Payload.{validate, validate_exchanges, bad_exchange}
use momo_core.History.Expand.{prepare_context, expand}
use momo_core.History.Budget.{StaysPlain}
use momo_core.History.Claims.{new-images, new-expand_within}
use momo_core.History.Images.{image_total}

abbrev json : ToolJson
json = record { calls = λ calls. codes "calls"; exchanges = λ exchanges. codes "tools" }

abbrev picture : Message
picture = record { id = codes "1"; role = user; content = codes "Look" }

abbrev result : Message
result = record { id = codes "2"; role = assistant; content = codes "Done" }

abbrev messages : List Message
messages = picture ∷ result ∷ []

abbrev contexts : List MessageContext
contexts =
    record {
      message_id = codes "1";
      payload = user_images (record { image_url = codes "https://a"; detail = none } ∷ []);
    }
    ∷ record {
      message_id = codes "2";
      payload = tool_exchanges (
          record {
            call_id = codes "c";
            name = codes "look";
            arguments = codes "{}";
            output = codes "ok";
          }
          ∷ []);
    }
    ∷ []

two_entries :
    (image_total (new json messages contexts true 3).entries ≡ 1)
    × ((new json messages contexts true 3).omitted_blocks ≡ 0)
    × ((new json messages contexts false 3).omitted_blocks ≡ 1)
unfolding new claim attach lookup put discard collect text_eq new_entry entry_parts evidence_content
    digits
two_entries = (refl, refl, refl)

new-images_example :
    (image_total (new json messages contexts true 3).entries ≤ 3)
    × (true ≡ false → image_total (new json messages contexts true 3).entries ≡ 0)
new-images_example = new-images json messages contexts 3 true

abbrev empty : Text
empty = []

abbrev request : ContextRequest
request = record {
  sections = record {
    runtime_instructions = empty;
    roleplay_director = empty;
    character = codes "A painter.";
    user = empty;
    memory = empty;
    state = empty;
    semantic_graph = empty;
  };
  messages = (new json messages contexts true 3).messages;
  budget = record { context_window = 1_000; reserve_output_tokens = 200 };
}

All-StaysPlain :
    All
      (StaysPlain (new json messages contexts true 3))
      (new json messages contexts true 3).messages
unfolding new claim attach lookup put discard collect text_eq new_entry entry_parts evidence_content
    digits
All-StaysPlain = (λ size h. ground (arith, h), (λ size h. ground (arith, h), tt))

new-expand_within_example :
    (gateway_tokens json
        (expand
          (new json messages contexts true 3)
          (prepare_context (new json messages contexts true 3) request)).0.output
      ≤ (prepare_context (new json messages contexts true 3) request).estimated_input_tokens)
    × ((prepare_context (new json messages contexts true 3) request).estimated_input_tokens ≤ 672)
new-expand_within_example =
    new-expand_within json messages contexts 3 true request refl (omega arith) All-StaysPlain

abbrev call : StoredToolExchange
call = record {
  call_id = codes "c";
  name = codes "look";
  arguments = codes "{}";
  output = codes "ok";
}

call_accepted : validate (tool_exchanges (call ∷ [])) assistant ≡ ok tt
unfolding validate validate_exchanges bad_exchange trim utf8_len all member sat_add
call_accepted = refl
