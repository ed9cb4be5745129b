-- ===== src/History/Evidence.antt =====
-- history.rs, `Entry` and `HistoryContext::new`.
use momo_core.Prelude.{
  ℕ, ◌+◌, ◌-◌, ◌/◌, ◌%◌, Bool, not, ◌||◌, Option, none, some, List, [], ◌∷◌, ◌++◌, map, Text, codes,
  is_empty, ltb, if◌then◌else◌, length, lookup, put, discard, collect, suc, zero,
}
use mathlib.Core.List.{reverse}
use momo_core.Context.Tokens.{ChatInput}
use momo_core.History.Messages.{
  Message, StoredImage, StoredToolExchange, MessageContextPayload, user_images, tool_exchanges,
  MessageContext, GatewayMessage, assistant, tool, text_part, image_url, text, parts,
  gateway_message, ToolJson, gateway_tokens, ChatToolCall,
}

pub record Entry : Type 0 where
  pub messages : List GatewayMessage
  pub estimated_input_tokens : ℕ
  pub image_count : ℕ
  pub tool_exchange_count : ℕ

pub record HistoryContext : Type 0 where
  pub messages : List ChatInput
  pub entries : List (Text × Entry)
  pub omitted_blocks : ℕ

abbrev pub original : Message → ChatInput
original message = record { role = message.role; content = message.content }

abbrev pub tool_call : StoredToolExchange → ChatToolCall
tool_call call = record {
  id = call.call_id;
  call_type = codes "function";
  function = record { name = call.name; arguments = call.arguments };
}

abbrev pub tool_output : StoredToolExchange → GatewayMessage
tool_output call = record {
  role = tool;
  content = some (text call.output);
  tool_call_id = some call.call_id;
  tool_calls = [];
}

-- The messages, the number of images and that of tool exchanges.
unfoldable pub entry_parts : Message → MessageContextPayload → List GatewayMessage × ℕ × ℕ
entry_parts message (user_images images) = (
  record {
    role = (gateway_message (original message)).role;
    content =
        some (parts (text_part message.content ∷ map (λ i. image_url i.image_url i.detail) images));
    tool_call_id = (gateway_message (original message)).tool_call_id;
    tool_calls = (gateway_message (original message)).tool_calls;
  }
      ∷ [],
  length images,
  0,
)
entry_parts message (tool_exchanges exchanges) = (
  (record {
    role = assistant;
    content = none;
    tool_call_id = none;
    tool_calls = map tool_call exchanges;
  }
        ∷ map tool_output exchanges)
      ++ (if is_empty message.content then [] else gateway_message (original message) ∷ []),
  0,
  length exchanges,
)

-- What is still to be claimed by older messages: the contexts left, the images and the blocks
-- omitted.
pub record Claims : Type 0 where
  pub contexts : List (Text × MessageContextPayload)
  pub remaining : ℕ
  pub omitted_blocks : ℕ

abbrev pub claim_images : Bool → Text → List StoredImage → Claims → Claims
claim_images supports_images id images c =
    if not supports_images || ltb c.remaining (length images)
    then record {
      contexts = discard c.contexts id;
      remaining = c.remaining;
      omitted_blocks = c.omitted_blocks + 1;
    }
    else record {
      contexts = c.contexts;
      remaining = c.remaining - length images;
      omitted_blocks = c.omitted_blocks;
    }

abbrev pub claim_found : Bool → Text → Option MessageContextPayload → Claims → Claims
claim_found supports_images id none c = c
claim_found supports_images id (some (tool_exchanges exchanges)) c = c
claim_found supports_images id (some (user_images images)) c =
    claim_images supports_images id images c

-- `for message in messages.iter().rev()`: the list is the messages, newest first.
unfoldable pub claim : Bool → List Message → Claims → Claims
claim supports_images [] c = c
claim supports_images (message ∷ older) c =
    claim supports_images older
      (claim_found supports_images message.id (lookup c.contexts message.id) c)

-- `format!("{}", n)`, by the digits from the last one on; a number has at most as many digits as its
-- successor.
unfoldable pub digits : ℕ → ℕ → Text → Text
digits zero n shown = shown
digits (suc fuel) n shown =
    let later = digits fuel (n / 10) ((48 + n % 10) ∷ shown) in
    if ltb n 10 then (48 + n) ∷ shown else later

abbrev pub decimal : ℕ → Text
decimal n = digits (n + 1) n []

module _ (json : ToolJson) where
  unfoldable pub new_entry : Message → MessageContextPayload → Entry
  new_entry message payload =
      let (messages, images, exchanges) = entry_parts message payload in
      record {
        messages = messages;
        estimated_input_tokens = gateway_tokens json messages;
        image_count = images;
        tool_exchange_count = exchanges;
      }

  abbrev pub estimate_text : MessageContextPayload → Text
  estimate_text (user_images images) = codes "Previous user images: " ++ decimal (length images)
  estimate_text (tool_exchanges exchanges) = json.exchanges exchanges

  unfoldable pub evidence_content : Message → MessageContextPayload → Text
  evidence_content message payload =
      message.content
      ++ (10 ∷ codes "<momo-history-context id=\"")
      ++ message.id
      ++ codes "\">"
      ++ (10 ∷ [])
      ++ estimate_text payload
      ++ (10 ∷ codes "</momo-history-context>")

  abbrev pub with_evidence :
      Message → Option MessageContextPayload → List (Text × Entry) → ChatInput × List (Text × Entry)
  with_evidence message none entries = (original message, entries)
  with_evidence message (some payload) entries = (
    record { role = message.role; content = evidence_content message payload },
    put entries (evidence_content message payload) (new_entry message payload),
  )

  -- The second loop: the messages with their evidence, and the entries.
  unfoldable pub attach :
      List Message
      → List (Text × MessageContextPayload)
      → List (Text × Entry)
      → List ChatInput × List (Text × Entry)
  attach [] contexts entries = ([], entries)
  attach (message ∷ rest) contexts entries =
      let (input, next) = with_evidence message (lookup contexts message.id) entries in
      let (inputs, all) = attach rest (discard contexts message.id) next in (input ∷ inputs, all)

  unfoldable pub new : List Message → List MessageContext → Bool → ℕ → HistoryContext
  new messages contexts supports_images available_images =
      let claims = claim supports_images (reverse messages) (record {
        contexts = collect [] (map (λ c. (c.message_id, c.payload)) contexts);
        remaining = available_images;
        omitted_blocks = 0;
      }) in
      let (inputs, entries) = attach messages claims.contexts [] in
      record { messages = inputs; entries = entries; omitted_blocks = claims.omitted_blocks }
