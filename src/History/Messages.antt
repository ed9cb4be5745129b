-- ===== src/History/Messages.antt =====
-- conversation.rs of crates/momo-domain, the messages of gateway.rs, and
-- `estimate_gateway_message_tokens` of context.rs.
use momo_core.Prelude.{ℕ, ◌+◌, Option, none, some, List, [], ◌∷◌, map, Text, sat_add}
use momo_core.Context.Tokens.{
  MessageRole, ChatInput, estimate_text_tokens, system as system_role, user as user_role,
  assistant as assistant_role,
}

pub record Message : Type 0 where
  pub id : Text
  pub role : MessageRole
  pub content : Text

pub record StoredImage : Type 0 where
  pub image_url : Text
  pub detail : Option Text

pub record StoredToolExchange : Type 0 where
  pub call_id : Text
  pub name : Text
  pub arguments : Text
  pub output : Text

pub data MessageContextPayload : Type 0 where
  user_images : List StoredImage → MessageContextPayload
  tool_exchanges : List StoredToolExchange → MessageContextPayload

pub record MessageContext : Type 0 where
  pub message_id : Text
  pub payload : MessageContextPayload

pub data GatewayMessageRole : Type 0 where
  system user assistant tool : GatewayMessageRole

pub data GatewayContentPart : Type 0 where
  text_part : Text → GatewayContentPart
  image_url : Text → Option Text → GatewayContentPart

pub data GatewayMessageContent : Type 0 where
  text : Text → GatewayMessageContent
  parts : List GatewayContentPart → GatewayMessageContent

pub record ChatFunctionCall : Type 0 where
  pub name : Text
  pub arguments : Text

pub record ChatToolCall : Type 0 where
  pub id : Text
  pub call_type : Text
  pub function : ChatFunctionCall

pub record GatewayMessage : Type 0 where
  pub role : GatewayMessageRole
  pub content : Option GatewayMessageContent
  pub tool_call_id : Option Text
  pub tool_calls : List ChatToolCall

abbrev pub gateway_role : MessageRole → GatewayMessageRole
gateway_role system_role = system
gateway_role user_role = user
gateway_role assistant_role = assistant

-- `GatewayMessage::from(&ChatInput)`
unfoldable pub gateway_message : ChatInput → GatewayMessage
gateway_message message = record {
  role = gateway_role message.role;
  content = some (text message.content);
  tool_call_id = none;
  tool_calls = [];
}

abbrev pub sum : List ℕ → ℕ
sum [] = 0
sum (n ∷ rest) = n + sum rest

unfoldable pub part_tokens : GatewayContentPart → ℕ
part_tokens (text_part t) = estimate_text_tokens t
part_tokens (image_url url detail) = 0

unfoldable pub content_tokens : Option GatewayMessageContent → ℕ
content_tokens none = 0
content_tokens (some (text t)) = estimate_text_tokens t
content_tokens (some (parts ps)) = sum (map part_tokens ps)

abbrev pub id_tokens : Option Text → ℕ
id_tokens none = 0
id_tokens (some id) = estimate_text_tokens id

-- `serde_json::to_string` of tool calls and of tool evidence.
pub record ToolJson : Type 0 where
  pub calls : List ChatToolCall → Text
  pub exchanges : List StoredToolExchange → Text

module _ (json : ToolJson) where
  abbrev pub calls_tokens : List ChatToolCall → ℕ
  calls_tokens [] = 0
  calls_tokens (call ∷ calls) = estimate_text_tokens (json.calls (call ∷ calls))

  unfoldable pub estimate_gateway_message_tokens : GatewayMessage → ℕ
  estimate_gateway_message_tokens message =
      sat_add
        (sat_add (sat_add (content_tokens message.content) (calls_tokens message.tool_calls))
          (id_tokens message.tool_call_id))
        6

  abbrev pub gateway_tokens : List GatewayMessage → ℕ
  gateway_tokens messages = sum (map estimate_gateway_message_tokens messages)
