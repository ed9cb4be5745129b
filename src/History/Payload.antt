-- ===== src/History/Payload.antt =====
-- conversation.rs of crates/momo-domain, `MessageContextPayload::validate`.
use momo_core.Prelude.{
  ℕ, ◌*◌, Bool, true, false, not, ◌&&◌, ◌||◌, Option, none, some, List, [], ◌∷◌, Text, codes,
  text_eq, is_empty, trim, utf8_len, starts_with, all, member, ltb, leb, ◌==◌, sat_add, length,
  Outcome, ok, ◌>>◌, unless,
}
use momo_core.Context.Tokens.{MessageRole, user, assistant}
use momo_core.History.Messages.{
  StoredImage, StoredToolExchange, MessageContextPayload, user_images, tool_exchanges,
}

pub data PayloadError : Type 0 where
  image_context invalid_image_reference tool_context invalid_tool_exchange : PayloadError

abbrev pub is_user : MessageRole → Bool
is_user user = true
is_user _ = false

abbrev pub is_assistant : MessageRole → Bool
is_assistant assistant = true
is_assistant _ = false

-- `detail.as_deref().is_some_and(|v| !matches!(v, "auto" | "low" | "high"))`
abbrev pub bad_detail : Option Text → Bool
bad_detail none = false
bad_detail (some v) =
    not (text_eq v (codes "auto") || text_eq v (codes "low") || text_eq v (codes "high"))

unfoldable pub bad_image : StoredImage → Bool
bad_image image =
    ltb (2 * 1024 * 1024) (utf8_len image.image_url)
    || not (
        starts_with image.image_url (codes "https://")
        || starts_with image.image_url (codes "http://")
        || starts_with image.image_url (codes "data:image/"))
    || bad_detail image.detail

unfoldable pub validate_images : List StoredImage → Outcome PayloadError (Unit {0})
validate_images [] = ok tt
validate_images (image ∷ rest) = do
  unless (bad_image image) invalid_image_reference
  validate_images rest

-- `byte.is_ascii_alphanumeric() || matches!(byte, b'_' | b'.' | b'-')`, of the code point: the bytes of
-- a character that is not ASCII are not either.
abbrev pub name_byte : ℕ → Bool
name_byte c =
    (leb 48 c && leb c 57)
    || (leb 65 c && leb c 90)
    || (leb 97 c && leb c 122)
    || c == 95
    || c == 46
    || c == 45

-- The tests on one exchange but those of its identifier's novelty and of the bytes so far.
unfoldable pub bad_exchange : StoredToolExchange → Bool
bad_exchange exchange =
    is_empty (trim exchange.call_id)
    || ltb 256 (utf8_len exchange.call_id)
    || is_empty exchange.name
    || ltb 128 (utf8_len exchange.name)
    || not (all name_byte exchange.name)
    || ltb (1024 * 1024) (utf8_len exchange.arguments)
    || ltb (1024 * 1024) (utf8_len exchange.output)

abbrev pub bytes_after : ℕ → StoredToolExchange → ℕ
bytes_after bytes exchange =
    sat_add
      (sat_add (sat_add (sat_add bytes (utf8_len exchange.arguments)) (utf8_len exchange.output))
        (utf8_len exchange.call_id))
      (utf8_len exchange.name)

abbrev pub max_tool_bytes : ℕ
max_tool_bytes = 2 * 1024 * 1024

unfoldable pub validate_exchanges :
    List Text → ℕ → List StoredToolExchange → Outcome PayloadError (Unit {0})
validate_exchanges ids bytes [] = ok tt
validate_exchanges ids bytes (exchange ∷ rest) = do
  unless
      (bad_exchange exchange
        || member ids exchange.call_id
        || ltb max_tool_bytes (bytes_after bytes exchange))
      invalid_tool_exchange
  validate_exchanges (exchange.call_id ∷ ids) (bytes_after bytes exchange) rest

unfoldable pub validate : MessageContextPayload → MessageRole → Outcome PayloadError (Unit {0})
validate (user_images images) role = do
  unless (not (is_user role) || is_empty images || ltb 8 (length images)) image_context
  validate_images images
validate (tool_exchanges exchanges) role = do
  unless (not (is_assistant role) || is_empty exchanges) tool_context
  validate_exchanges [] 0 exchanges
