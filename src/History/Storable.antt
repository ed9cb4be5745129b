-- ===== src/History/Storable.antt =====
-- Which evidence `MessageContextPayload::validate` accepts.
use momo_core.Prelude.{
  ℕ, ◌+◌, ◌≤◌, ◌≡◌, ◌↔◌, refl, true, false, not, ◌||◌, List, [], ◌∷◌, Text, arith, is_empty,
  utf8_len, member, ltb, sat_add, length, All, ok, unless-passed,
}
use momo_core.Context.Tokens.{MessageRole, system, user, assistant}
use momo_core.History.Messages.{
  StoredImage, StoredToolExchange, MessageContextPayload, user_images, tool_exchanges,
}
use momo_core.History.Payload.{
  image_context, invalid_image_reference, tool_context, invalid_tool_exchange, is_user,
  is_assistant, bad_image, validate_images, bad_exchange, bytes_after, max_tool_bytes,
  validate_exchanges, validate,
}

abbrev pub exchange_bytes : StoredToolExchange → ℕ
exchange_bytes e = utf8_len e.arguments + utf8_len e.output + utf8_len e.call_id + utf8_len e.name

abbrev pub total_bytes : List StoredToolExchange → ℕ
total_bytes [] = 0
total_bytes (e ∷ rest) = exchange_bytes e + total_bytes rest

-- Each call has an identifier that is neither one of those given nor that of an earlier call.
abbrev pub NewIds : List Text → List StoredToolExchange → Type 0
NewIds ids [] = Unit
NewIds ids (e ∷ rest) = (member ids e.call_id ≡ false) × NewIds (e.call_id ∷ ids) rest

-- Up to eight images of a user's message, or calls of an assistant's with different identifiers and 2
-- MiB of text in all, each within its own limits.
abbrev pub IsStorable : MessageContextPayload → MessageRole → Type 0
IsStorable (user_images images) role =
    (role ≡ user)
    × (1 ≤ length images)
    × (length images ≤ 8)
    × All (λ image. bad_image image ≡ false) images
IsStorable (tool_exchanges exchanges) role =
    (role ≡ assistant)
    × (1 ≤ length exchanges)
    × All (λ e. bad_exchange e ≡ false) exchanges
    × NewIds [] exchanges
    × (total_bytes exchanges ≤ max_tool_bytes)

images-forth :
    (images : List StoredImage)
    → validate_images images ≡ ok tt
    → All (λ image. bad_image image ≡ false) images
unfolding validate_images
images-forth [] h = tt
images-forth (image ∷ rest) h =
    let (b, p) = unless-passed (bad_image image) invalid_image_reference _ h in
    (b, images-forth rest p)

images-back :
    (images : List StoredImage)
    → All (λ image. bad_image image ≡ false) images
    → validate_images images ≡ ok tt
unfolding validate_images
images-back [] h = refl
images-back (image ∷ rest) (b, h) = rw b (images-back rest h)

-- As long as the limit is kept, the sum of the bytes is not capped.
bytes_after_lem :
    (bytes : ℕ) (e : StoredToolExchange)
    → (ltb max_tool_bytes (bytes_after bytes e) ≡ false)
      ↔ (bytes + exchange_bytes e ≤ max_tool_bytes)
unfolding sat_add
bytes_after_lem bytes e = (λ h. ground (arith, h), λ h. ground (arith, h))

bytes_after-sum :
    (bytes : ℕ) (e : StoredToolExchange)
    → bytes + exchange_bytes e ≤ max_tool_bytes
    → bytes_after bytes e ≡ bytes + exchange_bytes e
unfolding sat_add
bytes_after-sum bytes e h = omega (arith, h)

exchanges-forth :
    (ids : List Text) (bytes : ℕ) (es : List StoredToolExchange)
    → bytes ≤ max_tool_bytes
    → validate_exchanges ids bytes es ≡ ok tt
    → All (λ e. bad_exchange e ≡ false) es
      × NewIds ids es
      × (bytes + total_bytes es ≤ max_tool_bytes)
unfolding validate_exchanges
exchanges-forth ids bytes [] small h = (tt, tt, omega arith)
exchanges-forth ids bytes (e ∷ rest) small h =
    let (b, p) =
      unless-passed
        (bad_exchange e || member ids e.call_id || ltb max_tool_bytes (bytes_after bytes e))
        invalid_tool_exchange _ h in
    let within = (bytes_after_lem bytes e).0 (ground (arith, b)) in
    let sum = bytes_after-sum bytes e within in
    let (good, new, bound) =
      exchanges-forth (e.call_id ∷ ids) (bytes_after bytes e) rest (omega (arith, sum, within)) p in
    ((ground (arith, b), good), (ground (arith, b), new), omega (arith, sum, bound))

exchanges-back :
    (ids : List Text) (bytes : ℕ) (es : List StoredToolExchange)
    → All (λ e. bad_exchange e ≡ false) es
    → NewIds ids es
    → bytes + total_bytes es ≤ max_tool_bytes
    → validate_exchanges ids bytes es ≡ ok tt
unfolding validate_exchanges
exchanges-back ids bytes [] good new bound = refl
exchanges-back ids bytes (e ∷ rest) (g, good) (n, new) bound =
    let within : bytes + exchange_bytes e ≤ max_tool_bytes = omega (arith, bound) in
    let sum = bytes_after-sum bytes e within in
    rw (g, n, (bytes_after_lem bytes e).1 within)
      (exchanges-back (e.call_id ∷ ids) (bytes_after bytes e) rest good new
        (omega (arith, sum, bound)))

is_user-user : (role : MessageRole) → is_user role ≡ true → role ≡ user
is_user-user user h = refl
is_user-user system h = absurd (ground (arith, h))
is_user-user assistant h = absurd (ground (arith, h))

is_assistant-assistant : (role : MessageRole) → is_assistant role ≡ true → role ≡ assistant
is_assistant-assistant assistant h = refl
is_assistant-assistant system h = absurd (ground (arith, h))
is_assistant-assistant user h = absurd (ground (arith, h))

is_empty-length : {A : Type 0} (xs : List A) → (is_empty xs ≡ false) ↔ (1 ≤ length xs)
is_empty-length [] = (λ h. absurd (ground (arith, h)), λ h. absurd (omega (arith, h)))
is_empty-length (x ∷ xs) = (λ h. omega arith, λ h. refl)

-- `validate` accepts exactly the evidence that may be stored with a message of the role: one to eight
-- images of a user, or tool calls of an assistant, at least one, with different identifiers and at
-- most 2 MiB together, where each image and each call keeps its own limits.
pub validate-IsStorable :
    (payload : MessageContextPayload) (role : MessageRole)
    → (validate payload role ≡ ok tt) ↔ IsStorable payload role
unfolding validate
validate-IsStorable (user_images images) role = (
  λ h.
      let (b, p) =
        unless-passed (not (is_user role) || is_empty images || ltb 8 (length images)) image_context
          _ h in
      (
        is_user-user role (ground (arith, b)),
        (is_empty-length images).0 (ground (arith, b)),
        ground (arith, b),
        images-forth images p,
      ),
  λ (r, l, u, g).
      let filled = (is_empty-length images).1 l in
      let few : ltb 8 (length images) ≡ false = ground (arith, u) in
      rw (r, filled, few) (images-back images g),
)
validate-IsStorable (tool_exchanges exchanges) role = (
  λ h.
      let (b, p) = unless-passed (not (is_assistant role) || is_empty exchanges) tool_context _ h in
      let (good, new, bound) = exchanges-forth [] 0 exchanges (omega arith) p in
      (
        is_assistant-assistant role (ground (arith, b)),
        (is_empty-length exchanges).0 (ground (arith, b)),
        good,
        new,
        omega (arith, bound),
      ),
  λ (r, l, g, n, u).
      let filled = (is_empty-length exchanges).1 l in
      rw (r, filled) (exchanges-back [] 0 exchanges g n (omega (arith, u))),
)
