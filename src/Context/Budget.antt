-- ===== src/Context/Budget.antt =====
-- What the system message and the history are charged stays within what is available to them.
use momo_core.Prelude.{
  ℕ, ◌+◌, ◌-◌, ◌≤◌, ◌<◌, List, [], ◌∷◌, sat_add, sat_add-le, Text, arith, usize_max,
}
use momo_core.Context.Tokens.{
  ChatInput, ContextSectionAudit, estimate_message_tokens_with, IsCounter,
}
use momo_core.Context.Sections.{Section, fit_system_sections}
use momo_core.Context.Fits.{fit_system_sections_bound}
use momo_core.Context.Prepare.{
  newest_reserve, system_part_of, system_part, shorten_newest, take_newest,
}

module _ (counter : Text → ℕ) (message_tokens : ChatInput → ℕ)
    (is_counter : IsCounter counter) where
  system_part_of-used :
      (content : Text) (audit : List ContextSectionAudit) (b : ℕ)
      → counter content ≤ b - 6
      → (system_part_of counter message_tokens (content, audit)).used ≤ b
  unfolding system_part_of estimate_message_tokens_with
  system_part_of-used [] audit b h = omega arith
  system_part_of-used (c ∷ s) audit b h =
      omega (arith, is_counter.positive c s, sat_add-le (counter (c ∷ s)) 6)

  -- The system message leaves room for the newest message, or for half of the limit.
  pub system_part-used :
      (sections : List Section) (limit : ℕ) (messages : List ChatInput)
      → (system_part counter message_tokens sections limit messages).used
        ≤ limit - newest_reserve counter message_tokens limit messages
  unfolding system_part
  system_part-used [] limit messages = omega arith
  system_part-used (s ∷ sections) limit messages =
      let b = limit - newest_reserve counter message_tokens limit messages in
      let fitted = fit_system_sections counter (s ∷ sections) b in
      system_part_of-used fitted.0 fitted.1 b
        (fit_system_sections_bound counter is_counter (s ∷ sections) b)

module _ (counter : Text → ℕ) (message_tokens : ChatInput → ℕ) where
  shorten_newest-tokens :
      (m : ChatInput) (available h : ℕ)
      → h ≤ available
      → (shorten_newest counter message_tokens m available h).tokens ≤ available
  unfolding shorten_newest sat_add
  shorten_newest-tokens m available h k = ground arith

  pub take_newest-tokens :
      (available : ℕ) (newest_first : List ChatInput) (h : ℕ) (retained : List ChatInput)
      → available < usize_max
      → h ≤ available
      → (take_newest counter message_tokens available newest_first h retained).tokens ≤ available
  unfolding take_newest sat_add
  take_newest-tokens available [] h retained small k = k
  take_newest-tokens available (m ∷ older) h retained small k = ground (
    arith,
    shorten_newest-tokens m available h,
    take_newest-tokens available older (h + message_tokens m) (m ∷ retained),
  )
