-- ===== src/Context/Shown.antt =====
-- What may be shown of the history, and what makes it as much as fits.
use mathlib.Core.List.{reverse, reverse-cons}
use momo_core.Prelude.{
  ℕ, ◌<◌, ◌+◌, ◌-◌, ◌≤◌, ◌≡◌, refl, ap, ◌∙◌, sym, subst, ◌⊎◌, inl, inr, true, false, List, [], ◌∷◌,
  ◌++◌, ltb, is_empty, length, Text, arith, Bool-cases,
}
use momo_core.Context.Tokens.{ChatInput}
use momo_core.Context.Truncate.{truncate_message_content_with}
use momo_core.Context.Prepare.{shorten_newest}

-- What is shown of the kept messages: all of them, or a shortened copy of the only one.
abbrev pub shortened_to : (Text → ℕ) → ChatInput → ℕ → ChatInput
shortened_to counter m size = record m {
  content = (truncate_message_content_with counter m.content size).0;
}

abbrev pub IsShown : (Text → ℕ) → (ChatInput → ℕ) → ℕ → List ChatInput → List ChatInput → Type 0
IsShown counter message_tokens available kept shown =
    (shown ≡ kept)
    ⊎ ((m : ChatInput) × (kept ≡ m ∷ [])
        × (shown ≡ shortened_to counter m available ∷ [])
        × (available < message_tokens m)
        × (message_tokens (shortened_to counter m available) ≤ available))

-- What messages cost together.
abbrev pub cost : (ChatInput → ℕ) → List ChatInput → ℕ
cost tokens [] = 0
cost tokens (m ∷ rest) = tokens m + cost tokens rest

-- A message has no shortened copy that fits: nothing is left of its text, or the copy costs more.
abbrev pub IsUnshortened : (Text → ℕ) → (ChatInput → ℕ) → ℕ → ChatInput → Type 0
IsUnshortened counter message_tokens available m =
    (is_empty (shortened_to counter m available).content ≡ true)
    ⊎ (available < message_tokens (shortened_to counter m available))

-- Nothing is omitted, or the newest of the omitted messages does not fit in front of the kept ones,
-- and if there are none, it has no shortened copy that fits either.
abbrev pub IsFull : (Text → ℕ) → (ChatInput → ℕ) → ℕ → List ChatInput → List ChatInput → Type 0
IsFull counter message_tokens available omitted kept =
    (omitted ≡ [])
    ⊎ ((earlier : List ChatInput) × (m : ChatInput) × (omitted ≡ earlier ++ (m ∷ []))
        × (available < cost message_tokens (m ∷ kept))
        × ((is_empty kept ≡ false) ⊎ IsUnshortened counter message_tokens available m))

pub length-shown :
    (counter : Text → ℕ) (message_tokens : ChatInput → ℕ) (available : ℕ)
    (kept shown : List ChatInput)
    → IsShown counter message_tokens available kept shown
    → length shown ≡ length kept
length-shown counter message_tokens available kept shown (inl e) = ap length e
length-shown counter message_tokens available kept shown (inr (m, e, f, over, fits)) =
    ap length f ∙ sym (ap length e)

module _ (counter : Text → ℕ) (message_tokens : ChatInput → ℕ) where
  pub newest-IsFull :
      (available : ℕ) (older : List ChatInput) (m : ChatInput) (kept : List ChatInput)
      → available < message_tokens m + cost message_tokens kept
      → (is_empty kept ≡ false) ⊎ IsUnshortened counter message_tokens available m
      → IsFull counter message_tokens available (reverse (m ∷ older)) kept
  newest-IsFull available older m kept h k = inr (reverse older, m, reverse-cons m older, h, k)

  pub overfull :
      (available : ℕ) (older : List ChatInput) (m : ChatInput)
      → available < message_tokens m
      → IsFull counter message_tokens available (reverse older) (m ∷ [])
  overfull available [] m h = inl refl
  overfull available (n ∷ older) m h =
      newest-IsFull available older n (m ∷ []) (omega (arith, h)) (inl refl)

  -- What is retained of a newest message that does not fit: nothing, or the shortened copy.
  abbrev pub IsShortened : ChatInput → ℕ → List ChatInput → Type 0
  IsShortened m size retained =
      ((retained ≡ []) × IsUnshortened counter message_tokens size m)
      ⊎ ((retained ≡ shortened_to counter m size ∷ [])
          × (message_tokens (shortened_to counter m size) ≤ size))

  shorten_newest-IsShortened :
      (m : ChatInput) (available h : ℕ)
      → IsShortened m (available - h) (shorten_newest counter message_tokens m available h).retained
  unfolding shorten_newest
  shorten_newest-IsShortened m available h =
      let content = (truncate_message_content_with counter m.content (available - h)).0 in
      let shortened : ChatInput = record m { content = content } in
      elim (Bool-cases (is_empty content)) [
        | inl e ↦ inl (rw (e, shorten_newest) refl, inl e)
        | inr e ↦ elim (Bool-cases (ltb (available - h) (message_tokens shortened))) [
          | inl f ↦ inl (rw (e, f, shorten_newest) refl, inr (ground (arith, f)))
          | inr f ↦ inr (rw (e, f, shorten_newest) refl, ground (arith, f))
        ]
      ]

  pub newest-IsShortened :
      (m : ChatInput) (available : ℕ)
      → IsShortened m available (shorten_newest counter message_tokens m available 0).retained
  newest-IsShortened m available =
      let all : available - 0 ≡ available = omega arith in
      subst
        (λ size. IsShortened m size (shorten_newest counter message_tokens m available 0).retained)
        all (shorten_newest-IsShortened m available 0)
