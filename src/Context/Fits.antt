-- ===== src/Context/Fits.antt =====
-- The system message stays within its token budget.
use momo_core.Prelude.{
  ℕ, zero, suc, ◌+◌, ◌-◌, ◌≤◌, ◌<◌, ◌≡◌, refl, inl, inr, false, none, some, List, [], ◌∷◌, arith,
  ltb, Text, text_eq_refl, All, length, Bool-cases, Option-cases,
}
use momo_core.Context.Tokens.{IsCounter}
use momo_core.Context.Sections.{
  Section, nonempty, join_texts, join, drop_last, shrink_last, total_length, shrink_rounds,
  shrink_to_fit, fit_texts, fit_system_sections, texts, overflows, audit_each,
}

length-drop_last : (c : ℕ) (s : Text) → length (drop_last (c ∷ s)) + 1 ≡ length (c ∷ s)
unfolding drop_last
length-drop_last c [] = refl
length-drop_last c (d ∷ s) = omega (arith, length-drop_last d s)

-- With nothing left to remove, the joined text is empty.
shrink_last-none : (kept : List Text) → shrink_last kept ≡ none → nonempty kept ≡ []
unfolding shrink_last nonempty
shrink_last-none [] h = refl
shrink_last-none (t ∷ rest) h = ground (arith, shrink_last-none rest)

-- Otherwise something is removed.
shrink_last-some :
    (kept kept' : List Text)
    → shrink_last kept ≡ some kept'
    → total_length kept' < total_length kept
unfolding shrink_last total_length
shrink_last-some [] kept' h = cc
shrink_last-some ([] ∷ rest) kept' h = elim (Option-cases (shrink_last rest)) [
  | inl e ↦ absurd (ground arith)
  | inr (rest', e) ↦ ground (arith, shrink_last-some rest rest' e)
]
shrink_last-some ((c ∷ s) ∷ rest) kept' h = elim (Option-cases (shrink_last rest)) [
  | inl e ↦ ground (arith, length-drop_last c s)
  | inr (rest', e) ↦ ground (arith, shrink_last-some rest rest' e)
]

-- Texts that are passed on as they are have no truncation in the audit.
untouched :
    (counter : Text → ℕ) (sections : List Section)
    → All (λ a. a.truncated ≡ false) (audit_each counter sections (texts counter sections))
unfolding audit_each
untouched counter [] = tt
untouched counter (s ∷ sections) = (rw (text_eq_refl s.text) refl, untouched counter sections)

module _ (counter : Text → ℕ) (is_counter : IsCounter counter) where
  empty-fits : (budget : ℕ) (kept : List Text) → nonempty kept ≡ [] → counter (join kept) ≤ budget
  unfolding join
  empty-fits budget kept e = rw (e, join_texts, is_counter.empty) (omega arith)

  total_zero : (kept : List Text) → total_length kept ≤ 0 → nonempty kept ≡ []
  unfolding total_length nonempty
  total_zero [] h = refl
  total_zero ([] ∷ rest) h = total_zero rest (omega arith)
  total_zero ((c ∷ s) ∷ rest) h = absurd (omega arith)

  shrink_rounds-fits :
      (rounds budget : ℕ) (kept : List Text)
      → total_length kept ≤ rounds
      → counter (join (shrink_rounds counter rounds budget kept)) ≤ budget
  unfolding shrink_rounds
  shrink_rounds-fits zero budget kept h = empty-fits budget kept (total_zero kept h)
  shrink_rounds-fits (suc rounds) budget kept h =
      elim (Bool-cases (ltb budget (counter (join kept)))) [
        | inr e ↦ rw (e, shrink_rounds) (ground arith)
        | inl e ↦ elim (Option-cases (shrink_last kept)) [
          | inl f ↦ rw (e, f, shrink_rounds) (empty-fits budget kept (shrink_last-none kept f))
          | inr (kept', f) ↦
              rw (e, f, shrink_rounds)
                (shrink_rounds-fits rounds budget kept'
                  (omega (arith, shrink_last-some kept kept' f)))
        ]
      ]

  shrink_to_fit-fits :
      (budget : ℕ) (kept : List Text) → counter (join (shrink_to_fit counter budget kept)) ≤ budget
  unfolding shrink_to_fit
  shrink_to_fit-fits budget kept = shrink_rounds-fits (total_length kept) budget kept (omega arith)

  fit_texts-fits :
      (sections : List Section) (b : ℕ) → counter (join (fit_texts counter sections b)) ≤ b - 6
  unfolding fit_texts
  fit_texts-fits sections b = elim (Bool-cases (overflows counter sections b)) [
    | inl e ↦ rw (e, fit_texts) (shrink_to_fit-fits (b - 6) _)
    | inr e ↦ rw (e, fit_texts) (unfold overflows in ground arith)
  ]

  -- Whatever the sections and the budget, the system text costs at most the budget less the six
  -- tokens of a message's overhead; in particular it is empty where the budget is six or less.
  pub fit_system_sections_bound :
      (sections : List Section) (message_budget : ℕ)
      → counter (fit_system_sections counter sections message_budget).0 ≤ message_budget - 6
  unfolding fit_system_sections
  fit_system_sections_bound sections message_budget = fit_texts-fits sections message_budget

-- Sections that fit the budget together are passed on whole, and no section's audit entry is
-- marked as truncated.
pub fit_system_sections_whole :
    (counter : Text → ℕ) (sections : List Section) (message_budget : ℕ)
    → 6 < message_budget
    → counter (join (texts counter sections)) ≤ message_budget - 6
    → ((fit_system_sections counter sections message_budget).0 ≡ join (texts counter sections))
      × All (λ a. a.truncated ≡ false) (fit_system_sections counter sections message_budget).1
unfolding fit_system_sections fit_texts overflows
fit_system_sections_whole counter sections message_budget h k =
    let e : overflows counter sections message_budget ≡ false = ground arith in
    rw (e, fit_texts) (refl, untouched counter sections)
