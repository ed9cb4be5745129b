-- ===== src/Context/Recency.antt =====
-- Which messages the prepared prompt holds: as long a run of the newest ones as fits.
use mathlib.Core.List.{reverse, append-nil, append_assoc, reverse-cons, reverse-append}
use momo_core.Prelude.{
  ℕ, ◌+◌, ◌-◌, ◌≤◌, ◌≡◌, refl, ap, ◌∙◌, sym, subst, inl, inr, false, List, [], ◌∷◌, ◌++◌, ltb,
  sat_add, div_ceil, Text, arith, usize_max, Bool-cases,
}
use momo_core.Context.Tokens.{ChatInput, ContextRequest, IsCounter}
use momo_core.Context.Sections.{system_sections}
use momo_core.Context.Budget.{system_part-used}
use momo_core.Context.Shown.{cost, IsShown, IsFull, newest-IsFull, overfull, newest-IsShortened}
use momo_core.Context.Prepare.{
  input_limit, last_tokens, system_part, take_newest, prepare_context_with_counter,
}

-- The messages fall into omitted ones and the kept ones behind them.
pub record Recent (counter : Text → ℕ) (message_tokens : ChatInput → ℕ) (available : ℕ)
    (messages shown : List ChatInput) : Type 0 where
  pub omitted : List ChatInput
  pub kept : List ChatInput
  pub split : messages ≡ omitted ++ kept
  pub full : IsFull counter message_tokens available omitted kept
  pub as_shown : IsShown counter message_tokens available kept shown

module _ (counter : Text → ℕ) (message_tokens : ChatInput → ℕ) where
  -- Once something is retained, the loop only puts whole older messages in front of it, until the
  -- next one does not fit.
  take_newest-more :
      (available : ℕ) (newest_first : List ChatInput) (h : ℕ) (r : ChatInput) (rs : List ChatInput)
      → h ≡ cost message_tokens (r ∷ rs)
      → (omitted : List ChatInput) × (more : List ChatInput) × ((take_newest counter message_tokens
            available newest_first h
            (r ∷ rs)).retained
          ≡ more ++ (r ∷ rs))
        × (reverse newest_first ≡ omitted ++ more)
        × IsFull counter message_tokens available omitted (more ++ (r ∷ rs))
  unfolding take_newest
  take_newest-more available [] h r rs paid = ([], [], refl, refl, inl refl)
  take_newest-more available (m ∷ older) h r rs paid =
      elim (Bool-cases (ltb available (sat_add h (message_tokens m)))) [
        | inl e ↦ (
          reverse (m ∷ older),
          [],
          rw (e, take_newest) refl,
          sym (append-nil (reverse (m ∷ older))),
          newest-IsFull counter message_tokens available older m (r ∷ rs)
              (unfold sat_add in ground (arith, e, paid)) (inl refl),
        )
        | inr e ↦
            let (omitted, more, p, q, full) =
              take_newest-more available older (h + message_tokens m) m (r ∷ rs)
                (omega (arith, paid)) in
            let joined = sym (append_assoc more (m ∷ []) (r ∷ rs)) in
            (
              omitted,
              more ++ (m ∷ []),
              rw (e, take_newest) (p ∙ joined),
              reverse-cons m older ∙ ap (λ l. l ++ (m ∷ [])) q ∙ append_assoc omitted more (m ∷ []),
              subst (IsFull counter message_tokens available omitted) joined full,
            )
      ]

  pub take_newest-Recent :
      (available : ℕ) (newest_first : List ChatInput)
      → Recent counter message_tokens available
          (reverse newest_first)
          (take_newest counter message_tokens available newest_first 0 []).retained
  unfolding take_newest
  take_newest-Recent available [] = record {
    omitted = [];
    kept = [];
    split = refl;
    full = inl refl;
    as_shown = inl refl;
  }
  take_newest-Recent available (m ∷ older) =
      elim (Bool-cases (ltb available (sat_add 0 (message_tokens m)))) [
        | inl e ↦
            rw (e, take_newest)
              (elim (newest-IsShortened counter message_tokens m available) [
                | inl (f, unshortened) ↦ rw f (record {
                  omitted = reverse (m ∷ older);
                  kept = [];
                  split = sym (append-nil (reverse (m ∷ older)));
                  full =
                      newest-IsFull counter message_tokens available older m []
                        (unfold sat_add in ground (arith, e)) (inr unshortened);
                  as_shown = inl refl;
                })
                | inr (f, small) ↦ rw f (record {
                  omitted = reverse older;
                  kept = m ∷ [];
                  split = reverse-cons m older;
                  full =
                      overfull counter message_tokens available older m
                        (unfold sat_add in ground (arith, e));
                  as_shown =
                      inr
                        (m, refl, refl, unfold sat_add in ground (arith, e), omega (arith, small));
                })
              ])
        | inr e ↦
            let (omitted, more, p, q, full) =
              take_newest-more available older (0 + message_tokens m) m [] (omega arith) in
            rw (e, take_newest, p)
              (record {
                omitted = omitted;
                kept = more ++ (m ∷ []);
                split =
                    reverse-cons m older
                    ∙ ap (λ l. l ++ (m ∷ [])) q
                    ∙ append_assoc omitted more (m ∷ []);
                full = full;
                as_shown = inl refl;
              })
      ]

module _ (counter : Text → ℕ) (message_tokens : ChatInput → ℕ) where
  last_tokens-append :
      (older : List ChatInput) (m : ChatInput)
      → last_tokens counter message_tokens (older ++ (m ∷ [])) ≡ message_tokens m
  unfolding last_tokens
  last_tokens-append [] m = refl
  last_tokens-append (n ∷ []) m = refl
  last_tokens-append (n ∷ o ∷ older) m = last_tokens-append (o ∷ older) m

  -- A first message that fits is retained, and stays the last of those shown.
  take_newest-first :
      (available : ℕ) (older : List ChatInput) (m : ChatInput)
      → message_tokens m ≤ available
      → (before : List ChatInput) × ((take_newest counter message_tokens available
            (m ∷ older)
            0
            []).retained
          ≡ before ++ (m ∷ []))
  unfolding take_newest
  take_newest-first available older m h =
      let (omitted, more, p, q, full) =
        take_newest-more counter message_tokens available older (0 + message_tokens m) m []
          (omega arith) in
      let fits : ltb available (sat_add 0 (message_tokens m)) ≡ false =
        unfold sat_add in ground arith in
      (more, rw (fits, take_newest) p)

module _ (counter : Text → ℕ) (message_tokens : ChatInput → ℕ) (request : ContextRequest) where
  -- With a counter that charges for every nonempty text and a context window that fits 64 bits, a
  -- newest message that costs at most half of the input limit, rounded up, is shown whole at the
  -- end of the prompt, however large the system sections are.
  pub newest-whole :
      (older : List ChatInput) (newest : ChatInput)
      → IsCounter counter
      → request.budget.context_window ≤ usize_max
      → request.messages ≡ older ++ (newest ∷ [])
      → message_tokens newest ≤ div_ceil (input_limit request.budget) 2
      → (before : List ChatInput) × ((prepare_context_with_counter counter message_tokens
            request).messages
          ≡ before ++ (newest ∷ []))
  unfolding prepare_context_with_counter
  newest-whole older newest is_counter window e h =
      let limit = input_limit request.budget in
      let sys =
        system_part counter message_tokens (system_sections request.sections) limit
          request.messages in
      let room : message_tokens newest ≤ limit - sys.used =
        unfold div_ceil in
        ground (
          arith,
          ap (last_tokens counter message_tokens) e,
          last_tokens-append counter message_tokens older newest,
          system_part-used counter message_tokens is_counter (system_sections request.sections)
              limit request.messages,
        ) in
      let (before, p) =
        take_newest-first counter message_tokens (limit - sys.used) (reverse older) newest room in
      let turned : reverse request.messages ≡ newest ∷ reverse older =
        ap reverse e ∙ reverse-append older (newest ∷ []) in
      (
        sys.selected ++ before,
        ap
              (λ l.
                sys.selected
                ++ (take_newest counter message_tokens (limit - sys.used) l 0 []).retained)
              turned
            ∙ ap (λ l. sys.selected ++ l) p
            ∙ sym (append_assoc sys.selected before (newest ∷ [])),
      )
