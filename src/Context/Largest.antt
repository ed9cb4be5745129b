-- ===== src/Context/Largest.antt =====
-- Truncation keeps as much of a text as the budget allows.
use native.Mathlib.Nat.{sub-zero}
use momo_core.Prelude.{
  ℕ, zero, suc, ◌+◌, ◌-◌, ◌/◌, ◌≤◌, ◌<◌, ◌≡◌, refl, ◌⊎◌, inl, inr, false, some, [], ◌∷◌, ◌++◌,
  arith, leb, ltb, ◌==◌, if◌then◌else◌, Text, sat_add, usize_max, div_ceil, length, take, drop,
  Bool-cases,
}
use momo_core.Context.Tokens.{
  estimate_text_tokens, estimate_text_tokens-IsCounter, estimate_text_tokens_lem, ascii_count,
  other_count, ascii_count-append, other_count-append,
}
use momo_core.Context.Truncate.{candidate, search, truncate_message_content_with, marker}

module _ (counter : Text → ℕ) where
  -- What the search returns: a candidate, and where the cost of a candidate does not fall as more
  -- is kept, the one that keeps the most.
  pub record Best (characters : Text) (budget : ℕ) (best : Text) : Type 0 where
    pub keep : ℕ
    pub bounded : keep ≤ length characters
    pub is_candidate : best ≡ candidate characters keep
    pub fits : counter (candidate characters keep) ≤ budget
    pub largest :
        (j : ℕ) → keep < j → j ≤ length characters → budget < counter (candidate characters j)

  kept-Best :
      (characters : Text) (budget low high kept : ℕ)
      → kept ≤ length characters
      → counter (candidate characters kept) ≤ budget
      → (low ≡ kept + 1) ⊎ ((low ≡ 0) × (kept ≡ 0))
      → high < low
      → ((j : ℕ) → high < j → j ≤ length characters → budget < counter (candidate characters j))
      → Best characters budget (candidate characters kept)
  kept-Best characters budget low high kept kl fit start stop above = record {
    keep = kept;
    bounded = kl;
    is_candidate = refl;
    fits = fit;
    largest = λ j p q. above j (ground arith) q;
  }

  search-Best :
      (fuel : ℕ) (characters : Text) (budget low high kept : ℕ)
      → ((i j : ℕ) → i ≤ j → counter (candidate characters i) ≤ counter (candidate characters j))
      → high < low + fuel
      → high ≤ length characters
      → high < usize_max
      → kept ≤ length characters
      → counter (candidate characters kept) ≤ budget
      → (low ≡ kept + 1) ⊎ ((low ≡ 0) × (kept ≡ 0))
      → ((j : ℕ) → high < j → j ≤ length characters → budget < counter (candidate characters j))
      → (best : Text) × (search counter fuel characters budget low high (candidate characters kept)
          ≡ some best)
        × Best characters budget best
  unfolding search
  search-Best zero characters budget low high kept mono f hl hm kl fit start above =
      let stop : leb low high ≡ false = ground arith in
      (
        candidate characters kept,
        rw (stop, search) refl,
        kept-Best characters budget low high kept kl fit start (omega arith) above,
      )
  search-Best (suc fuel) characters budget low high kept mono f hl hm kl fit start above =
      let keep = low + (high - low) / 2 in
      elim (Bool-cases (leb low high)) [
        | inr e ↦ (
          candidate characters kept,
          rw (e, search) refl,
          kept-Best characters budget low high kept kl fit start (ground arith) above,
        )
        | inl e ↦ elim (Bool-cases (leb (counter (candidate characters keep)) budget)) [
          | inl g ↦
              let le : low ≤ high = ground arith in
              let next : sat_add keep 1 ≡ keep + 1 = unfold sat_add in omega arith in
              let (best, q, b) =
                search-Best fuel characters budget (sat_add keep 1) high keep mono
                  (omega (arith, next)) hl hm (omega arith) (ground arith) (inl next) above in
              (best, rw (e, g, search) q, b)
          | inr g ↦
              let le : low ≤ high = ground arith in
              let over : (j : ℕ) → keep ≤ j → budget < counter (candidate characters j) =
                λ j p. ground (arith, mono keep j p) in
              elim (Bool-cases (keep == 0)) [
                | inl z ↦ absurd (ground (arith, over kept))
                | inr z ↦
                    let (best, q, b) =
                      search-Best fuel characters budget low (keep - 1) kept mono (ground arith)
                        (omega arith) (omega arith) kl fit start (λ j p q. over j (ground arith)) in
                    (best, rw (e, g, z, search) q, b)
              ]
        ]
      ]

drop-length : (s : Text) → drop (length s) s ≡ []
drop-length [] = refl
drop-length (c ∷ s) = drop-length s

-- The tail of a candidate without its test.
candidate_lem :
    (s : Text) (k : ℕ)
    → candidate s k ≡ take (div_ceil k 2) s ++ (marker ++ drop (length s - k / 2) s)
unfolding candidate
candidate_lem s k = elim (Bool-cases (ltb 0 (k / 2))) [
  | inl e ↦ rw e
  | inr e ↦ let z : k / 2 ≡ 0 = ground arith in rw (e, z, sub-zero, drop-length s)
]

-- A count of the characters of some kind grows with a prefix and with a suffix.
module _ (count : Text → ℕ) (step : ℕ → ℕ) (nil : count [] ≡ 0)
    (cons : (c : ℕ) (s : Text) → count (c ∷ s) ≡ step c + count s)
    (append : (s t : Text) → count (s ++ t) ≡ count s + count t) where
  count-take : (i j : ℕ) (s : Text) → i ≤ j → count (take i s) ≤ count (take j s)
  count-take zero j s h = omega (arith, nil)
  count-take (suc i) zero s h = absurd (omega arith)
  count-take (suc i) (suc j) [] h = omega arith
  count-take (suc i) (suc j) (c ∷ s) h =
      omega (arith, cons c (take i s), cons c (take j s), count-take i j s (omega arith))

  count-drop : (i j : ℕ) (s : Text) → i ≤ j → count (drop j s) ≤ count (drop i s)
  count-drop zero zero s h = omega arith
  count-drop zero (suc j) [] h = omega arith
  count-drop zero (suc j) (c ∷ s) h = omega (arith, cons c s, count-drop zero j s (omega arith))
  count-drop (suc i) zero s h = absurd (omega arith)
  count-drop (suc i) (suc j) [] h = omega arith
  count-drop (suc i) (suc j) (c ∷ s) h = count-drop i j s (omega arith)

  count-candidate : (s : Text) (i j : ℕ) → i ≤ j → count (candidate s i) ≤ count (candidate s j)
  count-candidate s i j h =
      rw (candidate_lem s i, candidate_lem s j)
        (omega (
          arith,
          append (take (div_ceil i 2) s) (marker ++ drop (length s - i / 2) s),
          append (take (div_ceil j 2) s) (marker ++ drop (length s - j / 2) s),
          append marker (drop (length s - i / 2) s),
          append marker (drop (length s - j / 2) s),
          count-take (div_ceil i 2) (div_ceil j 2) s (unfold div_ceil in ground arith),
          count-drop (length s - j / 2) (length s - i / 2) s (omega arith),
        ))

-- The conservative estimate does not fall as a candidate keeps more.
estimate-candidate :
    (s : Text) (i j : ℕ)
    → i ≤ j
    → estimate_text_tokens (candidate s i) ≤ estimate_text_tokens (candidate s j)
unfolding ascii_count other_count
estimate-candidate s i j h = omega (
  arith,
  estimate_text_tokens_lem (candidate s i),
  estimate_text_tokens_lem (candidate s j),
  count-candidate ascii_count (λ c. if ltb c 128 then 1 else 0) refl (λ c s. refl)
      ascii_count-append s i j h,
  count-candidate other_count (λ c. if ltb c 128 then 0 else 1) refl (λ c s. refl)
      other_count-append s i j h,
)

-- A text that does not fit its budget, while the marker does, is replaced by the candidate that
-- keeps the most characters of its head and tail among those that the budget allows.
pub truncate-Best :
    (value : Text) (message_budget : ℕ)
    → length value < usize_max
    → 6 < message_budget
    → message_budget - 6 < estimate_text_tokens value
    → estimate_text_tokens marker ≤ message_budget - 6
    → Best estimate_text_tokens value
        (message_budget - 6)
        (truncate_message_content_with estimate_text_tokens value message_budget).0
unfolding truncate_message_content_with candidate div_ceil
truncate-Best [] b small h over m = absurd (omega (arith, estimate_text_tokens-IsCounter.empty))
truncate-Best (c ∷ s) b small h over m =
    let e : leb b 6 ≡ false = ground arith in
    let f : leb (estimate_text_tokens (c ∷ s)) (b - 6) ≡ false = ground arith in
    let g : ltb (b - 6) (estimate_text_tokens marker) ≡ false = ground arith in
    let (best, q, is_best) =
      search-Best estimate_text_tokens (length (c ∷ s) + 1) (c ∷ s) (b - 6) 0 (length (c ∷ s)) 0
        (estimate-candidate (c ∷ s)) (omega arith) (omega arith) small (omega arith) m
        (inr (refl, refl)) (λ j p q. absurd (omega arith)) in
    rw (e, f, g, q, truncate_message_content_with) is_best
