-- ===== src/Context/Quotas.antt =====
-- context.rs, the water-filling loop of `fit_system_sections`: the token budget of the system
-- message is dealt out to the sections in weighted rounds.
use momo_core.Prelude.{
  ℕ, zero, suc, ◌+◌, ◌-◌, ◌≤◌, ◌<◌, ◌≡◌, refl, ◌∙◌, ◌⊎◌, inl, inr, Bool, true, false, Option, none,
  some, ◌||◌, List, [], ◌∷◌, arith, ltb, if◌then◌else◌, min, All, Bool-cases,
}

-- One position of the vectors `costs` and `quotas`, with the section's weight.
pub record Share : Type 0 where
  pub weight : ℕ
  pub cost : ℕ
  pub quota : ℕ

-- The variables of one round.
pub record Round : Type 0 where
  pub remaining : ℕ
  pub shares : List Share
  pub advanced : Bool

-- `for (index, (_, _, weight)) in sections.iter().enumerate()`
unfoldable pub deal : ℕ → List Share → Round
deal remaining [] = record { remaining = remaining; shares = []; advanced = false }
deal remaining (s ∷ rest) =
    let grant = min (min s.weight (s.cost - s.quota)) remaining in
    let later = deal (remaining - grant) rest in
    record later {
      shares = record s { quota = s.quota + grant } ∷ later.shares;
      advanced = ltb 0 grant || later.advanced;
    }

-- `while remaining > 0`, with a round of fuel for each turn; none where the fuel runs out.
unfoldable pub fill_rounds : ℕ → ℕ → List Share → Option (List Share)
fill_rounds zero remaining shares = if ltb 0 remaining then none else some shares
fill_rounds (suc rounds) remaining shares =
    let dealt = deal remaining shares in
    let again = fill_rounds rounds dealt.remaining dealt.shares in
    if ltb 0 remaining then if dealt.advanced then again else some dealt.shares else some shares

-- Every round but the last one takes something from `remaining`.
unfoldable pub fill : ℕ → List Share → List Share
unfolding fill_rounds deal
fill remaining shares = elim (fill_rounds remaining remaining shares) [
  | none ↦ shares
  | some filled ↦ filled
]

pub quotas : List Share → ℕ
quotas [] = 0
quotas (s ∷ rest) = s.quota + quotas rest

-- No section is given more than it costs, and every section has a weight.
abbrev pub IsWithin : Share → Type 0
IsWithin s = s.quota ≤ s.cost

abbrev pub IsWeighted : Share → Type 0
IsWeighted s = 0 < s.weight

abbrev pub IsFilled : Share → Type 0
IsFilled s = s.quota ≡ s.cost

deal-quotas :
    (r : ℕ) (ss : List Share) → (deal r ss).remaining + quotas (deal r ss).shares ≡ r + quotas ss
unfolding deal quotas
deal-quotas r [] = refl
deal-quotas r (s ∷ rest) =
    omega (arith, deal-quotas (r - min (min s.weight (s.cost - s.quota)) r) rest)

deal-IsWithin : (r : ℕ) (ss : List Share) → All IsWithin ss → All IsWithin (deal r ss).shares
unfolding deal
deal-IsWithin r [] h = tt
deal-IsWithin r (s ∷ rest) h =
    (omega arith, deal-IsWithin (r - min (min s.weight (s.cost - s.quota)) r) rest h.1)

deal-IsWeighted : (r : ℕ) (ss : List Share) → All IsWeighted ss → All IsWeighted (deal r ss).shares
unfolding deal
deal-IsWeighted r [] h = tt
deal-IsWeighted r (s ∷ rest) h =
    (h.0, deal-IsWeighted (r - min (min s.weight (s.cost - s.quota)) r) rest h.1)

-- A round that advances leaves less to deal out.
deal-advanced : (r : ℕ) (ss : List Share) → (deal r ss).advanced ≡ true → (deal r ss).remaining < r
unfolding deal
deal-advanced r [] h = absurd (ground arith)
deal-advanced r (s ∷ rest) h = ground (
  arith,
  deal-advanced (r - min (min s.weight (s.cost - s.quota)) r) rest,
  deal-le (r - min (min s.weight (s.cost - s.quota)) r) rest,
)
  where
    deal-le : (r : ℕ) (ss : List Share) → (deal r ss).remaining ≤ r
    deal-le r [] = omega arith
    deal-le r (s ∷ rest) = omega (arith, deal-le (r - min (min s.weight (s.cost - s.quota)) r) rest)

-- A round that does not advance found every section filled.
deal_stuck :
    (r : ℕ) (ss : List Share)
    → 0 < r
    → All IsWithin ss
    → All IsWeighted ss
    → (deal r ss).advanced ≡ false
    → All IsFilled (deal r ss).shares
unfolding deal
deal_stuck r [] h w p e = tt
deal_stuck r (s ∷ rest) h w p e =
    let grant = min (min s.weight (s.cost - s.quota)) r in
    let idle : grant ≡ 0 = ground arith in
    (ground arith, deal_stuck (r - grant) rest (omega arith) w.1 p.1 (ground arith))

-- What the whole loop deals out.
pub record Filled (r : ℕ) (before after : List Share) : Type 0 where
  pub within : All IsWithin after
  pub bounded : quotas after ≤ r + quotas before
  pub spent : (quotas after ≡ r + quotas before) ⊎ All IsFilled after

fill_rounds-Filled :
    (rounds r : ℕ) (ss : List Share)
    → r ≤ rounds
    → All IsWithin ss
    → All IsWeighted ss
    → (after : List Share) × (fill_rounds rounds r ss ≡ some after) × Filled r ss after
unfolding fill_rounds
fill_rounds-Filled zero r ss h w p =
    let none_left : ltb 0 r ≡ false = ground arith in
    (
      ss,
      rw (none_left, fill_rounds) refl,
      record { within = w; bounded = omega arith; spent = inl (omega arith) },
    )
fill_rounds-Filled (suc rounds) r ss h w p = elim (Bool-cases (ltb 0 r)) [
  | inr none_left ↦ (
    ss,
    rw (none_left, fill_rounds) refl,
    record { within = w; bounded = omega arith; spent = inl (ground arith) },
  )
  | inl some_left ↦ elim (Bool-cases (deal r ss).advanced) [
    | inl e ↦
        let (after, q, ih) =
          fill_rounds-Filled rounds (deal r ss).remaining (deal r ss).shares
            (omega (arith, deal-advanced r ss e)) (deal-IsWithin r ss w) (deal-IsWeighted r ss p) in
        (
          after,
          rw (some_left, e, fill_rounds) q,
          record {
            within = ih.within;
            bounded = omega (arith, ih.bounded, deal-quotas r ss);
            spent = spent_again (deal-quotas r ss) ih.spent;
          },
        )
    | inr e ↦ (
      (deal r ss).shares,
      rw (some_left, e, fill_rounds) refl,
      record {
        within = deal-IsWithin r ss w;
        bounded = omega (arith, deal-quotas r ss);
        spent = inr (deal_stuck r ss (ground arith) w p e);
      },
    )
  ]
]
  where
    spent_again : {q n m : ℕ} {F : Type 0} → n ≡ m → (q ≡ n) ⊎ F → (q ≡ m) ⊎ F
    spent_again e (inl k) = inl (k ∙ e)
    spent_again e (inr f) = inr f

-- With no section given more than it costs and a positive weight for each, the loop ends by its own
-- tests within `remaining` rounds: still no section is given more than it costs, the sections
-- together are given no more than `remaining` beyond what they had, and either all of that is dealt
-- out or every section has all that it costs.
pub fill-Filled :
    (remaining : ℕ) (shares : List Share)
    → All IsWithin shares
    → All IsWeighted shares
    → (fill_rounds remaining remaining shares ≡ some (fill remaining shares))
      × Filled remaining shares (fill remaining shares)
unfolding fill
fill-Filled remaining shares w p =
    let (after, q, filled) = fill_rounds-Filled remaining remaining shares (omega arith) w p in
    rw (q, fill) (refl, filled)
