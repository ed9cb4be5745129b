-- ===== src/Lifecycle/Retention.antt =====
-- Which memories a turn leaves alone.
use momo_core.Prelude.{
  ℕ, ◌-◌, ◌≤◌, ◌≡◌, ◌≢◌, refl, ap, ◌∙◌, subst, Bool, true, false, ◌&&◌, ◌⊎◌, inl, inr, some, List,
  [], ◌∷◌, Text, text_eq, arith, lookup, Bool-cases, Option-cases, All, text_eq_iff,
}
use momo_core.Governance.Settings.{Floating, LifecycleSettings}
use momo_core.Lifecycle.Ledger.{
  ContextClock, current, each_clock, all_clocks, aged, rested, rested_since, decayed_now,
}
use momo_core.Lifecycle.Aging.{Weights, MemoryDocument, kept, decays, forgets, age}

pub all_clocks-lookup :
    (test : Text → ContextClock → Bool) (clocks : List (Text × ContextClock)) (key : Text)
    (clock : ContextClock)
    → all_clocks test clocks ≡ true
    → lookup clocks key ≡ some clock
    → test key clock ≡ true
unfolding all_clocks lookup
all_clocks-lookup test [] key clock h e = absurd (ground (arith, e))
all_clocks-lookup test ((k, c) ∷ rest) key clock h e = elim (Bool-cases (text_eq k key)) [
  | inr t ↦ all_clocks-lookup test rest key clock (ground (arith, h)) (rw (t, lookup) at e)
  | inl t ↦
      let same : k ≡ key = (text_eq_iff k key).0 t in
      let found : c ≡ clock = ground (arith, t, e) in
      let here : test k c ≡ true = ground (arith, h) in
      subst (λ x. test x clock ≡ true) same (subst (λ x. test k x ≡ true) found here)
]

pub lookup-each_clock :
    (f : Text → ContextClock → ContextClock) (clocks : List (Text × ContextClock)) (key : Text)
    (clock : ContextClock)
    → lookup clocks key ≡ some clock
    → lookup (each_clock f clocks) key ≡ some (f key clock)
unfolding lookup
lookup-each_clock f [] key clock e = absurd (ground (arith, e))
lookup-each_clock f ((k, c) ∷ rest) key clock e = elim (Bool-cases (text_eq k key)) [
  | inr t ↦ rw (t, lookup) (lookup-each_clock f rest key clock (rw (t, lookup) at e))
  | inl t ↦
      let same : k ≡ key = (text_eq_iff k key).0 t in
      let found : c ≡ clock = ground (arith, t, e) in
      rw (t, lookup) (ap some (ap (λ x. f x c) same ∙ ap (f key) found))
]

-- Every clock of the record says that enough turns have passed.
abbrev pub IsAged : ℕ → List (Text × ℕ) → List (Text × ContextClock) → Type 0
IsAged decay_after counters clocks =
    All
      (λ entry.
        (decay_after ≤ current counters entry.0 - entry.1.last_hit)
        × (decay_after ≤ current counters entry.0 - entry.1.last_decay))
      clocks

-- Every clock of the record says that it has been archived for long enough.
abbrev pub IsRested : ℕ → List (Text × ℕ) → List (Text × ContextClock) → Type 0
IsRested forget_after counters clocks =
    All
      (λ entry.
        (start : ℕ) × (entry.1.archived_at ≡ some start)
        × (forget_after ≤ current counters entry.0 - start))
      clocks

all_clocks-IsAged :
    (n : ℕ) (counters : List (Text × ℕ)) (clocks : List (Text × ContextClock))
    → all_clocks (aged counters n) clocks ≡ true
    → IsAged n counters clocks
unfolding all_clocks aged
all_clocks-IsAged n counters [] h = tt
all_clocks-IsAged n counters ((k, c) ∷ rest) h =
    ((ground (arith, h), ground (arith, h)), all_clocks-IsAged n counters rest (ground (arith, h)))

all_clocks-IsRested :
    (n : ℕ) (counters : List (Text × ℕ)) (clocks : List (Text × ContextClock))
    → all_clocks (rested counters n) clocks ≡ true
    → IsRested n counters clocks
unfolding all_clocks rested
all_clocks-IsRested n counters [] h = tt
all_clocks-IsRested n counters ((k, c) ∷ rest) h = (
  elim (Option-cases c.archived_at) [
    | inl e ↦ absurd (ground (arith, h, rw e at h))
    | inr (start, e) ↦ (start, e, ground (arith, h, e))
  ],
  all_clocks-IsRested n counters rest (ground (arith, h)),
)

all_clocks-decayed_now :
    (n : ℕ) (counters : List (Text × ℕ)) (clocks : List (Text × ContextClock))
    → all_clocks (rested counters n) (each_clock (decayed_now counters) clocks)
      ≡ all_clocks (rested counters n) clocks
unfolding all_clocks rested
all_clocks-decayed_now n counters [] = refl
all_clocks-decayed_now n counters ((k, c) ∷ rest) =
    ap (λ b. rested_since c.archived_at (current counters k) n && b)
      (all_clocks-decayed_now n counters rest)

module _ {float : Floating} (weights : Weights float) (fingerprint_of : MemoryDocument float → Text)
    (settings : LifecycleSettings float) (counters : List (Text × ℕ)) (now : ℕ)
    (target_exists archived protected : Bool) (doc : MemoryDocument float)
    (clocks : List (Text × ContextClock)) where
  pub age-kept :
      decays weights fingerprint_of settings counters protected clocks ≡ false
      → forgets weights fingerprint_of settings counters archived protected doc clocks ≡ false
      → age weights fingerprint_of settings counters now target_exists archived protected doc clocks
        ≡ (kept, doc, clocks)
  unfolding age
  age-kept d f = elim (Bool-cases archived) [
    | inl a ↦ rw (d, f, a) refl
    | inr a ↦ rw (d, f, a) refl
  ]

  pub age-reason :
      (age weights fingerprint_of settings counters now target_exists archived protected doc
          clocks).0
        ≢ kept
      → (protected ≡ false)
        × (IsAged settings.decay_after_turns counters clocks
            ⊎ ((archived ≡ true)
                × (settings.auto_forget ≡ true)
                × IsRested settings.forget_after_turns counters clocks))
  unfolding decays forgets
  age-reason changed =
      elim (Bool-cases (decays weights fingerprint_of settings counters protected clocks)) [
        | inl d ↦ (
          ground (arith, d),
          inl (all_clocks-IsAged settings.decay_after_turns counters clocks (ground (arith, d))),
        )
        | inr d ↦
            elim (Bool-cases
              (forgets weights fingerprint_of settings counters archived protected doc clocks)) [
                | inr f ↦ absurd (changed (ap (λ x. x.0) (age-kept d f)))
                | inl f ↦ (
                  ground (arith, f),
                  inr (
                    ground (arith, f),
                    ground (arith, f),
                    all_clocks-IsRested settings.forget_after_turns counters clocks
                        (ground (arith, f)),
                  ),
                )
              ]
      ]
