-- ===== src/Lifecycle/Spacing.antt =====
-- How long after a decay a memory cannot decay again.
use momo_core.Prelude.{
  ℕ, ◌+◌, ◌≤◌, ◌<◌, ◌≡◌, refl, sym, ap, ◌∙◌, Bool, true, false, not, ◌&&◌, ◌⊎◌, inl, inr, some,
  List, [], ◌∷◌, Text, text_eq, text_eq_iff, arith, lookup, put, Bool-cases, Option-cases,
  if◌then◌else◌,
}
use momo_core.Governance.Settings.{Floating, LifecycleSettings}
use momo_core.Lifecycle.Ledger.{
  ContextClock, RecordClock, current, each_clock, all_clocks, touch, aged, decayed_now,
  archived_now,
}
use momo_core.Lifecycle.Aging.{
  Weights, MemoryDocument, Fate, decayed, archived_away, is_protected, decays, forgets, age, settle,
  clocks_after, visit, with_weight, or_one,
}
use momo_core.Lifecycle.Retention.{all_clocks-lookup}

each_clock-lookup :
    (counters : List (Text × ℕ)) (clocks : List (Text × ContextClock)) (key : Text)
    (clock : ContextClock)
    → lookup (each_clock (decayed_now counters) clocks) key ≡ some clock
    → clock.last_decay ≡ current counters key
unfolding lookup
each_clock-lookup counters [] key clock e = absurd (ground (arith, e))
each_clock-lookup counters ((k, c) ∷ rest) key clock e = elim (Bool-cases (text_eq k key)) [
  | inr t ↦ each_clock-lookup counters rest key clock (rw (t, lookup) at e)
  | inl t ↦
      let found : decayed_now counters k c ≡ clock = ground (arith, t, e) in
      sym (ap (λ x. x.last_decay) found) ∙ ap (current counters) ((text_eq_iff k key).0 t)
]

-- Clocks of which each was last set to decay now.
abbrev pub Decayed : List (Text × ℕ) → List (Text × ContextClock) → Type 0
Decayed counters clocks =
    (key : Text) (clock : ContextClock)
    → lookup clocks key ≡ some clock
    → clock.last_decay ≡ current counters key

each_clock-last_decay :
    (counters : List (Text × ℕ)) (clocks : List (Text × ContextClock))
    → Decayed counters clocks
    → Decayed counters (each_clock (archived_now counters) clocks)
unfolding lookup
each_clock-last_decay counters clocks h key clock e =
    let (old, q, same) = archived-lookup clocks key clock e in same ∙ h key old q
  where
    archived-lookup :
        (clocks : List (Text × ContextClock)) (key : Text) (clock : ContextClock)
        → lookup (each_clock (archived_now counters) clocks) key ≡ some clock
        → (old : ContextClock) × (lookup clocks key ≡ some old)
          × (clock.last_decay ≡ old.last_decay)
    archived-lookup [] key clock e = absurd (ground (arith, e))
    archived-lookup ((k, c) ∷ rest) key clock e = elim (Bool-cases (text_eq k key)) [
      | inr t ↦
          let (old, q, same) = archived-lookup rest key clock (rw (t, lookup) at e) in
          (old, rw (t, lookup) q, same)
      | inl t ↦
          let found : archived_now counters k c ≡ clock = ground (arith, t, e) in
          (c, rw (t, lookup) refl, sym (ap (λ x. x.last_decay) found))
    ]

module _ {float : Floating} (weights : Weights float) (fingerprint_of : MemoryDocument float → Text)
    (settings : LifecycleSettings float) (counters : List (Text × ℕ)) where
  -- A turn that leaves the memory decayed, or archives it, has let it decay.
  abbrev pub IsDecay : Fate → Type 0
  IsDecay fate = (fate ≡ decayed) ⊎ (fate ≡ archived_away)

  settle-Decayed :
      (now : ℕ) (target_exists forget archive decay : Bool) (doc : MemoryDocument float)
      (clocks : List (Text × ContextClock))
      → (archive ≡ true → decay ≡ true)
      → (decay ≡ true → Decayed counters clocks)
      → IsDecay
          (settle weights fingerprint_of counters now target_exists forget archive decay doc
            clocks).0
      → Decayed counters
          (settle weights fingerprint_of counters now target_exists forget archive decay doc
            clocks).2
  settle-Decayed now target_exists true archive decay doc clocks a d (inl h) =
      absurd (ground (arith, h))
  settle-Decayed now target_exists true archive decay doc clocks a d (inr h) =
      absurd (ground (arith, h))
  settle-Decayed now true false true decay doc clocks a d (inl h) = absurd (ground (arith, h))
  settle-Decayed now true false true decay doc clocks a d (inr h) = absurd (ground (arith, h))
  settle-Decayed now false false true decay doc clocks a d h =
      each_clock-last_decay counters clocks (d (a refl))
  settle-Decayed now target_exists false false true doc clocks a d h = d refl
  settle-Decayed now target_exists false false false doc clocks a d (inl h) =
      absurd (ground (arith, h))
  settle-Decayed now target_exists false false false doc clocks a d (inr h) =
      absurd (ground (arith, h))

  age-Decayed :
      (now : ℕ) (target_exists archived protected : Bool) (doc : MemoryDocument float)
      (clocks : List (Text × ContextClock))
      → IsDecay
          (age weights fingerprint_of settings counters now target_exists archived protected doc
            clocks).0
      → Decayed counters
          (age weights fingerprint_of settings counters now target_exists archived protected doc
            clocks).2
  unfolding age
  age-Decayed now target_exists archived protected doc clocks h =
      let decay = decays weights fingerprint_of settings counters protected clocks in
      let weighed =
        if decay
        then with_weight weights fingerprint_of doc
            (weights.times (or_one weights fingerprint_of doc.weight) settings.decay_factor)
        else doc in
      let marked = if decay then each_clock (decayed_now counters) clocks else clocks in
      settle-Decayed now target_exists
        (forgets weights fingerprint_of settings counters archived protected weighed marked)
        (not archived
          && decay
          && not protected
          && weights.below_fifth (or_one weights fingerprint_of weighed.weight))
        decay weighed marked (λ a. ground (arith, a))
        (λ d. rw d (λ key clock e. each_clock-lookup counters clocks key clock e)) h

  -- Clocks that a decay has set do not let the memory decay before enough turns have passed.
  decays-again :
      (later : List (Text × ℕ)) (protected : Bool) (clocks : List (Text × ContextClock))
      (key : Text) (clock : ContextClock)
      → Decayed counters clocks
      → 1 ≤ settings.decay_after_turns
      → lookup clocks key ≡ some clock
      → current later key < current counters key + settings.decay_after_turns
      → decays weights fingerprint_of settings later protected clocks ≡ false
  unfolding decays aged
  decays-again later protected clocks key clock set positive e soon =
      elim (Bool-cases (all_clocks (aged later settings.decay_after_turns) clocks)) [
        | inr f ↦ rw f (ground arith)
        | inl f ↦
            let old : aged later settings.decay_after_turns key clock ≡ true =
              all_clocks-lookup (aged later settings.decay_after_turns) clocks key clock f e in
            absurd (ground (arith, positive, soon, old, set key clock e))
      ]

  -- A turn after which a memory has decayed, be it archived by that or not, leaves clocks with which
  -- it cannot decay again, while any of its contexts has not completed as many turns as the settings
  -- ask for, one at least.
  pub visit-decays :
      (context : Text) (turn now : ℕ) (target_exists archived found bound referenced : Bool)
      (doc : MemoryDocument float) (r : RecordClock) (later : List (Text × ℕ)) (protected : Bool)
      (key : Text) (clock : ContextClock)
      → 1 ≤ settings.decay_after_turns
      → IsDecay
          (visit weights fingerprint_of settings counters context turn now target_exists archived
            found bound referenced doc r).0
      → lookup
          (visit weights fingerprint_of settings counters context turn now target_exists archived
            found bound referenced doc r).2.contexts
          key
        ≡ some clock
      → current later key < current counters key + settings.decay_after_turns
      → decays weights fingerprint_of settings later protected
          (visit weights fingerprint_of settings counters context turn now target_exists archived
            found bound referenced doc r).2.contexts
        ≡ false
  unfolding visit
  visit-decays context turn now target_exists archived found bound referenced doc r later protected
        key clock positive =
      let hit : Bool = not archived && found in
      let clocks =
        clocks_after weights fingerprint_of counters context turn archived hit bound
          (fingerprint_of doc) r in
      elim (Option-cases (lookup clocks context)) [
        | inl e ↦
            rw (visit, e)
              (λ h at soon. elim h [
                | inl q ↦ absurd (ground (arith, q))
                | inr q ↦ absurd (ground (arith, q))
              ])
        | inr (own, e) ↦
            let touched = put clocks context (touch hit archived turn own) in
            let step =
              age-Decayed now target_exists archived
                (is_protected weights fingerprint_of referenced doc) doc touched in
            rw (visit, e)
              (λ h at soon. decays-again later protected _ key clock (step h) positive at soon)
      ]
