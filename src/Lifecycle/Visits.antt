-- ===== src/Lifecycle/Visits.antt =====
-- When a completed turn changes a memory, and when it cannot.
use momo_core.Prelude.{
  ℕ, ◌≤◌, ◌≡◌, ◌≢◌, refl, ap, Bool, true, false, not, ◌&&◌, ◌⊎◌, inl, inr, some, List, Text, arith,
  lookup, put, lookup-put, Bool-cases, Option-cases,
}
use momo_core.Governance.Settings.{Floating, LifecycleSettings}
use momo_core.Lifecycle.Ledger.{ContextClock, RecordClock, all_clocks, touch, clock_at, aged}
use momo_core.Lifecycle.Aging.{
  Weights, MemoryDocument, kept, is_protected, decays, forgets, clocks_after, visit,
}
use momo_core.Lifecycle.Retention.{all_clocks-lookup, IsAged, IsRested, age-kept, age-reason}

module _ {float : Floating} (weights : Weights float) (fingerprint_of : MemoryDocument float → Text)
    (settings : LifecycleSettings float) (counters : List (Text × ℕ)) (context : Text)
    (turn : ℕ) where
  -- A clock that was set in this turn is not old.
  hit-decays :
      (clocks : List (Text × ContextClock)) (protected archived : Bool)
      → lookup counters context ≡ some turn
      → 1 ≤ settings.decay_after_turns
      → decays weights fingerprint_of settings counters protected
          (put clocks context (clock_at archived turn))
        ≡ false
  unfolding decays aged
  hit-decays clocks protected archived now positive =
      let clock : ContextClock = clock_at archived turn in
      let all = put clocks context clock in
      elim (Bool-cases (all_clocks (aged counters settings.decay_after_turns) all)) [
        | inr e ↦ rw e (ground arith)
        | inl e ↦
            let old : aged counters settings.decay_after_turns context clock ≡ true =
              all_clocks-lookup (aged counters settings.decay_after_turns) all context clock e
                (lookup-put clocks context clock) in
            absurd (ground (arith, positive, (rw now at old)))
      ]

  module _ (now : ℕ) (target_exists archived found bound referenced : Bool)
      (doc : MemoryDocument float) (r : RecordClock) where
    -- A turn leaves a memory as it is, if something refers to it or a tag holds on to it, or if the
    -- turn found it among the memories that are not archived; this for settings with a positive
    -- number of turns before decay, where the context's counter stands at the turn.
    pub visit-kept :
        lookup counters context ≡ some turn
        → 1 ≤ settings.decay_after_turns
        → (is_protected weights fingerprint_of referenced doc ≡ true)
          ⊎ ((archived ≡ false) × (found ≡ true))
        → ((visit weights fingerprint_of settings counters context turn now target_exists archived
              found bound referenced doc r).0
            ≡ kept)
          × ((visit weights fingerprint_of settings counters context turn now target_exists archived
                found bound referenced doc r).1
              ≡ doc)
    unfolding visit decays forgets touch
    visit-kept at positive safe =
        let hit : Bool = not archived && found in
        let clocks =
          clocks_after weights fingerprint_of counters context turn archived hit bound
            (fingerprint_of doc) r in
        elim (Option-cases (lookup clocks context)) [
          | inl e ↦ rw (e, visit) (refl, refl)
          | inr (clock, e) ↦
              let same =
                age-kept weights fingerprint_of settings counters now target_exists archived
                  (is_protected weights fingerprint_of referenced doc) doc
                  (put clocks context (touch hit archived turn clock))
                  (never_decays clocks clock safe) (never_forgets clocks clock safe) in
              (rw (visit, e) (ap (λ x. x.0) same), rw (visit, e) (ap (λ x. x.1) same))
        ]
      where
        never_decays :
            (clocks : List (Text × ContextClock)) (clock : ContextClock)
            → (is_protected weights fingerprint_of referenced doc ≡ true)
              ⊎ ((archived ≡ false) × (found ≡ true))
            → decays weights fingerprint_of settings counters
                (is_protected weights fingerprint_of referenced doc)
                (put clocks context (touch (not archived && found) archived turn clock))
              ≡ false
        never_decays clocks clock (inl p) = rw (decays, p) refl
        never_decays clocks clock (inr (a, f)) =
            rw (a, f, touch)
              (hit-decays clocks (is_protected weights fingerprint_of referenced doc) false at
                positive)

        never_forgets :
            (clocks : List (Text × ContextClock)) (clock : ContextClock)
            → (is_protected weights fingerprint_of referenced doc ≡ true)
              ⊎ ((archived ≡ false) × (found ≡ true))
            → forgets weights fingerprint_of settings counters archived
                (is_protected weights fingerprint_of referenced doc)
                doc
                (put clocks context (touch (not archived && found) archived turn clock))
              ≡ false
        never_forgets clocks clock (inl p) = elim (Bool-cases archived) [
          | inl a ↦ rw (forgets, p, a) refl
          | inr a ↦ rw (forgets, a) refl
        ]
        never_forgets clocks clock (inr (a, f)) = rw (forgets, a) refl

    -- A turn changes a memory only if nothing holds on to it, its context is enrolled, and either in
    -- every enrolled context enough turns have passed since the last hit and since the last decay,
    -- or it is archived, forgetting is on, and in every enrolled context enough turns have passed
    -- since it was archived.
    pub visit-reason :
        (visit weights fingerprint_of settings counters context turn now target_exists archived
            found bound referenced doc r).0
          ≢ kept
        → (is_protected weights fingerprint_of referenced doc ≡ false)
          × (clock : ContextClock) × (lookup
                (clocks_after weights fingerprint_of counters context turn archived
                  (not archived && found)
                  bound
                  (fingerprint_of doc)
                  r)
                context
              ≡ some clock)
          × (let clocks =
                put
                  (clocks_after weights fingerprint_of counters context turn archived
                    (not archived && found)
                    bound
                    (fingerprint_of doc)
                    r)
                  context
                  (touch (not archived && found) archived turn clock) in
              IsAged settings.decay_after_turns counters clocks
              ⊎ ((archived ≡ true)
                  × (settings.auto_forget ≡ true)
                  × IsRested settings.forget_after_turns counters clocks))
    unfolding visit
    visit-reason changed =
        let hit : Bool = not archived && found in
        let clocks =
          clocks_after weights fingerprint_of counters context turn archived hit bound
            (fingerprint_of doc) r in
        elim (Option-cases (lookup clocks context)) [
          | inl e ↦ absurd (changed (rw (visit, e) refl))
          | inr (clock, e) ↦
              let (free, reason) =
                age-reason weights fingerprint_of settings counters now target_exists archived
                  (is_protected weights fingerprint_of referenced doc) doc
                  (put clocks context (touch hit archived turn clock))
                  (λ same. changed (rw (visit, e) same)) in
              (free, clock, e, reason)
        ]
