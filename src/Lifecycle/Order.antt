-- ===== src/Lifecycle/Order.antt =====
-- What a turn does to the memories keeps their clocks behind the counters.
use momo_core.Prelude.{
  ℕ, ◌≡◌, ap, subst, Bool, true, false, not, ◌&&◌, ◌||◌, inl, inr, List, [], ◌∷◌, Text, arith,
  lookup, put, lookup-Values, put-Values, Bool-cases, Option-cases, if◌then◌else◌, ok, >>=-ok,
  ok-injective,
}
use momo_core.Governance.Settings.{Floating, LifecycleSettings}
use momo_core.Lifecycle.Ledger.{
  ContextClock, RecordClock, current, each_clock, refresh, enroll, touch, decayed_now, archived_now,
}
use momo_core.Lifecycle.Aging.{
  Weights, MemoryDocument, LifecycleActivity, Fate, settle, decays, age, clocks_after, visit,
  is_protected, is_bound, is_eligible,
}
use momo_core.Lifecycle.Turns.{Memory, or_new, visited, visit_all, is_taken}
use momo_core.Lifecycle.Behind.{
  AllBehind, LedgerBehind, each_clock-AllBehind, put-AllBehind, lookup-IsBehind, refresh-AllBehind,
  touch-IsBehind, enroll-AllBehind, decayed_now-IsBehind, archived_now-IsBehind,
}

module _ {float : Floating} (weights : Weights float) (fingerprint_of : MemoryDocument float → Text)
    (counters : List (Text × ℕ)) where
  settle-AllBehind :
      (now : ℕ) (target_exists forget archive decay : Bool) (doc : MemoryDocument float)
      (clocks : List (Text × ContextClock))
      → AllBehind counters clocks
      → AllBehind counters
          (settle weights fingerprint_of counters now target_exists forget archive decay doc
            clocks).2
  settle-AllBehind now target_exists true archive decay doc clocks b = b
  settle-AllBehind now true false true decay doc clocks b = b
  settle-AllBehind now false false true decay doc clocks b =
      each_clock-AllBehind counters (archived_now counters) clocks (archived_now-IsBehind counters)
        b
  settle-AllBehind now target_exists false false true doc clocks b = b
  settle-AllBehind now target_exists false false false doc clocks b = b

  marked-AllBehind :
      (decay : Bool) (clocks : List (Text × ContextClock))
      → AllBehind counters clocks
      → AllBehind counters (if decay then each_clock (decayed_now counters) clocks else clocks)
  marked-AllBehind false clocks b = b
  marked-AllBehind true clocks b =
      each_clock-AllBehind counters (decayed_now counters) clocks (decayed_now-IsBehind counters) b

  age-AllBehind :
      (settings : LifecycleSettings float) (now : ℕ) (target_exists archived protected : Bool)
      (doc : MemoryDocument float) (clocks : List (Text × ContextClock))
      → AllBehind counters clocks
      → AllBehind counters
          (age weights fingerprint_of settings counters now target_exists archived protected doc
            clocks).2
  unfolding age
  age-AllBehind settings now target_exists archived protected doc clocks b =
      settle-AllBehind now target_exists _ _ _ _ _ (
        marked-AllBehind (decays weights fingerprint_of settings counters protected clocks) clocks
          b)

  visit-AllBehind :
      (settings : LifecycleSettings float) (context : Text) (now : ℕ)
      (target_exists archived found bound referenced : Bool) (doc : MemoryDocument float)
      (r : RecordClock)
      → AllBehind counters r.contexts
      → AllBehind counters
          (visit weights fingerprint_of settings counters context
            (current counters context)
            now
            target_exists
            archived
            found
            bound
            referenced
            doc
            r).2.contexts
  unfolding visit clocks_after
  visit-AllBehind settings context now target_exists archived found bound referenced doc r b =
      let turn : ℕ = current counters context in
      let hit : Bool = not archived && found in
      let fresh = (refresh counters archived (fingerprint_of doc) r).contexts in
      let clocks = enroll context turn archived (hit || bound) fresh in
      let behind : AllBehind counters clocks =
        enroll-AllBehind counters context archived (hit || bound) fresh
          (refresh-AllBehind counters archived (fingerprint_of doc) r b) in
      elim (Option-cases (lookup clocks context)) [
        | inl e ↦ rw (visit, clocks_after, e) behind
        | inr (clock, e) ↦
            rw (visit, clocks_after, e)
              (age-AllBehind settings now target_exists archived
                (is_protected weights fingerprint_of referenced doc) doc
                (put clocks context (touch hit archived turn clock))
                (put-AllBehind counters clocks context (touch hit archived turn clock)
                  (touch-IsBehind counters hit archived turn clock
                    (lookup-IsBehind counters clocks context clock behind e))
                  behind))
      ]

  or_new-AllBehind :
      (records : List (Text × RecordClock)) (id : Text)
      → LedgerBehind counters records
      → AllBehind counters (or_new (lookup records id)).contexts
  or_new-AllBehind records id b = elim (Option-cases (lookup records id)) [
    | inl e ↦ rw e tt
    | inr (r, e) ↦ rw e (lookup-Values (λ x. AllBehind counters x.contexts) records id r b e)
  ]

  pub visit_all-LedgerBehind :
      (activity : LifecycleActivity float) (context : Text) (now : ℕ)
      (memories : List (Memory float)) (records after : List (Text × RecordClock))
      (fates : List (Fate × MemoryDocument float))
      → LedgerBehind counters records
      → visit_all weights fingerprint_of activity counters context
          (current counters context)
          now
          memories
          records
        ≡ ok (after, fates)
      → LedgerBehind counters after
  unfolding visit_all visited
  visit_all-LedgerBehind activity context now [] records after fates b h =
      let same : (records, []) ≡ (after, fates) = ok-injective h in
      subst (LedgerBehind counters) (ap (λ x. x.0) same) b
  visit_all-LedgerBehind activity context now (memory ∷ rest) records after fates b h =
      let visit_it =
        visited weights fingerprint_of activity counters context (current counters context) now
          memory records in
      let eligible =
        is_eligible weights fingerprint_of activity memory.policy memory.accessible now
          memory.doc in
      let next : LedgerBehind counters (put records memory.doc.id visit_it.2) =
        put-Values (λ x. AllBehind counters x.contexts) records memory.doc.id visit_it.2 b
          (visit-AllBehind activity.settings context now memory.target_exists memory.archived
            memory.found (is_bound weights fingerprint_of activity memory.policy now memory.doc)
            memory.referenced memory.doc (or_new (lookup records memory.doc.id))
            (or_new-AllBehind records memory.doc.id b)) in
      elim (Bool-cases eligible) [
        | inr e ↦
            visit_all-LedgerBehind activity context now rest records after fates b
              (rw (e, visit_all) at h)
        | inl e ↦ elim (Bool-cases (is_taken visit_it.0)) [
          | inl t ↦ absurd (ground (arith, rw (e, t, visit_all) at h))
          | inr t ↦
              let (a, p, q) =
                >>=-ok
                  (visit_all weights fingerprint_of activity counters context
                    (current counters context) now rest (put records memory.doc.id visit_it.2))
                  _ (rw (e, t, visit_all) at h) in
              let same : (a.0, (visit_it.0, visit_it.1) ∷ a.1) ≡ (after, fates) = ok-injective q in
              subst (LedgerBehind counters) (ap (λ x. x.0) same) (
                visit_all-LedgerBehind activity context now rest
                  (put records memory.doc.id visit_it.2) a.0 a.1 next p)
        ]
      ]
