-- ===== src/Lifecycle/Invariant.antt =====
-- A turn keeps the clocks behind the counters.
use momo_core.Prelude.{
  ℕ, ◌+◌, ◌≤◌, ◌≡◌, sym, ap, subst, Bool, true, false, not, inl, inr, Option, none, some, List, [],
  ◌∷◌, map, Text, text_eq, text_eq_iff, arith, put, discard, member, lookup-put, lookup-put-other,
  discard-Values, Bool-cases, if◌then◌else◌, ok, >>=-ok, unless-passed, ok-injective, ltb, ◌^◌,
}
use momo_core.Governance.Settings.{Floating}
use momo_core.Governance.Validation.{lifecycle_refused}
use momo_core.Lifecycle.Ledger.{ContextClock, RecordClock, ActivityLedger, current, or_zero}
use momo_core.Lifecycle.Aging.{Weights, MemoryDocument, LifecycleActivity, Fate}
use momo_core.Lifecycle.Turns.{
  Memory, next_turn, retain_existing, visit_all, drop_forgotten, counted,
  prepare_lifecycle_activity, is_forgotten, invalid_settings,
}
use momo_core.Lifecycle.Behind.{NotAfter, AllBehind, LedgerBehind}
use momo_core.Lifecycle.Order.{visit_all-LedgerBehind}

grow-AllBehind :
    (counters later : List (Text × ℕ)) (clocks : List (Text × ContextClock))
    → ((key : Text) → current counters key ≤ current later key)
    → AllBehind counters clocks
    → AllBehind later clocks
grow-AllBehind counters later [] more b = tt
grow-AllBehind counters later ((k, c) ∷ rest) more (b, bs) = (
  record {
    hit = omega (arith, more k, b.hit);
    decay = omega (arith, more k, b.decay);
    archived = still c.archived_at b.archived;
  },
  grow-AllBehind counters later rest more bs,
)
  where
    still :
        (start : Option ℕ) → NotAfter start (current counters k) → NotAfter start (current later k)
    still none h = tt
    still (some s) h = omega (arith, more k, h)

grow-LedgerBehind :
    (counters later : List (Text × ℕ)) (records : List (Text × RecordClock))
    → ((key : Text) → current counters key ≤ current later key)
    → LedgerBehind counters records
    → LedgerBehind later records
grow-LedgerBehind counters later [] more b = tt
grow-LedgerBehind counters later ((id, r) ∷ rest) more (b, bs) =
    (grow-AllBehind counters later r.contexts more b, grow-LedgerBehind counters later rest more bs)

current-put :
    (counters : List (Text × ℕ)) (context key : Text) (turn : ℕ)
    → turn ≡ current counters context + 1
    → current counters key ≤ current (put counters context turn) key
current-put counters context key turn h = elim (Bool-cases (text_eq context key)) [
  | inr t ↦ omega (arith, ap or_zero (lookup-put-other counters context key turn t))
  | inl t ↦
      let same : context ≡ key = (text_eq_iff context key).0 t in
      subst (λ x. current counters x ≤ current (put counters context turn) x) same
        (omega (arith, h, ap or_zero (lookup-put counters context turn)))
]

retain_existing-LedgerBehind :
    (counters : List (Text × ℕ)) (ids : List Text) (records : List (Text × RecordClock))
    → LedgerBehind counters records
    → LedgerBehind counters (retain_existing ids records)
unfolding retain_existing
retain_existing-LedgerBehind counters ids [] b = tt
retain_existing-LedgerBehind counters ids ((id, r) ∷ rest) (b, bs) =
    elim (Bool-cases (member ids id)) [
      | inl e ↦ rw e (b, retain_existing-LedgerBehind counters ids rest bs)
      | inr e ↦ rw e (retain_existing-LedgerBehind counters ids rest bs)
    ]

drop_forgotten-LedgerBehind :
    {float : Floating} (counters : List (Text × ℕ)) (fates : List (Fate × MemoryDocument float))
    (records : List (Text × RecordClock))
    → LedgerBehind counters records
    → LedgerBehind counters (drop_forgotten fates records)
unfolding drop_forgotten
drop_forgotten-LedgerBehind counters [] records b = b
drop_forgotten-LedgerBehind counters ((fate, doc) ∷ rest) records b =
    elim (Bool-cases (is_forgotten fate)) [
      | inl e ↦ rw e (
          drop_forgotten-LedgerBehind counters rest (discard records doc.id)
            (discard-Values (λ r. AllBehind counters r.contexts) records doc.id b))
      | inr e ↦ rw e (drop_forgotten-LedgerBehind counters rest records b)
    ]

next_turn-ok :
    (counters : List (Text × ℕ)) (context : Text) (turn : ℕ)
    → next_turn counters context ≡ ok turn
    → turn ≡ current counters context + 1
unfolding next_turn
next_turn-ok counters context turn h =
    elim (Bool-cases (ltb (current counters context + 1) (2 ^ 64))) [
      | inl e ↦ sym (ok-injective (rw (e, next_turn) at h))
      | inr e ↦ absurd (ground (arith, rw (e, next_turn) at h))
    ]

-- The branches of `if !enabled`.
if-off : {A : Type 0} (b : Bool) (x y z : A) → b ≡ false → (if not b then x else y) ≡ z → x ≡ z
if-off true x y z e h = absurd (ground (arith, e))
if-off false x y z e h = h

if-on : {A : Type 0} (b : Bool) (x y z : A) → b ≡ true → (if not b then x else y) ≡ z → y ≡ z
if-on false x y z e h = absurd (ground (arith, e))
if-on true x y z e h = h

module _ {float : Floating} (weights : Weights float) (fingerprint_of : MemoryDocument float → Text)
    (activity : LifecycleActivity float) (context : Text) (now : ℕ) (memories : List (Memory float))
    (ledger next : ActivityLedger) (fates : List (Fate × MemoryDocument float)) where
  -- A turn that succeeds keeps a ledger in order in which no clock runs ahead of the counter of
  -- its context, and turns back no counter.
  pub prepare_lifecycle_activity-LedgerBehind :
      LedgerBehind ledger.contexts ledger.records
      → prepare_lifecycle_activity weights fingerprint_of activity context now memories ledger
        ≡ ok (next, fates)
      → LedgerBehind next.contexts next.records
        × ((key : Text) → current ledger.contexts key ≤ current next.contexts key)
  unfolding prepare_lifecycle_activity
  prepare_lifecycle_activity-LedgerBehind b h =
      let (_, p) = unless-passed (lifecycle_refused float activity.settings) invalid_settings _ h in
      elim (Bool-cases activity.settings.enabled) [
        | inr e ↦
            let same : (ledger, []) ≡ (next, fates) =
              ok-injective (if-off activity.settings.enabled _ _ _ e p) in
            subst
              (λ l.
                LedgerBehind l.contexts l.records
                × ((key : Text) → current ledger.contexts key ≤ current l.contexts key))
              (ap (λ x. x.0) same) (b, λ key. omega arith)
        | inl e ↦
            let (turn, t, q) =
              >>=-ok (next_turn ledger.contexts context) _
                (if-on activity.settings.enabled _ _ _ e p) in
            let one_more = next_turn-ok ledger.contexts context turn t in
            let counters : List (Text × ℕ) = counted weights fingerprint_of ledger context turn in
            let more : (key : Text) → current ledger.contexts key ≤ current counters key =
              λ key. current-put ledger.contexts context key turn one_more in
            let retained : List (Text × RecordClock) =
              retain_existing (map (λ memory. memory.doc.id) memories) ledger.records in
            let (a, v, r) =
              >>=-ok
                (visit_all weights fingerprint_of activity counters context turn now memories
                  retained)
                _ q in
            let here : turn ≡ current counters context =
              sym (ap or_zero (lookup-put ledger.contexts context turn)) in
            let after : LedgerBehind counters a.0 =
              visit_all-LedgerBehind weights fingerprint_of counters activity context now memories
                retained a.0 a.1
                (retain_existing-LedgerBehind counters _ ledger.records
                  (grow-LedgerBehind ledger.contexts counters ledger.records more b))
                (subst
                  (λ n.
                    visit_all weights fingerprint_of activity counters context n now memories
                      retained
                    ≡ ok a)
                  here v) in
            let same : (record { contexts = counters; records = drop_forgotten a.1 a.0 }, a.1)
                ≡ (next, fates) =
              ok-injective r in
            subst
              (λ l.
                LedgerBehind l.contexts l.records
                × ((key : Text) → current ledger.contexts key ≤ current l.contexts key))
              (ap (λ x. x.0) same) (drop_forgotten-LedgerBehind counters a.1 a.0 after, more)
      ]
