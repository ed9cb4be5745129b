-- ===== src/Lifecycle/Tests.antt =====
-- A memory that decays, and instances of the theorems.
use momo_core.Prelude.{
  inl, ℕ, ◌+◌, ◌*◌, ◌/◌, ◌≤◌, ◌<◌, ◌≡◌, ◌≢◌, refl, ap, true, false, ◌⊎◌, inr, none, some, List, [],
  ◌∷◌, Text, codes, arith, ltb, leb, ◌==◌, lookup, put, discard, member, text_eq, ok,
}
use momo_core.Governance.Settings.{Floating, LifecycleSettings}
use momo_core.Governance.Validation.{lifecycle_refused}
use momo_core.Lifecycle.Ledger.{
  ContextClock, RecordClock, ActivityLedger, current, all_clocks, refresh, enroll, touch, aged,
  rested,
}
use momo_core.Lifecycle.Aging.{
  Weights, MemoryDocument, LifecycleActivity, kept, decayed, is_protected, is_eligible, is_bound,
  decays, forgets, age, clocks_after, visit,
}
use momo_core.Lifecycle.Retention.{IsAged, IsRested}
use momo_core.Lifecycle.Visits.{visit-kept, visit-reason}
use momo_core.Lifecycle.Spacing.{visit-decays}
use momo_core.Lifecycle.Turns.{
  Memory, next_turn, retain_existing, visited, visit_all, drop_forgotten,
  prepare_lifecycle_activity,
}
use momo_core.Lifecycle.Behind.{LedgerBehind}
use momo_core.Lifecycle.Invariant.{prepare_lifecycle_activity-LedgerBehind}

-- Numbers in hundredths.
abbrev hundredths : Floating
hundredths = record {
  Number = ℕ;
  is_finite = λ x. true;
  below_one = λ x. ltb x 100;
  is_zero = λ x. x == 0;
  up_to_two = λ x. leb x 200;
  nine_tenths = 90;
}

abbrev weights : Weights hundredths
weights = record {
  one = 100;
  times = λ x y. x * y / 100;
  is_important = λ x. leb 80 x;
  below_fifth = λ x. ltb x 20;
  below_twentieth = λ x. ltb x 5;
}

abbrev settings : LifecycleSettings hundredths
settings = record {
  enabled = true;
  decay_after_turns = 2;
  forget_after_turns = 3;
  decay_factor = 90;
  auto_forget = true;
}

abbrev walk : MemoryDocument hundredths
walk = record {
  id = codes "walk";
  kind = codes "event";
  importance = some 30;
  weight = some 50;
  touch_at = 0;
  decay_at = none;
  injection_scope = none;
  status = codes "active";
  relations = [];
  tags = codes "park" ∷ [];
  aliases = [];
  injection_conversation_id = none;
  injection_character_id = none;
  archived_at = none;
  body = codes "A walk";
}

abbrev tired : MemoryDocument hundredths
tired = record walk { weight = some 45 }

abbrev same_id : MemoryDocument hundredths → Text
same_id doc = doc.id

abbrev clocks : RecordClock
clocks = record {
  fingerprint = codes "walk";
  contexts = (codes "c", record { last_hit = 1; last_decay = 3; archived_at = none }) ∷ [];
}

abbrev counters : List (Text × ℕ)
counters = (codes "c", 5) ∷ []

abbrev decayed_clock : ContextClock
decayed_clock = record { last_hit = 1; last_decay = 5; archived_at = none }

decay_run :
    visit weights same_id settings counters
      (codes "c")
      5
      77
      false
      false
      false
      false
      false
      walk
      clocks
    ≡ (
      decayed,
      tired,
      record { fingerprint = codes "walk"; contexts = (codes "c", decayed_clock) ∷ [] },
    )
unfolding visit clocks_after refresh enroll touch age decays forgets all_clocks aged rested
    is_protected lookup put text_eq member
decay_run = refl

counters_at_five : lookup counters (codes "c") ≡ some 5
unfolding lookup text_eq
counters_at_five = refl

visit-kept_example :
    ((visit weights same_id settings counters
        (codes "c")
        5
        77
        false
        false
        true
        false
        false
        walk
        clocks).0
      ≡ kept)
    × ((visit weights same_id settings counters
          (codes "c")
          5
          77
          false
          false
          true
          false
          false
          walk
          clocks).1
        ≡ walk)
visit-kept_example =
    visit-kept weights same_id settings counters (codes "c") 5 77 false false true false false walk
      clocks counters_at_five (omega arith) (inr (refl, refl))

decay_changes :
    (visit weights same_id settings counters
      (codes "c")
      5
      77
      false
      false
      false
      false
      false
      walk
      clocks).0
    ≢ kept
decay_changes h = absurd (ground (arith, h, ap (λ x. x.0) decay_run))

visit-reason_example :
    (is_protected weights same_id false walk ≡ false)
    × (clock : ContextClock) × (lookup
          (clocks_after weights same_id counters
            (codes "c")
            5
            false
            false
            false
            (codes "walk")
            clocks)
          (codes "c")
        ≡ some clock)
    × (IsAged 2 counters (
          put
            (clocks_after weights same_id counters
              (codes "c")
              5
              false
              false
              false
              (codes "walk")
              clocks)
            (codes "c")
            (touch false false 5 clock))
        ⊎ ((false ≡ true)
            × (true ≡ true)
            × IsRested 3 counters (
                put
                  (clocks_after weights same_id counters
                    (codes "c")
                    5
                    false
                    false
                    false
                    (codes "walk")
                    clocks)
                  (codes "c")
                  (touch false false 5 clock))))
visit-reason_example =
    visit-reason weights same_id settings counters (codes "c") 5 77 false false false false false
      walk clocks decay_changes

found_again :
    lookup
      (visit weights same_id settings counters
        (codes "c")
        5
        77
        false
        false
        false
        false
        false
        walk
        clocks).2.contexts
      (codes "c")
    ≡ some decayed_clock
unfolding lookup text_eq
found_again = rw decay_run refl

soon : current ((codes "c", 6) ∷ []) (codes "c") < current counters (codes "c") + 2
unfolding lookup text_eq
soon = omega arith

visit-decays_example :
    decays weights same_id settings
      ((codes "c", 6) ∷ [])
      false
      (visit weights same_id settings counters
        (codes "c")
        5
        77
        false
        false
        false
        false
        false
        walk
        clocks).2.contexts
    ≡ false
visit-decays_example =
    visit-decays weights same_id settings counters (codes "c") 5 77 false false false false false
      walk clocks ((codes "c", 6) ∷ []) false (codes "c") decayed_clock (omega arith)
      (inl (ap (λ x. x.0) decay_run)) found_again soon

abbrev activity : LifecycleActivity hundredths
activity = record {
  identity = none;
  conversation_id = codes "talk";
  character_id = codes "ann";
  settings = settings;
}

abbrev memories : List (Memory hundredths)
memories =
    record {
      doc = walk;
      archived = false;
      found = false;
      referenced = false;
      accessible = true;
      target_exists = false;
      policy = none;
    }
    ∷ []

abbrev ledger : ActivityLedger
ledger = record { contexts = (codes "c", 4) ∷ []; records = (codes "walk", clocks) ∷ [] }

abbrev next : ActivityLedger
next = record {
  contexts = counters;
  records =
      (
        codes "walk",
        record { fingerprint = codes "walk"; contexts = (codes "c", decayed_clock) ∷ [] },
      )
      ∷ [];
}

turn_run :
    prepare_lifecycle_activity weights same_id activity (codes "c") 77 memories ledger
    ≡ ok (next, (decayed, tired) ∷ [])
unfolding prepare_lifecycle_activity next_turn retain_existing visit_all visited drop_forgotten
    is_eligible is_bound lifecycle_refused visit clocks_after refresh enroll touch age decays
    forgets all_clocks aged rested is_protected lookup put discard text_eq member
turn_run = refl

ledger-LedgerBehind : LedgerBehind ledger.contexts ledger.records
unfolding lookup text_eq
ledger-LedgerBehind = ((record { hit = omega arith; decay = omega arith; archived = tt }, tt), tt)

prepare_lifecycle_activity-LedgerBehind_example :
    LedgerBehind next.contexts next.records
    × ((key : Text) → current ledger.contexts key ≤ current next.contexts key)
prepare_lifecycle_activity-LedgerBehind_example =
    prepare_lifecycle_activity-LedgerBehind weights same_id activity (codes "c") 77 memories ledger
      next ((decayed, tired) ∷ []) ledger-LedgerBehind turn_run
