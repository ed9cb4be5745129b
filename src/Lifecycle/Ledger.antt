-- ===== src/Lifecycle/Ledger.antt =====
-- lifecycle.rs, the activity ledger: the counter of every context and the clocks of every record.
use momo_core.Prelude.{
  ℕ, ◌-◌, Bool, true, false, ◌&&◌, Option, none, some, List, [], ◌∷◌, Text, text_eq, leb,
  if◌then◌else◌, lookup, put,
}

pub record ContextClock : Type 0 where
  pub last_hit : ℕ
  pub last_decay : ℕ
  pub archived_at : Option ℕ

pub record RecordClock : Type 0 where
  pub fingerprint : Text
  pub contexts : List (Text × ContextClock)

pub record ActivityLedger : Type 0 where
  pub contexts : List (Text × ℕ)
  pub records : List (Text × RecordClock)

abbrev pub or_zero : Option ℕ → ℕ
or_zero none = 0
or_zero (some n) = n

-- `ledger.contexts.get(key).copied().unwrap_or(0)`
abbrev pub current : List (Text × ℕ) → Text → ℕ
current counters key = or_zero (lookup counters key)

-- `archived.then_some(turn)`
abbrev pub then_some : Bool → ℕ → Option ℕ
then_some archived turn = if archived then some turn else none

abbrev pub clock_at : Bool → ℕ → ContextClock
clock_at archived turn = record {
  last_hit = turn;
  last_decay = turn;
  archived_at = then_some archived turn;
}

-- `for (key, clock) in &mut record.contexts`
abbrev pub each_clock :
    (Text → ContextClock → ContextClock) → List (Text × ContextClock) → List (Text × ContextClock)
each_clock f [] = []
each_clock f ((key, clock) ∷ rest) = (key, f key clock) ∷ each_clock f rest

-- `record.contexts.iter().all`
unfoldable pub all_clocks : (Text → ContextClock → Bool) → List (Text × ContextClock) → Bool
all_clocks test [] = true
all_clocks test ((key, clock) ∷ rest) = test key clock && all_clocks test rest

-- A record whose content has changed starts anew in every context.
unfoldable pub refresh : List (Text × ℕ) → Bool → Text → RecordClock → RecordClock
refresh counters archived fingerprint r = if text_eq r.fingerprint fingerprint then r else record {
  fingerprint = fingerprint;
  contexts = each_clock (λ key clock. clock_at archived (current counters key)) r.contexts;
}

abbrev pub enrolls : Option ContextClock → Bool → Bool
enrolls none found = found
enrolls (some clock) found = false

-- A context that hits the record, or to which it is bound, is enrolled.
unfoldable pub enroll :
    Text → ℕ → Bool → Bool → List (Text × ContextClock) → List (Text × ContextClock)
enroll context turn archived found clocks =
    if enrolls (lookup clocks context) found
    then put clocks context (clock_at archived turn)
    else clocks

abbrev pub archived_since : Option ℕ → ℕ → Option ℕ
archived_since none turn = some turn
archived_since (some start) turn = some start

-- The clock of the context in which the turn was completed.
unfoldable pub touch : Bool → Bool → ℕ → ContextClock → ContextClock
touch hit archived turn clock = if hit then clock_at archived turn else record {
  last_hit = clock.last_hit;
  last_decay = clock.last_decay;
  archived_at = if archived then archived_since clock.archived_at turn else none;
}

-- Enough turns since the last hit and the last decay.
unfoldable pub aged : List (Text × ℕ) → ℕ → Text → ContextClock → Bool
aged counters decay_after key clock =
    leb decay_after (current counters key - clock.last_hit)
    && leb decay_after (current counters key - clock.last_decay)

abbrev pub rested_since : Option ℕ → ℕ → ℕ → Bool
rested_since none now forget_after = false
rested_since (some start) now forget_after = leb forget_after (now - start)

-- Enough turns since the record was archived.
unfoldable pub rested : List (Text × ℕ) → ℕ → Text → ContextClock → Bool
rested counters forget_after key clock =
    rested_since clock.archived_at (current counters key) forget_after

abbrev pub decayed_now : List (Text × ℕ) → Text → ContextClock → ContextClock
decayed_now counters key clock = record clock { last_decay = current counters key }

abbrev pub archived_now : List (Text × ℕ) → Text → ContextClock → ContextClock
archived_now counters key clock = record clock { archived_at = some (current counters key) }
