-- ===== src/Lifecycle/Behind.antt =====
-- The clocks of the memories never run ahead of the counters of their contexts.
use momo_core.Prelude.{
  ℕ, ◌≤◌, ◌≡◌, sym, subst, Bool, true, false, inl, inr, Option, none, some, List, [], ◌∷◌, Text,
  text_eq, text_eq_iff, arith, lookup, put, Values, Bool-cases, All,
}
use momo_core.Lifecycle.Ledger.{
  ContextClock, RecordClock, current, each_clock, clock_at, refresh, enroll, enrolls, touch,
  decayed_now, archived_now, archived_since,
}

abbrev pub NotAfter : Option ℕ → ℕ → Type 0
NotAfter none now = Unit
NotAfter (some start) now = start ≤ now

-- No time on the clock is later than the counter says.
pub record IsBehind (now : ℕ) (clock : ContextClock) : Type 0 where
  pub hit : clock.last_hit ≤ now
  pub decay : clock.last_decay ≤ now
  pub archived : NotAfter clock.archived_at now

abbrev pub AllBehind : List (Text × ℕ) → List (Text × ContextClock) → Type 0
AllBehind counters clocks = All (λ entry. IsBehind (current counters entry.0) entry.1) clocks

abbrev pub LedgerBehind : List (Text × ℕ) → List (Text × RecordClock) → Type 0
LedgerBehind counters records = Values (λ r. AllBehind counters r.contexts) records

clock_at-IsBehind : (archived : Bool) (now : ℕ) → IsBehind now (clock_at archived now)
clock_at-IsBehind false now = record { hit = omega arith; decay = omega arith; archived = tt }
clock_at-IsBehind true now = record {
  hit = omega arith;
  decay = omega arith;
  archived = omega arith;
}

module _ (counters : List (Text × ℕ)) where
  pub each_clock-AllBehind :
      (f : Text → ContextClock → ContextClock) (clocks : List (Text × ContextClock))
      → ((key : Text) (clock : ContextClock)
          → IsBehind (current counters key) clock
          → IsBehind (current counters key) (f key clock))
      → AllBehind counters clocks
      → AllBehind counters (each_clock f clocks)
  each_clock-AllBehind f [] h b = tt
  each_clock-AllBehind f ((k, c) ∷ rest) h (b, bs) = (h k c b, each_clock-AllBehind f rest h bs)

  pub put-AllBehind :
      (clocks : List (Text × ContextClock)) (key : Text) (clock : ContextClock)
      → IsBehind (current counters key) clock
      → AllBehind counters clocks
      → AllBehind counters (put clocks key clock)
  unfolding put
  put-AllBehind [] key clock h b = (h, tt)
  put-AllBehind ((k, c) ∷ rest) key clock h (b, bs) = elim (Bool-cases (text_eq k key)) [
    | inl t ↦
        rw t
          (subst (λ x. IsBehind (current counters x) clock) (sym ((text_eq_iff k key).0 t)) h, bs)
    | inr t ↦ rw t (b, put-AllBehind rest key clock h bs)
  ]

  pub lookup-IsBehind :
      (clocks : List (Text × ContextClock)) (key : Text) (clock : ContextClock)
      → AllBehind counters clocks
      → lookup clocks key ≡ some clock
      → IsBehind (current counters key) clock
  unfolding lookup
  lookup-IsBehind [] key clock b e = absurd (ground (arith, e))
  lookup-IsBehind ((k, c) ∷ rest) key clock (b, bs) e = elim (Bool-cases (text_eq k key)) [
    | inr t ↦ lookup-IsBehind rest key clock bs (rw (t, lookup) at e)
    | inl t ↦
        let found : c ≡ clock = ground (arith, t, e) in
        subst (λ x. IsBehind (current counters x) clock) ((text_eq_iff k key).0 t)
          (subst (IsBehind (current counters k)) found b)
  ]

  pub refresh-AllBehind :
      (archived : Bool) (fingerprint : Text) (r : RecordClock)
      → AllBehind counters r.contexts
      → AllBehind counters (refresh counters archived fingerprint r).contexts
  unfolding refresh
  refresh-AllBehind archived fingerprint r b =
      elim (Bool-cases (text_eq r.fingerprint fingerprint)) [
        | inl e ↦ rw e b
        | inr e ↦ rw e (
            each_clock-AllBehind (λ key clock. clock_at archived (current counters key)) r.contexts
              (λ key clock h. clock_at-IsBehind archived (current counters key)) b)
      ]

  pub touch-IsBehind :
      (hit archived : Bool) (turn : ℕ) (clock : ContextClock)
      → IsBehind turn clock
      → IsBehind turn (touch hit archived turn clock)
  unfolding touch
  touch-IsBehind true archived turn clock b = clock_at-IsBehind archived turn
  touch-IsBehind false false turn clock b = record { hit = b.hit; decay = b.decay; archived = tt }
  touch-IsBehind false true turn clock b = record {
    hit = b.hit;
    decay = b.decay;
    archived = since clock.archived_at b.archived;
  }
    where
      since : (start : Option ℕ) → NotAfter start turn → NotAfter (archived_since start turn) turn
      since none h = omega arith
      since (some start) h = h

  pub enroll-AllBehind :
      (context : Text) (archived found : Bool) (clocks : List (Text × ContextClock))
      → AllBehind counters clocks
      → AllBehind counters (enroll context (current counters context) archived found clocks)
  unfolding enroll
  enroll-AllBehind context archived found clocks b =
      elim (Bool-cases (enrolls (lookup clocks context) found)) [
        | inl e ↦ rw e (
            put-AllBehind clocks context (clock_at archived (current counters context))
              (clock_at-IsBehind archived (current counters context)) b)
        | inr e ↦ rw e b
      ]

  pub decayed_now-IsBehind :
      (key : Text) (clock : ContextClock)
      → IsBehind (current counters key) clock
      → IsBehind (current counters key) (decayed_now counters key clock)
  decayed_now-IsBehind key clock b = record {
    hit = b.hit;
    decay = omega arith;
    archived = b.archived;
  }

  pub archived_now-IsBehind :
      (key : Text) (clock : ContextClock)
      → IsBehind (current counters key) clock
      → IsBehind (current counters key) (archived_now counters key clock)
  archived_now-IsBehind key clock b = record {
    hit = b.hit;
    decay = b.decay;
    archived = omega arith;
  }
