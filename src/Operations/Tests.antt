-- ===== src/Operations/Tests.antt =====
-- Runs of the coordination, and instances of its theorems.
use momo_core.Prelude.{
  ◌≡◌, refl, none, some, [], ◌∷◌, ltb, if◌then◌else◌, Text, codes, text_eq, lookup, put, ok, err,
}
use momo_core.Operations.States.{
  OperationState, cancelled, enter_operation, drop_guard, cancel_operation, remove, ensure_active,
}
use momo_core.Operations.Tracking.{
  World, held, Reach, start, then_step, enters, Reach-count, cancel_operation-held,
}

abbrev request : Text
request = codes "r1"

abbrev entered : World
entered = record { states = enter_operation [] request (codes "s"); guards = request ∷ [] }

entered-Reach : Reach entered
entered-Reach =
    then_step start (enters {w = record { states = []; guards = [] }} request (codes "s"))

-- A cancelled request that is left and entered again is not cancelled.
fresh_again :
    ensure_active
      (enter_operation
        (drop_guard (cancel_operation (enter_operation [] request (codes "s")) request).1 request)
        request
        (codes "s"))
      request
    ≡ ok tt
unfolding ensure_active enter_operation drop_guard cancel_operation remove lookup put text_eq
fresh_again = refl

Reach-count_example :
    ((state : OperationState)
      → lookup entered.states request ≡ some state
      → state.active ≡ held entered request)
    × (held entered request ≡ 0 → lookup entered.states request ≡ none)
Reach-count_example = Reach-count {w = entered} request entered-Reach

cancel_operation-held_example :
    ((cancel_operation entered.states request).0 ≡ ltb 0 (held entered request))
    × (ensure_active (cancel_operation entered.states request).1 request
        ≡ (if ltb 0 (held entered request) then err cancelled else ok tt))
cancel_operation-held_example = cancel_operation-held {w = entered} request entered-Reach
