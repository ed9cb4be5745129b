-- ===== src/Operations/States.antt =====
-- coordination.rs, `OperationState`: one entry for each request in progress.
use momo_core.Prelude.{
  ℕ, ◌+◌, ◌-◌, Bool, true, false, ◌&&◌, Option, none, some, List, [], ◌∷◌, ltb, ◌==◌, if◌then◌else◌,
  Text, text_eq, lookup, put, any, Outcome, ok, err,
}

pub record OperationState : Type 0 where
  pub active : ℕ
  pub cancelled : Bool
  pub scope_id : Text

-- `operation_states`
abbrev pub States : Type 0
States = List (Text × OperationState)

pub data MomoApiError : Type 0 where
  cancelled : MomoApiError

-- `states.remove(&request_id)`
unfoldable pub remove : States → Text → States
remove [] id = []
remove ((k, state) ∷ rest) id =
    let later = remove rest id in if text_eq k id then later else (k, state) ∷ later

-- `states.entry(id).or_default()`
abbrev pub or_default : Option OperationState → OperationState
or_default none = record { active = 0; cancelled = false; scope_id = [] }
or_default (some state) = state

unfoldable pub enter_operation : States → Text → Text → States
enter_operation states request_id scope_id =
    let state = or_default (lookup states request_id) in
    put states request_id (record state { active = state.active + 1; scope_id = scope_id })

-- The closure of `Drop for OperationGuard`, for the entry that it finds.
unfoldable pub leave : States → Text → Option OperationState → States
leave states request_id none = states
leave states request_id (some state) =
    if state.active - 1 == 0
    then remove states request_id
    else put states request_id (record state { active = state.active - 1 })

-- The owner of the states is there as long as a guard is.
unfoldable pub drop_guard : States → Text → States
unfolding leave
drop_guard states request_id = leave states request_id (lookup states request_id)

unfoldable pub cancel : States → Text → Option OperationState → Bool × States
cancel states request_id none = (false, states)
cancel states request_id (some state) =
    (ltb 0 state.active, put states request_id (record state { cancelled = true }))

unfoldable pub cancel_operation : States → Text → Bool × States
unfolding cancel
cancel_operation states request_id = cancel states request_id (lookup states request_id)

abbrev is_cancelled : Option OperationState → Bool
is_cancelled none = false
is_cancelled (some state) = state.cancelled

unfoldable pub ensure_active : States → Text → Outcome MomoApiError (Unit {0})
ensure_active states request_id =
    if is_cancelled (lookup states request_id) then err cancelled else ok tt

unfoldable pub has_active_responses : States → Text → Bool
has_active_responses states scope_id =
    any (λ entry. ltb 0 (entry.1).active && text_eq (entry.1).scope_id scope_id) states
