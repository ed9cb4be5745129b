-- ===== src/Admission.antt =====
-- crates/momo-core/src/space_worker/reservations.rs: the mailbox owner that admits operations
-- over several Spaces.
pub mod Exclusion
pub mod Queue
mod Tests
use momo_core.Prelude.{
  ℕ, Bool, not, ◌||◌, List, [], ◌∷◌, ◌++◌, if◌then◌else◌, extend, without, is_disjoint,
}

-- A pending `Request::Acquire`: the Spaces, and the channel that waits for the reply.
pub record Waiting : Type 0 where
  pub spaces : List ℕ
  pub reply : ℕ

-- `Request`
pub data Request : Type 0 where
  acquire : List ℕ → ℕ → Request
  release : List ℕ → Request

-- The two variables that the owner's loop keeps from message to message.
pub record Owner : Type 0 where
  pub active : List ℕ
  pub pending : List Waiting

-- What one pass over the queue leaves: `active`, `blocked`, `remaining`, and the replies sent.
pub record Pass : Type 0 where
  pub active : List ℕ
  pub blocked : List ℕ
  pub remaining : List Waiting
  pub granted : List Waiting

-- The environment of a pass: `reply.is_closed()` for each channel, and whether `weak.upgrade()`
-- still finds a handle.
module _ (is_closed : ℕ → Bool) (upgrades : Bool) where
  -- `while let Some((spaces, reply)) = pending.pop_front()`
  unfoldable pub admit : List ℕ → List ℕ → List Waiting → Pass
  admit active blocked [] = record {
    active = active;
    blocked = blocked;
    remaining = [];
    granted = [];
  }
  admit active blocked (w ∷ rest) =
      let skipped = admit active blocked rest in
      let kept = admit active (extend blocked w.spaces) rest in
      let sent = admit (extend active w.spaces) blocked rest in
      if is_closed w.reply
      then skipped
      else if not (is_disjoint w.spaces active) || not (is_disjoint w.spaces blocked)
      then record kept { remaining = w ∷ kept.remaining }
      else if upgrades
      then record sent { granted = w ∷ sent.granted }
      else skipped

  -- The `match request`.
  unfoldable pub receive : Owner → Request → Owner
  receive o (acquire spaces reply) = record o {
    pending = o.pending ++ record { spaces = spaces; reply = reply } ∷ [];
  }
  receive o (release spaces) = record o { active = without spaces o.active }

  -- One turn of the loop: the message, then a pass over the whole queue.
  unfoldable pub turn : Owner → Request → Pass
  unfolding receive
  turn o m = let o' = receive o m in admit o'.active [] o'.pending

  -- `pending = remaining`
  unfoldable pub after : Owner → Request → Owner
  after o m = record { active = (turn o m).active; pending = (turn o m).remaining }
