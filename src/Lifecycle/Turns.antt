-- ===== src/Lifecycle/Turns.antt =====
-- lifecycle.rs, `prepare_lifecycle_activity`: the counter of the context, and the loop over the
-- memories.
use momo_core.Prelude.{
  ℕ, ◌+◌, ◌^◌, Bool, true, false, not, Option, none, some, List, [], ◌∷◌, map, Text, if◌then◌else◌,
  ltb, lookup, put, discard, member, Outcome, err, ok, ◌>>=◌, ◌>>◌, unless,
}
use momo_core.Governance.Settings.{Floating}
use momo_core.Governance.Validation.{lifecycle_refused}
use momo_core.Lifecycle.Policy.{RecordPolicy}
use momo_core.Lifecycle.Ledger.{RecordClock, ActivityLedger, current}
use momo_core.Lifecycle.Aging.{
  Weights, MemoryDocument, LifecycleActivity, Fate, forgotten, archive_target_exists, is_eligible,
  is_bound, visit,
}

-- A memory with what the workspace says of it: whether its path is in the archive, whether the query
-- or the current scene found it, whether something refers to it, whether its kind may be read and
-- written, whether the target of its archiving is taken, and its policy.
pub record Memory (float : Floating) : Type 0 where
  pub doc : MemoryDocument float
  pub archived : Bool
  pub found : Bool
  pub referenced : Bool
  pub accessible : Bool
  pub target_exists : Bool
  pub policy : Option RecordPolicy

pub data LifecycleError : Type 0 where
  invalid_settings activity_counter_overflow archive_target_taken : LifecycleError

-- `or_default()`
abbrev pub or_new : Option RecordClock → RecordClock
or_new none = record { fingerprint = []; contexts = [] }
or_new (some r) = r

-- `checked_add(1)` on the counter of the context
unfoldable pub next_turn : List (Text × ℕ) → Text → Outcome LifecycleError ℕ
next_turn counters context =
    if ltb (current counters context + 1) (2 ^ 64)
    then ok (current counters context + 1)
    else err activity_counter_overflow

-- `ledger.records.retain(|id, _| existing_ids.contains(id))`
unfoldable pub retain_existing : List Text → List (Text × RecordClock) → List (Text × RecordClock)
retain_existing ids [] = []
retain_existing ids ((id, r) ∷ rest) =
    let later = retain_existing ids rest in if member ids id then (id, r) ∷ later else later

abbrev pub is_taken : Fate → Bool
is_taken archive_target_exists = true
is_taken _ = false

abbrev pub is_forgotten : Fate → Bool
is_forgotten forgotten = true
is_forgotten _ = false

module _ {float : Floating} (weights : Weights float) (fingerprint_of : MemoryDocument float → Text)
    (activity : LifecycleActivity float) (counters : List (Text × ℕ)) (context : Text)
    (turn now : ℕ) where
  unfoldable pub visited :
      Memory float → List (Text × RecordClock) → Fate × MemoryDocument float × RecordClock
  visited memory records =
      visit weights fingerprint_of activity.settings counters context turn now memory.target_exists
        memory.archived memory.found
        (is_bound weights fingerprint_of activity memory.policy now memory.doc) memory.referenced
        memory.doc (or_new (lookup records memory.doc.id))

  -- The loop. The fates of the memories that are not passed over come with their documents.
  unfoldable pub visit_all :
      List (Memory float)
      → List (Text × RecordClock)
      → Outcome LifecycleError (List (Text × RecordClock) × List (Fate × MemoryDocument float))
  visit_all [] records = ok (records, [])
  visit_all (memory ∷ rest) records =
      let (fate, doc, r) = visited memory records in
      let goes_on =
        is_eligible weights fingerprint_of activity memory.policy memory.accessible now
          memory.doc in
      let further = visit_all rest (if goes_on then put records memory.doc.id r else records) in
      if not goes_on
      then further
      else if is_taken fate
      then err archive_target_taken
      else do (after, fates) ← further; ok (after, (fate, doc) ∷ fates)

-- `for id in &report.forgotten_ids`
unfoldable pub drop_forgotten :
    {float : Floating}
    → List (Fate × MemoryDocument float)
    → List (Text × RecordClock)
    → List (Text × RecordClock)
drop_forgotten [] records = records
drop_forgotten ((fate, doc) ∷ rest) records =
    drop_forgotten rest (if is_forgotten fate then discard records doc.id else records)

module _ {float : Floating} (weights : Weights float)
    (fingerprint_of : MemoryDocument float → Text) where
  abbrev pub counted : ActivityLedger → Text → ℕ → List (Text × ℕ)
  counted ledger context turn = put ledger.contexts context turn

  -- The ledger after the turn, and what has become of the memories.
  unfoldable pub prepare_lifecycle_activity :
      LifecycleActivity float
      → Text
      → ℕ
      → List (Memory float)
      → ActivityLedger
      → Outcome LifecycleError (ActivityLedger × List (Fate × MemoryDocument float))
  prepare_lifecycle_activity activity context now memories ledger = do
    unless (lifecycle_refused float activity.settings) invalid_settings
    if not activity.settings.enabled
        then ok (ledger, [])
        else (next_turn ledger.contexts context >>= λ turn.
            visit_all weights fingerprint_of activity (counted ledger context turn) context turn now
              memories (retain_existing (map (λ memory. memory.doc.id) memories) ledger.records)
            >>= λ (records, fates). ok (
              record {
                contexts = counted ledger context turn;
                records = drop_forgotten fates records;
              },
              fates,
            ))
