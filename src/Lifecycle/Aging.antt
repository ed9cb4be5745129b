-- ===== src/Lifecycle/Aging.antt =====
-- lifecycle.rs, `prepare_lifecycle_activity`: what a completed turn does to one memory.
use momo_core.Prelude.{
  ℕ, ◌+◌, Bool, true, false, not, ◌&&◌, ◌||◌, Option, none, some, List, [], ◌∷◌, Text, codes,
  text_eq, if◌then◌else◌, lookup, put, member, leb,
}
use momo_core.Governance.Settings.{Floating, LifecycleSettings}
use momo_core.Lifecycle.Policy.{RecordPolicy, MemoryIdentity, permits, is_text}
use momo_core.Lifecycle.Ledger.{
  ContextClock, RecordClock, each_clock, all_clocks, refresh, enroll, touch, aged, rested,
  decayed_now, archived_now,
}

-- The arithmetic and the tests on weights and importances: a product, `>= 0.8`, `< 0.2`, `< 0.05`.
pub record Weights (float : Floating) : Type 0 where
  pub one : float.Number
  pub times : float.Number → float.Number → float.Number
  pub is_important : float.Number → Bool
  pub below_fifth : float.Number → Bool
  pub below_twentieth : float.Number → Bool

module _ (float : Floating) where
  pub record MemoryDocument : Type 0 where
    pub id : Text
    pub kind : Text
    pub importance : Option float.Number
    pub weight : Option float.Number
    pub touch_at : ℕ
    pub decay_at : Option ℕ
    pub injection_scope : Option Text
    pub status : Text
    pub relations : List (Text × List Text)
    pub tags : List Text
    pub aliases : List Text
    pub injection_conversation_id : Option Text
    pub injection_character_id : Option Text
    pub archived_at : Option ℕ
    pub body : Text

  -- `LifecycleActivity`, without the query
  pub record LifecycleActivity : Type 0 where
    pub identity : Option MemoryIdentity
    pub conversation_id : Text
    pub character_id : Text
    pub settings : LifecycleSettings float

-- `is_some_and(|id| id != text)`
abbrev pub is_other : Option Text → Text → Bool
is_other none text = false
is_other (some id) text = not (text_eq id text)

abbrev pub protected_tags : List Text
protected_tags =
    codes "commitment" ∷ codes "promise" ∷ codes "open" ∷ codes "pending" ∷ codes "unresolved" ∷ []

-- `to_ascii_lowercase`
abbrev pub ascii_lower : Text → Text
ascii_lower [] = []
ascii_lower (c ∷ rest) = (if leb 65 c && leb c 90 then c + 32 else c) ∷ ascii_lower rest

abbrev pub holds_on : List Text → Bool
holds_on [] = false
holds_on (tag ∷ tags) = member protected_tags (ascii_lower tag) || holds_on tags

pub data Fate : Type 0 where
  kept decayed archived_away forgotten archive_target_exists : Fate

module _ {float : Floating} (weights : Weights float)
    (fingerprint_of : MemoryDocument float → Text) where
  abbrev pub or_one : Option float.Number → float.Number
  or_one none = weights.one
  or_one (some w) = w

  abbrev pub policy_allows : Option RecordPolicy → Option MemoryIdentity → ℕ → Bool
  policy_allows none identity now = true
  policy_allows (some policy) none now = false
  policy_allows (some policy) (some identity) now =
      permits policy policy.local_space_id identity now

  -- Whether the loop goes on with the document: it may be read and written under its policy, and is
  -- an event of little importance that is bound to no other context.
  unfoldable pub is_eligible :
      LifecycleActivity float → Option RecordPolicy → Bool → ℕ → MemoryDocument float → Bool
  is_eligible activity policy accessible now doc =
      policy_allows policy activity.identity now
      && accessible
      && text_eq doc.kind (codes "event")
      && not (weights.is_important (or_one doc.importance))
      && not (is_other doc.injection_conversation_id activity.conversation_id)
      && not (is_other doc.injection_character_id activity.character_id)

  abbrev pub owned : Option RecordPolicy → Option MemoryIdentity → ℕ → Bool
  owned (some policy) (some identity) now =
      is_text policy.owner_character_id identity.character_id
      && permits policy policy.local_space_id identity now
  owned _ _ now = false

  unfoldable pub is_bound :
      LifecycleActivity float → Option RecordPolicy → ℕ → MemoryDocument float → Bool
  is_bound activity policy now doc =
      is_text doc.injection_conversation_id activity.conversation_id
      || owned policy activity.identity now

  unfoldable pub is_protected : Bool → MemoryDocument float → Bool
  is_protected referenced doc = referenced || holds_on doc.tags

  abbrev pub with_weight : MemoryDocument float → float.Number → MemoryDocument float
  with_weight doc w = record doc { weight = some w }

  abbrev pub as_archived : MemoryDocument float → ℕ → MemoryDocument float
  as_archived doc now = record doc { status = codes "archived"; archived_at = some now }

  -- The last branches, by `forget`, the test for archiving and `decay`.
  abbrev pub settle :
      List (Text × ℕ)
      → ℕ
      → Bool
      → Bool
      → Bool
      → Bool
      → MemoryDocument float
      → List (Text × ContextClock)
      → Fate × MemoryDocument float × List (Text × ContextClock)
  settle counters now target_exists forget archive decay doc clocks =
      if forget
      then (forgotten, doc, clocks)
      else if archive
      then if target_exists
        then (archive_target_exists, doc, clocks)
        else (archived_away, as_archived doc now, each_clock (archived_now counters) clocks)
      else if decay
      then (decayed, doc, clocks)
      else (kept, doc, clocks)

  unfoldable pub decays :
      LifecycleSettings float → List (Text × ℕ) → Bool → List (Text × ContextClock) → Bool
  decays settings counters protected clocks =
      not protected && all_clocks (aged counters settings.decay_after_turns) clocks

  unfoldable pub forgets :
      LifecycleSettings float
      → List (Text × ℕ)
      → Bool
      → Bool
      → MemoryDocument float
      → List (Text × ContextClock)
      → Bool
  forgets settings counters archived protected doc clocks =
      archived
      && not protected
      && settings.auto_forget
      && weights.below_fifth (or_one doc.importance)
      && weights.below_twentieth (or_one doc.weight)
      && all_clocks (rested counters settings.forget_after_turns) clocks

  -- From `let decay` on: the clocks are those that the turn has left.
  unfoldable pub age :
      LifecycleSettings float
      → List (Text × ℕ)
      → ℕ
      → Bool
      → Bool
      → Bool
      → MemoryDocument float
      → List (Text × ContextClock)
      → Fate × MemoryDocument float × List (Text × ContextClock)
  age settings counters now target_exists archived protected doc clocks =
      let decay = decays settings counters protected clocks in
      let weighed =
        if decay
        then with_weight doc (weights.times (or_one doc.weight) settings.decay_factor)
        else doc in
      let marked = if decay then each_clock (decayed_now counters) clocks else clocks in
      settle counters now target_exists
        (forgets settings counters archived protected weighed marked)
        (not archived && decay && not protected && weights.below_fifth (or_one weighed.weight))
        decay weighed marked

  -- The record's clocks when the turn has been counted.
  unfoldable pub clocks_after :
      List (Text × ℕ)
      → Text
      → ℕ
      → Bool
      → Bool
      → Bool
      → Text
      → RecordClock
      → List (Text × ContextClock)
  clocks_after counters context turn archived hit bound fingerprint r =
      enroll context turn archived (hit || bound) (refresh counters archived fingerprint r).contexts

  abbrev pub closed :
      MemoryDocument float
      → Fate × MemoryDocument float × List (Text × ContextClock)
      → Fate × MemoryDocument float × RecordClock
  closed before (fate, doc, clocks) =
      (fate, doc, record { fingerprint = fingerprint_of doc; contexts = clocks })

  -- `let Some(clock) = record.contexts.get_mut(&context) else { continue }`, and the rest.
  abbrev pub age_enrolled :
      LifecycleSettings float
      → List (Text × ℕ)
      → Text
      → ℕ
      → ℕ
      → Bool
      → Bool
      → Bool
      → Bool
      → MemoryDocument float
      → List (Text × ContextClock)
      → Option ContextClock
      → Fate × MemoryDocument float × RecordClock
  age_enrolled settings counters context turn now target_exists archived hit protected doc clocks
        none =
      (kept, doc, record { fingerprint = fingerprint_of doc; contexts = clocks })
  age_enrolled settings counters context turn now target_exists archived hit protected doc clocks
        (some clock) =
      closed doc (
        age settings counters now target_exists archived protected doc
          (put clocks context (touch hit archived turn clock)))

  -- What the turn does to an eligible document. `found` says whether the query or the current scene
  -- found it.
  unfoldable pub visit :
      LifecycleSettings float
      → List (Text × ℕ)
      → Text
      → ℕ
      → ℕ
      → Bool
      → Bool
      → Bool
      → Bool
      → Bool
      → MemoryDocument float
      → RecordClock
      → Fate × MemoryDocument float × RecordClock
  visit settings counters context turn now target_exists archived found bound referenced doc r =
      let hit = not archived && found in
      let clocks = clocks_after counters context turn archived hit bound (fingerprint_of doc) r in
      age_enrolled settings counters context turn now target_exists archived hit
        (is_protected referenced doc) doc clocks (lookup clocks context)
