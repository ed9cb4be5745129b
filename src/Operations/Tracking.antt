-- ===== src/Operations/Tracking.antt =====
-- The entries follow the guards that are held.
use momo_core.Prelude.{
  ℕ, ◌+◌, ◌-◌, ◌<◌, ◌≡◌, refl, sym, ap, ◌∙◌, subst, inl, inr, true, false, Option, none, some, List,
  [], ◌∷◌, ◌++◌, arith, ltb, ◌==◌, if◌then◌else◌, Text, text_eq, text_eq_refl, eq_of_text_eq,
  lookup, lookup-put, lookup-put-other, count, count-append, ok, err, Bool-cases,
}
use momo_core.Operations.States.{
  OperationState, States, cancelled, remove, or_default, enter_operation, leave, drop_guard, cancel,
  cancel_operation, ensure_active,
}

-- The entries, and the request of each guard that is held.
pub record World : Type 0 where
  pub states : States
  pub guards : List Text

abbrev pub held : World → Text → ℕ
held w id = count (λ g. text_eq g id) w.guards

-- What happens to the coordination, in any order.
pub data Step : World → World → Type 0 where
  enters :
      {w : World} (id scope : Text)
      → Step w (record { states = enter_operation w.states id scope; guards = id ∷ w.guards })
  drops :
      {states : States} (before after : List Text) (id : Text)
      → Step
          (record { states = states; guards = before ++ id ∷ after })
          (record { states = drop_guard states id; guards = before ++ after })
  cancels :
      {w : World} (id : Text)
      → Step w (record { states = (cancel_operation w.states id).1; guards = w.guards })

pub data Reach : World → Type 0 where
  start : Reach (record { states = []; guards = [] })
  then_step : {w w' : World} → Reach w → Step w w' → Reach w'

-- An entry counts the guards of its request, of which there is one at least.
abbrev pub Counts : Option OperationState → ℕ → Type 0
Counts none n = n ≡ 0
Counts (some state) n = (state.active ≡ n) × (0 < n)

abbrev pub Tracks : World → Type 0
Tracks w = (id : Text) → Counts (lookup w.states id) (held w id)

lookup-remove : (states : States) (id : Text) → lookup (remove states id) id ≡ none
unfolding lookup remove
lookup-remove [] id = refl
lookup-remove ((k, s) ∷ rest) id = ground (arith, lookup-remove rest id)

lookup-remove-other :
    (states : States) (id other : Text)
    → text_eq id other ≡ false
    → lookup (remove states id) other ≡ lookup states other
unfolding lookup remove
lookup-remove-other [] id other h = refl
lookup-remove-other ((k, s) ∷ rest) id other h =
    ground (arith, h, lookup-remove-other rest id other h, eq_of_text_eq k id)

-- An entry is changed for one request, and the number of its guards with it.
enter-Counts :
    (o : Option OperationState) (scope : Text) (n : ℕ)
    → Counts o n
    → ((or_default o).active + 1 ≡ 1 + n) × (0 < 1 + n)
enter-Counts none scope n c = (omega (arith, c), omega arith)
enter-Counts (some state) scope n c = (omega (arith, c.0), omega arith)

leave-at :
    (states : States) (id : Text) (o : Option OperationState) (n : ℕ)
    → Counts o (1 + n)
    → Counts (lookup (leave states id o) id) n
unfolding leave
leave-at states id none n c = absurd (omega (arith, c))
leave-at states id (some state) n c = elim (Bool-cases (state.active - 1 == 0)) [
  | inl e ↦ rw (e, lookup-remove states id) (ground (arith, c.0, e))
  | inr e ↦
      rw (e, lookup-put states id (record state { active = state.active - 1 }))
        (omega (arith, c.0), ground (arith, c.0, e))
]

leave-other :
    (states : States) (id q : Text) (o : Option OperationState)
    → text_eq id q ≡ false
    → lookup (leave states id o) q ≡ lookup states q
unfolding leave
leave-other states id q none h = refl
leave-other states id q (some state) h = elim (Bool-cases (state.active - 1 == 0)) [
  | inl e ↦ rw e (lookup-remove-other states id q h)
  | inr e ↦ rw e (lookup-put-other states id q (record state { active = state.active - 1 }) h)
]

cancel-at :
    (states : States) (id : Text) (o : Option OperationState) (n : ℕ)
    → lookup states id ≡ o
    → Counts o n
    → Counts (lookup (cancel states id o).1 id) n
unfolding cancel
cancel-at states id none n e c = rw e c
cancel-at states id (some state) n e c =
    rw (lookup-put states id (record state { cancelled = true })) c

cancel-other :
    (states : States) (id q : Text) (o : Option OperationState)
    → text_eq id q ≡ false
    → lookup (cancel states id o).1 q ≡ lookup states q
unfolding cancel
cancel-other states id q none h = refl
cancel-other states id q (some state) h =
    lookup-put-other states id q (record state { cancelled = true }) h

-- A statement about one request and about the others is one about all.
each_request :
    (P : Text → Type 0) (id : Text)
    → P id
    → ((q : Text) → text_eq id q ≡ false → P q)
    → (q : Text) → P q
each_request P id same other q = elim (Bool-cases (text_eq id q)) [
  | inl e ↦ subst P (eq_of_text_eq id q e) same
  | inr e ↦ other q e
]

middle :
    (before after : List Text) (id q : Text)
    → count (λ g. text_eq g q) (before ++ id ∷ after)
      ≡ (if text_eq id q then 1 else 0) + count (λ g. text_eq g q) (before ++ after)
middle before after id q = omega (
  arith,
  count-append (λ g. text_eq g q) before (id ∷ after),
  count-append (λ g. text_eq g q) before after,
)

Step-Tracks : {w w' : World} → Step w w' → Tracks w → Tracks w'
unfolding enter_operation drop_guard cancel_operation
Step-Tracks (enters {w} id scope) t =
    each_request
      (λ q.
        Counts (lookup (enter_operation w.states id scope) q)
          ((if text_eq id q then 1 else 0) + held w q))
      id
      (rw (lookup-put w.states id _, text_eq_refl id)
        (enter-Counts (lookup w.states id) scope (held w id) (t id)))
      (λ q e. rw (lookup-put-other w.states id q _ e, e) (subst (Counts _) (omega arith) (t q)))
Step-Tracks (drops {states} before after id) t =
    each_request
      (λ q. Counts (lookup (drop_guard states id) q) (count (λ g. text_eq g q) (before ++ after)))
      id
      (leave-at states id (lookup states id) _ (
        subst (Counts (lookup states id)) (middle before after id id ∙ rw (text_eq_refl id) refl)
          (t id)))
      (λ q e.
        rw (leave-other states id q (lookup states id) e)
          (subst (Counts (lookup states q)) (middle before after id q ∙ rw e (omega arith)) (t q)))
Step-Tracks (cancels {w} id) t =
    each_request (λ q. Counts (lookup (cancel_operation w.states id).1 q) (held w q)) id
      (cancel-at w.states id (lookup w.states id) (held w id) refl (t id))
      (λ q e. rw (cancel-other w.states id q (lookup w.states id) e) (t q))

Reach-Tracks : {w : World} → Reach w → Tracks w
unfolding lookup
Reach-Tracks start = λ id. refl
Reach-Tracks (then_step r s) = Step-Tracks s (Reach-Tracks r)

-- Whatever operations are entered, left and cancelled, in whatever order: the entry of a request
-- counts the guards that are held for it, and a request without a guard has no entry.
pub Reach-count :
    {w : World} (id : Text)
    → Reach w
    → ((state : OperationState) → lookup w.states id ≡ some state → state.active ≡ held w id)
      × (held w id ≡ 0 → lookup w.states id ≡ none)
Reach-count {w} id r = counted (lookup w.states id) (held w id) (Reach-Tracks r id)
  where
    counted :
        (o : Option OperationState) (n : ℕ)
        → Counts o n
        → ((state : OperationState) → o ≡ some state → state.active ≡ n) × (n ≡ 0 → o ≡ none)
    counted none n c = ((λ state e. absurd (ground (arith, e))), λ z. refl)
    counted (some s) n c = (
      (λ state e. ap (λ o. (or_default o).active) (sym e) ∙ c.0),
      λ z. absurd (omega (arith, z, c.1)),
    )

cancel-answer :
    (states : States) (id : Text) (o : Option OperationState) (n : ℕ)
    → Counts o n
    → (cancel states id o).0 ≡ ltb 0 n
unfolding cancel
cancel-answer states id none n c = ground (arith, c)
cancel-answer states id (some state) n c = ground (arith, c.0, c.1)

cancel-marks :
    (states : States) (id : Text) (o : Option OperationState) (n : ℕ)
    → lookup states id ≡ o
    → Counts o n
    → ensure_active (cancel states id o).1 id ≡ (if ltb 0 n then err cancelled else ok tt)
unfolding cancel ensure_active
cancel-marks states id none n e c = rw e (ground (arith, c))
cancel-marks states id (some state) n e c =
    rw (lookup-put states id (record state { cancelled = true })) (ground (arith, c.1))

-- In every reachable state a cancellation answers true exactly if a guard is held for the request;
-- the request is then refused as cancelled, and one without a guard is not.
pub cancel_operation-held :
    {w : World} (id : Text)
    → Reach w
    → ((cancel_operation w.states id).0 ≡ ltb 0 (held w id))
      × (ensure_active (cancel_operation w.states id).1 id
          ≡ (if ltb 0 (held w id) then err cancelled else ok tt))
unfolding cancel_operation
cancel_operation-held {w} id r = (
  cancel-answer w.states id (lookup w.states id) (held w id) (Reach-Tracks r id),
  cancel-marks w.states id (lookup w.states id) (held w id) refl (Reach-Tracks r id),
)
