-- ===== src/Governance/Validation.antt =====
-- governance.rs, `MomoRuntimeSettings::validate`: which settings are accepted.
use momo_core.Prelude.{
  ℕ, ◌≤◌, ◌<◌, ◌≡◌, refl, Bool, true, false, not, ◌&&◌, ◌||◌, Option, none, some, List, [], ◌∷◌,
  arith, leb, ◌==◌, if◌then◌else◌, All, String, str_eq, Bool-cases, inl, inr, ◌↔◌, ok, err, ◌>>◌,
  unless,
}
use momo_core.Governance.Settings.{
  Floating, HistoryWindowSettings, LifecycleSettings, MaintenanceRuntimeSettings,
  MoStateRuntimeConfig, MomoRuntimeSettings, runtime_settings_schema_version, history_window,
  lifecycle, maintenance_intervals, mo_state_limits, reserved_parameter, unsupported_schema,
  invalid, Result,
}

-- `(low..=high).contains(&value)`
abbrev pub between : ℕ → ℕ → ℕ → Bool
between low high value = leb low value && leb value high

-- `const RESERVED`
abbrev pub reserved : List String
reserved =
    "model" ∷ "messages" ∷ "input" ∷ "stream" ∷ "context_window" ∷ "max_tokens"
    ∷ "max_output_tokens" ∷ "temperature" ∷ []

unfoldable pub has_name : List String → String → Bool
has_name [] s = false
has_name (x ∷ xs) s = str_eq x s || has_name xs s

-- `.iter().find(|field| RESERVED.contains(field))`
unfoldable pub find_reserved : List String → Option String
unfolding has_name
find_reserved [] = none
find_reserved (field ∷ rest) = if has_name reserved field then some field else find_reserved rest

-- No reserved name is found exactly when no listed name is reserved.
find_reserved-none :
    (names : List String)
    → find_reserved names ≡ none
    → All (λ p. has_name reserved p ≡ false) names
unfolding find_reserved
find_reserved-none [] h = tt
find_reserved-none (p ∷ rest) h = elim (Bool-cases (has_name reserved p)) [
  | inl e ↦ absurd (ground (arith, e))
  | inr e ↦ (e, find_reserved-none rest (ground (arith, e)))
]

none-find_reserved :
    (names : List String)
    → All (λ p. has_name reserved p ≡ false) names
    → find_reserved names ≡ none
unfolding find_reserved
none-find_reserved [] h = refl
none-find_reserved (p ∷ rest) h = rw (h.0, find_reserved) (none-find_reserved rest h.1)

module _ (float : Floating) where
  -- The tests of the `if`s, the second one that of `LifecycleSettings::validate`.
  unfoldable pub window_refused : HistoryWindowSettings → Bool
  window_refused w =
      not (between 2 1000 w.trigger_turns)
      || w.evict_turns == 0
      || leb w.trigger_turns w.evict_turns

  unfoldable pub lifecycle_refused : LifecycleSettings float → Bool
  lifecycle_refused s =
      not (between 1 1_000_000 s.decay_after_turns)
      || not (between 1 1_000_000 s.forget_after_turns)
      || not (float.is_finite s.decay_factor)
      || not (float.below_one s.decay_factor)
      || float.is_zero s.decay_factor

  unfoldable pub intervals_refused : MaintenanceRuntimeSettings → Bool
  intervals_refused r =
      not (between 1 200 r.memory_distill_every_turns)
      || not (between 1 200 r.nsg_govern_every_turns)

  unfoldable pub limits_refused : MoStateRuntimeConfig float → Bool
  limits_refused c =
      not (between 1 16 c.max_reconcile_steps)
      || not (between 1 32 c.max_agent_steps)
      || not (between 1_000 300_000 c.operation_timeout_ms)

  unfoldable pub refuse_reserved : Option String → Result (Unit {0})
  refuse_reserved none = ok tt
  refuse_reserved (some field) = err (invalid (reserved_parameter field))

  unfoldable pub validate_fields : MomoRuntimeSettings float → Result (Unit {0})
  validate_fields s = do
    unless (window_refused s.history_window) (invalid history_window)
    unless (lifecycle_refused s.mo_state.memory_lifecycle) (invalid lifecycle)
    unless (not (s.schema_version == runtime_settings_schema_version))
        (unsupported_schema s.schema_version)
    unless (intervals_refused s.runtime) (invalid maintenance_intervals)
    unless (limits_refused s.mo_state) (invalid mo_state_limits)
    refuse_reserved (find_reserved s.request_overrides.allowed_parameters)

  unfoldable pub validate : MomoRuntimeSettings float → Result (Unit {0})
  unfolding validate_fields
  validate s = do validate_fields s; ok tt

  -- The documented limits of each field.
  pub record IsValid (s : MomoRuntimeSettings float) : Type 0 where
    pub window :
        (2 ≤ s.history_window.trigger_turns)
        × (s.history_window.trigger_turns ≤ 1000)
        × (1 ≤ s.history_window.evict_turns)
        × (s.history_window.evict_turns < s.history_window.trigger_turns)
    pub life :
        (1 ≤ s.mo_state.memory_lifecycle.decay_after_turns)
        × (s.mo_state.memory_lifecycle.decay_after_turns ≤ 1_000_000)
        × (1 ≤ s.mo_state.memory_lifecycle.forget_after_turns)
        × (s.mo_state.memory_lifecycle.forget_after_turns ≤ 1_000_000)
        × (float.is_finite s.mo_state.memory_lifecycle.decay_factor ≡ true)
        × (float.below_one s.mo_state.memory_lifecycle.decay_factor ≡ true)
        × (float.is_zero s.mo_state.memory_lifecycle.decay_factor ≡ false)
    pub schema : s.schema_version ≡ runtime_settings_schema_version
    pub intervals :
        (1 ≤ s.runtime.memory_distill_every_turns)
        × (s.runtime.memory_distill_every_turns ≤ 200)
        × (1 ≤ s.runtime.nsg_govern_every_turns)
        × (s.runtime.nsg_govern_every_turns ≤ 200)
    pub limits :
        (1 ≤ s.mo_state.max_reconcile_steps)
        × (s.mo_state.max_reconcile_steps ≤ 16)
        × (1 ≤ s.mo_state.max_agent_steps)
        × (s.mo_state.max_agent_steps ≤ 32)
        × (1_000 ≤ s.mo_state.operation_timeout_ms)
        × (s.mo_state.operation_timeout_ms ≤ 300_000)
    pub parameters : All (λ p. has_name reserved p ≡ false) s.request_overrides.allowed_parameters

  -- Each test says that one of its limits is not kept.
  window_lem :
      (w : HistoryWindowSettings)
      → (window_refused w ≡ false) ↔ (
          (2 ≤ w.trigger_turns)
          × (w.trigger_turns ≤ 1000)
          × (1 ≤ w.evict_turns)
          × (w.evict_turns < w.trigger_turns))
  unfolding window_refused
  window_lem w = (λ h. (ground arith, ground arith, ground arith, ground arith), λ h. ground arith)

  lifecycle_lem :
      (l : LifecycleSettings float)
      → (lifecycle_refused l ≡ false) ↔ (
          (1 ≤ l.decay_after_turns)
          × (l.decay_after_turns ≤ 1_000_000)
          × (1 ≤ l.forget_after_turns)
          × (l.forget_after_turns ≤ 1_000_000)
          × (float.is_finite l.decay_factor ≡ true)
          × (float.below_one l.decay_factor ≡ true)
          × (float.is_zero l.decay_factor ≡ false))
  unfolding lifecycle_refused
  lifecycle_lem l = (
    λ h. (
      ground arith,
      ground arith,
      ground arith,
      ground arith,
      ground arith,
      ground arith,
      ground arith,
    ),
    λ h. ground arith,
  )

  intervals_lem :
      (r : MaintenanceRuntimeSettings)
      → (intervals_refused r ≡ false) ↔ (
          (1 ≤ r.memory_distill_every_turns)
          × (r.memory_distill_every_turns ≤ 200)
          × (1 ≤ r.nsg_govern_every_turns)
          × (r.nsg_govern_every_turns ≤ 200))
  unfolding intervals_refused
  intervals_lem r =
      (λ h. (ground arith, ground arith, ground arith, ground arith), λ h. ground arith)

  limits_lem :
      (c : MoStateRuntimeConfig float)
      → (limits_refused c ≡ false) ↔ (
          (1 ≤ c.max_reconcile_steps)
          × (c.max_reconcile_steps ≤ 16)
          × (1 ≤ c.max_agent_steps)
          × (c.max_agent_steps ≤ 32)
          × (1_000 ≤ c.operation_timeout_ms)
          × (c.operation_timeout_ms ≤ 300_000))
  unfolding limits_refused
  limits_lem c = (
    λ h. (ground arith, ground arith, ground arith, ground arith, ground arith, ground arith),
    λ h. ground arith,
  )

  -- The checks that `validate` makes, passed one after the other.
  validate_passed :
      (s : MomoRuntimeSettings float)
      → (validate s ≡ ok tt) ↔ (
          (window_refused s.history_window ≡ false)
          × (lifecycle_refused s.mo_state.memory_lifecycle ≡ false)
          × (s.schema_version ≡ runtime_settings_schema_version)
          × (intervals_refused s.runtime ≡ false)
          × (limits_refused s.mo_state ≡ false)
          × (find_reserved s.request_overrides.allowed_parameters ≡ none))
  unfolding validate refuse_reserved
  validate_passed s = (
    λ h. (ground arith, ground arith, ground arith, ground arith, ground arith, ground arith),
    λ h. ground arith,
  )

  -- `validate` accepts exactly the settings that keep every documented limit.
  pub validate-IsValid : (s : MomoRuntimeSettings float) → (validate s ≡ ok tt) ↔ IsValid s
  validate-IsValid s = (forth, back)
    where
      forth : validate s ≡ ok tt → IsValid s
      forth h =
          let (w, l, v, i, m, p) = (validate_passed s).0 h in
          let ws = (window_lem s.history_window).0 w in
          let ls = (lifecycle_lem s.mo_state.memory_lifecycle).0 l in
          let is = (intervals_lem s.runtime).0 i in
          let ms = (limits_lem s.mo_state).0 m in
          record {
            window = ws;
            life = ls;
            schema = v;
            intervals = is;
            limits = ms;
            parameters = find_reserved-none _ p;
          }

      back : IsValid s → validate s ≡ ok tt
      back h = (validate_passed s).1 (
        (window_lem s.history_window).1 h.window,
        (lifecycle_lem s.mo_state.memory_lifecycle).1 h.life,
        h.schema,
        (intervals_lem s.runtime).1 h.intervals,
        (limits_lem s.mo_state).1 h.limits,
        none-find_reserved _ h.parameters,
      )
