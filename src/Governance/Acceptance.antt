-- ===== src/Governance/Acceptance.antt =====
-- Which requests the policy accepts, and the disabled visual description.
use momo_core.Prelude.{
  ℕ, ◌-◌, ◌≤◌, ◌≡◌, refl, subst, inl, inr, ◌↔◌, Bool, true, false, Option, none, some, List, [],
  ◌∷◌, arith, min, if◌then◌else◌, String, Text, All, Bool-cases, ok, >>=-ok, ok-injective, Succeeds,
  Succeeds-bind,
}
use momo_core.Governance.Settings.{
  OverrideMode, allow, ignore, reject, RequestOverridePolicy, Floating, MomoRuntimeSettings,
}
use momo_core.Governance.Validation.{has_name}
use momo_core.Governance.Overrides.{
  Log, RequestedOverrides, GovernedOverrides, governed_usize, governed_text, text_by_mode, nonblank,
  governed_temperature, governed_tools, governed_parameters, apply, is_some, note_applied,
  with_vision, govern,
}
use momo_core.Governance.Bounds.{apply-Stages, chosen, governed_usize-chosen}

-- A bounded field is acceptable if it is not requested, ignored, or allowed and within its bounds.
abbrev pub InBounds : OverrideMode → ℕ → ℕ → Option ℕ → Type 0
InBounds allow lo hi (some v) = (lo ≤ v) × (v ≤ hi)
InBounds reject lo hi (some v) = ⊥
InBounds _ lo hi _ = Unit {0}

abbrev pub NotRejected : OverrideMode → Bool → Type 0
NotRejected reject true = ⊥
NotRejected _ _ = Unit {0}

usize-InBounds :
    (field : String) (mode : OverrideMode) (r : Option ℕ) (d lo hi : ℕ) (log : Log)
    → ((a : ℕ × Log) × (governed_usize field mode r d lo hi log ≡ ok a)) ↔ InBounds mode lo hi r
unfolding governed_usize
usize-InBounds field allow none d lo hi log = (λ h. tt, λ h. ((d, log), refl))
usize-InBounds field ignore none d lo hi log = (λ h. tt, λ h. ((d, log), refl))
usize-InBounds field reject none d lo hi log = (λ h. tt, λ h. ((d, log), refl))
usize-InBounds field allow (some x) d lo hi log =
    (λ h. ground (arith, h.1), λ h. ((x, note_applied log field), ground arith))
usize-InBounds field ignore (some x) d lo hi log = (λ h. tt, λ h. (_, refl))
usize-InBounds field reject (some x) d lo hi log = (λ h. ground (arith, h.1), λ h. absurd h)

text-NotRejected :
    (field : String) (mode : OverrideMode) (r : Option Text) (log : Log)
    → ((a : Option Text × Log) × (text_by_mode field mode r log ≡ ok a))
      ↔ NotRejected mode (is_some r)
unfolding text_by_mode
text-NotRejected field allow none log = (λ h. tt, λ h. (_, refl))
text-NotRejected field ignore none log = (λ h. tt, λ h. (_, refl))
text-NotRejected field reject none log = (λ h. tt, λ h. (_, refl))
text-NotRejected field allow (some x) log = (λ h. tt, λ h. (_, refl))
text-NotRejected field ignore (some x) log = (λ h. tt, λ h. (_, refl))
text-NotRejected field reject (some x) log = (λ h. ground (arith, h.1), λ h. absurd h)

tools-NotRejected :
    (mode : OverrideMode) (r : Bool) (log : Log)
    → ((a : Bool × Log) × (governed_tools mode r log ≡ ok a)) ↔ NotRejected mode r
unfolding governed_tools
tools-NotRejected allow false log = (λ h. tt, λ h. (_, refl))
tools-NotRejected ignore false log = (λ h. tt, λ h. (_, refl))
tools-NotRejected reject false log = (λ h. tt, λ h. (_, refl))
tools-NotRejected allow true log = (λ h. tt, λ h. (_, refl))
tools-NotRejected ignore true log = (λ h. tt, λ h. (_, refl))
tools-NotRejected reject true log = (λ h. ground (arith, h.1), λ h. absurd h)

module _ (float : Floating) (Value : Type 0) where
  abbrev pub Sampled : OverrideMode → Option float.Number → Type 0
  Sampled allow (some v) = float.up_to_two v ≡ true
  Sampled reject (some v) = ⊥
  Sampled _ _ = Unit {0}

  temperature-Sampled :
      (mode : OverrideMode) (r : Option float.Number) (log : Log)
      → Succeeds (governed_temperature float Value mode r log) ↔ Sampled mode r
  unfolding governed_temperature
  temperature-Sampled allow none log = (λ h. tt, λ h. (_, refl))
  temperature-Sampled ignore none log = (λ h. tt, λ h. (_, refl))
  temperature-Sampled reject none log = (λ h. tt, λ h. (_, refl))
  temperature-Sampled allow (some x) log =
      (λ h. ground (arith, h.1), λ h. ((some x, note_applied log "temperature"), ground arith))
  temperature-Sampled ignore (some x) log = (λ h. tt, λ h. (_, refl))
  temperature-Sampled reject (some x) log = (λ h. ground (arith, h.1), λ h. absurd h)

  parameters-forth :
      (allowed : List String) (ps : List (String × Value)) (log : Log)
      → Succeeds (governed_parameters float Value allowed ps log)
      → All (λ p. has_name allowed p.0 ≡ true) ps
  unfolding governed_parameters
  parameters-forth allowed [] log h = tt
  parameters-forth allowed ((key, value) ∷ rest) log (r, h) =
      elim (Bool-cases (has_name allowed key)) [
        | inr e ↦ absurd (ground (arith, e))
        | inl e ↦
            let (a, p, q) =
              >>=-ok (governed_parameters float Value allowed rest (note_applied log "parameter")) _
                (rw (e, governed_parameters) at h) in
            (e, parameters-forth allowed rest (note_applied log "parameter") (a, p))
      ]

  parameters-back :
      (allowed : List String) (ps : List (String × Value)) (log : Log)
      → All (λ p. has_name allowed p.0 ≡ true) ps
      → Succeeds (governed_parameters float Value allowed ps log)
  unfolding governed_parameters
  parameters-back allowed [] log h = (_, refl)
  parameters-back allowed ((key, value) ∷ rest) log h =
      let (a, p) = parameters-back allowed rest (note_applied log "parameter") h.1 in
      (((key, value) ∷ a.0, a.1), rw (h.0, p, governed_parameters) refl)

  -- What the policy, the capability and the route let through.
  pub record IsAcceptable (policy : RequestOverridePolicy) (capability route : ℕ)
      (requested : RequestedOverrides float Value) : Type 0 where
    pub window : InBounds policy.context_window 256 capability requested.context_window
    pub output :
        InBounds policy.max_output_tokens 1
          (min route (chosen policy.context_window requested.context_window capability - 1))
          requested.max_output_tokens
    pub sampled : Sampled policy.sampling requested.temperature
    pub instructed : NotRejected policy.instructions (is_some (nonblank requested.instructions))
    pub described :
        NotRejected policy.visual_description_prompt
          (is_some (nonblank requested.visual_description_prompt))
    pub tooled : NotRejected policy.tools requested.tool_configuration_requested
    pub passed : All (λ p. has_name policy.allowed_parameters p.0 ≡ true) requested.parameters

  module _ (policy : RequestOverridePolicy) (capability route : ℕ)
      (requested : RequestedOverrides float Value) where
    IsAcceptable-of-apply :
        Succeeds (apply float Value policy capability route requested)
        → IsAcceptable policy capability route requested
    unfolding governed_text
    IsAcceptable-of-apply (g, h) =
        let s = apply-Stages float Value policy capability route requested h in
        let c = (governed_usize-chosen _ _ _ _ _ _ _ s.log1 g.context_window s.context).0 in
        record {
          window = (usize-InBounds _ _ _ _ _ _ _).0 (_, s.context);
          output = rw (← c) ((usize-InBounds _ _ _ _ _ _ s.log1).0 (_, s.output));
          sampled = (temperature-Sampled _ _ s.log2).0 (_, s.sampled);
          instructed = (text-NotRejected _ _ _ s.log3).0 (_, s.instructed);
          described = (text-NotRejected _ _ _ s.log4).0 (_, s.described);
          tooled = (tools-NotRejected _ _ s.log5).0 (_, s.tooled);
          passed = parameters-forth _ _ s.log6 (_, s.passed);
        }

    apply-of-IsAcceptable :
        IsAcceptable policy capability route requested
        → Succeeds (apply float Value policy capability route requested)
    unfolding apply governed_text
    apply-of-IsAcceptable v = Succeeds-bind _ _ ((usize-InBounds _ _ _ _ _ _ _).1 v.window) λ a1 e1.
        Succeeds-bind _ _
          ((usize-InBounds _ _ _ _ _ _ _).1
            (rw (governed_usize-chosen _ _ _ _ _ _ _ a1.1 a1.0 e1).0 v.output))
          λ a2 e2. Succeeds-bind _ _ ((temperature-Sampled _ _ a2.1).1 v.sampled) λ a3 e3.
            Succeeds-bind _ _ ((text-NotRejected _ _ _ a3.1).1 v.instructed) λ a4 e4.
              Succeeds-bind _ _ ((text-NotRejected _ _ _ a4.1).1 v.described) λ a5 e5.
                Succeeds-bind _ _ ((tools-NotRejected _ _ a5.1).1 v.tooled)
                  λ a6 e6. Succeeds-bind _ _ (parameters-back _ _ a6.1 v.passed) λ a7 e7. (_, refl)

    -- `apply` succeeds exactly on the acceptable requests: no field is requested whose mode is
    -- Reject, every allowed number is within its bounds, and every parameter is on the list.
    pub apply-IsAcceptable :
        ((g : GovernedOverrides float Value) × (apply float Value policy capability route requested
            ≡ ok g))
        ↔ IsAcceptable policy capability route requested
    apply-IsAcceptable = (IsAcceptable-of-apply, apply-of-IsAcceptable)

module _ (float : Floating) (Value : Type 0) where
  -- `g` is `a` without its visual prompt, which the audit mentions.
  pub record Undescribed (asked : Bool) (a g : GovernedOverrides float Value) : Type 0 where
    pub prompt : g.visual_description_prompt ≡ none
    pub source :
        g.audit.visual_description_prompt_source
        ≡ some (if asked then "disabled_request_ignored" else "disabled")
    pub window : g.context_window ≡ a.context_window
    pub output : g.max_output_tokens ≡ a.max_output_tokens
    pub instructed : g.instructions ≡ a.instructions
    pub passed : g.parameters ≡ a.parameters
    pub applied : g.audit.applied ≡ a.audit.applied
    pub ignored : g.audit.ignored ≡ a.audit.ignored

  with_vision-Undescribed :
      (enabled asked : Bool) (a : GovernedOverrides float Value)
      → enabled ≡ false
      → Undescribed asked a (with_vision float Value enabled asked a)
  unfolding with_vision
  with_vision-Undescribed true asked a off = absurd (ground arith)
  with_vision-Undescribed false asked a off = record {
    prompt = refl;
    source = refl;
    window = refl;
    output = refl;
    instructed = refl;
    passed = refl;
    applied = refl;
    ignored = refl;
  }

  -- Where the settings disable the visual description, a governed request has no visual prompt and
  -- the audit tells whether one was asked for; the limits, the instructions, the parameters and the
  -- lists of applied and ignored overrides are those that the policy alone decides.
  pub govern-disabled :
      (settings : MomoRuntimeSettings float) (capability route : ℕ)
      (requested : RequestedOverrides float Value) (g : GovernedOverrides float Value)
      → settings.vision.enabled ≡ false
      → govern float Value settings capability route requested ≡ ok g
      → (a : GovernedOverrides float Value) × (apply float Value settings.request_overrides
            capability route requested
          ≡ ok a)
        × Undescribed (is_some (nonblank requested.visual_description_prompt)) a g
  unfolding govern
  govern-disabled settings capability route requested g off h =
      let (a, e, same) = >>=-ok _ _ h in
      (
        a,
        e,
        subst (Undescribed _ a) (ok-injective same)
            (with_vision-Undescribed settings.vision.enabled _ a off),
      )
