-- ===== src/Governance/Audit.antt =====
-- What a governed request keeps of the request, and what the audit says about it.
use mathlib.Core.List.{append-nil, append_assoc}
use momo_core.Prelude.{
  ℕ, ◌-◌, ◌≡◌, inl, inr, Bool, true, false, not, ◌||◌, Option, none, some, List, [], ◌∷◌, ◌++◌,
  arith, min, String, Text, Bool-cases, ok, >>=-ok,
}
use momo_core.Governance.Settings.{
  OverrideMode, allow, ignore, reject, RequestOverridePolicy, Floating,
}
use momo_core.Governance.Validation.{has_name}
use momo_core.Governance.Overrides.{
  Log, RequestedOverrides, GovernedOverrides, governed_usize, governed_text, text_by_mode, nonblank,
  governed_temperature, governed_tools, governed_parameters, apply, is_some, is_allow, note_applied,
}
use momo_core.Governance.Bounds.{apply-Stages, chosen}

-- The marks that a requested field leaves in a vector of the audit.
abbrev pub mark_applied : OverrideMode → Bool → String → List String
mark_applied allow true field = field ∷ []
mark_applied _ _ field = []

abbrev pub mark_ignored : OverrideMode → Bool → String → List String
mark_ignored ignore true field = field ∷ []
mark_ignored _ _ field = []

-- The request, where it is allowed.
abbrev pub kept {ℓ} : {A : Type ℓ} → OverrideMode → Option A → Option A
kept allow o = o
kept _ o = none

-- What a stage did to the log.
abbrev Marked : OverrideMode → Bool → String → Log → Log → Type 0
Marked mode requested field log log' =
    (log'.applied ≡ log.applied ++ mark_applied mode requested field)
    × (log'.ignored ≡ log.ignored ++ mark_ignored mode requested field)

usize-Marked :
    (field : String) (mode : OverrideMode) (r : Option ℕ) (d lo hi : ℕ) (log log' : Log) (v : ℕ)
    → governed_usize field mode r d lo hi log ≡ ok (v, log')
    → (v ≡ chosen mode r d) × Marked mode (is_some r) field log log'
unfolding governed_usize
usize-Marked field allow none d lo hi log log' v h =
    ground (arith, append-nil log.applied, append-nil log.ignored)
usize-Marked field allow (some x) d lo hi log log' v h =
    ground (arith, append-nil log.applied, append-nil log.ignored)
usize-Marked field ignore none d lo hi log log' v h =
    ground (arith, append-nil log.applied, append-nil log.ignored)
usize-Marked field ignore (some x) d lo hi log log' v h =
    ground (arith, append-nil log.applied, append-nil log.ignored)
usize-Marked field reject none d lo hi log log' v h =
    ground (arith, append-nil log.applied, append-nil log.ignored)
usize-Marked field reject (some x) d lo hi log log' v h = absurd (ground arith)

text-Marked :
    (field : String) (mode : OverrideMode) (r : Option Text) (log log' : Log) (v : Option Text)
    → text_by_mode field mode r log ≡ ok (v, log')
    → (v ≡ kept mode r) × Marked mode (is_some r) field log log'
unfolding text_by_mode
text-Marked field allow none log log' v h =
    ground (arith, append-nil log.applied, append-nil log.ignored)
text-Marked field allow (some x) log log' v h =
    ground (arith, append-nil log.applied, append-nil log.ignored)
text-Marked field ignore none log log' v h =
    ground (arith, append-nil log.applied, append-nil log.ignored)
text-Marked field ignore (some x) log log' v h =
    ground (arith, append-nil log.applied, append-nil log.ignored)
text-Marked field reject none log log' v h =
    ground (arith, append-nil log.applied, append-nil log.ignored)
text-Marked field reject (some x) log log' v h = absurd (ground arith)

tools-Marked :
    (mode : OverrideMode) (r : Bool) (log log' : Log) (v : Bool)
    → governed_tools mode r log ≡ ok (v, log')
    → (v ≡ (not r || is_allow mode)) × Marked mode r "tools" log log'
unfolding governed_tools
tools-Marked allow false log log' v h =
    ground (arith, append-nil log.applied, append-nil log.ignored)
tools-Marked allow true log log' v h =
    ground (arith, append-nil log.applied, append-nil log.ignored)
tools-Marked ignore false log log' v h =
    ground (arith, append-nil log.applied, append-nil log.ignored)
tools-Marked ignore true log log' v h =
    ground (arith, append-nil log.applied, append-nil log.ignored)
tools-Marked reject false log log' v h =
    ground (arith, append-nil log.applied, append-nil log.ignored)
tools-Marked reject true log log' v h = absurd (ground arith)

module _ (float : Floating) (Value : Type 0) where
  temperature-Marked :
      (mode : OverrideMode) (r : Option float.Number) (log log' : Log) (v : Option float.Number)
      → governed_temperature float Value mode r log ≡ ok (v, log')
      → (v ≡ kept mode r) × Marked mode (is_some r) "temperature" log log'
  unfolding governed_temperature
  temperature-Marked allow none log log' v h =
      ground (arith, append-nil log.applied, append-nil log.ignored)
  temperature-Marked allow (some x) log log' v h =
      ground (arith, append-nil log.applied, append-nil log.ignored)
  temperature-Marked ignore none log log' v h =
      ground (arith, append-nil log.applied, append-nil log.ignored)
  temperature-Marked ignore (some x) log log' v h =
      ground (arith, append-nil log.applied, append-nil log.ignored)
  temperature-Marked reject none log log' v h =
      ground (arith, append-nil log.applied, append-nil log.ignored)
  temperature-Marked reject (some x) log log' v h = absurd (ground arith)

  -- One mark for each parameter.
  abbrev pub parameter_marks : List (String × Value) → List String
  parameter_marks [] = []
  parameter_marks (p ∷ rest) = "parameter" ∷ parameter_marks rest

  parameters-kept :
      (allowed : List String) (requested kept' : List (String × Value)) (log log' : Log)
      → governed_parameters float Value allowed requested log ≡ ok (kept', log')
      → (kept' ≡ requested)
        × (log'.applied ≡ log.applied ++ parameter_marks requested)
        × (log'.ignored ≡ log.ignored)
  unfolding governed_parameters
  parameters-kept allowed [] kept' log log' h = ground (arith, append-nil log.applied)
  parameters-kept allowed ((key, value) ∷ rest) kept' log log' h =
      elim (Bool-cases (has_name allowed key)) [
        | inr e ↦ absurd (ground (arith, e))
        | inl e ↦
            let (a, p, q) =
              >>=-ok (governed_parameters float Value allowed rest (note_applied log "parameter")) _
                (rw (e, governed_parameters) at h) in
            ground (
              arith,
              q,
              parameters-kept allowed rest a.0 (note_applied log "parameter") a.1 p,
              append_assoc log.applied ("parameter" ∷ []) (parameter_marks rest),
            )
      ]

  module _ (policy : RequestOverridePolicy) (capability route : ℕ)
      (requested : RequestedOverrides float Value) (g : GovernedOverrides float Value) where
    -- A governed request takes every allowed override and no other: each field is the request's
    -- where its mode is Allow, and otherwise the default or nothing; blank texts count as not
    -- requested, and all parameters are passed on.
    pub apply-kept :
        apply float Value policy capability route requested ≡ ok g
        → (g.context_window ≡ chosen policy.context_window requested.context_window capability)
          × (g.max_output_tokens
              ≡ chosen policy.max_output_tokens requested.max_output_tokens
                  (min route (g.context_window - 1)))
          × (g.temperature ≡ kept policy.sampling requested.temperature)
          × (g.instructions ≡ kept policy.instructions (nonblank requested.instructions))
          × (g.visual_description_prompt
              ≡ kept policy.visual_description_prompt
                  (nonblank requested.visual_description_prompt))
          × (g.allow_tools ≡ (not requested.tool_configuration_requested || is_allow policy.tools))
          × (g.parameters ≡ requested.parameters)
    unfolding governed_text
    apply-kept h =
        let s = apply-Stages float Value policy capability route requested h in
        (
          (usize-Marked _ _ _ _ _ _ _ s.log1 _ s.context).0,
          (usize-Marked _ _ _ _ _ _ s.log1 s.log2 _ s.output).0,
          (temperature-Marked _ _ s.log2 s.log3 _ s.sampled).0,
          (text-Marked _ _ _ s.log3 s.log4 _ s.instructed).0,
          (text-Marked _ _ _ s.log4 s.log5 _ s.described).0,
          (tools-Marked _ _ s.log5 s.log6 _ s.tooled).0,
          (parameters-kept _ _ _ s.log6 s.log7 s.passed).0,
        )

    -- The audit names exactly the overrides that took effect and those that were ignored, in the
    -- order in which the fields are governed: a field is in `applied` if it was requested and
    -- allowed, in `ignored` if it was requested and its mode is Ignore, and each parameter adds
    -- one entry to `applied`.
    pub apply-audit :
        apply float Value policy capability route requested ≡ ok g
        → (g.audit.applied
            ≡ mark_applied policy.context_window (is_some requested.context_window) "context_window"
              ++ (mark_applied policy.max_output_tokens
                    (is_some requested.max_output_tokens)
                    "max_output_tokens"
                  ++ (mark_applied policy.sampling (is_some requested.temperature) "temperature"
                      ++ (mark_applied policy.instructions
                            (is_some (nonblank requested.instructions))
                            "instructions"
                          ++ (mark_applied policy.visual_description_prompt
                                (is_some (nonblank requested.visual_description_prompt))
                                "visual_description_prompt"
                              ++ (mark_applied policy.tools requested.tool_configuration_requested
                                    "tools"
                                  ++ parameter_marks requested.parameters))))))
          × (g.audit.ignored
              ≡ mark_ignored policy.context_window
                  (is_some requested.context_window)
                  "context_window"
                ++ (mark_ignored policy.max_output_tokens
                      (is_some requested.max_output_tokens)
                      "max_output_tokens"
                    ++ (mark_ignored policy.sampling (is_some requested.temperature) "temperature"
                        ++ (mark_ignored policy.instructions
                              (is_some (nonblank requested.instructions))
                              "instructions"
                            ++ (mark_ignored policy.visual_description_prompt
                                  (is_some (nonblank requested.visual_description_prompt))
                                  "visual_description_prompt"
                                ++ mark_ignored policy.tools requested.tool_configuration_requested
                                    "tools")))))
    unfolding governed_text
    apply-audit h =
        let s = apply-Stages float Value policy capability route requested h in
        let m1 = (usize-Marked _ _ _ _ _ _ _ s.log1 _ s.context) in
        let m2 = (usize-Marked _ _ _ _ _ _ s.log1 s.log2 _ s.output) in
        let m3 = (temperature-Marked _ _ s.log2 s.log3 _ s.sampled) in
        let m4 = (text-Marked _ _ _ s.log3 s.log4 _ s.instructed) in
        let m5 = (text-Marked _ _ _ s.log4 s.log5 _ s.described) in
        let m6 = (tools-Marked _ _ s.log5 s.log6 _ s.tooled) in
        let m7 = (parameters-kept _ _ _ s.log6 s.log7 s.passed) in
        (
          rw (s.applied, m7.1, m6.1.0, m5.1.0, m4.1.0, m3.1.0, m2.1.0, m1.1.0) (simp append_assoc),
          rw (s.ignored, m7.2, m6.1.1, m5.1.1, m4.1.1, m3.1.1, m2.1.1, m1.1.1) (simp append_assoc),
        )
