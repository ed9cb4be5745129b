-- ===== src/Governance/Bounds.antt =====
-- A governed request: what every stage of `apply` returned, and the bounds that follow.
use momo_core.Prelude.{
  ℕ, ◌-◌, ◌≤◌, ◌<◌, ◌≡◌, refl, ◌⊎◌, Option, none, some, [], arith, min, String, subst, ok, >>=-ok,
  ok-injective,
}
use momo_core.Governance.Settings.{
  OverrideMode, allow, ignore, reject, RequestOverridePolicy, Floating,
}
use momo_core.Governance.Overrides.{
  Log, RequestedOverrides, GovernedOverrides, governed_usize, governed_text, governed_temperature,
  governed_tools, governed_parameters, apply,
}

module _ (float : Floating) (Value : Type 0) where
  -- The intermediate results of an `apply` that succeeds.
  pub record Stages (policy : RequestOverridePolicy) (capability route : ℕ)
      (requested : RequestedOverrides float Value) (g : GovernedOverrides float Value)
      : Type 0 where
    pub log1 : Log
    pub log2 : Log
    pub log3 : Log
    pub log4 : Log
    pub log5 : Log
    pub log6 : Log
    pub log7 : Log
    pub context :
        governed_usize "context_window" policy.context_window requested.context_window capability
          256 capability
          (record { applied = []; ignored = [] })
        ≡ ok (g.context_window, log1)
    pub output :
        governed_usize "max_output_tokens" policy.max_output_tokens requested.max_output_tokens
          (min route (g.context_window - 1))
          1
          (min route (g.context_window - 1))
          log1
        ≡ ok (g.max_output_tokens, log2)
    pub sampled :
        governed_temperature float Value policy.sampling requested.temperature log2
        ≡ ok (g.temperature, log3)
    pub instructed :
        governed_text "instructions" policy.instructions requested.instructions log3
        ≡ ok (g.instructions, log4)
    pub described :
        governed_text "visual_description_prompt" policy.visual_description_prompt
          requested.visual_description_prompt log4
        ≡ ok (g.visual_description_prompt, log5)
    pub tooled :
        governed_tools policy.tools requested.tool_configuration_requested log5
        ≡ ok (g.allow_tools, log6)
    pub passed :
        governed_parameters float Value policy.allowed_parameters requested.parameters log6
        ≡ ok (g.parameters, log7)
    pub applied : g.audit.applied ≡ log7.applied
    pub ignored : g.audit.ignored ≡ log7.ignored

  pub apply-Stages :
      (policy : RequestOverridePolicy) (capability route : ℕ)
      (requested : RequestedOverrides float Value) {g : GovernedOverrides float Value}
      → apply float Value policy capability route requested ≡ ok g
      → Stages policy capability route requested g
  unfolding apply
  apply-Stages policy capability route requested {g} h =
      let (a1, e1, h1) = >>=-ok _ _ h in
      let (a2, e2, h2) = >>=-ok _ _ h1 in
      let (a3, e3, h3) = >>=-ok _ _ h2 in
      let (a4, e4, h4) = >>=-ok _ _ h3 in
      let (a5, e5, h5) = >>=-ok _ _ h4 in
      let (a6, e6, h6) = >>=-ok _ _ h5 in
      let (a7, e7, h7) = >>=-ok _ _ h6 in
      subst (Stages policy capability route requested) (ok-injective h7) (record {
        log1 = a1.1;
        log2 = a2.1;
        log3 = a3.1;
        log4 = a4.1;
        log5 = a5.1;
        log6 = a6.1;
        log7 = a7.1;
        context = e1;
        output = e2;
        sampled = e3;
        instructed = e4;
        described = e5;
        tooled = e6;
        passed = e7;
        applied = refl;
        ignored = refl;
      })

-- What a bounded field becomes: the request where it is allowed, and the default otherwise.
abbrev pub chosen {ℓ} : {A : Type ℓ} → OverrideMode → Option A → A → A
chosen allow (some value) default = value
chosen _ _ default = default

pub governed_usize-chosen :
    (field : String) (mode : OverrideMode) (r : Option ℕ) (d lo hi : ℕ) (log log' : Log) (v : ℕ)
    → governed_usize field mode r d lo hi log ≡ ok (v, log')
    → (v ≡ chosen mode r d) × ((v ≡ d) ⊎ ((lo ≤ v) × (v ≤ hi)))
unfolding governed_usize
governed_usize-chosen field allow none d lo hi log log' v h = (ground arith, ground arith)
governed_usize-chosen field ignore none d lo hi log log' v h = (ground arith, ground arith)
governed_usize-chosen field reject none d lo hi log log' v h = (ground arith, ground arith)
governed_usize-chosen field allow (some x) d lo hi log log' v h = (ground arith, ground arith)
governed_usize-chosen field ignore (some x) d lo hi log log' v h = (ground arith, ground arith)
governed_usize-chosen field reject (some x) d lo hi log log' v h = absurd (ground arith)

module _ (float : Floating) (Value : Type 0) where
  -- Whatever the policy and the request, a governed response has a context window of at most the
  -- capability's, of at least 256 unless it is that very window, and an output limit that the
  -- route allows and that leaves at least one token of a nonempty window to the input.
  pub apply_bounds :
      (policy : RequestOverridePolicy) (capability route : ℕ)
      (requested : RequestedOverrides float Value) (g : GovernedOverrides float Value)
      → apply float Value policy capability route requested ≡ ok g
      → (g.context_window ≤ capability)
        × ((g.context_window ≡ capability) ⊎ (256 ≤ g.context_window))
        × (g.max_output_tokens ≤ route)
        × (0 < g.context_window → g.max_output_tokens < g.context_window)
  apply_bounds policy capability route requested g h =
      let s = apply-Stages float Value policy capability route requested h in
      let c = (governed_usize-chosen _ _ _ _ _ _ _ s.log1 g.context_window s.context).1 in
      let o = (governed_usize-chosen _ _ _ _ _ _ s.log1 s.log2 g.max_output_tokens s.output).1 in
      (ground arith, ground arith, omega arith, λ p. omega arith)
