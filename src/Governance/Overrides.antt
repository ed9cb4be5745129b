-- ===== src/Governance/Overrides.antt =====
-- governance.rs, `RequestOverridePolicy::apply` and `MomoRuntimeSettings::govern`: what a request
-- may override, field by field.
use momo_core.Prelude.{
  ℕ, ◌-◌, Bool, true, false, not, ◌&&◌, Option, none, some, List, [], ◌∷◌, ◌++◌, map, min,
  if◌then◌else◌, String, Text, is_empty, trim, ok, err, ◌>>=◌,
}
use momo_core.Governance.Settings.{
  OverrideMode, allow, ignore, reject, RequestOverridePolicy, Floating, MomoRuntimeSettings,
  temperature_range, rejected, parameter_not_allowed, out_of_range, invalid, Result,
}
use momo_core.Governance.Validation.{between, has_name}

abbrev pub is_some {ℓ} : {A : Type ℓ} → Option A → Bool
is_some none = false
is_some (some a) = true

abbrev pub is_allow : OverrideMode → Bool
is_allow allow = true
is_allow _ = false

-- The vectors `applied` and `ignored`.
pub record Log : Type 0 where
  pub applied : List String
  pub ignored : List String

abbrev pub note_applied : Log → String → Log
note_applied log field = record log { applied = log.applied ++ field ∷ [] }

abbrev pub note_ignored : Log → String → Log
note_ignored log field = record log { ignored = log.ignored ++ field ∷ [] }

unfoldable pub governed_usize :
    String → OverrideMode → Option ℕ → ℕ → ℕ → ℕ → Log → Result (ℕ × Log)
governed_usize field mode none default low high log = ok (default, log)
governed_usize field allow (some value) default low high log =
    if between low high value
    then ok (value, note_applied log field)
    else err (out_of_range field value low high)
governed_usize field ignore (some value) default low high log = ok (default, note_ignored log field)
governed_usize field reject (some value) default low high log = err (rejected field)

-- `requested.filter(|value| !value.trim().is_empty())`
unfoldable pub nonblank : Option Text → Option Text
nonblank none = none
nonblank (some value) = if is_empty (trim value) then none else some value

unfoldable pub text_by_mode : String → OverrideMode → Option Text → Log → Result (Option Text × Log)
text_by_mode field mode none log = ok (none, log)
text_by_mode field allow (some value) log = ok (some value, note_applied log field)
text_by_mode field ignore (some value) log = ok (none, note_ignored log field)
text_by_mode field reject (some value) log = err (rejected field)

unfoldable pub governed_text :
    String → OverrideMode → Option Text → Log → Result (Option Text × Log)
unfolding text_by_mode
governed_text field mode requested log = text_by_mode field mode (nonblank requested) log

-- The `match` on the tool policy, and the `if` behind it.
unfoldable pub governed_tools : OverrideMode → Bool → Log → Result (Bool × Log)
governed_tools mode false log = ok (true, log)
governed_tools allow true log = ok (true, note_applied log "tools")
governed_tools ignore true log = ok (false, note_ignored log "tools")
governed_tools reject true log = err (rejected "tools")

module _ (float : Floating) (Value : Type 0) where
  pub record RequestedOverrides : Type 0 where
    pub context_window : Option ℕ
    pub max_output_tokens : Option ℕ
    pub temperature : Option float.Number
    pub instructions : Option Text
    pub visual_description_prompt : Option Text
    pub parameters : List (String × Value)
    pub tool_configuration_requested : Bool

  -- The JSON object `audit`; `govern` adds the last member.
  pub record Audit : Type 0 where
    pub capability_context_window : ℕ
    pub route_max_output_tokens : ℕ
    pub effective_context_window : ℕ
    pub effective_max_output_tokens : ℕ
    pub context_window_source : String
    pub max_output_tokens_source : String
    pub temperature_source : String
    pub instructions_source : String
    pub parameter_names : List String
    pub applied : List String
    pub ignored : List String
    pub visual_description_prompt_source : Option String

  pub record GovernedOverrides : Type 0 where
    pub context_window : ℕ
    pub max_output_tokens : ℕ
    pub temperature : Option float.Number
    pub instructions : Option Text
    pub visual_description_prompt : Option Text
    pub parameters : List (String × Value)
    pub allow_tools : Bool
    pub audit : Audit

  unfoldable pub governed_temperature :
      OverrideMode → Option float.Number → Log → Result (Option float.Number × Log)
  governed_temperature mode none log = ok (none, log)
  governed_temperature allow (some value) log =
      if float.up_to_two value
      then ok (some value, note_applied log "temperature")
      else err (invalid temperature_range)
  governed_temperature ignore (some value) log = ok (none, note_ignored log "temperature")
  governed_temperature reject (some value) log = err (rejected "temperature")

  -- `for (key, value) in requested.parameters`
  unfoldable pub governed_parameters :
      List String → List (String × Value) → Log → Result (List (String × Value) × Log)
  governed_parameters allowed [] log = ok ([], log)
  governed_parameters allowed ((key, value) ∷ rest) log =
      let later = governed_parameters allowed rest (note_applied log "parameter") in
      if has_name allowed key
      then (do (kept, log') ← later; ok ((key, value) ∷ kept, log'))
      else err (parameter_not_allowed key)

  unfoldable pub apply :
      RequestOverridePolicy → ℕ → ℕ → RequestedOverrides → Result GovernedOverrides
  apply policy capability_context_window route_max_output_tokens requested = do
    (context_window, log1) ←
        governed_usize "context_window" policy.context_window requested.context_window
          capability_context_window 256 capability_context_window
          (record { applied = []; ignored = [] })
    let max_allowed_output = min route_max_output_tokens (context_window - 1)
    (max_output_tokens, log2) ←
        governed_usize "max_output_tokens" policy.max_output_tokens requested.max_output_tokens
          max_allowed_output 1 max_allowed_output log1
    (temperature, log3) ← governed_temperature policy.sampling requested.temperature log2
    (instructions, log4) ←
        governed_text "instructions" policy.instructions requested.instructions log3
    (visual_description_prompt, log5) ←
        governed_text "visual_description_prompt" policy.visual_description_prompt
          requested.visual_description_prompt log4
    (allow_tools, log6) ← governed_tools policy.tools requested.tool_configuration_requested log5
    (parameters, log7) ← governed_parameters policy.allowed_parameters requested.parameters log6
    ok (record {
      context_window = context_window;
      max_output_tokens = max_output_tokens;
      temperature = temperature;
      instructions = instructions;
      visual_description_prompt = visual_description_prompt;
      parameters = parameters;
      allow_tools = allow_tools;
      audit = record {
        capability_context_window = capability_context_window;
        route_max_output_tokens = route_max_output_tokens;
        effective_context_window = context_window;
        effective_max_output_tokens = max_output_tokens;
        context_window_source =
            if is_some requested.context_window && is_allow policy.context_window
            then "request"
            else "capability";
        max_output_tokens_source =
            if is_some requested.max_output_tokens && is_allow policy.max_output_tokens
            then "request"
            else "route";
        temperature_source = if is_some temperature then "request" else "omitted";
        instructions_source = if is_some instructions then "request" else "omitted";
        parameter_names = map (λ p. p.0) parameters;
        applied = log7.applied;
        ignored = log7.ignored;
        visual_description_prompt_source = none;
      };
    })

  -- Only an enabled visual description keeps a prompt, and the audit says where it is from.
  unfoldable pub with_vision : Bool → Bool → GovernedOverrides → GovernedOverrides
  with_vision enabled override_requested governed =
      if not enabled
      then record governed {
        visual_description_prompt = none;
        audit = record audit {
          visual_description_prompt_source =
              some (if override_requested then "disabled_request_ignored" else "disabled");
        };
      }
      else record governed {
        audit = record audit {
          visual_description_prompt_source =
              some
                (if is_some governed.visual_description_prompt then "request" else "prompt_space");
        };
      }
    where
      open governed use {audit}

  unfoldable pub govern :
      MomoRuntimeSettings float → ℕ → ℕ → RequestedOverrides → Result GovernedOverrides
  unfolding apply with_vision
  govern settings capability_context_window route_max_output_tokens requested = do
    governed ←
        apply settings.request_overrides capability_context_window route_max_output_tokens requested
    ok (
        with_vision settings.vision.enabled (is_some (nonblank requested.visual_description_prompt))
          governed)
