-- ===== src/Governance/Tests.antt =====
-- Runs of the governance of requests, and instances of its theorems.
use momo_core.Prelude.{
  ℕ, ◌≤◌, ◌<◌, ◌≡◌, refl, ◌⊎◌, ◌↔◌, true, false, none, some, [], ◌∷◌, ◌++◌, leb, ltb, ◌==◌, codes,
  trim, ok,
}
use momo_core.Governance.Settings.{
  allow, ignore, reject, RequestOverridePolicy, Floating, default_settings,
}
use momo_core.Governance.Validation.{
  validate, find_reserved, has_name, window_refused, lifecycle_refused, intervals_refused,
  limits_refused, refuse_reserved,
}
use momo_core.Governance.Overrides.{
  RequestedOverrides, GovernedOverrides, governed_usize, governed_text, text_by_mode, nonblank,
  governed_temperature, governed_tools, governed_parameters, apply, is_some, govern,
}
use momo_core.Governance.Bounds.{apply_bounds}
use momo_core.Governance.Acceptance.{IsAcceptable, apply-IsAcceptable}
use momo_core.Governance.Audit.{apply-audit, mark_applied, mark_ignored, parameter_marks}

-- Numbers in tenths.
abbrev tenths : Floating
tenths = record {
  Number = ℕ;
  is_finite = λ x. true;
  below_one = λ x. ltb x 10;
  is_zero = λ x. x == 0;
  up_to_two = λ x. leb x 20;
  nine_tenths = 9;
}

default_settings_accepted : validate tenths (default_settings tenths) ≡ ok tt
unfolding validate has_name find_reserved window_refused lifecycle_refused intervals_refused
    limits_refused refuse_reserved
default_settings_accepted = refl

abbrev open_policy : RequestOverridePolicy
open_policy = record {
  context_window = allow;
  max_output_tokens = allow;
  sampling = ignore;
  instructions = allow;
  visual_description_prompt = allow;
  tools = reject;
  allowed_parameters = "top_p" ∷ [];
}

abbrev requested : RequestedOverrides tenths ℕ
requested = record {
  context_window = some 4_000;
  max_output_tokens = some 500;
  temperature = some 7;
  instructions = some (codes " ");
  visual_description_prompt = some (codes "an oil painting");
  parameters = ("top_p", 9) ∷ [];
  tool_configuration_requested = false;
}

abbrev governed : GovernedOverrides tenths ℕ
governed = record {
  context_window = 4_000;
  max_output_tokens = 500;
  temperature = none;
  instructions = none;
  visual_description_prompt = some (codes "an oil painting");
  parameters = ("top_p", 9) ∷ [];
  allow_tools = true;
  audit = record {
    capability_context_window = 8_000;
    route_max_output_tokens = 1_000;
    effective_context_window = 4_000;
    effective_max_output_tokens = 500;
    context_window_source = "request";
    max_output_tokens_source = "request";
    temperature_source = "omitted";
    instructions_source = "omitted";
    parameter_names = "top_p" ∷ [];
    applied =
        "context_window" ∷ "max_output_tokens" ∷ "visual_description_prompt" ∷ "parameter" ∷ [];
    ignored = "temperature" ∷ [];
    visual_description_prompt_source = none;
  };
}

apply_run : apply tenths ℕ open_policy 8_000 1_000 requested ≡ ok governed
unfolding apply governed_usize governed_text text_by_mode nonblank governed_temperature
    governed_tools governed_parameters has_name trim
apply_run = refl

apply_bounds_example :
    (governed.context_window ≤ 8_000)
    × ((governed.context_window ≡ 8_000) ⊎ (256 ≤ governed.context_window))
    × (governed.max_output_tokens ≤ 1_000)
    × (0 < governed.context_window → governed.max_output_tokens < governed.context_window)
apply_bounds_example = apply_bounds tenths ℕ open_policy 8_000 1_000 requested governed apply_run

apply-audit_example :
    (governed.audit.applied
      ≡ mark_applied allow true "context_window"
        ++ (mark_applied allow true "max_output_tokens"
            ++ (mark_applied ignore true "temperature"
                ++ (mark_applied allow (is_some (nonblank (some (codes " ")))) "instructions"
                    ++ (mark_applied allow
                          (is_some (nonblank (some (codes "an oil painting"))))
                          "visual_description_prompt"
                        ++ (mark_applied reject false "tools"
                            ++ parameter_marks tenths ℕ requested.parameters))))))
    × (governed.audit.ignored
        ≡ mark_ignored allow true "context_window"
          ++ (mark_ignored allow true "max_output_tokens"
              ++ (mark_ignored ignore true "temperature"
                  ++ (mark_ignored allow (is_some (nonblank (some (codes " ")))) "instructions"
                      ++ (mark_ignored allow
                            (is_some (nonblank (some (codes "an oil painting"))))
                            "visual_description_prompt"
                          ++ mark_ignored reject false "tools")))))
apply-audit_example = apply-audit tenths ℕ open_policy 8_000 1_000 requested governed apply_run

apply-IsAcceptable_example :
    ((g : GovernedOverrides tenths ℕ) × (apply tenths ℕ open_policy 8_000 1_000 requested ≡ ok g))
    ↔ IsAcceptable tenths ℕ open_policy 8_000 1_000 requested
apply-IsAcceptable_example = apply-IsAcceptable tenths ℕ open_policy 8_000 1_000 requested

abbrev governed_default : GovernedOverrides tenths ℕ
governed_default = record {
  context_window = 8_000;
  max_output_tokens = 500;
  temperature = none;
  instructions = none;
  visual_description_prompt = none;
  parameters = [];
  allow_tools = true;
  audit = record {
    capability_context_window = 8_000;
    route_max_output_tokens = 1_000;
    effective_context_window = 8_000;
    effective_max_output_tokens = 500;
    context_window_source = "capability";
    max_output_tokens_source = "request";
    temperature_source = "omitted";
    instructions_source = "omitted";
    parameter_names = [];
    applied = "max_output_tokens" ∷ [];
    ignored = "context_window" ∷ "temperature" ∷ "visual_description_prompt" ∷ [];
    visual_description_prompt_source = some "disabled_request_ignored";
  };
}

abbrev plain : RequestedOverrides tenths ℕ
plain = record requested { parameters = [] }

govern_run : govern tenths ℕ (default_settings tenths) 8_000 1_000 plain ≡ ok governed_default
unfolding govern governed_usize governed_text text_by_mode nonblank governed_temperature
    governed_tools governed_parameters has_name trim
govern_run = refl
