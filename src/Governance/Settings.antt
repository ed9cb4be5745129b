-- ===== src/Governance/Settings.antt =====
-- governance.rs, and `LifecycleSettings` of crates/momo-memory/src/lifecycle.rs: the settings
-- records, their defaults and the errors.
use momo_core.Prelude.{ℕ, Bool, true, false, List, [], String, Text, Outcome}

pub data OverrideMode : Type 0 where
  allow ignore reject : OverrideMode

pub record RequestOverridePolicy : Type 0 where
  pub context_window : OverrideMode
  pub max_output_tokens : OverrideMode
  pub sampling : OverrideMode
  pub instructions : OverrideMode
  pub visual_description_prompt : OverrideMode
  pub tools : OverrideMode
  pub allowed_parameters : List String

abbrev pub default_policy : RequestOverridePolicy
default_policy = record {
  context_window = ignore;
  max_output_tokens = allow;
  sampling = ignore;
  instructions = allow;
  visual_description_prompt = ignore;
  tools = allow;
  allowed_parameters = [];
}

pub record VisionDescriptionConfig : Type 0 where
  pub enabled : Bool

pub record RoleplayRuntimeConfig : Type 0 where
  pub enabled : Bool

pub record DdmRuntimeConfig : Type 0 where
  pub enabled : Bool

pub record MaintenanceRuntimeSettings : Type 0 where
  pub memory_distillation_enabled : Bool
  pub memory_distill_every_turns : ℕ
  pub semantic_graph_enabled : Bool
  pub nsg_govern_every_turns : ℕ

abbrev pub default_maintenance_turns : ℕ
default_maintenance_turns = 12

abbrev pub default_maintenance : MaintenanceRuntimeSettings
default_maintenance = record {
  memory_distillation_enabled = true;
  memory_distill_every_turns = default_maintenance_turns;
  semantic_graph_enabled = true;
  nsg_govern_every_turns = default_maintenance_turns;
}

pub data MoStateProfile : Type 0 where
  closed_autonomous v1_projection : MoStateProfile

pub data MoStateInjectionMode : Type 0 where
  active shadow : MoStateInjectionMode

-- The tests that the settings make on a floating-point number.
pub record Floating : Type 1 where
  pub Number : Type 0
  pub is_finite : Number → Bool
  -- `(0.0..1.0).contains(&x)`, `x == 0.0` and `(0.0..=2.0).contains(&x)`
  pub below_one : Number → Bool
  pub is_zero : Number → Bool
  pub up_to_two : Number → Bool
  pub nine_tenths : Number

module _ (float : Floating) where
  pub record LifecycleSettings : Type 0 where
    pub enabled : Bool
    pub decay_after_turns : ℕ
    pub forget_after_turns : ℕ
    pub decay_factor : float.Number
    pub auto_forget : Bool

  pub record MoStateRuntimeConfig : Type 0 where
    pub memory_lifecycle : LifecycleSettings
    pub profile : MoStateProfile
    pub scene_management : Bool
    pub max_reconcile_steps : ℕ
    pub max_agent_steps : ℕ
    pub operation_timeout_ms : ℕ
    pub injection_mode : MoStateInjectionMode
    pub ddm : DdmRuntimeConfig

pub record HistoryWindowSettings : Type 0 where
  pub enabled : Bool
  pub trigger_turns : ℕ
  pub evict_turns : ℕ

pub record MomoRuntimeSettings (float : Floating) : Type 0 where
  pub history_window : HistoryWindowSettings
  pub schema_version : ℕ
  pub request_overrides : RequestOverridePolicy
  pub runtime : MaintenanceRuntimeSettings
  pub mo_state : MoStateRuntimeConfig float
  pub roleplay : RoleplayRuntimeConfig
  pub vision : VisionDescriptionConfig

abbrev pub runtime_settings_schema_version : ℕ
runtime_settings_schema_version = 1

abbrev pub default_history_window : HistoryWindowSettings
default_history_window = record { enabled = true; trigger_turns = 12; evict_turns = 2 }

module _ (float : Floating) where
  abbrev pub default_lifecycle : LifecycleSettings float
  default_lifecycle = record {
    enabled = true;
    decay_after_turns = 48;
    forget_after_turns = 240;
    decay_factor = float.nine_tenths;
    auto_forget = true;
  }

  abbrev pub default_mo_state : MoStateRuntimeConfig float
  default_mo_state = record {
    memory_lifecycle = default_lifecycle;
    profile = closed_autonomous;
    scene_management = true;
    max_reconcile_steps = 4;
    max_agent_steps = 8;
    operation_timeout_ms = 30_000;
    injection_mode = active;
    ddm = record { enabled = false };
  }

  abbrev pub default_settings : MomoRuntimeSettings float
  default_settings = record {
    schema_version = runtime_settings_schema_version;
    history_window = default_history_window;
    request_overrides = default_policy;
    runtime = default_maintenance;
    mo_state = default_mo_state;
    roleplay = record { enabled = true };
    vision = record { enabled = false };
  }

-- What the text of `GovernanceError::Invalid` says.
pub data Complaint : Type 0 where
  history_window lifecycle maintenance_intervals mo_state_limits temperature_range : Complaint
  reserved_parameter : String → Complaint
  settings_not_an_object overrides_not_an_object too_many_overrides : Complaint
  revision_exhausted file_too_large unsupported_stored_settings : Complaint
  -- The text of another error, passed on by `invalid`.
  reported : Text → Complaint

pub data GovernanceError : Type 0 where
  persistence : Text → GovernanceError
  conflict : ℕ → ℕ → GovernanceError
  unsupported_schema : ℕ → GovernanceError
  rejected : String → GovernanceError
  parameter_not_allowed : String → GovernanceError
  out_of_range : String → ℕ → ℕ → ℕ → GovernanceError
  invalid : Complaint → GovernanceError

abbrev pub Result {ℓ} : Type ℓ → Type ℓ
Result A = Outcome GovernanceError A
