-- ===== src/Capability/Profile.antt =====
-- capability.rs, `CapabilityProfile` and `TokenizerProfile`.
use momo_core.Prelude.{
  ℕ, ◌≤◌, ◌<◌, ◌≡◌, refl, ◌↔◌, Bool, true, false, not, ◌&&◌, ◌||◌, Option, none, some, List, [],
  ◌∷◌, arith, leb, ltb, ◌==◌, Text, codes, trim, is_empty, any, member, All, Outcome, ok, err, ◌>>◌,
  unless, unless-passed, >>-ok,
}
use momo_core.Context.Tokens.{estimate_text_tokens}

pub data TokenizerProfile : Type 0 where
  conservative cl100k_base o200k_base p50k_base : TokenizerProfile
  named_model : Text → TokenizerProfile

pub data CapabilityError : Type 0 where
  unsupported_schema : ℕ → CapabilityError
  invalid_context_window invalid_output_limit invalid_parameter_name : CapabilityError
  reserved_parameter unsupported_parameter unknown_tokenizer_model : Text → CapabilityError
  invalid_identifier empty_discovery : CapabilityError

pub record CapabilityProfile : Type 0 where
  pub schema_version : ℕ
  pub tokenizer : TokenizerProfile
  pub context_window : ℕ
  pub max_output_tokens : ℕ
  pub streaming : Bool
  pub parameters : List Text
  pub allow_unknown_parameters : Bool

abbrev pub capability_schema_version : ℕ
capability_schema_version = 1

abbrev pub reserved_parameters : List Text
reserved_parameters = codes "model" ∷ codes "messages" ∷ codes "temperature" ∷ codes "stream" ∷ []

abbrev pub default_parameters : List Text
default_parameters =
    codes "top_p" ∷ codes "max_tokens" ∷ codes "max_completion_tokens" ∷ codes "stop" ∷ []

abbrev pub default_profile : CapabilityProfile
default_profile = record {
  schema_version = capability_schema_version;
  tokenizer = conservative;
  context_window = 8_192;
  max_output_tokens = 1_024;
  streaming = true;
  parameters = default_parameters;
  allow_unknown_parameters = false;
}

-- The token counts of `tiktoken`: by encoding, and by the model's name where it has a mapping.
module _ (encoded : TokenizerProfile → Text → ℕ) (by_model : Text → Option (Text → ℕ)) where
  unfoldable pub count : TokenizerProfile → Text → Outcome CapabilityError ℕ
  count conservative value = ok (estimate_text_tokens value)
  count (named_model model) value = elim (by_model model) [
    | none ↦ err (unknown_tokenizer_model model)
    | some tokens ↦ ok (tokens value)
  ]
  count cl100k_base value = ok (encoded cl100k_base value)
  count o200k_base value = ok (encoded o200k_base value)
  count p50k_base value = ok (encoded p50k_base value)

  unfoldable pub count_or_conservative : TokenizerProfile → Text → ℕ
  unfolding count
  count_or_conservative tokenizer value = elim (count tokenizer value) [
    | ok tokens ↦ tokens
    | err e ↦ estimate_text_tokens value
  ]

unfoldable pub name_refused : Text → Bool
name_refused name = is_empty (trim name) || member reserved_parameters name

unfoldable pub validate : CapabilityProfile → Outcome CapabilityError (Unit {0})
validate p = do
  unless (not (p.schema_version == capability_schema_version)) (unsupported_schema p.schema_version)
  unless (ltb p.context_window 256) invalid_context_window
  unless (p.max_output_tokens == 0 || leb p.context_window p.max_output_tokens) invalid_output_limit
  unless (any name_refused p.parameters) invalid_parameter_name
  ok tt

-- `for name in names`
unfoldable pub check_names : CapabilityProfile → List Text → Outcome CapabilityError (Unit {0})
check_names p [] = ok tt
check_names p (name ∷ rest) =
    let later = check_names p rest in
    do
      unless (member reserved_parameters name) (reserved_parameter name)
      unless (not p.allow_unknown_parameters && not (member p.parameters name))
          (unsupported_parameter name)
      later

unfoldable pub validate_request_parameters :
    CapabilityProfile → List Text → Outcome CapabilityError (Unit {0})
unfolding validate check_names
validate_request_parameters p names = do validate p; check_names p names

-- The limits of a profile.
pub record IsValid (p : CapabilityProfile) : Type 0 where
  pub schema : p.schema_version ≡ capability_schema_version
  pub window : 256 ≤ p.context_window
  pub output : (1 ≤ p.max_output_tokens) × (p.max_output_tokens < p.context_window)
  pub names : any name_refused p.parameters ≡ false

-- A parameter that a request may carry.
abbrev pub IsPermitted : CapabilityProfile → Text → Type 0
IsPermitted p name =
    (member reserved_parameters name ≡ false)
    × ((p.allow_unknown_parameters || member p.parameters name) ≡ true)

pub validate-IsValid : (p : CapabilityProfile) → (validate p ≡ ok tt) ↔ IsValid p
unfolding validate
validate-IsValid p = (
  (λ h. record {
    schema = ground arith;
    window = ground arith;
    output = (ground arith, ground arith);
    names = ground arith;
  }),
  λ v. ground (arith, v.schema, v.window, v.output.0, v.output.1, v.names),
)

check_names-forth :
    (p : CapabilityProfile) (names : List Text)
    → check_names p names ≡ ok tt
    → All (IsPermitted p) names
unfolding check_names
check_names-forth p [] h = tt
check_names-forth p (name ∷ rest) h =
    let (r, h1) = unless-passed (member reserved_parameters name) (reserved_parameter name) _ h in
    let (u, h2) =
      unless-passed (not p.allow_unknown_parameters && not (member p.parameters name))
        (unsupported_parameter name) (check_names p rest) h1 in
    ((r, ground (arith, u)), check_names-forth p rest h2)

check_names-back :
    (p : CapabilityProfile) (names : List Text)
    → All (IsPermitted p) names
    → check_names p names ≡ ok tt
unfolding check_names
check_names-back p [] h = refl
check_names-back p (name ∷ rest) h = ground (arith, h.0.0, h.0.1, check_names-back p rest h.1)

-- A request's parameters are accepted exactly when the profile keeps its limits, no parameter is
-- reserved, and each of them is declared unless the profile allows unknown ones.
pub validate_request_parameters-IsPermitted :
    (p : CapabilityProfile) (names : List Text)
    → (validate_request_parameters p names ≡ ok tt) ↔ (IsValid p × All (IsPermitted p) names)
unfolding validate_request_parameters
validate_request_parameters-IsPermitted p names = (forth, back)
  where
    forth : validate_request_parameters p names ≡ ok tt → IsValid p × All (IsPermitted p) names
    forth h =
        let (e, k) = >>-ok (validate p) (check_names p names) h in
        ((validate-IsValid p).0 e, check_names-forth p names k)

    back : IsValid p × All (IsPermitted p) names → validate_request_parameters p names ≡ ok tt
    back v = rw ((validate-IsValid p).1 v.0) (check_names-back p names v.1)
