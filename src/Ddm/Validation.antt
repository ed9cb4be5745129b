-- ===== src/Ddm/Validation.antt =====
-- ddm.rs, `DdmProfile::validate` and `parse_yaml`.
use momo_core.Prelude.{
  ℕ, ◌^◌, ◌-◌, ◌*◌, Bool, true, false, not, ◌&&◌, ◌||◌, Option, none, some, List, [], ◌∷◌, ◌++◌,
  leb, ltb, ◌==◌, if◌then◌else◌, Text, codes, text_eq, trim, is_empty, utf8_len, strip_prefix, any,
  all, length, member, is_ascii_digit, is_ascii_lowercase, Outcome, ok, err, ◌>>=◌, ◌>>◌, unless,
}
use momo_core.Ddm.Profile.{
  Double, DdmCalculationProfile, logit_additive, multiplicative, DdmSignalValue, bool, number, text,
  DdmSelection, DdmRule, DdmDisposition, DdmProfile,
}

-- The texts of `MemoryError::InvalidAccess`.
pub data MemoryError : Type 0 where
  profile_text profile_yaml : MemoryError
  wrong_schema wrong_identity disposition_count wrong_selection : MemoryError
  wrong_disposition wrong_rule effect_overflow : Text → MemoryError

abbrev pub max_profile_revision : ℕ
max_profile_revision = 2 ^ 63 - 1

abbrev pub max_profile_bytes : ℕ
max_profile_bytes = 64 * 1024

unfoldable pub valid_identifier : Text → Bool
valid_identifier value =
    not (is_empty value)
    && leb (utf8_len value) 128
    && all
        (λ c. is_ascii_lowercase c || is_ascii_digit c || c == 95 || c == 45 || c == 46 || c == 58)
        value

unfoldable pub some_and {ℓ} : {A : Type ℓ} → (A → Bool) → Option A → Bool
some_and test none = false
some_and test (some a) = test a

abbrev pub absent {ℓ} : {A : Type ℓ} → Option A → Bool
absent none = true
absent (some a) = false

abbrev boolean_prefixes : List Text
boolean_prefixes =
    codes "dmw.tag."
    ∷ codes "dmw.kind."
    ∷ codes "nsg.node."
    ∷ codes "state.dimension."
    ∷ codes "scene.participant."
    ∷ codes "scene.source_ref."
    ∷ []

-- `normalize` is a parameter: NFKC normalization, trimmed and in lower case.
module _ (f64 : Double) (normalize : Text → Text) where
  unfoldable pub valid_activation : f64.Number → Bool
  valid_activation x = f64.is_finite x && f64.le (f64.decimal 0 0) x && f64.le x (f64.decimal 1 0)

  unfoldable pub signal_value_valid : DdmSignalValue f64 → Bool
  signal_value_valid (bool b) = true
  signal_value_valid (number x) = f64.is_finite x
  signal_value_valid (text t) = not (is_empty (trim t))

  abbrev is_bool : DdmSignalValue f64 → Bool
  is_bool (bool b) = true
  is_bool _ = false

  -- The `match (signal, value)` of `valid_signal`.
  unfoldable pub named_signal : Text → DdmSignalValue f64 → Bool
  named_signal signal (bool b) = text_eq signal (codes "request.has_image")
  named_signal signal (number x) = false
  named_signal signal (text value) =
      (text_eq signal (codes "scene.status")
        && member (codes "inactive" ∷ codes "active" ∷ codes "transitioning" ∷ codes "closed" ∷ [])
            (normalize value))
      || (text_eq signal (codes "request.event_type")
          && member (codes "user_message" ∷ codes "tool_result" ∷ []) (normalize value))

  unfoldable pub valid_signal : Text → DdmSignalValue f64 → Bool
  unfolding named_signal
  valid_signal signal value =
      if any (λ prefix. some_and valid_identifier (strip_prefix prefix signal)) boolean_prefixes
      then is_bool value
      else named_signal signal value

  -- `effect_valid`
  unfoldable pub effect_valid : DdmCalculationProfile → DdmRule f64 → Bool
  effect_valid logit_additive rule =
      some_and
        (λ x.
          f64.is_finite x && f64.le (f64.negate (f64.decimal 8 0)) x && f64.le x (f64.decimal 8 0))
        rule.delta
      && absent rule.multiplier
  effect_valid multiplicative rule =
      some_and (λ x. f64.is_finite x && f64.le (f64.decimal 0 0) x && f64.le x (f64.decimal 4 0))
        rule.multiplier
      && absent rule.delta

  unfoldable pub rule_refused : DdmCalculationProfile → List Text → DdmRule f64 → Bool
  rule_refused kind rule_ids rule =
      not (valid_identifier rule.id)
      || is_empty (trim rule.signal)
      || member rule_ids rule.id
      || not (valid_signal rule.signal rule.expected)
      || not (signal_value_valid rule.expected)
      || not (effect_valid kind rule)

  -- `rule.multiplier.filter(|value| *value > 1.0)`, and the product.
  unfoldable pub raised : f64.Number → Option f64.Number → f64.Number
  raised bound none = bound
  raised bound (some x) = if f64.lt (f64.decimal 1 0) x then f64.times bound x else bound

  abbrev pub raises : Option f64.Number → Bool
  raises none = false
  raises (some x) = f64.lt (f64.decimal 1 0) x

  -- The inner loop, with `rule_ids` and `multiplicative_upper_bound`.
  unfoldable pub check_rules :
      DdmCalculationProfile
      → Text
      → List Text
      → f64.Number
      → List (DdmRule f64)
      → Outcome MemoryError (List Text)
  check_rules kind disposition rule_ids bound [] = ok rule_ids
  check_rules kind disposition rule_ids bound (rule ∷ rest) =
      let next = raised bound rule.multiplier in
      let later = check_rules kind disposition (rule.id ∷ rule_ids) next rest in
      do
        unless (rule_refused kind rule_ids rule) (wrong_rule rule.id)
        unless (raises rule.multiplier && not (f64.is_finite next)) (effect_overflow disposition)
        later

  unfoldable pub disposition_refused : List Text → DdmDisposition f64 → Bool
  disposition_refused disposition_ids d =
      not (valid_identifier d.id)
      || member disposition_ids d.id
      || not (valid_activation d.base_activation)
      || some_and (λ group. not (valid_identifier group)) d.exclusive_group
      || is_empty (trim d.expression.latent)
      || is_empty (trim d.expression.salient)
      || is_empty (trim d.expression.dominant)
      || any (λ value. is_empty (trim value)) d.constraints

  abbrev pub rules_of : DdmDisposition f64 → List (DdmRule f64)
  rules_of d = d.modulation.context ++ d.modulation.state

  -- The outer loop, with `disposition_ids` and `rule_ids`.
  unfoldable pub check_dispositions :
      DdmCalculationProfile
      → List Text
      → List Text
      → List (DdmDisposition f64)
      → Outcome MemoryError (Unit {0})
  check_dispositions kind disposition_ids rule_ids [] = ok tt
  check_dispositions kind disposition_ids rule_ids (d ∷ rest) = do
    unless (disposition_refused disposition_ids d) (wrong_disposition d.id)
    seen ← check_rules kind d.id rule_ids (f64.decimal 1 0) (rules_of d)
    check_dispositions kind (d.id ∷ disposition_ids) seen rest

  unfoldable pub selection_refused : DdmSelection f64 → Bool
  selection_refused s =
      not (leb 1 s.top_k && leb s.top_k 16)
      || not (valid_activation s.salient_threshold)
      || not (valid_activation s.dominant_threshold)
      || f64.le s.dominant_threshold s.salient_threshold
      || not (f64.is_finite s.hysteresis_margin)
      || not (
          f64.le (f64.decimal 0 0) s.hysteresis_margin
          && f64.le s.hysteresis_margin (f64.decimal 25 2))
      || f64.le s.salient_threshold s.hysteresis_margin

  unfoldable pub validate : DdmProfile f64 → Outcome MemoryError (Unit {0})
  validate p = do
    unless (not (text_eq p.schema (codes "momo.ddm/1"))) wrong_schema
    unless
        (is_empty (trim p.character_id) || p.revision == 0 || ltb max_profile_revision p.revision)
        wrong_identity
    unless (is_empty p.dispositions || ltb 64 (length p.dispositions)) disposition_count
    unless (selection_refused p.selection) wrong_selection
    check_dispositions p.profile [] [] p.dispositions

  -- `from_str` is the YAML deserializer; `none` is its error.
  unfoldable pub parse_yaml :
      (Text → Option (DdmProfile f64)) → Text → Outcome MemoryError (DdmProfile f64)
  parse_yaml from_str source = do
    unless (is_empty source || ltb max_profile_bytes (utf8_len source) || any (λ c. c == 0) source)
        profile_text
    profile ← elim (from_str source) [ none ↦ err profile_yaml | some profile ↦ ok profile ]
    validate profile
    ok profile
