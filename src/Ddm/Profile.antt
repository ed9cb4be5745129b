-- ===== src/Ddm/Profile.antt =====
-- ddm.rs: the profile, the signals, the audit, and the arithmetic of `f64`, which is a parameter.
use momo_core.Prelude.{
  ℕ, Bool, Option, none, some, List, [], ◌∷◌, ◌++◌, if◌then◌else◌, Text, text_le, sort_by, member,
  lookup, put,
}

-- The operations of `f64` that the model uses; `decimal n k` is the literal for n / 10 ^ k.
pub record Double : Type 1 where
  pub Number : Type 0
  pub lt : Number → Number → Bool
  pub le : Number → Number → Bool
  pub equal : Number → Number → Bool
  -- `a.total_cmp(&b) == Ordering::Less`
  pub total_lt : Number → Number → Bool
  pub is_finite : Number → Bool
  pub plus : Number → Number → Number
  pub minus : Number → Number → Number
  pub times : Number → Number → Number
  pub divide : Number → Number → Number
  pub largest : Number → Number → Number
  pub negate : Number → Number
  pub abs : Number → Number
  pub ln : Number → Number
  pub exp : Number → Number
  pub epsilon : Number
  pub decimal : ℕ → ℕ → Number

pub data DdmCalculationProfile : Type 0 where
  logit_additive multiplicative : DdmCalculationProfile

pub data DdmMissingPolicy : Type 0 where
  neutral : DdmMissingPolicy

pub data DdmBand : Type 0 where
  latent salient dominant : DdmBand

pub record DdmExpression : Type 0 where
  pub latent : Text
  pub salient : Text
  pub dominant : Text

module _ (f64 : Double) where
  pub data DdmSignalValue : Type 0 where
    bool : Bool → DdmSignalValue
    number : f64.Number → DdmSignalValue
    text : Text → DdmSignalValue

  pub record DdmSelection : Type 0 where
    pub top_k : ℕ
    pub salient_threshold : f64.Number
    pub dominant_threshold : f64.Number
    pub hysteresis_margin : f64.Number

  -- The constants `DEFAULT_*`.
  abbrev pub default_selection : DdmSelection
  default_selection = record {
    top_k = 3;
    salient_threshold = f64.decimal 65 2;
    dominant_threshold = f64.decimal 85 2;
    hysteresis_margin = f64.decimal 5 2;
  }

  pub record DdmRule : Type 0 where
    pub id : Text
    pub signal : Text
    pub expected : DdmSignalValue
    pub missing : DdmMissingPolicy
    pub delta : Option f64.Number
    pub multiplier : Option f64.Number

  pub record DdmModulation : Type 0 where
    pub context : List DdmRule
    pub state : List DdmRule

  pub record DdmDisposition : Type 0 where
    pub id : Text
    pub base_activation : f64.Number
    pub description : Text
    pub exclusive_group : Option Text
    pub modulation : DdmModulation
    pub expression : DdmExpression
    pub constraints : List Text

  pub record DdmProfile : Type 0 where
    pub schema : Text
    pub character_id : Text
    pub revision : ℕ
    pub profile : DdmCalculationProfile
    pub selection : DdmSelection
    pub dispositions : List DdmDisposition

  pub record EffectiveDisposition : Type 0 where
    pub id : Text
    pub base_activation : f64.Number
    pub context_effect : f64.Number
    pub state_effect : f64.Number
    pub effective_activation : f64.Number
    pub band : DdmBand
    pub cue : Text
    pub constraints : List Text
    pub matched_rule_ids : List Text
    pub evidence_ids : List Text

  pub record DdmAudit : Type 0 where
    pub character_id : Text
    pub profile_revision : ℕ
    pub profile_fingerprint : Text
    pub constraints : List Text
    pub effective_dispositions : List EffectiveDisposition
    pub suppressed_disposition_ids : List Text
    pub previous_bands : List (Text × DdmBand)
    pub next_bands : List (Text × DdmBand)
    pub hysteresis_applied : List Text
    pub source_fingerprint : Text

  pub record DdmSignalSnapshot : Type 0 where
    pub values : List (Text × DdmSignalValue)
    pub evidence : List (Text × List Text)

  -- `entry(id).or_default()`
  unfoldable pub evidence_of : DdmSignalSnapshot → Text → List Text
  evidence_of snapshot id = elim (lookup snapshot.evidence id) [ none ↦ [] | some ids ↦ ids ]

  -- `DdmSignalSnapshot::insert`
  unfoldable pub insert : DdmSignalSnapshot → Text → DdmSignalValue → Text → DdmSignalSnapshot
  unfolding evidence_of
  insert snapshot id value evidence_id =
      let ids = evidence_of snapshot id in
      record {
        values = put snapshot.values id value;
        evidence =
            put snapshot.evidence id
              (if member ids evidence_id then ids else sort_by text_le (ids ++ evidence_id ∷ []));
      }
