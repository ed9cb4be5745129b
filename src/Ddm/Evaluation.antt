-- ===== src/Ddm/Evaluation.antt =====
-- ddm.rs, `DdmProfile::evaluate_with_previous` and what it calls.
use momo_core.Prelude.{
  ℕ, Bool, true, false, not, ◌&&◌, Option, none, some, List, [], ◌∷◌, ◌++◌, map, ltb, if◌then◌else◌,
  Text, codes, text_eq, text_le, trim, length, take, drop, member, lookup, collect, sort_by,
}
use momo_core.Ddm.Profile.{
  Double, DdmCalculationProfile, logit_additive, multiplicative, DdmBand, latent, salient, dominant,
  DdmExpression, DdmSignalValue, bool, number, text, DdmSelection, DdmRule, DdmDisposition,
  DdmProfile, EffectiveDisposition, DdmAudit, DdmSignalSnapshot, evidence_of,
}

-- `left == right` on the flags
abbrev same_flag : Bool → Bool → Bool
same_flag true b = b
same_flag false b = not b

abbrev pub same_band : DdmBand → DdmBand → Bool
same_band latent latent = true
same_band salient salient = true
same_band dominant dominant = true
same_band _ _ = false

-- `dedup` after a sort: equal neighbours are merged.
unfoldable pub dedup : List Text → List Text
dedup [] = []
dedup (x ∷ []) = x ∷ []
dedup (x ∷ y ∷ rest) = let later = dedup (y ∷ rest) in if text_eq x y then later else x ∷ later

abbrev cue_of : DdmExpression → DdmBand → Text
cue_of e latent = e.latent
cue_of e salient = e.salient
cue_of e dominant = e.dominant

module _ (f64 : Double) (normalize : Text → Text) where
  unfoldable pub signal_matches : DdmSignalValue f64 → DdmSignalValue f64 → Bool
  signal_matches (bool left) (bool right) = same_flag left right
  signal_matches (number left) (number right) = f64.le (f64.abs (f64.minus left right)) f64.epsilon
  signal_matches (text left) (text right) = text_eq (normalize left) (normalize right)
  signal_matches _ _ = false

  -- What `matched_effect` returns.
  pub record Effect : Type 0 where
    pub effect : f64.Number
    pub matched : List Text
    pub evidence : List Text

  -- `unwrap_or`
  abbrev or_else : f64.Number → Option f64.Number → f64.Number
  or_else default none = default
  or_else default (some x) = x

  unfoldable pub add_rule :
      DdmSignalSnapshot f64 → DdmCalculationProfile → DdmRule f64 → Effect → Effect
  unfolding evidence_of
  add_rule signals logit_additive rule e = record {
    effect = f64.plus e.effect (or_else (f64.decimal 0 0) rule.delta);
    matched = e.matched ++ rule.id ∷ [];
    evidence = e.evidence ++ evidence_of f64 signals rule.signal;
  }
  add_rule signals multiplicative rule e = record {
    effect = f64.times e.effect (or_else (f64.decimal 1 0) rule.multiplier);
    matched = e.matched ++ rule.id ∷ [];
    evidence = e.evidence ++ evidence_of f64 signals rule.signal;
  }

  -- The two tests that `continue`.
  unfoldable pub applies : DdmSignalSnapshot f64 → DdmRule f64 → Bool
  applies signals rule = elim (lookup signals.values rule.signal) [
    | none ↦ false
    | some actual ↦ signal_matches actual rule.expected
  ]

  unfoldable pub match_rules :
      DdmSignalSnapshot f64 → DdmCalculationProfile → List (DdmRule f64) → Effect → Effect
  match_rules signals kind [] e = e
  match_rules signals kind (rule ∷ rest) e =
      match_rules signals kind rest
        (if applies signals rule then add_rule signals kind rule e else e)

  abbrev identity_effect : DdmCalculationProfile → f64.Number
  identity_effect logit_additive = f64.decimal 0 0
  identity_effect multiplicative = f64.decimal 1 0

  unfoldable pub matched_effect :
      List (DdmRule f64) → DdmSignalSnapshot f64 → DdmCalculationProfile → Effect
  unfolding match_rules
  matched_effect rules signals kind =
      match_rules signals kind rules
        (record { effect = identity_effect kind; matched = []; evidence = [] })

  -- `value.clamp(low, high)`
  unfoldable pub clamp : f64.Number → f64.Number → f64.Number → f64.Number
  clamp value low high = if f64.lt value low then low else if f64.lt high value then high else value

  unfoldable pub activation :
      DdmCalculationProfile → f64.Number → f64.Number → f64.Number → f64.Number
  unfolding clamp
  activation logit_additive base_activation context_effect state_effect =
      if f64.equal context_effect (f64.decimal 0 0) && f64.equal state_effect (f64.decimal 0 0)
      then base_activation
      else let one = f64.decimal 1 0 in
        let tiny = f64.decimal 1 6 in
        let base = clamp base_activation tiny (f64.minus one tiny) in
        let logit = f64.ln (f64.divide base (f64.minus one base)) in
        f64.divide one (
          f64.plus one
            (f64.exp (f64.negate (f64.plus (f64.plus logit context_effect) state_effect))))
  activation multiplicative base_activation context_effect state_effect =
      clamp (f64.times (f64.times base_activation context_effect) state_effect) (f64.decimal 0 0)
        (f64.decimal 1 0)

  unfoldable pub raw_band : DdmSelection f64 → f64.Number → DdmBand
  raw_band selection x =
      if f64.le selection.dominant_threshold x
      then dominant
      else if f64.le selection.salient_threshold x
      then salient
      else latent

  -- `(threshold - margin).max(0.0)`
  unfoldable pub lowered : DdmSelection f64 → f64.Number → f64.Number
  lowered selection threshold =
      f64.largest (f64.minus threshold selection.hysteresis_margin) (f64.decimal 0 0)

  unfoldable pub hysteretic_band : DdmSelection f64 → f64.Number → Option DdmBand → DdmBand
  unfolding raw_band
  hysteretic_band selection x none = raw_band selection x
  hysteretic_band selection x (some latent) = raw_band selection x
  hysteretic_band selection x (some salient) =
      if f64.le selection.dominant_threshold x
      then dominant
      else if f64.lt x (lowered selection selection.salient_threshold)
      then latent
      else salient
  hysteretic_band selection x (some dominant) =
      if f64.le (lowered selection selection.dominant_threshold) x
      then dominant
      else if f64.le (lowered selection selection.salient_threshold) x
      then salient
      else latent

  unfoldable pub evaluate_disposition :
      DdmProfile f64
      → DdmDisposition f64
      → DdmSignalSnapshot f64
      → Option DdmBand
      → EffectiveDisposition f64
  evaluate_disposition p d signals previous_band =
      let context = matched_effect d.modulation.context signals p.profile in
      let state = matched_effect d.modulation.state signals p.profile in
      let x = activation p.profile d.base_activation context.effect state.effect in
      let band = hysteretic_band p.selection x previous_band in
      record {
        id = d.id;
        base_activation = d.base_activation;
        context_effect = context.effect;
        state_effect = state.effect;
        effective_activation = x;
        band = band;
        cue = trim (cue_of d.expression band);
        constraints = d.constraints;
        matched_rule_ids = context.matched ++ state.matched;
        evidence_ids = dedup (sort_by text_le (context.evidence ++ state.evidence));
      }

  -- The comparison of `effective.sort_by`.
  unfoldable pub outranks : EffectiveDisposition f64 → EffectiveDisposition f64 → Bool
  outranks left right =
      if f64.total_lt right.effective_activation left.effective_activation
      then true
      else if f64.total_lt left.effective_activation right.effective_activation
      then false
      else text_le left.id right.id

  -- The variables of `effective.retain`.
  pub record Retained : Type 0 where
    pub kept : List (EffectiveDisposition f64)
    pub suppressed : List Text

  -- `groups.get(id).copied().flatten()`
  unfoldable pub group_of : List (Text × Option Text) → Text → Option Text
  group_of groups id = elim (lookup groups id) [ none ↦ none | some group ↦ group ]

  unfoldable pub retain_groups :
      List (Text × Option Text) → List Text → List (EffectiveDisposition f64) → Retained
  retain_groups groups selected [] = record { kept = []; suppressed = [] }
  retain_groups groups selected (e ∷ rest) =
      let same = retain_groups groups selected rest in
      elim (group_of groups e.id) [
        | none ↦ record same { kept = e ∷ same.kept }
        | some group ↦
            let added = retain_groups groups (group ∷ selected) rest in
            if member selected group
            then record same { suppressed = e.id ∷ same.suppressed }
            else record added { kept = e ∷ added.kept }
      ]

  -- The `if` on `top_k`: `retain` first, then the longest suffix is cut off.
  unfoldable pub limit_top : ℕ → Retained → Retained
  limit_top top_k r =
      if ltb top_k (length r.kept)
      then record {
        kept = take top_k r.kept;
        suppressed = r.suppressed ++ map (λ e. e.id) (drop top_k r.kept);
      }
      else r

  unfoldable pub hysteresis_marks :
      DdmSelection f64 → List (Text × DdmBand) → List (EffectiveDisposition f64) → List Text
  hysteresis_marks selection previous_bands [] = []
  hysteresis_marks selection previous_bands (e ∷ rest) =
      let later = hysteresis_marks selection previous_bands rest in
      elim (lookup previous_bands e.id) [
        | none ↦ later
        | some band ↦
            if same_band e.band (raw_band selection e.effective_activation)
            then later
            else e.id ∷ later
      ]

  -- Every disposition evaluated, in the order of the sort.
  unfoldable pub ranked :
      DdmProfile f64
      → DdmSignalSnapshot f64
      → List (Text × DdmBand)
      → List (EffectiveDisposition f64)
  ranked p signals previous_bands =
      sort_by outranks
        (map (λ d. evaluate_disposition p d signals (lookup previous_bands d.id)) p.dispositions)

  abbrev pub groups_of : DdmProfile f64 → List (Text × Option Text)
  groups_of p = collect [] (map (λ d. (d.id, d.exclusive_group)) p.dispositions)

  -- The digests (`sha2`, `hex`, `serde_json`) are parameters.
  module _ (profile_digest : DdmProfile f64 → Text)
      (evaluation_digest : DdmProfile f64
        → DdmSignalSnapshot f64
        → List (Text × DdmBand)
        → Text) where
    unfoldable pub profile_fingerprint : DdmProfile f64 → Text
    profile_fingerprint p = codes "sha256:" ++ profile_digest p

    unfoldable pub evaluation_fingerprint :
        DdmProfile f64 → DdmSignalSnapshot f64 → List (Text × DdmBand) → Text
    evaluation_fingerprint p signals previous_bands =
        codes "sha256:" ++ evaluation_digest p signals previous_bands

    unfoldable pub evaluate_with_previous :
        DdmProfile f64 → DdmSignalSnapshot f64 → List (Text × DdmBand) → DdmAudit f64
    evaluate_with_previous p signals previous_bands =
        let effective = ranked p signals previous_bands in
        let r = limit_top p.selection.top_k (retain_groups (groups_of p) [] effective) in
        record {
          character_id = p.character_id;
          profile_revision = p.revision;
          profile_fingerprint = profile_fingerprint p;
          constraints = dedup (sort_by text_le (all_constraints p.dispositions));
          effective_dispositions = r.kept;
          suppressed_disposition_ids = sort_by text_le r.suppressed;
          previous_bands = previous_bands;
          next_bands = collect [] (map (λ e. (e.id, e.band)) effective);
          hysteresis_applied = hysteresis_marks p.selection previous_bands effective;
          source_fingerprint = evaluation_fingerprint p signals previous_bands;
        }
      where
        all_constraints : List (DdmDisposition f64) → List Text
        all_constraints [] = []
        all_constraints (d ∷ rest) = d.constraints ++ all_constraints rest

    -- `evaluate`
    unfoldable pub evaluate : DdmProfile f64 → DdmSignalSnapshot f64 → DdmAudit f64
    unfolding evaluate_with_previous
    evaluate p signals = evaluate_with_previous p signals []
