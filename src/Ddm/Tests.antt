-- ===== src/Ddm/Tests.antt =====
-- Runs of the disposition model, and instances of its theorems.
use momo_core.Prelude.{
  ℕ, ◌+◌, ◌-◌, ◌*◌, ◌/◌, ◌^◌, ◌≤◌, ◌<◌, ◌≡◌, refl, max, Bool, true, false, none, some, List, [],
  ◌∷◌, arith, ltb, leb, ◌==◌, Text, codes, length, count, text_eq, text_le, trim, strip_prefix,
  utf8_len, any, all, member, lookup, put, collect, sort_by, ok,
}
use momo_core.Ddm.Profile.{
  Double, multiplicative, DdmBand, dominant, DdmSelection, default_selection, DdmRule,
  DdmDisposition, DdmProfile, DdmSignalSnapshot, DdmExpression, bool, neutral,
}
use momo_core.Ddm.Validation.{
  validate, selection_refused, valid_activation, valid_identifier, some_and, signal_value_valid,
  valid_signal, effect_valid, rule_refused, raised, check_rules, disposition_refused,
  check_dispositions,
}
use momo_core.Ddm.Evaluation.{
  evaluate_with_previous, raw_band, hysteretic_band, lowered, groups_of, outranks, ranked,
  evaluate_disposition, matched_effect, activation, retain_groups, limit_top, group_of,
  signal_matches, applies, add_rule, match_rules, clamp,
}
use momo_core.Ddm.Soundness.{disposition_ids}
use momo_core.Ddm.Bands.{IsOrdered, rank, floor_of, hysteretic_band-held}
use momo_core.Ddm.Selection.{Exclusive, shown_ids, audit, evaluate-partition}
use momo_core.Ddm.Ranking.{IsTotal, IsRanked, evaluate-IsRanked}

-- Numbers in hundredths, rounded down.
abbrev pub hundredths : Double
hundredths = record {
  Number = ℕ;
  lt = ltb;
  le = leb;
  equal = λ a b. a == b;
  total_lt = ltb;
  is_finite = λ x. true;
  plus = λ a b. a + b;
  minus = λ a b. a - b;
  times = λ a b. a * b / 100;
  divide = λ a b. a * 100 / b;
  largest = max;
  negate = λ x. x;
  abs = λ x. x;
  ln = λ x. x;
  exp = λ x. x;
  epsilon = 0;
  decimal = λ n k. n * 100 / 10 ^ k;
}

hundredths-IsOrdered : IsOrdered hundredths
hundredths-IsOrdered = record {
  trans = λ a b c h k. ground arith;
  apart = λ a b h. ground arith;
  total = λ a b f g h. ground arith;
  minus_le = λ a b h k. ground arith;
  largest_le = λ a b c h k. ground arith;
}

hundredths-IsTotal : IsTotal hundredths
hundredths-IsTotal = record { asym = λ a b h. ground arith; trans = λ a b c h k. ground arith }

abbrev plain_text : Text → Text
plain_text t = t

abbrev selection : DdmSelection hundredths
selection = default_selection hundredths

selection_accepted : selection_refused hundredths plain_text selection ≡ false
unfolding selection_refused valid_activation
selection_accepted = refl

-- An activation of 0.82 is below the threshold of 0.85, and within the margin.
band_held : hysteretic_band hundredths plain_text selection 82 (some dominant) ≡ dominant
unfolding hysteretic_band lowered
band_held = refl

hysteretic_band-held_example :
    (rank (raw_band hundredths plain_text selection 82)
      ≤ rank (hysteretic_band hundredths plain_text selection 82 (some dominant)))
    × (rank (hysteretic_band hundredths plain_text selection 82 (some dominant))
        ≤ max (rank (raw_band hundredths plain_text selection 82)) (rank dominant))
    × (rank (hysteretic_band hundredths plain_text selection 82 (some dominant)) < rank dominant
        → hundredths.le (floor_of hundredths plain_text selection dominant) 82 ≡ false)
    × (0 < rank dominant
        → hundredths.lt 82 (floor_of hundredths plain_text selection dominant) ≡ true
        → rank (hysteretic_band hundredths plain_text selection 82 (some dominant)) < rank dominant)
hysteretic_band-held_example =
    hysteretic_band-held hundredths plain_text hundredths-IsOrdered selection selection_accepted 82
      dominant

abbrev shown_as : DdmExpression
shown_as = record { latent = codes "hidden"; salient = codes "visible"; dominant = codes "strong" }

abbrev storm_rule : DdmRule hundredths
storm_rule = record {
  id = codes "storm";
  signal = codes "dmw.tag.storm";
  expected = bool true;
  missing = neutral;
  delta = none;
  multiplier = some 200;
}

abbrev calm : DdmDisposition hundredths
calm = record {
  id = codes "calm";
  base_activation = 70;
  description = [];
  exclusive_group = some (codes "mood");
  modulation = record { context = []; state = [] };
  expression = shown_as;
  constraints = [];
}

abbrev alert : DdmDisposition hundredths
alert = record {
  id = codes "alert";
  base_activation = 45;
  description = [];
  exclusive_group = some (codes "mood");
  modulation = record { context = storm_rule ∷ []; state = [] };
  expression = shown_as;
  constraints = [];
}

abbrev keeper : DdmProfile hundredths
keeper = record {
  schema = codes "momo.ddm/1";
  character_id = codes "keeper";
  revision = 1;
  profile = multiplicative;
  selection = selection;
  dispositions = calm ∷ alert ∷ [];
}

keeper_accepted : validate hundredths plain_text keeper ≡ ok tt
unfolding validate text_eq trim selection_refused valid_activation check_dispositions
    disposition_refused valid_identifier utf8_len all any some_and check_rules rule_refused
    valid_signal strip_prefix signal_value_valid effect_valid raised member
keeper_accepted = refl

abbrev storm : DdmSignalSnapshot hundredths
storm = record {
  values = (codes "dmw.tag.storm", bool true) ∷ [];
  evidence = (codes "dmw.tag.storm", codes "log" ∷ []) ∷ [];
}

abbrev digest : DdmProfile hundredths → Text
digest p = codes "0"

abbrev evaluation_digest :
    DdmProfile hundredths → DdmSignalSnapshot hundredths → List (Text × DdmBand) → Text
evaluation_digest p signals bands = codes "1"

-- The storm doubles the alertness, which then excludes the calm.
storm_run :
    shown_ids hundredths plain_text
      (audit hundredths plain_text digest evaluation_digest keeper storm []).effective_dispositions
    ≡ codes "alert" ∷ []
unfolding evaluate_with_previous ranked evaluate_disposition matched_effect match_rules applies
    signal_matches add_rule activation clamp hysteretic_band sort_by outranks text_le retain_groups
    group_of limit_top lookup put collect text_eq member
storm_run = refl

evaluate-partition_example :
    (length
        (audit hundredths plain_text digest evaluation_digest keeper storm
          []).effective_dispositions
      ≤ 3)
    × Exclusive hundredths plain_text
        (groups_of hundredths plain_text keeper)
        (audit hundredths plain_text digest evaluation_digest keeper storm
          []).effective_dispositions
    × ((test : Text → Bool)
        → count test (
              shown_ids hundredths plain_text
                (audit hundredths plain_text digest evaluation_digest keeper storm
                  []).effective_dispositions)
            + count test
                (audit hundredths plain_text digest evaluation_digest keeper storm
                  []).suppressed_disposition_ids
          ≡ count test (disposition_ids hundredths plain_text keeper.dispositions))
evaluate-partition_example =
    evaluate-partition hundredths plain_text digest evaluation_digest keeper storm []

evaluate-IsRanked_example :
    IsRanked hundredths plain_text hundredths-IsTotal
      (audit hundredths plain_text digest evaluation_digest keeper storm []).effective_dispositions
evaluate-IsRanked_example =
    evaluate-IsRanked hundredths plain_text hundredths-IsTotal digest evaluation_digest keeper storm
      []
