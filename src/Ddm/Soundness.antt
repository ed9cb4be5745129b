-- ===== src/Ddm/Soundness.antt =====
-- What an accepted profile satisfies.
use momo_core.Prelude.{
  ◌≤◌, ◌≡◌, true, false, not, ◌||◌, List, [], ◌∷◌, ◌++◌, arith, length, Text, text_eq, text_eq_refl,
  member, All, ltb, ◌==◌, is_empty, ok, >>=-ok, unless-passed, trim, codes, ok-injective, refl, sym,
  ap, subst, eq_of_text_eq, Bool-cases, inl, inr,
}
use momo_core.Ddm.Profile.{Double, DdmCalculationProfile, DdmRule, DdmDisposition, DdmProfile}
use momo_core.Ddm.Validation.{
  effect_valid, rule_refused, check_rules, disposition_refused, rules_of, check_dispositions,
  selection_refused, validate, wrong_schema, wrong_identity, disposition_count, wrong_selection,
  max_profile_revision,
}

-- No text occurs twice.
abbrev pub NoDup : List Text → Type 0
NoDup [] = Unit
NoDup (x ∷ xs) = (member xs x ≡ false) × NoDup xs

-- No text occurs twice or in `seen`.
abbrev Fresh : List Text → List Text → Type 0
Fresh seen [] = Unit
Fresh seen (x ∷ xs) = (member seen x ≡ false) × Fresh (x ∷ seen) xs

Fresh-apart :
    (y : Text) (seen xs : List Text) → member seen y ≡ true → Fresh seen xs → member xs y ≡ false
unfolding member
Fresh-apart y seen [] m h = refl
Fresh-apart y seen (x ∷ xs) m h = elim (Bool-cases (text_eq x y)) [
  | inl e ↦ absurd (ground (arith, h.0, m, ap (member seen) (eq_of_text_eq x y e)))
  | inr e ↦ ground (arith, e, Fresh-apart y (x ∷ seen) xs (ground arith) h.1)
]

Fresh-NoDup : (seen xs : List Text) → Fresh seen xs → NoDup xs
unfolding member
Fresh-NoDup seen [] h = tt
Fresh-NoDup seen (x ∷ xs) h = (
  Fresh-apart x (x ∷ seen) xs (ground (arith, text_eq_refl x)) h.1,
  Fresh-NoDup (x ∷ seen) xs h.1,
)

abbrev push_all : List Text → List Text → List Text
push_all seen [] = seen
push_all seen (x ∷ xs) = push_all (x ∷ seen) xs

Fresh-append :
    (seen xs ys : List Text) → Fresh seen xs → Fresh (push_all seen xs) ys → Fresh seen (xs ++ ys)
Fresh-append seen [] ys h k = k
Fresh-append seen (x ∷ xs) ys h k = (h.0, Fresh-append (x ∷ seen) xs ys h.1 k)

module _ (f64 : Double) (normalize : Text → Text) where
  abbrev pub rule_ids : List (DdmRule f64) → List Text
  rule_ids [] = []
  rule_ids (r ∷ rest) = r.id ∷ rule_ids rest

  abbrev pub disposition_ids : List (DdmDisposition f64) → List Text
  disposition_ids [] = []
  disposition_ids (d ∷ rest) = d.id ∷ disposition_ids rest

  -- The identifiers of all the rules of a profile.
  abbrev pub all_rule_ids : List (DdmDisposition f64) → List Text
  all_rule_ids [] = []
  all_rule_ids (d ∷ rest) = rule_ids (rules_of f64 normalize d) ++ all_rule_ids rest

  -- Each rule has the one effect that its calculation takes, and in its range.
  abbrev pub EffectsFit : DdmCalculationProfile → List (DdmRule f64) → Type 0
  EffectsFit kind = All (λ r. effect_valid f64 normalize kind r ≡ true)

  rule_refused-passed :
      (kind : DdmCalculationProfile) (seen : List Text) (rule : DdmRule f64)
      → rule_refused f64 normalize kind seen rule ≡ false
      → (member seen rule.id ≡ false) × (effect_valid f64 normalize kind rule ≡ true)
  unfolding rule_refused
  rule_refused-passed kind seen rule h = (ground arith, ground arith)

  check_rules-ok :
      (kind : DdmCalculationProfile) (d : Text) (seen r : List Text) (bound : f64.Number)
      (rules : List (DdmRule f64))
      → check_rules f64 normalize kind d seen bound rules ≡ ok r
      → Fresh seen (rule_ids rules) × (r ≡ push_all seen (rule_ids rules)) × EffectsFit kind rules
  unfolding check_rules
  check_rules-ok kind d seen r bound [] h = (tt, sym (ok-injective h), tt)
  check_rules-ok kind d seen r bound (rule ∷ rest) h =
      let (accepted, h1) = unless-passed _ _ _ h in
      let (finite, h2) = unless-passed _ _ _ h1 in
      let (f, p, v) = check_rules-ok kind d (rule.id ∷ seen) r _ rest h2 in
      let (n, w) = rule_refused-passed kind seen rule accepted in ((n, f), p, (w, v))

  disposition_refused-fresh :
      (seen : List Text) (d : DdmDisposition f64)
      → disposition_refused f64 normalize seen d ≡ false
      → member seen d.id ≡ false
  unfolding disposition_refused
  disposition_refused-fresh seen d h = ground arith

  check_dispositions-ok :
      (kind : DdmCalculationProfile) (seen_ids seen_rules : List Text)
      (ds : List (DdmDisposition f64))
      → check_dispositions f64 normalize kind seen_ids seen_rules ds ≡ ok tt
      → Fresh seen_ids (disposition_ids ds)
        × Fresh seen_rules (all_rule_ids ds)
        × All (λ d. EffectsFit kind (rules_of f64 normalize d)) ds
  unfolding check_dispositions
  check_dispositions-ok kind seen_ids seen_rules [] h = (tt, tt, tt)
  check_dispositions-ok kind seen_ids seen_rules (d ∷ rest) h =
      let (accepted, h1) = unless-passed _ _ _ h in
      let (r, e, h2) = >>=-ok _ _ h1 in
      let (f, p, v) = check_rules-ok kind d.id seen_rules r _ (rules_of f64 normalize d) e in
      let (g, q, w) = check_dispositions-ok kind (d.id ∷ seen_ids) r rest h2 in
      (
        (disposition_refused-fresh seen_ids d accepted, g),
        Fresh-append seen_rules (rule_ids (rules_of f64 normalize d)) (all_rule_ids rest) f
            (subst (λ s. Fresh s (all_rule_ids rest)) p q),
        (v, w),
      )

  -- What an accepted profile satisfies.
  pub record IsSound (p : DdmProfile f64) : Type 0 where
    pub bounded : (1 ≤ length p.dispositions) × (length p.dispositions ≤ 64)
    pub selected : selection_refused f64 normalize p.selection ≡ false
    pub distinct : NoDup (disposition_ids p.dispositions)
    pub distinct_rules : NoDup (all_rule_ids p.dispositions)
    pub fitting : All (λ d. EffectsFit p.profile (rules_of f64 normalize d)) p.dispositions

  length-bounded :
      (ds : List (DdmDisposition f64))
      → (is_empty ds || ltb 64 (length ds)) ≡ false
      → (1 ≤ length ds) × (length ds ≤ 64)
  length-bounded [] h = absurd (ground arith)
  length-bounded (d ∷ ds) h = (omega arith, ground arith)

  -- An accepted profile has between one and 64 dispositions with distinct identifiers, rules whose
  -- identifiers are distinct throughout the profile, each with the one effect that the calculation
  -- takes and in its range, and a selection with ordered thresholds.
  pub validate-IsSound : (p : DdmProfile f64) → validate f64 normalize p ≡ ok tt → IsSound p
  unfolding validate
  validate-IsSound p h =
      let (schema, h1) =
        unless-passed (not (text_eq p.schema (codes "momo.ddm/1"))) wrong_schema _ h in
      let (identity, h2) =
        unless-passed
          (is_empty (trim p.character_id) || p.revision == 0 || ltb max_profile_revision p.revision)
          wrong_identity _ h1 in
      let (counted, h3) =
        unless-passed (is_empty p.dispositions || ltb 64 (length p.dispositions)) disposition_count
          _ h2 in
      let (selected, h4) =
        unless-passed (selection_refused f64 normalize p.selection) wrong_selection _ h3 in
      let (f, g, v) = check_dispositions-ok p.profile [] [] p.dispositions h4 in
      record {
        bounded = length-bounded p.dispositions counted;
        selected = selected;
        distinct = Fresh-NoDup [] _ f;
        distinct_rules = Fresh-NoDup [] _ g;
        fitting = v;
      }
