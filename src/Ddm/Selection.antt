-- ===== src/Ddm/Selection.antt =====
-- Which dispositions an evaluation shows.
use momo_core.Prelude.{
  ℕ, zero, suc, ◌+◌, ◌≤◌, ◌≡◌, refl, ap, Bool, true, false, Option, none, some, List, [], ◌∷◌, map,
  arith, ltb, Text, text_eq, text_eq_refl, eq_of_text_eq, text_le, length, take, drop, member,
  count, count-append, count-sort_by, Sorted, All, lookup, Bool-cases, Option-cases, inl, inr,
}
use momo_core.Ddm.Profile.{
  Double, DdmBand, DdmDisposition, DdmProfile, EffectiveDisposition, DdmAudit, DdmSignalSnapshot,
}
use momo_core.Ddm.Evaluation.{
  Retained, group_of, retain_groups, limit_top, ranked, groups_of, outranks, evaluate_disposition,
  evaluate_with_previous,
}
use momo_core.Ddm.Soundness.{disposition_ids}

module _ (f64 : Double) (normalize : Text → Text) where
  abbrev pub shown_ids : List (EffectiveDisposition f64) → List Text
  shown_ids es = map (λ e. e.id) es

  -- No two of the dispositions are in one exclusive group.
  abbrev pub Apart : List (Text × Option Text) → EffectiveDisposition f64 → Text → Type 0
  Apart groups e group =
      (g : Text) → group_of f64 normalize groups e.id ≡ some g → text_eq group g ≡ false

  abbrev pub Exclusive : List (Text × Option Text) → List (EffectiveDisposition f64) → Type 0
  Exclusive groups [] = Unit
  Exclusive groups (e ∷ rest) =
      ((g : Text)
        → group_of f64 normalize groups e.id ≡ some g
        → All (λ e'. Apart groups e' g) rest)
      × Exclusive groups rest

  member-head : (x y : Text) (xs : List Text) → x ≡ y → member (x ∷ xs) y ≡ true
  unfolding member
  member-head x y xs p = ground (arith, text_eq_refl x, ap (text_eq x) p)

  module _ (groups : List (Text × Option Text)) where
    -- The three branches of one step.
    pub ungrouped :
        (selected : List Text) (e : EffectiveDisposition f64)
        (rest : List (EffectiveDisposition f64))
        → group_of f64 normalize groups e.id ≡ none
        → retain_groups f64 normalize groups selected (e ∷ rest) ≡ (
            let r = retain_groups f64 normalize groups selected rest in
            record r { kept = e ∷ r.kept })
    unfolding retain_groups
    ungrouped selected e rest n = ground (arith, n)

    pub repeated :
        (selected : List Text) (e : EffectiveDisposition f64)
        (rest : List (EffectiveDisposition f64)) (g : Text)
        → group_of f64 normalize groups e.id ≡ some g
        → member selected g ≡ true
        → retain_groups f64 normalize groups selected (e ∷ rest) ≡ (
            let r = retain_groups f64 normalize groups selected rest in
            record r { suppressed = e.id ∷ r.suppressed })
    unfolding retain_groups
    repeated selected e rest g s m = ground (arith, s, m)

    pub first_seen :
        (selected : List Text) (e : EffectiveDisposition f64)
        (rest : List (EffectiveDisposition f64)) (g : Text)
        → group_of f64 normalize groups e.id ≡ some g
        → member selected g ≡ false
        → retain_groups f64 normalize groups selected (e ∷ rest) ≡ (
            let r = retain_groups f64 normalize groups (g ∷ selected) rest in
            record r { kept = e ∷ r.kept })
    unfolding retain_groups
    first_seen selected e rest g s m = ground (arith, s, m)

    -- No kept disposition is in a group selected before.
    retain_groups-outside :
        (selected : List Text) (g : Text) (es : List (EffectiveDisposition f64))
        → member selected g ≡ true
        → All (λ e'. Apart groups e' g) (retain_groups f64 normalize groups selected es).kept
    unfolding retain_groups member
    retain_groups-outside selected g [] m = tt
    retain_groups-outside selected g (e ∷ rest) m =
        elim (Option-cases (group_of f64 normalize groups e.id)) [
          | inl n ↦
              rw (ungrouped selected e rest n)
                ((λ g' h. absurd (cc (n, h))), retain_groups-outside selected g rest m)
          | inr (g1, s) ↦ elim (Bool-cases (member selected g1)) [
            | inl k ↦ rw (repeated selected e rest g1 s k) (retain_groups-outside selected g rest m)
            | inr k ↦ rw (first_seen selected e rest g1 s k) (
              (λ g' h. unlike g g1 g' m k (cc (s, h))),
              retain_groups-outside (g1 ∷ selected) g rest (ground arith),
            )
          ]
        ]
      where
        unlike :
            (g g1 g' : Text)
            → member selected g ≡ true
            → member selected g1 ≡ false
            → ◌≡◌ {A = Option Text} (some g1) (some g')
            → text_eq g g' ≡ false
        unlike g g1 g' m k h = elim (Bool-cases (text_eq g g')) [
          | inr e ↦ e
          | inl e ↦
              let p : g ≡ g' = eq_of_text_eq g g' e in
              let q : g1 ≡ g' = cc h in absurd (cc (m, k, p, q))
        ]

    retain_groups-Exclusive :
        (selected : List Text) (es : List (EffectiveDisposition f64))
        → Exclusive groups (retain_groups f64 normalize groups selected es).kept
    unfolding retain_groups
    retain_groups-Exclusive selected [] = tt
    retain_groups-Exclusive selected (e ∷ rest) =
        elim (Option-cases (group_of f64 normalize groups e.id)) [
          | inl n ↦
              rw (ungrouped selected e rest n)
                ((λ g h. absurd (cc (n, h))), retain_groups-Exclusive selected rest)
          | inr (g1, s) ↦ elim (Bool-cases (member selected g1)) [
            | inl k ↦ rw (repeated selected e rest g1 s k) (retain_groups-Exclusive selected rest)
            | inr k ↦ rw (first_seen selected e rest g1 s k) (
              (λ g h.
                  let p : g1 ≡ g = cc (s, h) in
                  retain_groups-outside (g1 ∷ selected) g rest (member-head g1 g selected p)),
              retain_groups-Exclusive (g1 ∷ selected) rest,
            )
          ]
        ]

    -- Each disposition is kept or suppressed.
    retain_groups-count :
        (test : Text → Bool) (selected : List Text) (es : List (EffectiveDisposition f64))
        → count test (shown_ids (retain_groups f64 normalize groups selected es).kept)
            + count test (retain_groups f64 normalize groups selected es).suppressed
          ≡ count test (shown_ids es)
    unfolding retain_groups
    retain_groups-count test selected [] = refl
    retain_groups-count test selected (e ∷ rest) =
        elim (Option-cases (group_of f64 normalize groups e.id)) [
          | inl n ↦
              rw (ungrouped selected e rest n)
                (omega (arith, retain_groups-count test selected rest))
          | inr (g, s) ↦ elim (Bool-cases (member selected g)) [
            | inl m ↦
                rw (repeated selected e rest g s m)
                  (omega (arith, retain_groups-count test selected rest))
            | inr m ↦
                rw (first_seen selected e rest g s m)
                  (omega (arith, retain_groups-count test (g ∷ selected) rest))
          ]
        ]

    pub retain_groups-All :
        (P : EffectiveDisposition f64 → Type 0) (selected : List Text)
        (es : List (EffectiveDisposition f64))
        → All P es
        → All P (retain_groups f64 normalize groups selected es).kept
    unfolding retain_groups
    retain_groups-All P selected [] h = tt
    retain_groups-All P selected (e ∷ rest) h =
        elim (Option-cases (group_of f64 normalize groups e.id)) [
          | inl n ↦ rw (ungrouped selected e rest n) (h.0, retain_groups-All P selected rest h.1)
          | inr (g, s) ↦ elim (Bool-cases (member selected g)) [
            | inl m ↦ rw (repeated selected e rest g s m) (retain_groups-All P selected rest h.1)
            | inr m ↦
                rw (first_seen selected e rest g s m)
                  (h.0, retain_groups-All P (g ∷ selected) rest h.1)
          ]
        ]

-- The first elements of a list.
module _ {ℓ} {A : Type ℓ} where
  All-take {κ} : (P : A → Type κ) (n : ℕ) (xs : List A) → All P xs → All P (take n xs)
  All-take P zero xs h = tt
  All-take P (suc n) [] h = tt
  All-take P (suc n) (x ∷ xs) h = (h.0, All-take P n xs h.1)

  pub Sorted-take :
      (precedes : A → A → Bool) (n : ℕ) (xs : List A)
      → Sorted precedes xs
      → Sorted precedes (take n xs)
  Sorted-take precedes zero xs h = tt
  Sorted-take precedes (suc n) [] h = tt
  Sorted-take precedes (suc n) (x ∷ xs) h = (All-take _ n xs h.0, Sorted-take precedes n xs h.1)

  length-take-le : (n : ℕ) (xs : List A) → length (take n xs) ≤ n
  length-take-le zero xs = omega arith
  length-take-le (suc n) [] = omega arith
  length-take-le (suc n) (x ∷ xs) = omega (arith, length-take-le n xs)

module _ (f64 : Double) (normalize : Text → Text) where
  count-shown :
      (test : Text → Bool) (n : ℕ) (es : List (EffectiveDisposition f64))
      → count test (shown_ids f64 normalize (take n es))
          + count test (shown_ids f64 normalize (drop n es))
        ≡ count test (shown_ids f64 normalize es)
  count-shown test zero es = omega arith
  count-shown test (suc n) [] = omega arith
  count-shown test (suc n) (e ∷ es) = omega (arith, count-shown test n es)

  Exclusive-take :
      (groups : List (Text × Option Text)) (n : ℕ) (es : List (EffectiveDisposition f64))
      → Exclusive f64 normalize groups es
      → Exclusive f64 normalize groups (take n es)
  Exclusive-take groups zero es h = tt
  Exclusive-take groups (suc n) [] h = tt
  Exclusive-take groups (suc n) (e ∷ es) h =
      ((λ g p. All-take _ n es (h.0 g p)), Exclusive-take groups n es h.1)

  limit_top-le :
      (k : ℕ) (r : Retained f64 normalize) → length (limit_top f64 normalize k r).kept ≤ k
  unfolding limit_top
  limit_top-le k r = elim (Bool-cases (ltb k (length r.kept))) [
    | inl e ↦ rw e (length-take-le k r.kept)
    | inr e ↦ rw e (ground (arith, e))
  ]

  limit_top-count :
      (test : Text → Bool) (k : ℕ) (r : Retained f64 normalize)
      → count test (shown_ids f64 normalize (limit_top f64 normalize k r).kept)
          + count test (limit_top f64 normalize k r).suppressed
        ≡ count test (shown_ids f64 normalize r.kept) + count test r.suppressed
  unfolding limit_top
  limit_top-count test k r = elim (Bool-cases (ltb k (length r.kept))) [
    | inl e ↦ rw e (
        omega (
          arith,
          count-shown test k r.kept,
          count-append test r.suppressed (shown_ids f64 normalize (drop k r.kept)),
        ))
    | inr e ↦ rw e refl
  ]

  limit_top-Exclusive :
      (groups : List (Text × Option Text)) (k : ℕ) (r : Retained f64 normalize)
      → Exclusive f64 normalize groups r.kept
      → Exclusive f64 normalize groups (limit_top f64 normalize k r).kept
  unfolding limit_top
  limit_top-Exclusive groups k r h = elim (Bool-cases (ltb k (length r.kept))) [
    | inl e ↦ rw e (Exclusive-take groups k r.kept h)
    | inr e ↦ rw e h
  ]

module _ (f64 : Double) (normalize : Text → Text) (profile_digest : DdmProfile f64 → Text)
    (evaluation_digest : DdmProfile f64
      → DdmSignalSnapshot f64
      → List (Text × DdmBand)
      → Text) where
  -- The identifiers of `evaluate_disposition` are those of the profile.
  evaluated_ids :
      (test : Text → Bool) (p : DdmProfile f64) (signals : DdmSignalSnapshot f64)
      (bands : List (Text × DdmBand)) (ds : List (DdmDisposition f64))
      → count
          (λ e. test e.id)
          (map (λ d. evaluate_disposition f64 normalize p d signals (lookup bands d.id)) ds)
        ≡ count test (disposition_ids f64 normalize ds)
  unfolding evaluate_disposition
  evaluated_ids test p signals bands [] = refl
  evaluated_ids test p signals bands (d ∷ ds) = omega (arith, evaluated_ids test p signals bands ds)

  count-ids :
      (test : Text → Bool) (es : List (EffectiveDisposition f64))
      → count test (shown_ids f64 normalize es) ≡ count (λ e. test e.id) es
  count-ids test [] = refl
  count-ids test (e ∷ es) = omega (arith, count-ids test es)

  module _ (p : DdmProfile f64) (signals : DdmSignalSnapshot f64)
      (bands : List (Text × DdmBand)) where
    abbrev pub audit : DdmAudit f64
    audit = evaluate_with_previous f64 normalize profile_digest evaluation_digest p signals bands

    -- An evaluation shows at most `top_k` dispositions and no two of one exclusive group, and for
    -- every test on identifiers the shown and the suppressed ones that pass it are together as many
    -- as those of the profile: no disposition is lost and none is added.
    pub evaluate-partition :
        (length audit.effective_dispositions ≤ p.selection.top_k)
        × Exclusive f64 normalize (groups_of f64 normalize p) audit.effective_dispositions
        × ((test : Text → Bool)
            → count test (shown_ids f64 normalize audit.effective_dispositions)
                + count test audit.suppressed_disposition_ids
              ≡ count test (disposition_ids f64 normalize p.dispositions))
    unfolding evaluate_with_previous ranked
    evaluate-partition =
        let es = ranked f64 normalize p signals bands in
        let groups = groups_of f64 normalize p in
        let r = retain_groups f64 normalize groups [] es in
        let top = limit_top f64 normalize p.selection.top_k r in
        (
          limit_top-le f64 normalize p.selection.top_k r,
          limit_top-Exclusive f64 normalize groups p.selection.top_k r
              (retain_groups-Exclusive f64 normalize groups [] es),
          λ test. omega (
            arith,
            count-sort_by text_le test top.suppressed,
            limit_top-count f64 normalize test p.selection.top_k r,
            retain_groups-count f64 normalize groups test [] es,
            count-ids test es,
            count-sort_by (outranks f64 normalize) (λ e. test e.id)
                (map (λ d. evaluate_disposition f64 normalize p d signals (lookup bands d.id))
                  p.dispositions),
            evaluated_ids test p signals bands p.dispositions,
          ),
        )
