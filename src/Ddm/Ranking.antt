-- ===== src/Ddm/Ranking.antt =====
-- The order in which an evaluation shows the dispositions.
use momo_core.Prelude.{
  ℕ, ◌≡◌, refl, true, false, List, [], ◌∷◌, arith, ltb, Text, text_le, length, Sorted,
  sort_by-Sorted, Bool-cases, inl, inr, ◌⊎◌, All, All-weaken, Option-cases, Option, member,
}
use momo_core.Ddm.Profile.{Double, DdmBand, DdmProfile, EffectiveDisposition, DdmSignalSnapshot}
use momo_core.Ddm.Evaluation.{
  Retained, retain_groups, limit_top, ranked, groups_of, outranks, group_of, evaluate_with_previous,
}
use momo_core.Ddm.Selection.{retain_groups-All, ungrouped, repeated, first_seen, Sorted-take, audit}

text_le_total : (s t : Text) → text_le s t ≡ false → text_le t s ≡ true
unfolding text_le
text_le_total [] t h = absurd (ground arith)
text_le_total (c ∷ s) [] h = refl
text_le_total (c ∷ s) (d ∷ t) h = ground (arith, h, text_le_total s t)

text_le_trans : (s t u : Text) → text_le s t ≡ true → text_le t u ≡ true → text_le s u ≡ true
unfolding text_le
text_le_trans [] t u h k = refl
text_le_trans (c ∷ s) [] u h k = absurd (ground arith)
text_le_trans (c ∷ s) (d ∷ t) [] h k = absurd (ground arith)
text_le_trans (c ∷ s) (d ∷ t) (e ∷ u) h k = ground (arith, text_le_trans s t u)

-- `total_cmp` is a total order on the bits of a number.
pub record IsTotal (f64 : Double) : Type 0 where
  pub asym : (a b : f64.Number) → f64.total_lt a b ≡ true → f64.total_lt b a ≡ false
  pub trans :
      (a b c : f64.Number)
      → f64.total_lt a b ≡ false
      → f64.total_lt b c ≡ false
      → f64.total_lt a c ≡ false

module _ (f64 : Double) (normalize : Text → Text) (total : IsTotal f64) where
  outranks_total :
      (a b : EffectiveDisposition f64)
      → outranks f64 normalize a b ≡ false
      → outranks f64 normalize b a ≡ true
  unfolding outranks
  outranks_total a b h = ground (arith, text_le_total a.id b.id)

  outranks_trans :
      (a b c : EffectiveDisposition f64)
      → outranks f64 normalize a b ≡ true
      → outranks f64 normalize b c ≡ true
      → outranks f64 normalize a c ≡ true
  unfolding outranks
  outranks_trans a b c h k = ground (
    arith,
    text_le_trans a.id b.id c.id,
    total.asym b.effective_activation a.effective_activation,
    total.asym c.effective_activation b.effective_activation,
    total.trans a.effective_activation b.effective_activation c.effective_activation,
    total.trans b.effective_activation c.effective_activation a.effective_activation,
    total.trans c.effective_activation a.effective_activation b.effective_activation,
  )

  retain_groups-Sorted :
      (groups : List (Text × Option Text)) (selected : List Text)
      (es : List (EffectiveDisposition f64))
      → Sorted (outranks f64 normalize) es
      → Sorted (outranks f64 normalize) (retain_groups f64 normalize groups selected es).kept
  unfolding retain_groups
  retain_groups-Sorted groups selected [] h = tt
  retain_groups-Sorted groups selected (e ∷ rest) h =
      elim (Option-cases (group_of f64 normalize groups e.id)) [
        | inl n ↦ rw (ungrouped f64 normalize groups selected e rest n) (
          retain_groups-All f64 normalize groups _ selected rest h.0,
          retain_groups-Sorted groups selected rest h.1,
        )
        | inr (g, s) ↦ elim (Bool-cases (member selected g)) [
          | inl m ↦
              rw (repeated f64 normalize groups selected e rest g s m)
                (retain_groups-Sorted groups selected rest h.1)
          | inr m ↦ rw (first_seen f64 normalize groups selected e rest g s m) (
            retain_groups-All f64 normalize groups _ (g ∷ selected) rest h.0,
            retain_groups-Sorted groups (g ∷ selected) rest h.1,
          )
        ]
      ]

  limit_top-Sorted :
      (k : ℕ) (r : Retained f64 normalize)
      → Sorted (outranks f64 normalize) r.kept
      → Sorted (outranks f64 normalize) (limit_top f64 normalize k r).kept
  unfolding limit_top
  limit_top-Sorted k r h = elim (Bool-cases (ltb k (length r.kept))) [
    | inl e ↦ rw e (Sorted-take _ k r.kept h)
    | inr e ↦ rw e h
  ]

  -- Of two dispositions in a row: the first is stronger, or they are equally strong, and the
  -- identifier of the first is not the later one.
  abbrev pub IsAhead : EffectiveDisposition f64 → EffectiveDisposition f64 → Type 0
  IsAhead a b =
      (f64.total_lt b.effective_activation a.effective_activation ≡ true)
      ⊎ ((f64.total_lt a.effective_activation b.effective_activation ≡ false)
          × (text_le a.id b.id ≡ true))

  -- Each is ahead of all that come after it.
  abbrev pub IsRanked : List (EffectiveDisposition f64) → Type 0
  IsRanked [] = Unit
  IsRanked (e ∷ rest) = All (IsAhead e) rest × IsRanked rest

  outranks-IsAhead :
      (a b : EffectiveDisposition f64) → outranks f64 normalize a b ≡ true → IsAhead a b
  unfolding outranks
  outranks-IsAhead a b h =
      elim (Bool-cases (f64.total_lt b.effective_activation a.effective_activation)) [
        | inl e ↦ inl e
        | inr e ↦ inr (ground (arith, h, e), ground (arith, h, e))
      ]

  Sorted-IsRanked :
      (es : List (EffectiveDisposition f64)) → Sorted (outranks f64 normalize) es → IsRanked es
  Sorted-IsRanked [] h = tt
  Sorted-IsRanked (e ∷ rest) h =
      (All-weaken (outranks-IsAhead e) rest h.0, Sorted-IsRanked rest h.1)

  -- With numbers that `total_cmp` puts in a total order, the dispositions shown are in the order of
  -- their activation, the strongest first, and those of equal activation in the order of their
  -- identifiers.
  pub evaluate-IsRanked :
      (profile_digest : DdmProfile f64 → Text)
      (evaluation_digest : DdmProfile f64 → DdmSignalSnapshot f64 → List (Text × DdmBand) → Text)
      (p : DdmProfile f64) (signals : DdmSignalSnapshot f64) (bands : List (Text × DdmBand))
      → IsRanked
          (audit f64 normalize profile_digest evaluation_digest p signals
            bands).effective_dispositions
  unfolding evaluate_with_previous ranked
  evaluate-IsRanked profile_digest evaluation_digest p signals bands = Sorted-IsRanked _ (
      limit_top-Sorted p.selection.top_k _ (
        retain_groups-Sorted (groups_of f64 normalize p) [] _
          (sort_by-Sorted (outranks f64 normalize) outranks_total outranks_trans _)))
