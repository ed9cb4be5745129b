-- ===== src/Ddm/Bands.antt =====
-- Hysteresis: how the band of a disposition follows its activation from turn to turn.
use momo_core.Prelude.{ℕ, ◌≤◌, ◌<◌, ◌≡◌, true, false, Option, some, max, arith, Text}
use momo_core.Ddm.Profile.{Double, DdmBand, latent, salient, dominant, DdmSelection}
use momo_core.Ddm.Validation.{selection_refused, valid_activation}
use momo_core.Ddm.Evaluation.{raw_band, lowered, hysteretic_band}

-- What IEEE 754 says of the comparisons, of the subtraction and of the maximum.
pub record IsOrdered (f64 : Double) : Type 0 where
  pub trans : (a b c : f64.Number) → f64.le a b ≡ true → f64.le b c ≡ true → f64.le a c ≡ true
  pub apart : (a b : f64.Number) → f64.lt a b ≡ true → f64.le b a ≡ false
  pub total :
      (a b : f64.Number)
      → f64.is_finite a ≡ true
      → f64.is_finite b ≡ true
      → f64.le a b ≡ false
      → f64.le b a ≡ true
  pub minus_le :
      (a b : f64.Number)
      → f64.is_finite a ≡ true
      → f64.le (f64.decimal 0 0) b ≡ true
      → f64.le (f64.minus a b) a ≡ true
  pub largest_le :
      (a b c : f64.Number)
      → f64.le a c ≡ true
      → f64.le b c ≡ true
      → f64.le (f64.largest a b) c ≡ true

abbrev pub rank : DdmBand → ℕ
rank latent = 0
rank salient = 1
rank dominant = 2

module _ (f64 : Double) (normalize : Text → Text) where
  -- The threshold that a band is kept above.
  abbrev pub floor_of : DdmSelection f64 → DdmBand → f64.Number
  floor_of s latent = f64.decimal 0 0
  floor_of s salient = lowered f64 normalize s s.salient_threshold
  floor_of s dominant = lowered f64 normalize s s.dominant_threshold

  module _ (ordered : IsOrdered f64) (s : DdmSelection f64)
      (valid : selection_refused f64 normalize s ≡ false) where
    lowered-le :
        (t x : f64.Number)
        → valid_activation f64 normalize t ≡ true
        → f64.le t x ≡ true
        → f64.le (lowered f64 normalize s t) x ≡ true
    unfolding lowered valid_activation selection_refused
    lowered-le t x v h =
        let finite : f64.is_finite t ≡ true = ground arith in
        let positive : f64.le (f64.decimal 0 0) t ≡ true = ground arith in
        let margin : f64.le (f64.decimal 0 0) s.hysteresis_margin ≡ true = ground arith in
        ordered.trans _ t x
          (ordered.largest_le _ _ t (ordered.minus_le t s.hysteresis_margin finite margin) positive)
          h

    keeps_salient :
        (x : f64.Number)
        → f64.le s.salient_threshold x ≡ true
        → f64.le (lowered f64 normalize s s.salient_threshold) x ≡ true
    unfolding selection_refused
    keeps_salient x h = lowered-le s.salient_threshold x (ground arith) h

    keeps_dominant :
        (x : f64.Number)
        → f64.le s.dominant_threshold x ≡ true
        → f64.le (lowered f64 normalize s s.dominant_threshold) x ≡ true
    unfolding selection_refused
    keeps_dominant x h = lowered-le s.dominant_threshold x (ground arith) h

    reaches_salient :
        (x : f64.Number)
        → f64.le s.dominant_threshold x ≡ true
        → f64.le s.salient_threshold x ≡ true
    unfolding selection_refused valid_activation
    reaches_salient x h =
        let first : f64.is_finite s.dominant_threshold ≡ true = ground arith in
        let second : f64.is_finite s.salient_threshold ≡ true = ground arith in
        let apart : f64.le s.dominant_threshold s.salient_threshold ≡ false = ground arith in
        ordered.trans s.salient_threshold s.dominant_threshold x
          (ordered.total s.dominant_threshold s.salient_threshold first second apart) h

    -- For a valid selection, the band after an evaluation is at least the one that the activation
    -- alone gives and at most the higher of that band and the previous one, and it falls below the
    -- previous band only if the activation is not above that band's threshold less the margin, and
    -- then always if it is less.
    pub hysteretic_band-held :
        (x : f64.Number) (previous : DdmBand)
        → (rank (raw_band f64 normalize s x)
            ≤ rank (hysteretic_band f64 normalize s x (some previous)))
          × (rank (hysteretic_band f64 normalize s x (some previous))
              ≤ max (rank (raw_band f64 normalize s x)) (rank previous))
          × (rank (hysteretic_band f64 normalize s x (some previous)) < rank previous
              → f64.le (floor_of s previous) x ≡ false)
          × (0 < rank previous
              → f64.lt x (floor_of s previous) ≡ true
              → rank (hysteretic_band f64 normalize s x (some previous)) < rank previous)
    unfolding hysteretic_band raw_band
    hysteretic_band-held x latent =
        (omega arith, omega arith, λ h. absurd (omega arith), λ p. absurd (omega arith))
    hysteretic_band-held x salient =
        let k = keeps_salient x in
        let a = ordered.apart x (lowered f64 normalize s s.salient_threshold) in
        let d = reaches_salient x in
        (ground arith, ground arith, λ h. ground arith, λ p h. ground arith)
    hysteretic_band-held x dominant =
        let k = keeps_salient x in
        let l = keeps_dominant x in
        let a = ordered.apart x (lowered f64 normalize s s.dominant_threshold) in
        (ground arith, ground arith, λ h. ground arith, λ p h. ground arith)

    -- For a valid selection, evaluating again with an unchanged activation changes no band: a band
    -- never oscillates by itself.
    pub hysteretic_band-settled :
        (x : f64.Number) (previous : Option DdmBand)
        → hysteretic_band f64 normalize s x (some (hysteretic_band f64 normalize s x previous))
          ≡ hysteretic_band f64 normalize s x previous
    unfolding hysteretic_band raw_band
    hysteretic_band-settled x previous =
        let k = keeps_salient x in
        let l = keeps_dominant x in
        let a = ordered.apart x (lowered f64 normalize s s.salient_threshold) in ground arith
