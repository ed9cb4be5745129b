-- ===== src/Prelude/Maps.antt =====
-- Sets and maps keyed by text (`BTreeSet<String>`, `BTreeMap<String, V>`): lists that are read only
-- through `member` and `lookup`.
use mathlib.Core.Path.{◌≡◌, refl, ap, subst, ◌∙◌}
use mathlib.Core.Logic.{inl, inr}
use mathlib.Core.Bool.{Bool, false, ◌||◌}
use mathlib.Core.Option.{Option, none, some}
use mathlib.Core.List.{List, [], ◌∷◌}
use native.Mathlib.Omega.{arith}
use momo_core.Prelude.Tests.{if◌then◌else◌, Bool-cases}
use momo_core.Prelude.Lists.{All}
use momo_core.Prelude.Strings.{Text, text_eq, text_eq_iff, text_eq_refl, eq_of_text_eq}

unfoldable pub member : List Text → Text → Bool
member [] s = false
member (x ∷ xs) s = text_eq x s || member xs s

pub text_eq-apart : (s t : Text) → text_eq s t ≡ false → text_eq t s ≡ false
text_eq-apart s t h = elim (Bool-cases (text_eq t s)) [
  | inr e ↦ e
  | inl e ↦ absurd (ground (arith, h, text_eq_refl s, ap (text_eq s) (eq_of_text_eq t s e)))
]

module _ {ℓ} {V : Type ℓ} where
  unfoldable pub lookup : List (Text × V) → Text → Option V
  lookup [] key = none
  lookup ((k, v) ∷ rest) key =
      let later = lookup rest key in if text_eq k key then some v else later

  -- `map.insert(key, value)`
  unfoldable pub put : List (Text × V) → Text → V → List (Text × V)
  put [] key value = (key, value) ∷ []
  put ((k, v) ∷ rest) key value =
      let later = put rest key value in if text_eq k key then (k, value) ∷ rest else (k, v) ∷ later

  -- `map.remove(key)`
  unfoldable pub discard : List (Text × V) → Text → List (Text × V)
  discard [] key = []
  discard ((k, v) ∷ rest) key =
      let later = discard rest key in if text_eq k key then later else (k, v) ∷ later

  -- `iter.collect::<BTreeMap<_, _>>()`
  unfoldable pub collect : List (Text × V) → List (Text × V) → List (Text × V)
  collect entries [] = entries
  collect entries ((k, v) ∷ rest) = collect (put entries k v) rest

  -- No key occurs twice.
  abbrev pub DistinctKeys : List (Text × V) → Type ℓ
  DistinctKeys [] = Unit
  DistinctKeys ((k, v) ∷ rest) = (lookup rest k ≡ none) × DistinctKeys rest

  -- Every value has the property.
  abbrev pub Values {κ} : (V → Type κ) → List (Text × V) → Type κ
  Values P m = All (λ entry. P entry.1) m

  pub lookup-Values {κ} :
      (P : V → Type κ) (m : List (Text × V)) (key : Text) (v : V)
      → Values P m
      → lookup m key ≡ some v
      → P v
  unfolding lookup
  lookup-Values P [] key v h e = absurd (ground arith)
  lookup-Values P ((k, w) ∷ rest) key v h e = elim (Bool-cases (text_eq k key)) [
    | inl t ↦ let q : w ≡ v = ground (arith, t, e) in subst P q h.0
    | inr t ↦ lookup-Values P rest key v h.1 (ground (arith, t, e))
  ]

  pub put-Values {κ} :
      (P : V → Type κ) (m : List (Text × V)) (key : Text) (v : V)
      → Values P m
      → P v
      → Values P (put m key v)
  unfolding put
  put-Values P [] key v h p = (p, tt)
  put-Values P ((k, w) ∷ rest) key v h p = elim (Bool-cases (text_eq k key)) [
    | inl t ↦ rw t (p, h.1)
    | inr t ↦ rw t (h.0, put-Values P rest key v h.1 p)
  ]

  -- A key that is put is found, and the others are as before.
  pub lookup-put : (m : List (Text × V)) (key : Text) (v : V) → lookup (put m key v) key ≡ some v
  unfolding lookup put
  lookup-put [] key v = ground (arith, text_eq_refl key)
  lookup-put ((k, w) ∷ rest) key v = ground (arith, lookup-put rest key v)

  pub lookup-put-other :
      (m : List (Text × V)) (key other : Text) (v : V)
      → text_eq key other ≡ false
      → lookup (put m key v) other ≡ lookup m other
  unfolding lookup put
  lookup-put-other [] key other v h = ground (arith, h)
  lookup-put-other ((k, w) ∷ rest) key other v h =
      ground (arith, lookup-put-other rest key other v h, eq_of_text_eq k key, h)

  pub put-DistinctKeys :
      (m : List (Text × V)) (key : Text) (v : V) → DistinctKeys m → DistinctKeys (put m key v)
  unfolding put lookup
  put-DistinctKeys [] key v h = (refl, tt)
  put-DistinctKeys ((k, w) ∷ rest) key v h = elim (Bool-cases (text_eq k key)) [
    | inl t ↦ rw t h
    | inr t ↦ rw t (
      lookup-put-other rest key k v (text_eq-apart k key t) ∙ h.0,
      put-DistinctKeys rest key v h.1,
    )
  ]

  pub lookup-discard :
      (m : List (Text × V)) (key other : Text)
      → lookup (discard m key) other ≡ (if text_eq key other then none else lookup m other)
  unfolding lookup discard
  lookup-discard [] key other = ground arith
  lookup-discard ((k, w) ∷ rest) key other = ground (
    arith,
    lookup-discard rest key other,
    text_eq_iff k key,
    text_eq_iff k other,
    text_eq_iff key other,
  )

  pub discard-Values {κ} :
      (P : V → Type κ) (m : List (Text × V)) (key : Text) → Values P m → Values P (discard m key)
  unfolding discard
  discard-Values P [] key h = tt
  discard-Values P ((k, w) ∷ rest) key h = elim (Bool-cases (text_eq k key)) [
    | inl t ↦ rw t (discard-Values P rest key h.1)
    | inr t ↦ rw t (h.0, discard-Values P rest key h.1)
  ]

  pub discard-DistinctKeys :
      (m : List (Text × V)) (key : Text) → DistinctKeys m → DistinctKeys (discard m key)
  unfolding discard lookup
  discard-DistinctKeys [] key h = tt
  discard-DistinctKeys ((k, w) ∷ rest) key h = elim (Bool-cases (text_eq k key)) [
    | inl t ↦ rw t (discard-DistinctKeys rest key h.1)
    | inr t ↦
        rw t (lookup-discard rest key k ∙ ground (arith, h.0), discard-DistinctKeys rest key h.1)
  ]
