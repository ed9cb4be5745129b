-- ===== src/Prelude/Sorting.antt =====
-- `sort_by`, which is stable, as insertion, and the elements counted by a test.
use Prim.Native.Nat.{ℕ, ◌+◌}
use mathlib.Core.Path.{◌≡◌, refl}
use mathlib.Core.Logic.{inl, inr}
use mathlib.Core.Bool.{Bool, true, false, ◌&&◌}
use mathlib.Core.List.{List, [], ◌∷◌, ◌++◌}
use native.Mathlib.Omega.{arith}
use momo_core.Prelude.Tests.{if◌then◌else◌, Bool-cases, ◌==◌, ltb}
use momo_core.Prelude.Lists.{All}
use momo_core.Prelude.Strings.{Text}

-- `a <= b`, on the code points, which order text as its UTF-8 bytes do.
unfoldable pub text_le : Text → Text → Bool
text_le [] t = true
text_le (c ∷ s) [] = false
text_le (c ∷ s) (d ∷ t) = if ltb c d then true else (c == d) && text_le s t

module _ {ℓ} {A : Type ℓ} (precedes : A → A → Bool) where
  unfoldable pub insert_by : A → List A → List A
  insert_by x [] = x ∷ []
  insert_by x (y ∷ ys) = let rest = insert_by x ys in if precedes x y then x ∷ y ∷ ys else y ∷ rest

  unfoldable pub sort_by : List A → List A
  unfolding insert_by
  sort_by [] = []
  sort_by (x ∷ xs) = insert_by x (sort_by xs)

-- How many elements pass a test.
abbrev pub count {ℓ} : {A : Type ℓ} → (A → Bool) → List A → ℕ
count test [] = 0
count test (x ∷ xs) = (if test x then 1 else 0) + count test xs

module _ {ℓ} {A : Type ℓ} where
  pub count-append :
      (test : A → Bool) (xs ys : List A) → count test (xs ++ ys) ≡ count test xs + count test ys
  count-append test [] ys = omega arith
  count-append test (x ∷ xs) ys = omega (arith, count-append test xs ys)

  count-insert_by :
      (precedes : A → A → Bool) (test : A → Bool) (x : A) (ys : List A)
      → count test (insert_by precedes x ys) ≡ count test (x ∷ ys)
  unfolding insert_by
  count-insert_by precedes test x [] = refl
  count-insert_by precedes test x (y ∷ ys) = elim (Bool-cases (precedes x y)) [
    | inl e ↦ rw e refl
    | inr e ↦ rw e (omega (arith, count-insert_by precedes test x ys))
  ]

  -- Sorting neither drops nor repeats an element.
  pub count-sort_by :
      (precedes : A → A → Bool) (test : A → Bool) (xs : List A)
      → count test (sort_by precedes xs) ≡ count test xs
  unfolding sort_by
  count-sort_by precedes test [] = refl
  count-sort_by precedes test (x ∷ xs) =
      omega (
        arith,
        count-insert_by precedes test x (sort_by precedes xs),
        count-sort_by precedes test xs,
      )

  -- Every element precedes all the later ones.
  abbrev pub Sorted : (A → A → Bool) → List A → Type ℓ
  Sorted precedes [] = Unit
  Sorted precedes (x ∷ xs) = All (λ y. precedes x y ≡ true) xs × Sorted precedes xs

  pub All-weaken {κ μ} :
      {P : A → Type κ} {Q : A → Type μ}
      → ((a : A) → P a → Q a)
      → (xs : List A) → All P xs
      → All Q xs
  All-weaken f [] h = tt
  All-weaken f (x ∷ xs) h = (f x h.0, All-weaken f xs h.1)

  All-insert_by {κ} :
      (precedes : A → A → Bool) (P : A → Type κ) (x : A) (ys : List A)
      → P x
      → All P ys
      → All P (insert_by precedes x ys)
  unfolding insert_by
  All-insert_by precedes P x [] p h = (p, tt)
  All-insert_by precedes P x (y ∷ ys) p h = elim (Bool-cases (precedes x y)) [
    | inl e ↦ rw e (p, h)
    | inr e ↦ rw e (h.0, All-insert_by precedes P x ys p h.1)
  ]

  module _ (precedes : A → A → Bool)
      (total : (a b : A) → precedes a b ≡ false → precedes b a ≡ true)
      (trans : (a b c : A) → precedes a b ≡ true → precedes b c ≡ true → precedes a c ≡ true) where
    insert_by-Sorted :
        (x : A) (ys : List A) → Sorted precedes ys → Sorted precedes (insert_by precedes x ys)
    unfolding insert_by
    insert_by-Sorted x [] h = (tt, tt)
    insert_by-Sorted x (y ∷ ys) h = elim (Bool-cases (precedes x y)) [
      | inl e ↦ rw e ((e, All-weaken (λ z. trans x y z e) ys h.0), h)
      | inr e ↦ rw e (
        All-insert_by precedes (λ z. precedes y z ≡ true) x ys (total x y e) h.0,
        insert_by-Sorted x ys h.1,
      )
    ]

    pub sort_by-Sorted : (xs : List A) → Sorted precedes (sort_by precedes xs)
    unfolding sort_by
    sort_by-Sorted [] = tt
    sort_by-Sorted (x ∷ xs) = insert_by-Sorted x (sort_by precedes xs) (sort_by-Sorted xs)
