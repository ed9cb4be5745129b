-- ===== src/Prelude/Ids.antt =====
-- Finite sets of identifiers (`BTreeSet<Uuid>`): an identifier is a number, a set a list that is
-- read only through `contains`.
use Prim.Native.Nat.{ℕ}
use mathlib.Core.Path.{◌≡◌, refl}
use mathlib.Core.Bool.{Bool, true, false, not, ◌&&◌, ◌||◌}
use mathlib.Core.List.{List, [], ◌∷◌}
use native.Mathlib.Omega.{arith}
use momo_core.Prelude.Tests.{◌==◌, ==_iff, if◌then◌else◌}

unfoldable pub contains : List ℕ → ℕ → Bool
contains [] a = false
contains (x ∷ xs) a = (x == a) || contains xs a

-- `set.extend(items)`
unfoldable pub extend : List ℕ → List ℕ → List ℕ
extend set [] = set
extend set (x ∷ xs) = extend (if contains set x then set else x ∷ set) xs

-- `set.retain(|id| !gone.contains(id))`
unfoldable pub without : List ℕ → List ℕ → List ℕ
without gone [] = []
without gone (x ∷ xs) = let rest = without gone xs in if contains gone x then rest else x ∷ rest

-- `a.is_disjoint(b)`
unfoldable pub is_disjoint : List ℕ → List ℕ → Bool
is_disjoint [] b = true
is_disjoint (x ∷ xs) b = not (contains b x) && is_disjoint xs b

pub contains-extend :
    (set xs : List ℕ) (a : ℕ) → contains (extend set xs) a ≡ (contains set a || contains xs a)
unfolding contains extend
contains-extend set [] a = ground arith
contains-extend set (x ∷ xs) a =
    ground (arith, contains-extend (if contains set x then set else x ∷ set) xs a, ==_iff x a)

pub contains-without :
    (gone xs : List ℕ) (a : ℕ)
    → contains (without gone xs) a ≡ (contains xs a && not (contains gone a))
unfolding contains without
contains-without gone [] a = refl
contains-without gone (x ∷ xs) a = ground (arith, contains-without gone xs a, ==_iff x a)

-- A shared member refutes disjointness, and disjointness holds when there is none.
pub is_disjoint-apart :
    (a b : List ℕ) (x : ℕ) → is_disjoint a b ≡ true → contains a x ≡ true → contains b x ≡ false
unfolding contains is_disjoint
is_disjoint-apart [] b x d h = ground arith
is_disjoint-apart (y ∷ a) b x d h = ground (arith, is_disjoint-apart a b x, ==_iff y x)

-- A set that meets `b` meets every set that includes `b`.
pub is_disjoint_mono :
    (a b c : List ℕ)
    → ((x : ℕ) → contains b x ≡ true → contains c x ≡ true)
    → is_disjoint a c ≡ true
    → is_disjoint a b ≡ true
unfolding is_disjoint
is_disjoint_mono [] b c sub d = refl
is_disjoint_mono (y ∷ a) b c sub d = ground (arith, is_disjoint_mono a b c sub, sub y)

pub is_disjoint-nil : (a : List ℕ) → is_disjoint a [] ≡ true
unfolding is_disjoint contains
is_disjoint-nil [] = refl
is_disjoint-nil (x ∷ a) = ground (arith, is_disjoint-nil a)
