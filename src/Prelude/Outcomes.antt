-- ===== src/Prelude/Outcomes.antt =====
-- `std::result::Result<A, E>`, the operator `?`, and what a success says about its steps.
use mathlib.Core.Path.{◌≡◌, refl}
use mathlib.Core.Bool.{Bool, true, false}
use native.Mathlib.Omega.{arith}

pub data Outcome {ℓ} (E : Type 0) (A : Type ℓ) : Type ℓ where
  err : E → Outcome E A
  ok : A → Outcome E A

infixl 5 ◌>>=◌ ◌>>◌
-- What follows a `?` runs on a success only.
abbrev pub ◌>>=◌ {ℓ κ} :
    {E : Type 0} {A : Type ℓ} {B : Type κ} → Outcome E A → (A → Outcome E B) → Outcome E B
err x >>= next = err x
ok value >>= next = next value

abbrev pub ◌>>◌ {ℓ} : {E : Type 0} {B : Type ℓ} → Outcome E (Unit {0}) → Outcome E B → Outcome E B
err x >> rest = err x
ok done >> rest = rest

-- `if refused { return Err(x) }`
abbrev pub unless : {E : Type 0} → Bool → E → Outcome E (Unit {0})
unless false x = ok tt
unless true x = err x

pub ok-injective {ℓ} :
    {E : Type 0} {A : Type ℓ} {a b : A} → ◌≡◌ {A = Outcome E A} (ok a) (ok b) → a ≡ b
ok-injective h = cc

-- A sequence that succeeds had a first step that did.
pub >>=-ok {ℓ κ} :
    {E : Type 0} {A : Type ℓ} {B : Type κ} (first : Outcome E A) (next : A → Outcome E B) {b : B}
    → (first >>= next) ≡ ok b
    → (a : A) × (first ≡ ok a) × (next a ≡ ok b)
>>=-ok (err x) next h = absurd (ground arith)
>>=-ok (ok value) next h = (value, refl, h)

abbrev pub Succeeds {ℓ} : {E : Type 0} {A : Type ℓ} → Outcome E A → Type ℓ
Succeeds {E} {A} r = (a : A) × (r ≡ ok a)

pub Succeeds-bind {ℓ κ} :
    {E : Type 0} {A : Type ℓ} {B : Type κ} (first : Outcome E A) (next : A → Outcome E B)
    → Succeeds first
    → ((a : A) → first ≡ ok a → Succeeds (next a))
    → Succeeds (first >>= next)
Succeeds-bind (err x) next h k = absurd (ground (arith, h.1))
Succeeds-bind (ok value) next h k = k value refl

-- A sequence that succeeds passed the check that it begins with.
pub unless-passed {ℓ} :
    {E : Type 0} {B : Type ℓ} (refused : Bool) (x : E) (rest : Outcome E B) {b : B}
    → (unless refused x >> rest) ≡ ok b
    → (refused ≡ false) × (rest ≡ ok b)
unless-passed false x rest h = (refl, h)
unless-passed true x rest h = absurd (ground arith)

pub >>-ok {ℓ} :
    {E : Type 0} {B : Type ℓ} (first : Outcome E (Unit {0})) (rest : Outcome E B) {b : B}
    → (first >> rest) ≡ ok b
    → (first ≡ ok tt) × (rest ≡ ok b)
>>-ok (err x) rest h = absurd (ground arith)
>>-ok (ok tt) rest h = (refl, h)
