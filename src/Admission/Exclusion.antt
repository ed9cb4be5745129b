-- ===== src/Admission/Exclusion.antt =====
-- Reservations exclude one another: the owner's loop together with the reservations that it has
-- granted and whose release it has not read yet.
use momo_core.Prelude.{
  ℕ, ◌+◌, ◌≤◌, ◌≡◌, refl, ap, Bool, true, false, List, [], ◌∷◌, ◌++◌, arith, if◌then◌else◌,
  contains, extend, without, contains-extend, contains-without, is_disjoint-apart,
}
use momo_core.Admission.{Waiting, acquire, release, Owner, admit, receive, turn, after}

abbrev one : Bool → ℕ
one b = if b then 1 else 0

-- How many of the reservations hold the Space.
unfoldable pub holders : ℕ → List Waiting → ℕ
holders x [] = 0
holders x (w ∷ ws) = one (contains w.spaces x) + holders x ws

holders-append : (x : ℕ) (vs ws : List Waiting) → holders x (vs ++ ws) ≡ holders x vs + holders x ws
unfolding holders
holders-append x [] ws = omega arith
holders-append x (v ∷ vs) ws = omega (arith, holders-append x vs ws)

-- A reservation that has been granted is held until the owner reads its release, whether a
-- client has it, has dropped it, or never received it.
pub record System : Type 0 where
  pub owner : Owner
  pub held : List Waiting

-- A client asks, or a held reservation is given back.
pub data Step (s : System) : System → Type 0 where
  asks :
      (is_closed : ℕ → Bool) (upgrades : Bool) (spaces : List ℕ) (reply : ℕ)
      → Step s (record {
        owner = after is_closed upgrades s.owner (acquire spaces reply);
        held = (turn is_closed upgrades s.owner (acquire spaces reply)).granted ++ s.held;
      })
  returns :
      (is_closed : ℕ → Bool) (upgrades : Bool) (front back : List Waiting) (w : Waiting)
      → s.held ≡ front ++ w ∷ back
      → Step s (record {
        owner = after is_closed upgrades s.owner (release w.spaces);
        held = (turn is_closed upgrades s.owner (release w.spaces)).granted ++ (front ++ back);
      })

pub data Reach (s : System) : System → Type 0 where
  here : Reach s s
  next : {t u : System} → Reach s t → Step t u → Reach s u

abbrev pub start : System
start = record { owner = record { active = []; pending = [] }; held = [] }

-- `active` counts each Space exactly as often as it is held.
Tracks : List ℕ → List Waiting → Type 0
Tracks active held = (x : ℕ) → holders x held ≡ one (contains active x)

module _ (is_closed : ℕ → Bool) (upgrades : Bool) where
  -- What a pass grants is what it adds to `active`.
  admit-holders :
      (active blocked : List ℕ) (ws : List Waiting) (x : ℕ)
      → holders x (admit is_closed upgrades active blocked ws).granted + one (contains active x)
        ≡ one (contains (admit is_closed upgrades active blocked ws).active x)
  unfolding admit holders
  admit-holders active blocked [] x = omega arith
  admit-holders active blocked (w ∷ ws) x = ground (
    arith,
    admit-holders active blocked ws x,
    admit-holders active (extend blocked w.spaces) ws x,
    admit-holders (extend active w.spaces) blocked ws x,
    contains-extend active w.spaces x,
    is_disjoint-apart w.spaces active x,
  )

  Tracks-admit :
      (active blocked : List ℕ) (ws held : List Waiting)
      → Tracks active held
      → Tracks
          (admit is_closed upgrades active blocked ws).active
          ((admit is_closed upgrades active blocked ws).granted ++ held)
  unfolding Tracks
  Tracks-admit active blocked ws held h x = omega (
    arith,
    h x,
    admit-holders active blocked ws x,
    holders-append x (admit is_closed upgrades active blocked ws).granted held,
  )

Tracks-release :
    (active : List ℕ) (front back : List Waiting) (w : Waiting)
    → Tracks active (front ++ w ∷ back)
    → Tracks (without w.spaces active) (front ++ back)
unfolding Tracks holders
Tracks-release active front back w h x = ground (
  arith,
  h x,
  contains-without w.spaces active x,
  holders-append x front (w ∷ back),
  holders-append x front back,
)

Step-Tracks :
    {s t : System} → Step s t → Tracks s.owner.active s.held → Tracks t.owner.active t.held
unfolding after turn receive Tracks
Step-Tracks {s} (asks c u spaces reply) h = Tracks-admit c u s.owner.active [] _ s.held h
Step-Tracks {s} (returns c u front back w e) h =
    Tracks-admit c u (without w.spaces s.owner.active) [] _ (front ++ back)
      (Tracks-release s.owner.active front back w (rw e at h))

Tracks-start : Tracks start.owner.active start.held
unfolding Tracks holders contains
Tracks-start x = refl

Reach-Tracks : {s : System} → Reach start s → Tracks s.owner.active s.held
Reach-Tracks here = Tracks-start
Reach-Tracks (next r st) = Step-Tracks st (Reach-Tracks r)

-- In every reachable system, each Space is held by at most one reservation, and the owner's
-- `active` set contains it exactly when one reservation holds it.
pub holders-exclusive :
    {s : System} (r : Reach start s) (x : ℕ)
    → (holders x s.held ≤ 1)
      × (contains s.owner.active x ≡ true → holders x s.held ≡ 1)
      × (contains s.owner.active x ≡ false → holders x s.held ≡ 0)
unfolding Tracks
holders-exclusive r x = (
  ground (arith, Reach-Tracks r x),
  ground (arith, Reach-Tracks r x),
  ground (arith, Reach-Tracks r x),
)

-- With nothing held, nothing is active.
pub active-idle :
    {s : System} → Reach start s → s.held ≡ [] → (x : ℕ) → contains s.owner.active x ≡ false
unfolding Tracks holders
active-idle {s} r e x = ground (arith, Reach-Tracks r x, ap (holders x) e)
