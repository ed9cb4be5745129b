-- ===== src/Admission/Queue.antt =====
-- What one pass over the waiting operations leaves behind: nobody waits without a reason, and
-- nobody overtakes an earlier operation that wants the same Space.
use momo_core.Prelude.{
  ℕ, ◌≡◌, refl, ap, Bool, true, false, not, ◌||◌, List, [], ◌∷◌, ◌++◌, arith, All, if◌then◌else◌,
  contains, extend, is_disjoint, contains-extend, is_disjoint_mono, is_disjoint-nil,
}
use momo_core.Admission.Exclusion.{
  System, Step, asks, returns, Reach, here, next, start, active-idle,
}
use momo_core.Admission.{Waiting, Request, Owner, Pass, admit, receive, turn, after}

-- Whether an operation has to wait: the loop's test.
abbrev pub conflicts : List ℕ → List ℕ → Waiting → Bool
conflicts active blocked w = not (is_disjoint w.spaces active) || not (is_disjoint w.spaces blocked)

-- Each waiting operation wants a Space that is active, or that an operation before it waits for.
abbrev pub Justified : List ℕ → List ℕ → List Waiting → Type 0
Justified active blocked [] = Unit {0}
Justified active blocked (w ∷ ws) =
    (conflicts active blocked w ≡ true) × Justified active (extend blocked w.spaces) ws

abbrev Includes : List ℕ → List ℕ → Type 0
Includes a b = (x : ℕ) → contains a x ≡ true → contains b x ≡ true

conflicts_mono :
    (a b blocked : List ℕ) (w : Waiting)
    → Includes a b
    → conflicts a blocked w ≡ true
    → conflicts b blocked w ≡ true
conflicts_mono a b blocked w sub h = ground (arith, is_disjoint_mono w.spaces a b sub)

All-clear :
    (blocked spaces : List ℕ) (gs : List Waiting)
    → All (λ g. is_disjoint g.spaces (extend blocked spaces) ≡ true) gs
    → All (λ g. is_disjoint g.spaces blocked ≡ true) gs
All-clear blocked spaces [] h = tt
All-clear blocked spaces (g ∷ gs) h = (
  is_disjoint_mono g.spaces blocked (extend blocked spaces)
      (λ x k. ground (arith, contains-extend blocked spaces x)) h.0,
  All-clear blocked spaces gs h.1,
)

All-later :
    (blocked spaces : List ℕ) (gs : List Waiting)
    → All (λ g. is_disjoint g.spaces (extend blocked spaces) ≡ true) gs
    → All (λ g. is_disjoint g.spaces spaces ≡ true) gs
All-later blocked spaces [] h = tt
All-later blocked spaces (g ∷ gs) h = (
  is_disjoint_mono g.spaces spaces (extend blocked spaces)
      (λ x k. ground (arith, contains-extend blocked spaces x)) h.0,
  All-later blocked spaces gs h.1,
)

module _ (is_closed : ℕ → Bool) (upgrades : Bool) where
  admit-Includes :
      (active blocked : List ℕ) (ws : List Waiting)
      → Includes active (admit is_closed upgrades active blocked ws).active
  unfolding admit
  admit-Includes active blocked [] x h = h
  admit-Includes active blocked (w ∷ ws) x h = ground (
    arith,
    admit-Includes active blocked ws x,
    admit-Includes active (extend blocked w.spaces) ws x,
    admit-Includes (extend active w.spaces) blocked ws x,
    contains-extend active w.spaces x,
  )

  -- The three ways in which the loop treats the head of the queue.
  admit_cases :
      (P : Pass → Type 0) (active blocked : List ℕ) (w : Waiting) (ws : List Waiting)
      → P (admit is_closed upgrades active blocked ws)
      → (conflicts active blocked w ≡ true
          → let kept = admit is_closed upgrades active (extend blocked w.spaces) ws in
            P (record kept { remaining = w ∷ kept.remaining }))
      → (conflicts active blocked w ≡ false
          → let sent = admit is_closed upgrades (extend active w.spaces) blocked ws in
            P (record sent { granted = w ∷ sent.granted }))
      → P (admit is_closed upgrades active blocked (w ∷ ws))
  unfolding admit
  admit_cases P active blocked w ws dropped waits grants =
      go (is_closed w.reply) (conflicts active blocked w) upgrades refl refl
    where
      kept : Pass
      kept = admit is_closed upgrades active (extend blocked w.spaces) ws

      sent : Pass
      sent = admit is_closed upgrades (extend active w.spaces) blocked ws

      go :
          (c d u : Bool)
          → conflicts active blocked w ≡ d
          → u ≡ u
          → P (
              if c
              then admit is_closed upgrades active blocked ws
              else if d
              then record kept { remaining = w ∷ kept.remaining }
              else if u
              then record sent { granted = w ∷ sent.granted }
              else admit is_closed upgrades active blocked ws)
      go true d u e _ = dropped
      go false true u e _ = waits e
      go false false true e _ = grants e
      go false false false e _ = dropped

  admit-Justified :
      (active blocked : List ℕ) (ws : List Waiting)
      → Justified
          (admit is_closed upgrades active blocked ws).active
          blocked
          (admit is_closed upgrades active blocked ws).remaining
  unfolding admit
  admit-Justified active blocked [] = tt
  admit-Justified active blocked (w ∷ ws) =
      admit_cases (λ p. Justified p.active blocked p.remaining) active blocked w ws
        (admit-Justified active blocked ws)
        (λ c. (
          conflicts_mono active _ blocked w (admit-Includes active (extend blocked w.spaces) ws) c,
          admit-Justified active (extend blocked w.spaces) ws,
        ))
        (λ c. admit-Justified (extend active w.spaces) blocked ws)

  -- What a pass grants keeps clear of every Space that an earlier operation waits for.
  admit-clear :
      (active blocked : List ℕ) (ws : List Waiting)
      → All
          (λ g. is_disjoint g.spaces blocked ≡ true)
          (admit is_closed upgrades active blocked ws).granted
  unfolding admit
  admit-clear active blocked [] = tt
  admit-clear active blocked (w ∷ ws) =
      admit_cases (λ p. All (λ g. is_disjoint g.spaces blocked ≡ true) p.granted) active blocked w
        ws (admit-clear active blocked ws)
        (λ c. All-clear blocked w.spaces _ (admit-clear active (extend blocked w.spaces) ws))
        (λ c. (ground arith, admit-clear (extend active w.spaces) blocked ws))

  -- A pass over a queue in two parts.
  abbrev then_admit : Pass → List Waiting → Pass
  then_admit p ws =
      let q = admit is_closed upgrades p.active p.blocked ws in
      record q { remaining = p.remaining ++ q.remaining; granted = p.granted ++ q.granted }

  admit-append :
      (active blocked : List ℕ) (front back : List Waiting)
      → admit is_closed upgrades active blocked (front ++ back)
        ≡ then_admit (admit is_closed upgrades active blocked front) back
  unfolding admit
  admit-append active blocked [] back = refl
  admit-append active blocked (w ∷ ws) back = ground (
    arith,
    admit-append active blocked ws back,
    admit-append active (extend blocked w.spaces) ws back,
    admit-append (extend active w.spaces) blocked ws back,
  )

  admit_waits :
      (active blocked : List ℕ) (w : Waiting) (ws : List Waiting)
      → is_closed w.reply ≡ false
      → conflicts active blocked w ≡ true
      → let kept = admit is_closed upgrades active (extend blocked w.spaces) ws in
        admit is_closed upgrades active blocked (w ∷ ws)
        ≡ record kept { remaining = w ∷ kept.remaining }
  unfolding admit
  admit_waits active blocked w ws e c = rw (e, c)

  -- The pass up to an operation of the queue.
  abbrev pub considered : Owner → Request → List Waiting → Pass
  considered o m front = admit is_closed upgrades (receive is_closed upgrades o m).active [] front

  -- In one turn of the owner, an operation `w` that has to wait after those before it were
  -- considered stays in the queue behind them, and what is granted from behind it is disjoint
  -- from the Spaces that it waits for.
  pub no_overtaking :
      (o : Owner) (m : Request) (front back : List Waiting) (w : Waiting)
      → (receive is_closed upgrades o m).pending ≡ front ++ (w ∷ back)
      → is_closed w.reply ≡ false
      → conflicts (considered o m front).active (considered o m front).blocked w ≡ true
      → (later : Pass) × ((turn is_closed upgrades o m).remaining
          ≡ (considered o m front).remaining ++ (w ∷ later.remaining))
        × ((turn is_closed upgrades o m).granted ≡ (considered o m front).granted ++ later.granted)
        × All (λ g. is_disjoint g.spaces w.spaces ≡ true) later.granted
  unfolding turn
  no_overtaking o m front back w e open_reply c = (
    admit is_closed upgrades before.active (extend before.blocked w.spaces) back,
    ap (λ p. p.remaining) whole,
    ap (λ p. p.granted) whole,
    All-later before.blocked w.spaces _
        (admit-clear before.active (extend before.blocked w.spaces) back),
  )
    where
      before : Pass
      before = considered o m front

      whole : turn is_closed upgrades o m ≡ (
          let q = admit is_closed upgrades before.active (extend before.blocked w.spaces) back in
          record q {
            remaining = before.remaining ++ (w ∷ q.remaining);
            granted = before.granted ++ q.granted;
          })
      whole = rw (
        e,
        admit-append (receive is_closed upgrades o m).active [] front (w ∷ back),
        admit_waits before.active before.blocked w back open_reply c,
      )

-- The waiting operations of a reachable owner are justified by its active set.
Justified-start : Justified start.owner.active [] start.owner.pending
Justified-start = tt

Step-Justified : {s t : System} → Step s t → Justified t.owner.active [] t.owner.pending
unfolding after turn
Step-Justified {s} (asks c u spaces reply) = admit-Justified c u _ [] _
Step-Justified {s} (returns c u front back w e) = admit-Justified c u _ [] _

Reach-Justified : {s : System} → Reach start s → Justified s.owner.active [] s.owner.pending
Reach-Justified here = tt
Reach-Justified (next r st) = Step-Justified st

-- An empty active set leaves nothing to wait for.
none-waits :
    (active : List ℕ) (ws : List Waiting)
    → ((x : ℕ) → contains active x ≡ false)
    → Justified active [] ws
    → ws ≡ []
none-waits active [] free j = refl
none-waits active (w ∷ ws) free j =
    let clear =
      is_disjoint_mono w.spaces active [] (λ x h. absurd (ground (arith, free x)))
        (is_disjoint-nil w.spaces) in
    ground (arith, clear, is_disjoint-nil w.spaces)

-- In every reachable system the queue is empty when no reservation is held: no operation is
-- left waiting for a Space that nobody will give back.
pub pending-idle : {s : System} → Reach start s → s.held ≡ [] → s.owner.pending ≡ []
pending-idle {s} r e =
    none-waits s.owner.active s.owner.pending (active-idle r e) (Reach-Justified r)
