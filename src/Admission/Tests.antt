-- ===== src/Admission/Tests.antt =====
-- Runs of the admission owner, and instances of its theorems.
use momo_core.Prelude.{
  ℕ, ◌≤◌, ◌≡◌, refl, Bool, true, false, [], ◌∷◌, ◌++◌, All, contains, extend, without, is_disjoint,
}
use momo_core.Admission.{Waiting, Owner, Pass, acquire, release, admit, turn, after}
use momo_core.Admission.Exclusion.{
  System, Reach, asks, returns, here, next, start, holders, holders-exclusive,
}
use momo_core.Admission.Queue.{considered, no_overtaking, pending-idle}

abbrev all_open : ℕ → Bool
all_open _ = false

abbrev waiting_1 : Waiting
waiting_1 = record { spaces = 1 ∷ 2 ∷ []; reply = 10 }

abbrev waiting_2 : Waiting
waiting_2 = record { spaces = 2 ∷ 3 ∷ []; reply = 11 }

abbrev waiting_3 : Waiting
waiting_3 = record { spaces = 3 ∷ []; reply = 12 }

abbrev waiting_4 : Waiting
waiting_4 = record { spaces = 4 ∷ []; reply = 13 }

-- Space 1 and 2 are taken; the second operation waits for 2 and so keeps 3 from the third one.
abbrev busy : Owner
busy = record { active = 2 ∷ 1 ∷ []; pending = waiting_2 ∷ waiting_3 ∷ [] }

fourth_is_granted : (turn all_open true busy (acquire (4 ∷ []) 13)).granted ≡ waiting_4 ∷ []
unfolding turn admit contains extend is_disjoint
fourth_is_granted = refl

release_grants_second : (turn all_open true busy (release (1 ∷ 2 ∷ []))).granted ≡ waiting_2 ∷ []
unfolding turn admit contains extend without is_disjoint
release_grants_second = refl

abbrev once : System
once = record {
  owner = after all_open true start.owner (acquire (1 ∷ 2 ∷ []) 10);
  held = (turn all_open true start.owner (acquire (1 ∷ 2 ∷ []) 10)).granted ++ [];
}

once-held : once.held ≡ waiting_1 ∷ []
unfolding turn admit contains extend is_disjoint
once-held = refl

abbrev back_again : System
back_again = record {
  owner = after all_open true once.owner (release (1 ∷ 2 ∷ []));
  held = (turn all_open true once.owner (release (1 ∷ 2 ∷ []))).granted ++ ([] ++ []);
}

back_again-held : back_again.held ≡ []
unfolding after turn admit contains extend without is_disjoint
back_again-held = refl

once_reached : Reach start once
once_reached = next here (asks all_open true (1 ∷ 2 ∷ []) 10)

back_again_reached : Reach start back_again
back_again_reached = next once_reached (returns all_open true [] [] waiting_1 once-held)

holders-exclusive_example :
    (holders 2 once.held ≤ 1)
    × (contains once.owner.active 2 ≡ true → holders 2 once.held ≡ 1)
    × (contains once.owner.active 2 ≡ false → holders 2 once.held ≡ 0)
holders-exclusive_example = holders-exclusive once_reached 2

pending-idle_example : back_again.owner.pending ≡ []
pending-idle_example = pending-idle back_again_reached back_again-held

no_overtaking_example :
    (later : Pass) × ((turn all_open true busy (acquire (4 ∷ []) 13)).remaining
      ≡ (considered all_open true busy (acquire (4 ∷ []) 13) []).remaining
        ++ (waiting_2 ∷ later.remaining))
    × ((turn all_open true busy (acquire (4 ∷ []) 13)).granted
        ≡ (considered all_open true busy (acquire (4 ∷ []) 13) []).granted ++ later.granted)
    × All (λ g. is_disjoint g.spaces waiting_2.spaces ≡ true) later.granted
unfolding turn admit contains extend is_disjoint
no_overtaking_example =
    no_overtaking all_open true busy (acquire (4 ∷ []) 13) [] (waiting_3 ∷ waiting_4 ∷ []) waiting_2
      refl refl refl
