-- ===== src/Context/Truncate.antt =====
-- context.rs, `truncate_message_content_with`: a text is shortened to a head, a marker and a tail
-- by a binary search for the number of characters to keep.
use momo_core.Prelude.{
  ℕ, zero, suc, ◌+◌, ◌-◌, ◌/◌, ◌≤◌, ◌<◌, ◌≡◌, refl, Bool, true, false, Option, none, some,
  Bool-cases, inl, inr, ◌||◌, [], ◌++◌, arith, leb, ltb, ◌==◌, if◌then◌else◌, Text, codes, is_empty,
  sat_add, usize_max, min, div_ceil, length, take, drop, not,
}

-- `const MESSAGE_OVERHEAD`
abbrev pub message_overhead : ℕ
message_overhead = 6

abbrev pub marker : Text
marker = codes "…"

-- The candidate that keeps `keep` characters.
unfoldable pub candidate : Text → ℕ → Text
candidate characters keep =
    take (div_ceil keep 2) characters
    ++ (marker ++ (if ltb 0 (keep / 2) then drop (length characters - keep / 2) characters else []))

module _ (counter : Text → ℕ) where
  -- `while low <= high`, with a round of fuel for each turn; none where the fuel runs out.
  unfoldable pub search : ℕ → Text → ℕ → ℕ → ℕ → Text → Option Text
  search zero characters budget low high best = if leb low high then none else some best
  search (suc fuel) characters budget low high best =
      let keep = low + (high - low) / 2 in
      let fits = search fuel characters budget (sat_add keep 1) high (candidate characters keep) in
      let too_long = search fuel characters budget low (keep - 1) best in
      if leb low high
      then if leb (counter (candidate characters keep)) budget
        then fits
        else if keep == 0
        then some best
        else too_long
      else some best

  unfoldable pub truncate_message_content_with : Text → ℕ → Text × Bool
  truncate_message_content_with value message_budget =
      let content_budget = message_budget - message_overhead in
      if is_empty value || leb message_budget message_overhead
      then ([], not (is_empty value))
      else if leb (counter value) content_budget
      then (value, false)
      else if ltb content_budget (counter marker)
      then ([], true)
      else elim (search (length value + 1) value content_budget 0 (length value) marker) [
        | none ↦ (marker, true)
        | some best ↦ (best, true)
      ]

  -- The search ends by its own test, within as many rounds as its interval is wide and one more, if
  -- the interval ends below the largest `usize`; what it finds fits the budget, if the text that it
  -- started from did.
  pub search_fuel :
      (fuel : ℕ) (characters : Text) (budget low high : ℕ) (best : Text)
      → high < low + fuel
      → high < usize_max
      → counter best ≤ budget
      → (found : Text) × (search fuel characters budget low high best ≡ some found)
        × (counter found ≤ budget)
  unfolding search sat_add
  search_fuel zero characters budget low high best h k fit =
      let stop : leb low high ≡ false = ground arith in (best, rw (stop, search) refl, fit)
  search_fuel (suc fuel) characters budget low high best h k fit =
      let keep = low + (high - low) / 2 in
      elim (Bool-cases (leb low high)) [
        | inr e ↦ (best, rw (e, search) refl, fit)
        | inl e ↦ elim (Bool-cases (leb (counter (candidate characters keep)) budget)) [
          | inl g ↦
              let le : low ≤ high = ground arith in
              let (found, q, f) =
                search_fuel fuel characters budget (min (keep + 1) usize_max) high
                  (candidate characters keep) (omega arith) k (ground arith) in
              (found, rw (e, g, search) q, f)
          | inr g ↦ elim (Bool-cases (keep == 0)) [
            | inl z ↦ (best, rw (e, g, z, search) refl, fit)
            | inr z ↦
                let le : low ≤ high = ground arith in
                let (found, q, f) =
                  search_fuel fuel characters budget low (keep - 1) best (ground arith)
                    (omega arith) fit in
                (found, rw (e, g, z, search) q, f)
          ]
        ]
      ]
