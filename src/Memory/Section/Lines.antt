-- ===== src/Memory/Section/Lines.antt =====
-- The line that the offset distance from the lines stands for.
use momo_core.Prelude.{
  ℕ, ◌+◌, ◌-◌, ◌≤◌, ◌≡◌, ◌≢◌, refl, sym, ap, ◌∙◌, subst, ◌⊎◌, inl, inr, some, List, [], ◌∷◌, ◌++◌,
  ◌==◌, ==_iff, Text, All, text_eq, eq_of_text_eq, utf8_len, Bool-cases, arith,
}
use mathlib.Core.List.{append_assoc}
use momo_core.Memory.Section.{
  newline, onto_first, lines, find_line, utf8_width, onto_before, split_at,
}

-- No carriage return.
abbrev pub NoReturn : Text → Type 0
NoReturn s = All (λ c. c ≢ 13) s

utf8_len-cons : (c : ℕ) (s : Text) → utf8_len (c ∷ s) ≡ utf8_width c + utf8_len s
unfolding utf8_len
utf8_len-cons c s = omega arith

utf8_width-positive : (c : ℕ) → 1 ≤ utf8_width c
unfolding utf8_len
utf8_width-positive c = ground arith

pub utf8_len-append : (s t : Text) → utf8_len (s ++ t) ≡ utf8_len s + utf8_len t
unfolding utf8_len
utf8_len-append [] t = omega arith
utf8_len-append (c ∷ s) t = omega (arith, utf8_len-append s t)

split_at-later :
    (c n : ℕ) (s : Text) → split_at (c ∷ s) (utf8_width c + n) ≡ onto_before c (split_at s n)
unfolding split_at
split_at-later c n s =
    let rest : utf8_width c + n - utf8_width c ≡ n = omega arith in
    rw rest (ground (arith, utf8_width-positive c))

pub split_at-append : (s t : Text) → split_at (s ++ t) (utf8_len s) ≡ some (s, t)
unfolding split_at utf8_len
split_at-append [] [] = refl
split_at-append [] (c ∷ t) = refl
split_at-append (c ∷ s) t =
    ap (split_at (c ∷ s ++ t)) (utf8_len-cons c s)
    ∙ split_at-later c (utf8_len s) (s ++ t)
    ∙ ap (onto_before c) (split_at-append s t)

∷-injective : {A : Type 0} {a b : A} {xs ys : List A} → a ∷ xs ≡ b ∷ ys → (a ≡ b) × (xs ≡ ys)
∷-injective h = (cc, cc)

List-cases : {A : Type 0} (xs : List A) → (xs ≡ []) ⊎ ((a : A) × (rest : List A) × (xs ≡ a ∷ rest))
List-cases [] = inl refl
List-cases (a ∷ rest) = inr (a, rest, refl)

-- The text from the end of a line on, and the lines after it.
abbrev Ends : Text → List Text → Type 0
Ends tail rest =
    ((tail ≡ []) × (rest ≡ []))
    ⊎ ((later : Text) × (tail ≡ 10 ∷ later) × (rest ≡ lines later) × NoReturn later)

-- The first line of a text, and the text after it.
record IsFirst (s line : Text) (rest : List Text) : Type 0 where
  tail : Text
  joined : s ≡ line ++ tail
  ends : Ends tail rest

lines-empty : (s : Text) → NoReturn s → lines s ≡ [] → s ≡ []
unfolding lines
lines-empty [] h e = refl
lines-empty (c ∷ s) h e = elim (List-cases (lines s)) [
  | inl q ↦ absurd (ground (arith, h.0, rw q at e))
  | inr (line, rest, q) ↦ absurd (ground (arith, h.0, rw q at e))
]

lines-IsFirst :
    (s line : Text) (rest : List Text) → NoReturn s → lines s ≡ line ∷ rest → IsFirst s line rest
unfolding lines
lines-IsFirst [] line rest h e = cc
lines-IsFirst (c ∷ s) line rest h e = elim (Bool-cases (c == 10)) [
  | inl t ↦
      let (first, later) : ([] ≡ line) × (lines s ≡ rest) = ∷-injective (rw t at e) in
      record {
        tail = c ∷ s;
        joined = ap (λ l. l ++ (c ∷ s)) first;
        ends = inr (s, ap (λ d. d ∷ s) ((==_iff c 10).0 t), sym later, h.1);
      }
  | inr f ↦
      let e1 : onto_first c (lines s) ≡ line ∷ rest = ground (arith, f, h.0, e) in
      elim (List-cases (lines s)) [
        | inl q ↦
            let (first, later) : ((c ∷ []) ≡ line) × ([] ≡ rest) = ∷-injective (rw q at e1) in
            record {
              tail = [];
              joined = ap (λ s. c ∷ s) (lines-empty s h.1 q) ∙ ap (λ l. l ++ []) first;
              ends = inl (refl, sym later);
            }
        | inr (l, ls, q) ↦
            let (first, later) : ((c ∷ l) ≡ line) × (ls ≡ rest) = ∷-injective (rw q at e1) in
            let v = lines-IsFirst s l ls h.1 q in
            record {
              tail = v.tail;
              joined = ap (λ s. c ∷ s) v.joined ∙ ap (λ l. l ++ v.tail) first;
              ends = subst (Ends v.tail) later v.ends;
            }
      ]
]

-- The heading stands on a line of its own, after what is above it.
pub record IsAt (body heading : Text) (base start : ℕ) : Type 0 where
  pub above : Text
  pub below : Text
  pub whole : body ≡ above ++ (heading ++ below)
  pub distance : start ≡ base + utf8_len above
  pub opens : (above ≡ []) ⊎ ((earlier : Text) × (above ≡ earlier ++ newline))
  pub closes : (below ≡ []) ⊎ ((later : Text) × (below ≡ 10 ∷ later))

base-nothing : (base : ℕ) → base ≡ base + utf8_len []
unfolding utf8_len
base-nothing base = omega arith

-- A line further up moves the place on by its length and its newline.
further_down :
    {body heading tail later : Text} {base start : ℕ} (line : Text)
    → body ≡ line ++ tail
    → tail ≡ 10 ∷ later
    → IsAt later heading (base + (utf8_len line + 1)) start
    → IsAt body heading base start
unfolding utf8_len
further_down {body} {heading} {tail} {later} {base} {start} line joined ended at = record {
  above = line ++ 10 ∷ at.above;
  below = at.below;
  whole =
      joined
      ∙ ap (λ t. line ++ t) (ended ∙ ap (λ t. 10 ∷ t) at.whole)
      ∙ sym (append_assoc line (10 ∷ at.above) (heading ++ at.below));
  distance = omega (arith, at.distance, utf8_len-append line (10 ∷ at.above));
  opens = inr (elim at.opens [
    | inl q ↦ (line, ap (λ b. line ++ 10 ∷ b) q)
    | inr (earlier, q) ↦ (
      line ++ 10 ∷ earlier,
      ap (λ b. line ++ 10 ∷ b) q ∙ sym (append_assoc line (10 ∷ earlier) newline),
    )
  ]);
  closes = at.closes;
}

pub find_line-IsAt :
    (heading : Text) (base : ℕ) (body : Text) (found : List Text) {start : ℕ}
    → NoReturn body
    → lines body ≡ found
    → find_line heading base found ≡ some start
    → IsAt body heading base start
unfolding find_line
find_line-IsAt heading base body [] clean e h = cc
find_line-IsAt heading base body (line ∷ rest) {start} clean e h =
    let v = lines-IsFirst body line rest clean e in
    elim (Bool-cases (text_eq line heading)) [
      | inl t ↦ record {
        above = [];
        below = v.tail;
        whole = v.joined ∙ ap (λ l. l ++ v.tail) (eq_of_text_eq line heading t);
        distance = let q : base ≡ start = ground (arith, t, h) in sym q ∙ base-nothing base;
        opens = inl refl;
        closes = elim v.ends [ inl (q, _) ↦ inl q | inr (later, q, _, _) ↦ inr (later, q) ];
      }
      | inr f ↦
          let h1 : find_line heading (base + (utf8_len line + 1)) rest ≡ some start =
            ground (arith, f, h) in
          elim v.ends [
            | inl (_, q) ↦ absurd (ground (arith, rw q at h1))
            | inr (later, q, lined, k) ↦
                further_down line v.joined q
                  (find_line-IsAt heading (base + (utf8_len line + 1)) later rest k (sym lined) h1)
          ]
    ]
