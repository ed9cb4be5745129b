-- ===== src/Memory/Section/Parts.antt =====
-- Where a section of a body ends: at the next heading, and not past one.
use momo_core.Prelude.{
  ◌≡◌, refl, sym, ap, ◌∙◌, subst, ◌⊎◌, inl, inr, Option, some, [], ◌∷◌, ◌++◌, Text, strip_prefix,
  split_once, Bool-cases, Option-cases, ==_iff, ◌==◌, arith, none, false, contains_text,
}
use mathlib.Core.List.{append_assoc, append-nil}
use momo_core.Memory.Section.{newline, mark, next_mark, section_parts}

append-strip_prefix : (p s : Text) {r : Text} → strip_prefix p s ≡ some r → s ≡ p ++ r
unfolding strip_prefix
append-strip_prefix [] s h = ground (arith, h)
append-strip_prefix (c ∷ p) [] h = cc
append-strip_prefix (c ∷ p) (d ∷ s) {r} h = elim (Bool-cases (c == d)) [
  | inr e ↦ absurd (ground (arith, rw (e, strip_prefix) at h))
  | inl e ↦
      let h1 : strip_prefix p s ≡ some r = ground (arith, e, h) in
      ap (λ x. x ∷ s) (sym ((==_iff c d).0 e)) ∙ ap (λ x. c ∷ x) (append-strip_prefix p s h1)
]

some-pair :
    {a b c d : Text}
    → ◌≡◌ {A = Option (Text × Text)} (some (a, c)) (some (b, d))
    → (a ≡ b) × (c ≡ d)
some-pair h = (cc, cc)

append-split_once : (p s b a : Text) → split_once p s ≡ some (b, a) → s ≡ b ++ (p ++ a)
unfolding split_once
append-split_once p [] b a h = elim (Option-cases (strip_prefix p [])) [
  | inl e ↦ absurd (ground (arith, rw (e, split_once) at h))
  | inr (r, e) ↦
      let (before, after) : ([] ≡ b) × (r ≡ a) = some-pair (rw (e, split_once) at h) in
      subst (λ x. [] ≡ x ++ (p ++ a)) before (append-strip_prefix p [] e ∙ ap (λ x. p ++ x) after)
]
append-split_once p (c ∷ s) b a h = elim (Option-cases (strip_prefix p (c ∷ s))) [
  | inr (r, e) ↦
      let (before, after) : ([] ≡ b) × (r ≡ a) = some-pair (rw (e, split_once) at h) in
      subst (λ x. c ∷ s ≡ x ++ (p ++ a)) before
        (append-strip_prefix p (c ∷ s) e ∙ ap (λ x. p ++ x) after)
  | inl e ↦ elim (Option-cases (split_once p s)) [
    | inl q ↦ absurd (ground (arith, rw (e, q, split_once) at h))
    | inr ((x, y), q) ↦
        let (before, after) : (c ∷ x ≡ b) × (y ≡ a) = some-pair (rw (e, q, split_once) at h) in
        subst (λ z. c ∷ s ≡ z ++ (p ++ a)) before
          (ap (λ z. c ∷ z) (append-split_once p s x y q ∙ ap (λ z. x ++ (p ++ z)) after))
  ]
]

strip_prefix-shorter : (p u v : Text) → strip_prefix p (u ++ v) ≡ none → strip_prefix p u ≡ none
unfolding strip_prefix
strip_prefix-shorter [] u v h = absurd (ground (arith, h))
strip_prefix-shorter (c ∷ p) [] v h = refl
strip_prefix-shorter (c ∷ p) (d ∷ u) v h = elim (Bool-cases (c == d)) [
  | inr e ↦ rw (e, strip_prefix) refl
  | inl e ↦
      let h1 : strip_prefix p (u ++ v) ≡ none = ground (arith, e, h) in
      rw (e, strip_prefix) (strip_prefix-shorter p u v h1)
]

-- Before the first heading, the newline that opens it included, there is none.
split_once-before :
    (s b a : Text)
    → split_once next_mark s ≡ some (b, a)
    → split_once next_mark (b ++ newline) ≡ none
unfolding split_once strip_prefix
split_once-before [] b a h = absurd (ground (arith, h))
split_once-before (c ∷ s) b a h = elim (Option-cases (strip_prefix next_mark (c ∷ s))) [
  | inr (r, e) ↦
      let (before, _) : ([] ≡ b) × (r ≡ a) = some-pair (rw (e, split_once) at h) in
      subst (λ x. split_once next_mark (x ++ newline) ≡ none) before refl
  | inl e ↦ elim (Option-cases (split_once next_mark s)) [
    | inl q ↦ absurd (ground (arith, rw (e, q, split_once) at h))
    | inr ((x, y), q) ↦
        let (before, _) : (c ∷ x ≡ b) × (y ≡ a) = some-pair (rw (e, q, split_once) at h) in
        let whole : s ≡ (x ++ newline) ++ (mark ++ y) =
          append-split_once next_mark s x y q ∙ sym (append_assoc x newline (mark ++ y)) in
        let none_here : strip_prefix next_mark (c ∷ (x ++ newline)) ≡ none =
          strip_prefix-shorter next_mark (c ∷ (x ++ newline)) (mark ++ y)
            (subst (λ z. strip_prefix next_mark (c ∷ z) ≡ none) whole e) in
        subst (λ z. split_once next_mark (z ++ newline) ≡ none) before
          (rw (none_here, split_once-before s x y q, split_once) refl)
  ]
]

-- A section ends with the text, or where the next heading starts.
abbrev pub EndsSection : Text → Type 0
EndsSection rest = (rest ≡ []) ⊎ ((later : Text) × (rest ≡ mark ++ later))

pub section_parts-whole :
    (after : Text)
    → (after ≡ (section_parts after).0 ++ (section_parts after).1)
      × EndsSection (section_parts after).1
      × (contains_text next_mark (section_parts after).0 ≡ false)
unfolding section_parts contains_text
section_parts-whole after = elim (Option-cases (split_once next_mark after)) [
  | inl e ↦ rw (e, section_parts) (sym (append-nil after), inl refl, rw (e, contains_text) refl)
  | inr ((own, later), e) ↦
      rw (e, section_parts)
        (
          append-split_once next_mark after own later e
              ∙ sym (append_assoc own newline (mark ++ later)),
          inr (later, refl),
          rw (split_once-before after own later e, contains_text) refl,
        )
]
