-- ===== src/Memory/Escapes/Settled.antt =====
-- A repaired patch needs no second repair.
use momo_core.Prelude.{
  ◌≡◌, refl, sym, ap, ◌∙◌, Bool, true, false, not, ◌&&◌, [], ◌∷◌, Text, Bool-cases, inl, inr, ◌==◌,
  ==_iff, arith, ℕ,
}
use momo_core.Memory.Escapes.{
  backslash, quote, is_known, repaired, escape_unknown_double_quoted_yaml_escapes,
}

repaired-quote :
    (inside : Bool) (c : ℕ) (s : Text)
    → (c == quote) ≡ true
    → repaired inside (c ∷ s) ≡ c ∷ repaired (not inside) s
unfolding repaired
repaired-quote inside c [] h = ground (arith, h)
repaired-quote inside c (d ∷ s) h = rw h refl

repaired-plain :
    (inside : Bool) (c : ℕ) (s : Text)
    → (c == quote) ≡ false
    → (inside && c == backslash) ≡ false
    → repaired inside (c ∷ s) ≡ c ∷ repaired inside s
unfolding repaired
repaired-plain inside c [] h k = rw k refl
repaired-plain inside c (d ∷ s) h k = rw (h, k) refl

repaired-known :
    (c d : ℕ) (s : Text)
    → (c == backslash) ≡ true
    → is_known d ≡ true
    → repaired true (c ∷ d ∷ s) ≡ backslash ∷ d ∷ repaired true s
unfolding repaired
repaired-known c d s h k =
    ap (λ c. repaired true (c ∷ d ∷ s)) ((==_iff c backslash).0 h) ∙ rw k refl

repaired-unknown :
    (c d : ℕ) (s : Text)
    → (c == backslash) ≡ true
    → is_known d ≡ false
    → repaired true (c ∷ d ∷ s) ≡ backslash ∷ backslash ∷ d ∷ repaired true s
unfolding repaired
repaired-unknown c d s h k =
    ap (λ c. repaired true (c ∷ d ∷ s)) ((==_iff c backslash).0 h) ∙ rw k refl

is_known-quote : (d : ℕ) → is_known d ≡ false → ((d == quote) ≡ false) × ((d == backslash) ≡ false)
unfolding is_known
is_known-quote d h = ground (arith, h)

doubled-again :
    (d : ℕ) (s : Text)
    → is_known d ≡ false
    → repaired true s ≡ s
    → repaired true (backslash ∷ backslash ∷ d ∷ s) ≡ backslash ∷ backslash ∷ d ∷ s
unfolding is_known
doubled-again d s h settled =
    let (not_quote, not_backslash) = is_known-quote d h in
    repaired-known backslash backslash (d ∷ s) refl refl
    ∙ ap (λ t. backslash ∷ backslash ∷ t)
        (repaired-plain true d s not_quote not_backslash ∙ ap (λ t. d ∷ t) settled)

doubled-end :
    (inside : Bool) (c : ℕ)
    → (inside && c == backslash) ≡ true
    → repaired inside (backslash ∷ backslash ∷ []) ≡ backslash ∷ backslash ∷ []
unfolding repaired is_known
doubled-end false c b = absurd (ground (arith, b))
doubled-end true c b = refl

-- An escape that is repaired, or known, is left as it is.
escape-again :
    (inside : Bool) (c d : ℕ) (s : Text)
    → (inside && c == backslash) ≡ true
    → repaired inside (repaired inside s) ≡ repaired inside s
    → repaired inside (repaired inside (c ∷ d ∷ s)) ≡ repaired inside (c ∷ d ∷ s)
escape-again false c d s b settled = absurd (ground (arith, b))
escape-again true c d s b settled = elim (Bool-cases (is_known d)) [
  | inl k ↦
      ap (repaired true) (repaired-known c d s b k)
      ∙ repaired-known backslash d (repaired true s) refl k
      ∙ ap (λ t. backslash ∷ d ∷ t) settled
      ∙ sym (repaired-known c d s b k)
  | inr k ↦
      ap (repaired true) (repaired-unknown c d s b k)
      ∙ doubled-again d (repaired true s) k settled
      ∙ sym (repaired-unknown c d s b k)
]

repaired-again :
    (inside : Bool) (s : Text) → repaired inside (repaired inside s) ≡ repaired inside s
unfolding repaired
repaired-again inside [] = refl
repaired-again inside (c ∷ []) = elim (Bool-cases (inside && c == backslash)) [
  | inl e ↦ rw e (doubled-end inside c e)
  | inr e ↦ rw e (rw e refl)
]
repaired-again inside (c ∷ d ∷ cs) = elim (Bool-cases (c == quote)) [
  | inl q ↦
      ap (repaired inside) (repaired-quote inside c (d ∷ cs) q)
      ∙ repaired-quote inside c (repaired (not inside) (d ∷ cs)) q
      ∙ ap (λ t. c ∷ t) (repaired-again (not inside) (d ∷ cs))
      ∙ sym (repaired-quote inside c (d ∷ cs) q)
  | inr q ↦ elim (Bool-cases (inside && c == backslash)) [
    | inr b ↦
        ap (repaired inside) (repaired-plain inside c (d ∷ cs) q b)
        ∙ repaired-plain inside c (repaired inside (d ∷ cs)) q b
        ∙ ap (λ t. c ∷ t) (repaired-again inside (d ∷ cs))
        ∙ sym (repaired-plain inside c (d ∷ cs) q b)
    | inl b ↦ escape-again inside c d cs b (repaired-again inside cs)
  ]
]

-- What the second repair of a patch would start from is what the first one yields.
pub escape_unknown_idempotent :
    (value : Text)
    → escape_unknown_double_quoted_yaml_escapes (escape_unknown_double_quoted_yaml_escapes value)
      ≡ escape_unknown_double_quoted_yaml_escapes value
unfolding escape_unknown_double_quoted_yaml_escapes
escape_unknown_idempotent value = repaired-again false value
