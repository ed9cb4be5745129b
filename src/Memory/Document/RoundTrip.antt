-- ===== src/Memory/Document/RoundTrip.antt =====
-- Reading back what was written.
use momo_core.Prelude.{
  ℕ, ◌≤◌, ◌≡◌, refl, sym, ap, ◌∙◌, subst, false, none, some, [], ◌∷◌, ◌++◌, Text, codes, All-append,
  length, length-append, strip_prefix, split_once, contains_text, Option-cases, Bool-cases, inl,
  inr, arith, ◌==◌, ok, >>=-ok, >>-ok, ok-injective,
}
use mathlib.Core.List.{append_assoc}
use momo_core.Ddm.Profile.{Double}
use momo_core.Memory.Metadata.{yaml, Metadata, MemoryDocument, validate_metadata}
use momo_core.Memory.Paths.{ok_or}
use momo_core.Memory.Archive.{ok_or-ok}
use momo_core.Memory.Section.{newline}
use momo_core.Memory.Section.Lines.{NoReturn}
use momo_core.Memory.Document.{
  Yaml, fence, inner_fence, normalized, trim_start_matches, parse, encode,
}

normalized-NoReturn : (s : Text) → NoReturn s → normalized s ≡ s
unfolding normalized
normalized-NoReturn [] h = refl
normalized-NoReturn (c ∷ s) h = ground (arith, h.0, normalized-NoReturn s h.1)

strip_prefix-append : (p s : Text) → strip_prefix p (p ++ s) ≡ some s
unfolding strip_prefix
strip_prefix-append [] s = refl
strip_prefix-append (c ∷ p) s = ground (arith, strip_prefix-append p s)

-- More text behind a text that is long enough starts no new prefix.
strip_prefix-longer :
    (p s t : Text) → length p ≤ length s → strip_prefix p s ≡ none → strip_prefix p (s ++ t) ≡ none
unfolding strip_prefix
strip_prefix-longer [] s t fits h = ground (arith, h)
strip_prefix-longer (c ∷ p) [] t fits h = absurd (omega (arith, fits))
strip_prefix-longer (c ∷ p) (d ∷ s) t fits h = elim (Bool-cases (c == d)) [
  | inr e ↦ rw e refl
  | inl e ↦ rw e (strip_prefix-longer p s t (omega (arith, fits)) (ground (arith, e, h)))
]

split_once-here :
    (pat s : Text) {rest : Text}
    → strip_prefix pat s ≡ some rest
    → split_once pat s ≡ some ([], rest)
unfolding split_once
split_once-here pat [] h = rw (h, split_once) refl
split_once-here pat (c ∷ s) h = rw (h, split_once) refl

split_once-there :
    (pat s : Text) (c : ℕ) {before after : Text}
    → strip_prefix pat (c ∷ s) ≡ none
    → split_once pat s ≡ some (before, after)
    → split_once pat (c ∷ s) ≡ some (c ∷ before, after)
unfolding split_once
split_once-there pat s c h k = rw (h, k, split_once) refl

contains_text-not :
    (pat s : Text) (c : ℕ)
    → contains_text pat (c ∷ s) ≡ false
    → (strip_prefix pat (c ∷ s) ≡ none) × (contains_text pat s ≡ false)
unfolding contains_text split_once
contains_text-not pat s c h = elim (Option-cases (strip_prefix pat (c ∷ s))) [
  | inr (r, e) ↦ absurd (ground (arith, rw (e, split_once, contains_text) at h))
  | inl e ↦ elim (Option-cases (split_once pat s)) [
    | inl q ↦ (e, rw (q, contains_text) refl)
    | inr ((x, y), q) ↦ absurd (ground (arith, rw (e, q, split_once, contains_text) at h))
  ]
]

-- A text that does not complete a pattern with the pattern's start is what stands before its first
-- occurrence.
split_once-first :
    (start : Text) (last : ℕ) (s rest : Text)
    → contains_text (start ++ last ∷ []) (s ++ start) ≡ false
    → split_once (start ++ last ∷ []) (s ++ (start ++ last ∷ rest)) ≡ some (s, rest)
split_once-first start last [] rest h =
    split_once-here (start ++ last ∷ []) (start ++ last ∷ rest) (
      subst (λ t. strip_prefix (start ++ last ∷ []) t ≡ some rest)
        (append_assoc start (last ∷ []) rest) (strip_prefix-append (start ++ last ∷ []) rest))
split_once-first start last (c ∷ s) rest h =
    let pat = start ++ last ∷ [] in
    let (apart, later) = contains_text-not pat (s ++ start) c h in
    let fits : length pat ≤ length (c ∷ s ++ start) =
      omega (arith, length-append start (last ∷ []), length-append s start) in
    let whole : (c ∷ s ++ start) ++ last ∷ rest ≡ c ∷ s ++ (start ++ last ∷ rest) =
      ap (λ t. c ∷ t) (append_assoc s start (last ∷ rest)) in
    split_once-there pat (s ++ (start ++ last ∷ rest)) c
      (subst (λ t. strip_prefix pat t ≡ none) whole
        (strip_prefix-longer pat (c ∷ s ++ start) (last ∷ rest) fits apart))
      (split_once-first start last s rest later)

-- What the code relies on of YAML, for given metadata: what is written ends with a newline, is read
-- back without it, and holds no carriage return and no line "---".
pub record IsFaithful {f64 : Double} (format : Yaml f64) (m : Metadata f64) : Type 0 where
  pub front : Text
  pub ends :
      (text : Text)
      → format.to_string m ≡ some text
      → trim_start_matches fence text ≡ front ++ newline
  pub reads : format.from_str front ≡ some m
  pub clean : NoReturn front
  pub unfenced : contains_text inner_fence (front ++ codes "\n---") ≡ false

NoReturn-text :
    (front body : Text)
    → NoReturn front
    → NoReturn body
    → NoReturn (fence ++ (front ++ (inner_fence ++ body)))
NoReturn-text front body h k =
    let tail : NoReturn (inner_fence ++ body) = All-append _ inner_fence body (ground arith) k in
    All-append _ fence (front ++ (inner_fence ++ body)) (ground arith)
      (All-append _ front (inner_fence ++ body) h tail)

module _ {f64 : Double} (format : Yaml f64) where
  -- A document without carriage returns in its body that can be written is read back as it was, if
  -- YAML reads back what it writes for its metadata.
  pub parse-encode :
      (document : MemoryDocument f64) (text : Text)
      → IsFaithful format document.metadata
      → NoReturn document.body
      → encode format document ≡ ok text
      → parse format text ≡ ok document
  unfolding parse encode
  parse-encode document text faithful clean h =
      let m = document.metadata in
      let front = faithful.front in
      let (valid, h1) = >>-ok (validate_metadata f64 m) _ h in
      let (written, w, h2) = >>=-ok (ok_or (format.to_string m) yaml) _ h1 in
      let out = ok_or-ok (format.to_string m) yaml w in
      let shape : text ≡ fence ++ (front ++ (inner_fence ++ document.body)) =
        sym (ok-injective h2)
        ∙ ap (λ t. fence ++ (t ++ (fence ++ document.body))) (faithful.ends written out)
        ∙ ap (λ t. fence ++ t) (append_assoc front newline (fence ++ document.body)) in
      let whole : normalized text ≡ fence ++ (front ++ (inner_fence ++ document.body)) =
        ap normalized shape
        ∙ normalized-NoReturn _ (NoReturn-text front document.body (faithful.clean) clean) in
      let opened : strip_prefix fence (normalized text)
          ≡ some (front ++ (inner_fence ++ document.body)) =
        ap (strip_prefix fence) whole ∙ strip_prefix-append fence _ in
      let halves : split_once inner_fence (front ++ (inner_fence ++ document.body))
          ≡ some (front, document.body) =
        split_once-first (codes "\n---") 10 front document.body (faithful.unfenced) in
      rw (opened, halves, faithful.reads, valid) refl
