-- ===== src/History/Images.antt =====
-- How many images the first loop of `HistoryContext::new` leaves.
use mathlib.Core.List.{reverse, reverse-cons}
use momo_core.Prelude.{
  ℕ, ◌+◌, ◌≤◌, ◌≡◌, refl, ap, ◌∙◌, Bool, false, not, ◌||◌, Option, none, some, Option-cases,
  Bool-cases, inl, inr, List, [], ◌∷◌, ◌++◌, Text, text_eq, text_eq_refl, ltb, length, lookup, put,
  discard, arith, lookup-discard,
}
use momo_core.History.Messages.{Message, MessageContextPayload, user_images, tool_exchanges}
use momo_core.History.Evidence.{Entry, Claims, claim_found, claim}

abbrev pub images_of : Option MessageContextPayload → ℕ
images_of none = 0
images_of (some (user_images images)) = length images
images_of (some (tool_exchanges exchanges)) = 0

-- The images that the contexts hold for messages.
abbrev pub images_for : List (Text × MessageContextPayload) → List Message → ℕ
images_for contexts [] = 0
images_for contexts (m ∷ rest) = images_of (lookup contexts m.id) + images_for contexts rest

abbrev pub image_total : List (Text × Entry) → ℕ
image_total [] = 0
image_total ((content, entry) ∷ rest) = entry.image_count + image_total rest

-- Contexts only go.
claim_found-fewer :
    (supports : Bool) (id other : Text) (found : Option MessageContextPayload) (c : Claims)
    → images_of (lookup (claim_found supports id found c).contexts other)
      ≤ images_of (lookup c.contexts other)
claim_found-fewer supports id other none c = omega arith
claim_found-fewer supports id other (some (tool_exchanges exchanges)) c = omega arith
claim_found-fewer supports id other (some (user_images images)) c =
    elim (Bool-cases (not supports || ltb c.remaining (length images))) [
      | inr e ↦ rw e (omega arith)
      | inl e ↦ elim (Bool-cases (text_eq id other)) [
        | inl t ↦ rw (e, lookup-discard c.contexts id other, t) (omega arith)
        | inr t ↦ rw (e, lookup-discard c.contexts id other, t) (omega arith)
      ]
    ]

claim-fewer :
    (supports : Bool) (messages : List Message) (c : Claims) (other : Text)
    → images_of (lookup (claim supports messages c).contexts other)
      ≤ images_of (lookup c.contexts other)
unfolding claim
claim-fewer supports [] c other = omega arith
claim-fewer supports (m ∷ older) c other =
    let next = claim_found supports m.id (lookup c.contexts m.id) c in
    omega (
      arith,
      claim-fewer supports older next other,
      claim_found-fewer supports m.id other (lookup c.contexts m.id) c,
    )

-- A message that keeps its images takes them from what remains.
claim_found-paid :
    (supports : Bool) (id : Text) (c : Claims)
    → images_of (lookup (claim_found supports id (lookup c.contexts id) c).contexts id)
        + (claim_found supports id (lookup c.contexts id) c).remaining
      ≤ c.remaining
claim_found-paid supports id c = elim (Option-cases (lookup c.contexts id)) [
  | inl e ↦ rw (e, e) (omega arith)
  | inr (tool_exchanges exchanges, e) ↦ rw (e, e) (omega arith)
  | inr (user_images images, e) ↦
      elim (Bool-cases (not supports || ltb c.remaining (length images))) [
        | inl f ↦ rw (e, f, lookup-discard c.contexts id id, text_eq_refl id) (omega arith)
        | inr f ↦ rw (e, f, e) (ground (arith, f))
      ]
]

pub claim-images_for :
    (supports : Bool) (newest_first : List Message) (c : Claims)
    → images_for (claim supports newest_first c).contexts newest_first ≤ c.remaining
unfolding claim
claim-images_for supports [] c = omega arith
claim-images_for supports (m ∷ older) c =
    let next = claim_found supports m.id (lookup c.contexts m.id) c in
    omega (
      arith,
      claim-images_for supports older next,
      claim-fewer supports older next m.id,
      claim_found-paid supports m.id c,
    )

claim_found-unsupported :
    (id : Text) (c : Claims)
    → images_of (lookup (claim_found false id (lookup c.contexts id) c).contexts id) ≡ 0
claim_found-unsupported id c = elim (Option-cases (lookup c.contexts id)) [
  | inl e ↦ rw (e, e) refl
  | inr (tool_exchanges exchanges, e) ↦ rw (e, e) refl
  | inr (user_images images, e) ↦ rw (e, lookup-discard c.contexts id id, text_eq_refl id) refl
]

pub claim-unsupported :
    (newest_first : List Message) (c : Claims)
    → images_for (claim false newest_first c).contexts newest_first ≡ 0
unfolding claim
claim-unsupported [] c = refl
claim-unsupported (m ∷ older) c =
    let next = claim_found false m.id (lookup c.contexts m.id) c in
    omega (
      arith,
      claim-unsupported older next,
      claim-fewer false older next m.id,
      claim_found-unsupported m.id c,
    )

images_for-append :
    (contexts : List (Text × MessageContextPayload)) (xs ys : List Message)
    → images_for contexts (xs ++ ys) ≡ images_for contexts xs + images_for contexts ys
images_for-append contexts [] ys = omega arith
images_for-append contexts (x ∷ xs) ys = omega (arith, images_for-append contexts xs ys)

pub images_for-reverse :
    (contexts : List (Text × MessageContextPayload)) (ms : List Message)
    → images_for contexts (reverse ms) ≡ images_for contexts ms
images_for-reverse contexts [] = refl
images_for-reverse contexts (m ∷ ms) =
    ap (images_for contexts) (reverse-cons m ms)
    ∙ omega
        (arith, images_for-append contexts (reverse ms) (m ∷ []), images_for-reverse contexts ms)

pub images_for-discard :
    (contexts : List (Text × MessageContextPayload)) (id : Text) (ms : List Message)
    → images_for (discard contexts id) ms ≤ images_for contexts ms
images_for-discard contexts id [] = omega arith
images_for-discard contexts id (m ∷ ms) = elim (Bool-cases (text_eq id m.id)) [
  | inl t ↦
      rw (lookup-discard contexts id m.id, t) (omega (arith, images_for-discard contexts id ms))
  | inr t ↦
      rw (lookup-discard contexts id m.id, t) (omega (arith, images_for-discard contexts id ms))
]

pub image_total-put :
    (entries : List (Text × Entry)) (content : Text) (entry : Entry)
    → image_total (put entries content entry) ≤ image_total entries + entry.image_count
unfolding put
image_total-put [] content entry = omega arith
image_total-put ((k, e) ∷ rest) content entry = elim (Bool-cases (text_eq k content)) [
  | inl t ↦ rw t (omega arith)
  | inr t ↦ rw t (omega (arith, image_total-put rest content entry))
]
