-- ===== src/RuntimeSettings/Prune.antt =====
-- Dropping the empty objects of a patch changes nothing that the patch does.
use momo_core.Prelude.{
  ◌≡◌, refl, sym, ap, ◌∙◌, subst, true, false, Option, none, some, arith, Text, text_eq,
  text_eq-apart, Bool-cases, inl, inr,
}
use momo_core.RuntimeSettings.Json.{
  Json, Fields, null, leaf, object, end, field, is_object, get, put, remove, or_null, fields_of,
  get-put, get-remove, put-get,
}
use momo_core.RuntimeSettings.Merge.{
  merge_patch, merge_fields, prune_empty_objects, prune_fields, is_end, IsDistinct, DistinctFields,
}

module _ (Leaf : Type 0) where
  -- Every object of the patch meets an object of the target.
  abbrev mutual
    pub Fits : Json Leaf → Json Leaf → Type 0
    Fits target null = Unit
    Fits target (leaf x) = Unit
    Fits target (object fields) =
        (is_object Leaf target ≡ true) × FitsFields (fields_of Leaf target) fields

    pub FitsFields : Fields Leaf → Fields Leaf → Type 0
    FitsFields current end = Unit
    FitsFields current (field key value rest) =
        Fits (or_null Leaf (get Leaf current key)) value × FitsFields current rest

  apart :
      (k : Text) (v : Json Leaf) (rest : Fields Leaf) (key : Text)
      → get Leaf (field k v rest) key ≡ none
      → (text_eq k key ≡ false) × (get Leaf rest key ≡ none)
  unfolding get
  apart k v rest key h = (ground (arith, h), ground (arith, h))

  -- What a patch meets does not hang on a field that it does not name.
  FitsFields-put :
      (current fields : Fields Leaf) (key : Text) (value : Json Leaf)
      → get Leaf fields key ≡ none
      → FitsFields current fields
      → FitsFields (put Leaf current key value) fields
  FitsFields-put current end key value n h = tt
  FitsFields-put current (field k v rest) key value n h =
      let (a, m) = apart k v rest key n in
      let e : get Leaf (put Leaf current key value) k ≡ get Leaf current k =
        get-put Leaf current key value k ∙ rw (text_eq-apart k key a) refl in
      (
        subst (λ o. Fits (or_null Leaf o) v) (sym e) h.0,
        FitsFields-put current rest key value m h.1,
      )

  FitsFields-remove :
      (current fields : Fields Leaf) (key : Text)
      → get Leaf fields key ≡ none
      → FitsFields current fields
      → FitsFields (remove Leaf current key) fields
  FitsFields-remove current end key n h = tt
  FitsFields-remove current (field k v rest) key n h =
      let (a, m) = apart k v rest key n in
      let e : get Leaf (remove Leaf current key) k ≡ get Leaf current k =
        get-remove Leaf current key k ∙ rw (text_eq-apart k key a) refl in
      (subst (λ o. Fits (or_null Leaf o) v) (sym e) h.0, FitsFields-remove current rest key m h.1)

  object-fields_of :
      (o : Option (Json Leaf))
      → is_object Leaf (or_null Leaf o) ≡ true
      → o ≡ some (object (fields_of Leaf (or_null Leaf o)))
  object-fields_of none h = absurd (ground (arith, h))
  object-fields_of (some null) h = absurd (ground (arith, h))
  object-fields_of (some (leaf x)) h = absurd (ground (arith, h))
  object-fields_of (some (object fields)) h = refl

  pub end_of_is_end : (fields : Fields Leaf) → is_end Leaf fields ≡ true → fields ≡ end
  end_of_is_end end h = refl
  end_of_is_end (field k v rest) h = absurd (ground (arith, h))

  merge-prune_fields :
      (current fields : Fields Leaf)
      → DistinctFields Leaf fields
      → FitsFields current fields
      → merge_fields Leaf current (prune_fields Leaf fields) ≡ merge_fields Leaf current fields
  unfolding merge_patch prune_empty_objects
  merge-prune_fields current end d h = refl
  merge-prune_fields current (field k null rest) d h =
      merge-prune_fields (remove Leaf current k) rest d.2 (FitsFields-remove current rest k d.0 h.1)
  merge-prune_fields current (field k (leaf x) rest) d h =
      merge-prune_fields (put Leaf current k (leaf x)) rest d.2
        (FitsFields-put current rest k (leaf x) d.0 h.1)
  merge-prune_fields current (field k (object g) rest) d h =
      let inner : Fields Leaf = fields_of Leaf (or_null Leaf (get Leaf current k)) in
      let ig = merge-prune_fields inner g d.1 h.0.1 in
      let next : Fields Leaf = put Leaf current k (object (merge_fields Leaf inner g)) in
      let ir =
        merge-prune_fields next rest d.2
          (FitsFields-put current rest k (object (merge_fields Leaf inner g)) d.0 h.1) in
      elim (Bool-cases (is_end Leaf (prune_fields Leaf g))) [
        | inl e ↦
            let same : merge_fields Leaf inner g ≡ inner =
              sym ig ∙ ap (merge_fields Leaf inner) (end_of_is_end (prune_fields Leaf g) e) in
            let unchanged : next ≡ current =
              ap (λ f. put Leaf current k (object f)) same
              ∙ put-get Leaf current k (object inner)
                  (object-fields_of (get Leaf current k) h.0.0) in
            rw e (ap (λ c. merge_fields Leaf c (prune_fields Leaf rest)) (sym unchanged) ∙ ir)
        | inr e ↦ rw e (
            ap (λ f. merge_fields Leaf (put Leaf current k (object f)) (prune_fields Leaf rest)) ig
            ∙ ir)
      ]

  -- A patch that names no key twice in an object, and of which every object meets an object of the
  -- target, merges into the same document after its empty objects are dropped.
  pub merge_patch-prune :
      (target patch : Json Leaf)
      → IsDistinct Leaf patch
      → Fits target patch
      → merge_patch Leaf target (prune_empty_objects Leaf patch).1 ≡ merge_patch Leaf target patch
  unfolding merge_patch prune_empty_objects
  merge_patch-prune target null d h = refl
  merge_patch-prune target (leaf x) d h = refl
  merge_patch-prune target (object fields) d h =
      ap (λ f. object f) (merge-prune_fields (fields_of Leaf target) fields d h.1)
