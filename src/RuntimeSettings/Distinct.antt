-- ===== src/RuntimeSettings/Distinct.antt =====
-- Merging keeps the keys of an object distinct.
use momo_core.Prelude.{
  ◌≡◌, refl, ◌∙◌, none, arith, Text, text_eq, text_eq-apart, Bool-cases, inl, inr,
}
use momo_core.RuntimeSettings.Json.{
  Json, Fields, null, leaf, object, end, field, is_null, get, put, remove, or_null, fields_of,
  get-put, get-remove,
}
use momo_core.RuntimeSettings.Merge.{
  merge_patch, merge_fields, prune_empty_objects, prune_fields, IsDistinct, DistinctFields,
}

module _ (Leaf : Type 0) where
  -- A key not there is not there after a removal or an insertion of another.
  remove-DistinctFields :
      (fields : Fields Leaf) (key : Text)
      → DistinctFields Leaf fields
      → DistinctFields Leaf (remove Leaf fields key)
  unfolding remove
  remove-DistinctFields end key d = tt
  remove-DistinctFields (field k v rest) key d = elim (Bool-cases (text_eq k key)) [
    | inl e ↦ rw e (remove-DistinctFields rest key d.2)
    | inr e ↦
        rw e (
          get-remove Leaf rest key k ∙ ground (arith, d.0),
          d.1,
          remove-DistinctFields rest key d.2,
        )
  ]

  put-DistinctFields :
      (fields : Fields Leaf) (key : Text) (value : Json Leaf)
      → DistinctFields Leaf fields
      → IsDistinct Leaf value
      → DistinctFields Leaf (put Leaf fields key value)
  unfolding put get
  put-DistinctFields end key value d w = (refl, w, tt)
  put-DistinctFields (field k v rest) key value d w = elim (Bool-cases (text_eq k key)) [
    | inl e ↦ rw e (d.0, w, d.2)
    | inr e ↦ rw e (
      get-put Leaf rest key value k ∙ rw (text_eq-apart k key e) d.0,
      d.1,
      put-DistinctFields rest key value d.2 w,
    )
  ]

  get-IsDistinct :
      (fields : Fields Leaf) (key : Text)
      → DistinctFields Leaf fields
      → IsDistinct Leaf (or_null Leaf (get Leaf fields key))
  unfolding get
  get-IsDistinct end key d = tt
  get-IsDistinct (field k v rest) key d = elim (Bool-cases (text_eq k key)) [
    | inl e ↦ rw e d.1
    | inr e ↦ rw e (get-IsDistinct rest key d.2)
  ]

  fields_of-DistinctFields :
      (v : Json Leaf) → IsDistinct Leaf v → DistinctFields Leaf (fields_of Leaf v)
  fields_of-DistinctFields null d = tt
  fields_of-DistinctFields (leaf x) d = tt
  fields_of-DistinctFields (object fields) d = d

  mutual
    unfolding merge_patch

    pub merge_patch-IsDistinct :
        (target patch : Json Leaf)
        → IsDistinct Leaf target
        → IsDistinct Leaf patch
        → IsDistinct Leaf (merge_patch Leaf target patch)
    merge_patch-IsDistinct target null d e = tt
    merge_patch-IsDistinct target (leaf x) d e = tt
    merge_patch-IsDistinct target (object fields) d e =
        merge_fields-DistinctFields (fields_of Leaf target) fields
          (fields_of-DistinctFields target d) e

    merge_fields-DistinctFields :
        (current fields : Fields Leaf)
        → DistinctFields Leaf current
        → DistinctFields Leaf fields
        → DistinctFields Leaf (merge_fields Leaf current fields)
    merge_fields-DistinctFields current end d e = d
    merge_fields-DistinctFields current (field k v rest) d e = elim (Bool-cases (is_null Leaf v)) [
      | inl n ↦ rw n (
          merge_fields-DistinctFields (remove Leaf current k) rest
            (remove-DistinctFields current k d) e.2)
      | inr n ↦ rw n (
          merge_fields-DistinctFields
            (put Leaf current k (merge_patch Leaf (or_null Leaf (get Leaf current k)) v)) rest
            (put-DistinctFields current k _ d (
              merge_patch-IsDistinct (or_null Leaf (get Leaf current k)) v
                (get-IsDistinct current k d) e.1))
            e.2)
    ]

  prune_fields-absent :
      (fields : Fields Leaf) (key : Text)
      → get Leaf fields key ≡ none
      → get Leaf (prune_fields Leaf fields) key ≡ none
  unfolding prune_fields get
  prune_fields-absent end key h = refl
  prune_fields-absent (field k null rest) key h = ground (arith, h, prune_fields-absent rest key)
  prune_fields-absent (field k (leaf x) rest) key h =
      ground (arith, h, prune_fields-absent rest key)
  prune_fields-absent (field k (object g) rest) key h =
      ground (arith, h, prune_fields-absent rest key)

  mutual
    unfolding prune_empty_objects

    pub prune-IsDistinct :
        (v : Json Leaf) → IsDistinct Leaf v → IsDistinct Leaf (prune_empty_objects Leaf v).1
    prune-IsDistinct null d = tt
    prune-IsDistinct (leaf x) d = tt
    prune-IsDistinct (object fields) d = prune_fields-DistinctFields fields d

    prune_fields-DistinctFields :
        (fields : Fields Leaf)
        → DistinctFields Leaf fields
        → DistinctFields Leaf (prune_fields Leaf fields)
    prune_fields-DistinctFields end d = tt
    prune_fields-DistinctFields (field k v rest) d =
        elim (Bool-cases (prune_empty_objects Leaf v).0) [
          | inl e ↦ rw e (prune_fields-DistinctFields rest d.2)
          | inr e ↦ rw e (
            prune_fields-absent rest k d.0,
            prune-IsDistinct v d.1,
            prune_fields-DistinctFields rest d.2,
          )
        ]
