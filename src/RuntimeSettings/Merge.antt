-- ===== src/RuntimeSettings/Merge.antt =====
-- settings.rs, `merge_patch` and `prune_empty_objects`, and what a merge is.
use momo_core.Prelude.{
  ◌≡◌, refl, ap, Bool, true, false, Option, none, some, if◌then◌else◌, arith, Text, text_eq_iff,
}
use momo_core.RuntimeSettings.Json.{
  Json, Fields, null, leaf, object, end, field, is_object, is_null, get, put, remove, or_null,
  fields_of, get-put, get-remove,
}

module _ (Leaf : Type 0) where
  unfoldable mutual
    pub merge_patch : Json Leaf → Json Leaf → Json Leaf
    merge_patch target null = null
    merge_patch target (leaf x) = leaf x
    merge_patch target (object fields) = object (merge_fields (fields_of Leaf target) fields)

    -- `for (key, value) in fields`
    pub merge_fields : Fields Leaf → Fields Leaf → Fields Leaf
    merge_fields current end = current
    merge_fields current (field key value rest) =
        merge_fields
          (if is_null Leaf value
            then remove Leaf current key
            else put Leaf current key (merge_patch (or_null Leaf (get Leaf current key)) value))
          rest

  abbrev pub is_end : Fields Leaf → Bool
  is_end end = true
  is_end (field key value rest) = false

  -- One step of `retain`, by what is left of the value and whether it is an empty object.
  abbrev pub keep_field : Bool × Json Leaf → Text → Fields Leaf → Fields Leaf
  keep_field (empty, value) key rest = if empty then rest else field key value rest

  unfoldable mutual
    pub prune_empty_objects : Json Leaf → Bool × Json Leaf
    prune_empty_objects null = (false, null)
    prune_empty_objects (leaf x) = (false, leaf x)
    prune_empty_objects (object fields) =
        (is_end (prune_fields fields), object (prune_fields fields))

    -- `retain`
    pub prune_fields : Fields Leaf → Fields Leaf
    prune_fields end = end
    prune_fields (field key value rest) =
        keep_field (prune_empty_objects value) key (prune_fields rest)

  -- No key occurs twice in one object.
  abbrev mutual
    pub IsDistinct : Json Leaf → Type 0
    IsDistinct null = Unit
    IsDistinct (leaf x) = Unit
    IsDistinct (object fields) = DistinctFields fields

    pub DistinctFields : Fields Leaf → Type 0
    DistinctFields end = Unit
    DistinctFields (field key value rest) =
        (get Leaf rest key ≡ none) × IsDistinct value × DistinctFields rest

  -- RFC 7396 at one key: a field that the patch does not name stays, one that it names with null
  -- goes, and any other is patched with the field's value.
  abbrev pub patched : Option (Json Leaf) → Option (Json Leaf) → Option (Json Leaf)
  patched old none = old
  patched old (some null) = none
  patched old (some (leaf x)) = some (leaf x)
  patched old (some (object fields)) = some (merge_patch (or_null Leaf old) (object fields))

  get-merge_fields :
      (current fields : Fields Leaf) (key : Text)
      → DistinctFields fields
      → get Leaf (merge_fields current fields) key
        ≡ patched (get Leaf current key) (get Leaf fields key)
  unfolding merge_patch get
  get-merge_fields current end key d = refl
  get-merge_fields current (field k null rest) key d = ground (
    arith,
    get-merge_fields (remove Leaf current k) rest key d.2,
    get-remove Leaf current k key,
    d.0,
    ap (get Leaf rest),
    text_eq_iff k key,
  )
  get-merge_fields current (field k (leaf x) rest) key d = ground (
    arith,
    get-merge_fields (put Leaf current k (leaf x)) rest key d.2,
    get-put Leaf current k (leaf x) key,
    d.0,
    ap (get Leaf rest),
    text_eq_iff k key,
  )
  get-merge_fields current (field k (object g) rest) key d =
      let value : Json Leaf = merge_patch (or_null Leaf (get Leaf current k)) (object g) in
      ground (
        arith,
        get-merge_fields (put Leaf current k value) rest key d.2,
        get-put Leaf current k value key,
        d.0,
        ap (get Leaf rest),
        ap (get Leaf current),
        text_eq_iff k key,
      )

  -- A merge is the JSON Merge Patch of RFC 7396, for a patch that names no field twice: a leaf
  -- replaces the target, and an object leaves an object that differs from the target exactly in
  -- the fields that the patch names, where a null removes a field.
  pub merge_patch-patched :
      (target : Json Leaf) (fields : Fields Leaf) (key : Text)
      → DistinctFields fields
      → (is_object Leaf (merge_patch target (object fields)) ≡ true)
        × (get Leaf (fields_of Leaf (merge_patch target (object fields))) key
            ≡ patched (get Leaf (fields_of Leaf target) key) (get Leaf fields key))
        × ((x : Leaf) → merge_patch target (leaf x) ≡ leaf x)
  unfolding merge_patch
  merge_patch-patched target fields key d =
      (refl, get-merge_fields (fields_of Leaf target) fields key d, λ x. refl)
