-- ===== src/RuntimeSettings/Editing.antt =====
-- What an edit of the stored settings keeps.
use momo_core.Prelude.{
  ◌≡◌, refl, subst, Bool, true, false, not, Option, none, some, List, [], ◌∷◌, Text, text_eq, ok,
  >>=-ok, unless-passed, ok-injective, Values, DistinctKeys, lookup, Bool-cases, inl, inr,
  put-Values, put-DistinctKeys, discard-Values, discard-DistinctKeys,
}
use momo_core.Governance.Settings.{Floating, MomoRuntimeSettings, invalid, settings_not_an_object}
use momo_core.RuntimeSettings.Json.{Json, is_object}
use momo_core.RuntimeSettings.Merge.{merge_patch, IsDistinct}
use momo_core.RuntimeSettings.Distinct.{merge_patch-IsDistinct}
use momo_core.RuntimeSettings.Store.{StoredSettings, Storage, decode}
use momo_core.RuntimeSettings.Update.{edit, or_object}
use momo_core.RuntimeSettings.Validity.{Documents, IsPatch}

abbrev pub DistinctValue : {Leaf : Type 0} → Option (Json Leaf) → Type 0
DistinctValue none = Unit
DistinctValue {Leaf} (some value) = IsDistinct Leaf value

module _ {float : Floating} {Leaf : Type 0} (files : Storage float Leaf)
    (doc : Documents files) where
  pub all-IsDistinct :
      (d : MomoRuntimeSettings float) (spaces : List (Text × Json Leaf))
      → Values (IsPatch files d) spaces
      → Values (IsDistinct Leaf) spaces
  all-IsDistinct d [] h = tt
  all-IsDistinct d (entry ∷ rest) (p, q) = (p.keys, all-IsDistinct d rest q)

  or_object-IsDistinct :
      (spaces : List (Text × Json Leaf)) (id : Text)
      → Values (IsDistinct Leaf) spaces
      → IsDistinct Leaf (or_object files (lookup spaces id))
  unfolding lookup
  or_object-IsDistinct [] id h = tt
  or_object-IsDistinct ((k, v) ∷ rest) id (p, q) = elim (Bool-cases (text_eq k id)) [
    | inl e ↦ rw e p
    | inr e ↦ rw e (or_object-IsDistinct rest id q)
  ]

  abbrev pub Edited : StoredSettings float Leaf → StoredSettings float Leaf → Type 0
  Edited stored edited =
      Values (IsDistinct Leaf) edited.spaces
      × DistinctKeys edited.spaces
      × (edited.revision ≡ stored.revision)
      × (edited.schema ≡ stored.schema)

  -- An edit keeps the keys distinct.
  pub edit-Edited :
      (stored edited : StoredSettings float Leaf) (space : Option Text) (value : Option (Json Leaf))
      (patch : Bool)
      → Values (IsDistinct Leaf) stored.spaces
      → DistinctKeys stored.spaces
      → DistinctValue value
      → edit files stored space value patch ≡ ok edited
      → Edited stored edited
  unfolding edit
  edit-Edited stored edited (some id) (some value) true v k d h =
      let (_, p) =
        unless-passed (not (is_object Leaf value)) (invalid settings_not_an_object) _ h in
      subst (Edited stored) (ok-injective p) (
        put-Values (IsDistinct Leaf) stored.spaces id _ v (
            merge_patch-IsDistinct Leaf (or_object files (lookup stored.spaces id)) value
              (or_object-IsDistinct stored.spaces id v) d),
        put-DistinctKeys stored.spaces id _ k,
        refl,
        refl,
      )
  edit-Edited stored edited (some id) (some value) false v k d h =
      let (_, p) =
        unless-passed (not (is_object Leaf value)) (invalid settings_not_an_object) _ h in
      let (s, _, q) = >>=-ok (decode files value) _ p in
      subst (Edited stored) (ok-injective q) (
        put-Values (IsDistinct Leaf) stored.spaces id _ v (doc.distinct s),
        put-DistinctKeys stored.spaces id _ k,
        refl,
        refl,
      )
  edit-Edited stored edited (some id) none patch v k d h = subst (Edited stored) (ok-injective h) (
    discard-Values (IsDistinct Leaf) stored.spaces id v,
    discard-DistinctKeys stored.spaces id k,
    refl,
    refl,
  )
  edit-Edited stored edited none (some value) true v k d h =
      let (_, p) =
        unless-passed (not (is_object Leaf value)) (invalid settings_not_an_object) _ h in
      let (s, _, q) =
        >>=-ok (decode files (merge_patch Leaf (files.to_value stored.defaults) value)) _ p in
      subst (Edited stored) (ok-injective q) (v, k, refl, refl)
  edit-Edited stored edited none (some value) false v k d h =
      let (_, p) =
        unless-passed (not (is_object Leaf value)) (invalid settings_not_an_object) _ h in
      let (s, _, q) = >>=-ok (decode files value) _ p in
      subst (Edited stored) (ok-injective q) (v, k, refl, refl)
  edit-Edited stored edited none none patch v k d h =
      subst (Edited stored) (ok-injective h) (v, k, refl, refl)
