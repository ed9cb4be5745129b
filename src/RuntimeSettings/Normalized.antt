-- ===== src/RuntimeSettings/Normalized.antt =====
-- Dropping the empty overrides keeps a store sound and its settings in effect.
use momo_core.Prelude.{
  ◌≡◌, refl, sym, ◌∙◌, subst, true, none, List, [], ◌∷◌, arith, Text, text_eq, text_eq_iff, Values,
  DistinctKeys, lookup, Bool-cases, inl, inr,
}
use momo_core.Governance.Settings.{Floating, MomoRuntimeSettings}
use momo_core.RuntimeSettings.Json.{Json, null, leaf, object, is_object, fields_of}
use momo_core.RuntimeSettings.Merge.{merge_patch, prune_empty_objects, prune_fields}
use momo_core.RuntimeSettings.Distinct.{prune-IsDistinct}
use momo_core.RuntimeSettings.Prune.{merge_patch-prune, end_of_is_end}
use momo_core.RuntimeSettings.Sources.{normalize_space_overrides}
use momo_core.RuntimeSettings.Store.{Storage, merged}
use momo_core.RuntimeSettings.Validity.{Documents, IsPatch, Decodes}

module _ {float : Floating} {Leaf : Type 0} (files : Storage float Leaf) (doc : Documents files)
    (d : MomoRuntimeSettings float) where
  prune-same :
      (patch : Json Leaf)
      → IsPatch files d patch
      → merge_patch Leaf (files.to_value d) (prune_empty_objects Leaf patch).1
        ≡ merge_patch Leaf (files.to_value d) patch
  prune-same patch p =
      let (s, e, _) = p.decodes in
      merge_patch-prune Leaf (files.to_value d) patch p.keys (doc.fits d s patch p.keys e)

  prune-is_object :
      (patch : Json Leaf)
      → is_object Leaf patch ≡ true
      → is_object Leaf (prune_empty_objects Leaf patch).1 ≡ true
  unfolding prune_empty_objects
  prune-is_object null h = h
  prune-is_object (leaf x) h = h
  prune-is_object (object fields) h = h

  prune-IsPatch :
      (patch : Json Leaf)
      → IsPatch files d patch
      → IsPatch files d (prune_empty_objects Leaf patch).1
  prune-IsPatch patch p = record {
    shaped = prune-is_object patch p.shaped;
    keys = prune-IsDistinct Leaf patch p.keys;
    decodes = subst (Decodes files) (sym (prune-same patch p)) p.decodes;
  }

  object-same :
      (value : Json Leaf) → is_object Leaf value ≡ true → object (fields_of Leaf value) ≡ value
  object-same null h = absurd (ground (arith, h))
  object-same (leaf x) h = absurd (ground (arith, h))
  object-same (object fields) h = refl

  -- A patch that is dropped changed nothing.
  prune-empty :
      (patch : Json Leaf)
      → (prune_empty_objects Leaf patch).0 ≡ true
      → merge_patch Leaf (files.to_value d) (prune_empty_objects Leaf patch).1 ≡ files.to_value d
  unfolding prune_empty_objects merge_patch
  prune-empty null e = absurd (ground (arith, e))
  prune-empty (leaf x) e = absurd (ground (arith, e))
  prune-empty (object fields) e =
      rw (end_of_is_end Leaf (prune_fields Leaf fields) e)
        (object-same (files.to_value d) (doc.written d))

  pub normalize-IsPatch :
      (spaces : List (Text × Json Leaf))
      → Values (IsPatch files d) spaces
      → Values (IsPatch files d) (normalize_space_overrides spaces)
  unfolding normalize_space_overrides
  normalize-IsPatch [] h = tt
  normalize-IsPatch ((id, patch) ∷ rest) (p, q) =
      elim (Bool-cases (prune_empty_objects Leaf patch).0) [
        | inl e ↦ rw e (normalize-IsPatch rest q)
        | inr e ↦ rw e (prune-IsPatch patch p, normalize-IsPatch rest q)
      ]

  lookup-normalize_absent :
      (spaces : List (Text × Json Leaf)) (id : Text)
      → lookup spaces id ≡ none
      → lookup (normalize_space_overrides spaces) id ≡ none
  unfolding normalize_space_overrides lookup
  lookup-normalize_absent [] id h = refl
  lookup-normalize_absent ((k, patch) ∷ rest) id h =
      ground (arith, h, lookup-normalize_absent rest id)

  pub normalize-DistinctKeys :
      (spaces : List (Text × Json Leaf))
      → DistinctKeys spaces
      → DistinctKeys (normalize_space_overrides spaces)
  unfolding normalize_space_overrides
  normalize-DistinctKeys [] h = tt
  normalize-DistinctKeys ((k, patch) ∷ rest) h =
      elim (Bool-cases (prune_empty_objects Leaf patch).0) [
        | inl e ↦ rw e (normalize-DistinctKeys rest h.1)
        | inr e ↦ rw e (lookup-normalize_absent rest k h.0, normalize-DistinctKeys rest h.1)
      ]

  pub merged-normalize :
      (spaces : List (Text × Json Leaf)) (id : Text)
      → Values (IsPatch files d) spaces
      → DistinctKeys spaces
      → merged files (files.to_value d) (lookup (normalize_space_overrides spaces) id)
        ≡ merged files (files.to_value d) (lookup spaces id)
  unfolding normalize_space_overrides lookup
  merged-normalize [] id h k = refl
  merged-normalize ((key, patch) ∷ rest) id (p, q) (n, k) =
      let same = prune-same patch p in
      elim (Bool-cases (text_eq key id)) [
        | inr t ↦ elim (Bool-cases (prune_empty_objects Leaf patch).0) [
          | inl e ↦ rw (e, t) (merged-normalize rest id q k)
          | inr e ↦ rw (e, t, lookup) (merged-normalize rest id q k)
        ]
        | inl t ↦ elim (Bool-cases (prune_empty_objects Leaf patch).0) [
          | inl e ↦
              let gone : lookup (normalize_space_overrides rest) id ≡ none =
                subst (λ x. lookup (normalize_space_overrides rest) x ≡ none)
                  ((text_eq_iff key id).0 t) (lookup-normalize_absent rest key n) in
              rw (e, t, gone) (sym (prune-empty patch e) ∙ same)
          | inr e ↦ rw (e, t, lookup) same
        ]
      ]
