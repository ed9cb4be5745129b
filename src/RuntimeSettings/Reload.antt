-- ===== src/RuntimeSettings/Reload.antt =====
-- What `update` writes, `load` reads back.
use momo_core.Prelude.{
  ℕ, ◌≤◌, ◌≡◌, refl, sym, ap, ◌∙◌, subst, Bool, true, false, Option, some, List, [], ◌∷◌, arith,
  Text, Outcome, ok, >>=-ok, unless-passed, length, ltb, Bool-cases, inl, inr, str_eq,
}
use momo_core.Governance.Settings.{Floating, invalid, file_too_large, persistence}
use momo_core.RuntimeSettings.Json.{Json, Fields, null, leaf, object, end, field}
use momo_core.RuntimeSettings.Merge.{prune_empty_objects, prune_fields, keep_field, is_end}
use momo_core.RuntimeSettings.Sources.{normalize_space_overrides}
use momo_core.RuntimeSettings.Store.{
  StoredSettings, RuntimeSettingsResource, Storage, max_spaces, max_file, stored_schema, report,
  as_invalid, validate,
}
use momo_core.RuntimeSettings.Update.{write, update, load}
use momo_core.RuntimeSettings.Validity.{Documents, IsStored, report-ok}
use momo_core.RuntimeSettings.Editing.{DistinctValue, edit-Edited, all-IsDistinct}
use momo_core.RuntimeSettings.Soundness.{seal-Sealed, update-Updated, update-IsUpdate}

module _ {Leaf : Type 0} where
  -- A second pass finds no empty object.
  mutual
    unfolding prune_empty_objects

    prune-prune :
        (v : Json Leaf)
        → prune_empty_objects Leaf (prune_empty_objects Leaf v).1 ≡ prune_empty_objects Leaf v
    prune-prune null = refl
    prune-prune (leaf x) = refl
    prune-prune (object fields) =
        ap (λ f. (is_end Leaf f, object f)) (prune_fields-prune_fields fields)

    prune_fields-prune_fields :
        (fields : Fields Leaf)
        → prune_fields Leaf (prune_fields Leaf fields) ≡ prune_fields Leaf fields
    prune_fields-prune_fields end = refl
    prune_fields-prune_fields (field k v rest) = elim (Bool-cases (prune_empty_objects Leaf v).0) [
      | inl e ↦ rw e (prune_fields-prune_fields rest)
      | inr e ↦
          rw (e, prune_fields-prune_fields rest)
            (ap (λ p. keep_field Leaf p k (prune_fields Leaf rest)) (prune-prune v) ∙ rw e refl)
    ]

  normalize-normalize :
      (spaces : List (Text × Json Leaf))
      → normalize_space_overrides (normalize_space_overrides spaces)
        ≡ normalize_space_overrides spaces
  unfolding normalize_space_overrides
  normalize-normalize [] = refl
  normalize-normalize ((id, patch) ∷ rest) = elim (Bool-cases (prune_empty_objects Leaf patch).0) [
    | inl e ↦ rw e (normalize-normalize rest)
    | inr e ↦ rw (e, normalize-normalize rest, prune-prune patch, e) refl
  ]

module _ {float : Floating} {Leaf : Type 0} (files : Storage float Leaf)
    (doc : Documents files) where
  written_file :
      (next : StoredSettings float Leaf)
      → write files next ≡ ok tt
      → (bytes : List ℕ) × (files.to_vec_pretty next ≡ ok bytes)
        × (files.persist bytes ≡ ok tt)
        × (ltb max_file (length bytes) ≡ false)
  unfolding write
  written_file next h =
      let (bytes, e, p) = >>=-ok (report as_invalid (files.to_vec_pretty next)) _ h in
      let (few, q) = unless-passed (ltb max_file (length bytes)) (invalid file_too_large) _ p in
      (
        bytes,
        report-ok files as_invalid (files.to_vec_pretty next) bytes e,
        report-ok files persistence (files.persist bytes) tt q,
        few,
      )

  load-next :
      (next : StoredSettings float Leaf) (bytes : List ℕ)
      → files.from_slice bytes ≡ ok next
      → ltb max_file (length bytes) ≡ false
      → str_eq next.schema stored_schema ≡ true
      → validate files next ≡ ok tt
      → length next.spaces ≤ max_spaces
      → normalize_space_overrides next.spaces ≡ next.spaces
      → load files (ok (some bytes)) ≡ ok next
  unfolding load
  load-next next bytes read small schema valid few normal =
      let fits : ltb max_spaces (length next.spaces) ≡ false = ground (arith, few) in
      rw (small, read, schema, valid, normal, fits) refl

  -- With documents as `Documents` says, a successful update of a sound store with the current
  -- schema, by a value whose objects name no key twice, has written bytes to the file from which
  -- `load` gets the store after the update, provided that those bytes are read as the store that
  -- they were written from.
  pub update-load :
      (stored : StoredSettings float Leaf) (space : Option Text) (expected : Option ℕ)
      (value : Option (Json Leaf)) (patch : Bool) (next : StoredSettings float Leaf)
      (answer : Outcome Text (RuntimeSettingsResource float))
      → IsStored files stored
      → DistinctValue value
      → str_eq stored.schema stored_schema ≡ true
      → ((bytes : List ℕ) → files.to_vec_pretty next ≡ ok bytes → files.from_slice bytes ≡ ok next)
      → update files stored space expected value patch ≡ ok (next, answer)
      → (bytes : List ℕ) × (files.to_vec_pretty next ≡ ok bytes)
        × (files.persist bytes ≡ ok tt)
        × (load files (ok (some bytes)) ≡ ok next)
  update-load stored space expected value patch next answer i d schema reads h =
      let u = update-Updated files doc stored space expected value patch next answer h in
      let s = seal-Sealed files doc u.edited next u.seals in
      let e =
        edit-Edited files doc stored u.edited space value patch
          (all-IsDistinct files doc stored.defaults stored.spaces i.patches) i.keys d u.edits in
      let done = update-IsUpdate files doc stored space expected value patch next answer i d h in
      let (bytes, wrote, persisted, small) = written_file next u.writes in
      let same : next.schema ≡ stored.schema = s.schema ∙ e.3 in
      let normal : normalize_space_overrides next.spaces ≡ next.spaces =
        ap normalize_space_overrides s.spaces
        ∙ normalize-normalize u.edited.spaces
        ∙ sym s.spaces in
      (
        bytes,
        wrote,
        persisted,
        load-next next bytes (reads bytes wrote) small
            (subst (λ x. str_eq x stored_schema ≡ true) (sym same) schema) done.loads done.few
            normal,
      )
