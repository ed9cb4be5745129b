-- ===== src/RuntimeSettings/Effect.antt =====
-- Which settings are in effect after an `update`.
use momo_core.Prelude.{
  ℕ, ◌≡◌, refl, sym, ap, ◌∙◌, subst, Bool, true, false, not, Option, none, some, Text, text_eq,
  Outcome, ok, >>=-ok, unless-passed, ok-injective, lookup, discard, lookup-put, lookup-put-other,
  lookup-discard, text_eq_refl,
}
use momo_core.Governance.Settings.{Floating, default_settings, invalid, settings_not_an_object}
use momo_core.RuntimeSettings.Json.{Json, is_object}
use momo_core.RuntimeSettings.Merge.{merge_patch}
use momo_core.RuntimeSettings.Store.{
  StoredSettings, RuntimeSettingsResource, Storage, decode, merged, patch_of, effective,
}
use momo_core.RuntimeSettings.Update.{edit, with_patch, or_object, update}
use momo_core.RuntimeSettings.Validity.{Documents, IsStored, decode-Decodes}
use momo_core.RuntimeSettings.Editing.{DistinctValue, edit-Edited, all-IsDistinct}
use momo_core.RuntimeSettings.Soundness.{
  update-Updated, seal-Sealed, Edited-IsStored, seal-effective,
}

module _ {float : Floating} {Leaf : Type 0} (files : Storage float Leaf)
    (doc : Documents files) where
  -- The document of the settings that an update asks for.
  abbrev pub asked : StoredSettings float Leaf → Option Text → Option (Json Leaf) → Bool → Json Leaf
  asked stored (some id) (some value) true =
      merge_patch Leaf (files.to_value stored.defaults)
        (merge_patch Leaf (or_object files (lookup stored.spaces id)) value)
  asked stored (some id) (some value) false = value
  asked stored (some id) none patch = files.to_value stored.defaults
  asked stored none (some value) true = merge_patch Leaf (files.to_value stored.defaults) value
  asked stored none (some value) false = value
  asked stored none none patch = files.to_value (default_settings float)

  effective-with_patch :
      (stored : StoredSettings float Leaf) (id : Text) (patch : Json Leaf)
      → effective files (with_patch files stored id patch) (some id)
        ≡ files.from_value (merge_patch Leaf (files.to_value stored.defaults) patch)
  unfolding effective
  effective-with_patch stored id patch =
      ap (λ o. files.from_value (merged files (files.to_value stored.defaults) o))
        (lookup-put stored.spaces id patch)

  -- The settings in effect hang on the defaults and on the override.
  effective-same :
      (a b : StoredSettings float Leaf) (space : Option Text)
      → a.defaults ≡ b.defaults
      → patch_of files a space ≡ patch_of files b space
      → effective files a space ≡ effective files b space
  unfolding effective
  effective-same a b space d p =
      ap (λ x. files.from_value (merged files (files.to_value x) (patch_of files a space))) d
      ∙ ap (λ o. files.from_value (merged files (files.to_value b.defaults) o)) p

  edit-asked :
      (stored edited : StoredSettings float Leaf) (space : Option Text) (value : Option (Json Leaf))
      (patch : Bool)
      → edit files stored space value patch ≡ ok edited
      → effective files edited space ≡ files.from_value (asked stored space value patch)
  unfolding edit effective
  edit-asked stored edited (some id) (some value) true h =
      let (_, p) =
        unless-passed (not (is_object Leaf value)) (invalid settings_not_an_object) _ h in
      subst
        (λ x.
          effective files x (some id) ≡ files.from_value (asked stored (some id) (some value) true))
        (ok-injective p) (effective-with_patch stored id _)
  edit-asked stored edited (some id) (some value) false h =
      let (_, p) =
        unless-passed (not (is_object Leaf value)) (invalid settings_not_an_object) _ h in
      let (s, e, q) = >>=-ok (decode files value) _ p in
      let (f, v) = decode-Decodes files value s e in
      subst (λ x. effective files x (some id) ≡ files.from_value value) (ok-injective q)
        (effective-with_patch stored id (files.to_value s)
          ∙ doc.laid_over stored.defaults s v
          ∙ sym f)
  edit-asked stored edited (some id) none patch h =
      let gone : lookup (discard stored.spaces id) id ≡ none =
        lookup-discard stored.spaces id id ∙ rw (text_eq_refl id) refl in
      subst (λ x. effective files x (some id) ≡ files.from_value (files.to_value stored.defaults))
        (ok-injective h)
        (ap (λ o. files.from_value (merged files (files.to_value stored.defaults) o)) gone)
  edit-asked stored edited none (some value) true h =
      let (_, p) =
        unless-passed (not (is_object Leaf value)) (invalid settings_not_an_object) _ h in
      let new = merge_patch Leaf (files.to_value stored.defaults) value in
      let (s, e, q) = >>=-ok (decode files new) _ p in
      let (f, v) = decode-Decodes files new s e in
      subst (λ x. effective files x none ≡ files.from_value new) (ok-injective q)
        (doc.read s v ∙ sym f)
  edit-asked stored edited none (some value) false h =
      let (_, p) =
        unless-passed (not (is_object Leaf value)) (invalid settings_not_an_object) _ h in
      let (s, e, q) = >>=-ok (decode files value) _ p in
      let (f, v) = decode-Decodes files value s e in
      subst (λ x. effective files x none ≡ files.from_value value) (ok-injective q)
        (doc.read s v ∙ sym f)
  edit-asked stored edited none none patch h =
      subst
        (λ x. effective files x none ≡ files.from_value (files.to_value (default_settings float)))
        (ok-injective h) refl

  -- An edit of a Space leaves the defaults and the overrides of the others.
  edit-others :
      (stored edited : StoredSettings float Leaf) (id : Text) (value : Option (Json Leaf))
      (patch : Bool)
      → edit files stored (some id) value patch ≡ ok edited
      → (edited.defaults ≡ stored.defaults)
        × ((other : Text)
            → text_eq id other ≡ false
            → lookup edited.spaces other ≡ lookup stored.spaces other)
  unfolding edit
  edit-others stored edited id (some value) true h =
      let (_, p) =
        unless-passed (not (is_object Leaf value)) (invalid settings_not_an_object) _ h in
      subst
        (λ x.
          (x.defaults ≡ stored.defaults)
          × ((other : Text)
              → text_eq id other ≡ false
              → lookup x.spaces other ≡ lookup stored.spaces other))
        (ok-injective p) (refl, λ other. lookup-put-other stored.spaces id other _)
  edit-others stored edited id (some value) false h =
      let (_, p) =
        unless-passed (not (is_object Leaf value)) (invalid settings_not_an_object) _ h in
      let (s, _, q) = >>=-ok (decode files value) _ p in
      subst
        (λ x.
          (x.defaults ≡ stored.defaults)
          × ((other : Text)
              → text_eq id other ≡ false
              → lookup x.spaces other ≡ lookup stored.spaces other))
        (ok-injective q) (refl, λ other. lookup-put-other stored.spaces id other _)
  edit-others stored edited id none patch h =
      subst
        (λ x.
          (x.defaults ≡ stored.defaults)
          × ((other : Text)
              → text_eq id other ≡ false
              → lookup x.spaces other ≡ lookup stored.spaces other))
        (ok-injective h) (refl, λ other e. lookup-discard stored.spaces id other ∙ rw e refl)

  -- With documents as `Documents` says, what a successful update of a sound store, by a value
  -- whose objects name no key twice, puts into effect: where it was asked for, the settings of the
  -- document `asked`, which is for a patch the merge of the patch into the override and of that
  -- into the defaults, for a whole value this value, for a removal in a Space the defaults, and
  -- for a removal of the defaults those of the program; and if it was asked for one Space,
  -- everywhere else the settings that were in effect before.
  pub update-effective :
      (stored : StoredSettings float Leaf) (space : Option Text) (expected : Option ℕ)
      (value : Option (Json Leaf)) (patch : Bool) (next : StoredSettings float Leaf)
      (answer : Outcome Text (RuntimeSettingsResource float))
      → IsStored files stored
      → DistinctValue value
      → update files stored space expected value patch ≡ ok (next, answer)
      → (effective files next space ≡ files.from_value (asked stored space value patch))
        × ((id : Text)
            → space ≡ some id
            → (effective files next none ≡ effective files stored none)
              × ((other : Text)
                  → text_eq id other ≡ false
                  → effective files next (some other) ≡ effective files stored (some other)))
  unfolding effective
  update-effective stored space expected value patch next answer i d h =
      let u = update-Updated files doc stored space expected value patch next answer h in
      let s = seal-Sealed files doc u.edited next u.seals in
      let e =
        edit-Edited files doc stored u.edited space value patch
          (all-IsDistinct files doc stored.defaults stored.spaces i.patches) i.keys d u.edits in
      let sound = Edited-IsStored files doc stored u.edited e s.checked in
      let same : (at : Option Text) → effective files next at ≡ effective files u.edited at =
        λ at. seal-effective files doc u.edited next at sound s in
      (
        same space ∙ edit-asked stored u.edited space value patch u.edits,
        λ id at.
            let (a, b) =
              edit-others stored u.edited id value patch
                (subst (λ x. edit files stored x value patch ≡ ok u.edited) at u.edits) in
            (
              same none ∙ effective-same u.edited stored none a refl,
              λ other apart.
                  same (some other) ∙ effective-same u.edited stored (some other) a (b other apart),
            ),
      )
