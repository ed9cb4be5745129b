-- ===== src/RuntimeSettings/Soundness.antt =====
-- What a successful `update` leaves behind.
use momo_core.Prelude.{
  ℕ, ◌+◌, ◌≤◌, ◌<◌, ◌^◌, ◌≡◌, refl, ap, ◌∙◌, subst, Bool, Option, none, some, Option-cases, arith,
  Text, Outcome, ok, Succeeds, Succeeds-bind, >>=-ok, >>-ok, unless-passed, ok-injective, lookup,
  length, ltb, Bool-cases, inl, inr, lookup-Values,
}
use momo_core.Governance.Settings.{Floating, invalid, too_many_overrides}
use momo_core.RuntimeSettings.Json.{Json}
use momo_core.RuntimeSettings.Sources.{normalize_space_overrides}
use momo_core.RuntimeSettings.Store.{
  StoredSettings, RuntimeSettingsResource, Storage, max_spaces, validate, effective, resource,
}
use momo_core.RuntimeSettings.Update.{next_revision, edit, seal, write, refuse_stale, update}
use momo_core.RuntimeSettings.Validity.{
  Documents, IsPatch, IsStored, validate-IsStored, IsStored-validate,
}
use momo_core.RuntimeSettings.Normalized.{
  normalize-IsPatch, normalize-DistinctKeys, merged-normalize,
}
use momo_core.RuntimeSettings.Editing.{DistinctValue, Edited, edit-Edited, all-IsDistinct}

module _ {float : Floating} {Leaf : Type 0} (files : Storage float Leaf)
    (doc : Documents files) where
  -- The steps of `seal`.
  pub record Sealed (edited next : StoredSettings float Leaf) : Type 0 where
    pub checked : validate files edited ≡ ok tt
    pub few : length next.spaces ≤ max_spaces
    pub counted : next.revision ≡ edited.revision + 1
    pub bounded : next.revision < 2 ^ 64
    pub defaults : next.defaults ≡ edited.defaults
    pub schema : next.schema ≡ edited.schema
    pub spaces : next.spaces ≡ normalize_space_overrides edited.spaces

  next_revision-ok : (r n : ℕ) → next_revision r ≡ ok n → (n ≡ r + 1) × (n < 2 ^ 64)
  unfolding next_revision
  next_revision-ok r n h = elim (Bool-cases (ltb (r + 1) (2 ^ 64))) [
    | inl e ↦ let q : r + 1 ≡ n = ok-injective (rw (e, next_revision) at h) in ground (arith, e, q)
    | inr e ↦ absurd (ground (arith, e, h))
  ]

  pub seal-Sealed :
      (edited next : StoredSettings float Leaf) → seal files edited ≡ ok next → Sealed edited next
  unfolding seal
  seal-Sealed edited next h =
      let (v, p) = >>-ok (validate files edited) _ h in
      let (few, q) =
        unless-passed (ltb max_spaces (length (normalize_space_overrides edited.spaces)))
          (invalid too_many_overrides) _ p in
      let (n, e, r) = >>=-ok (next_revision edited.revision) _ q in
      let (c, b) = next_revision-ok edited.revision n e in
      subst (Sealed edited) (ok-injective r) (record {
        checked = v;
        few = ground (arith, few);
        counted = c;
        bounded = b;
        defaults = refl;
        schema = refl;
        spaces = refl;
      })

  -- The steps of a successful update.
  pub record Updated (stored : StoredSettings float Leaf) (space : Option Text)
      (expected : Option ℕ) (value : Option (Json Leaf)) (patch : Bool)
      (next : StoredSettings float Leaf) (answer : Outcome Text (RuntimeSettingsResource float))
      : Type 0 where
    pub edited : StoredSettings float Leaf
    pub fresh : refuse_stale files expected stored.revision ≡ ok tt
    pub edits : edit files stored space value patch ≡ ok edited
    pub seals : seal files edited ≡ ok next
    pub writes : write files next ≡ ok tt
    pub answers : answer ≡ resource files next space

  pub update-Updated :
      (stored : StoredSettings float Leaf) (space : Option Text) (expected : Option ℕ)
      (value : Option (Json Leaf)) (patch : Bool) (next : StoredSettings float Leaf)
      (answer : Outcome Text (RuntimeSettingsResource float))
      → update files stored space expected value patch ≡ ok (next, answer)
      → Updated stored space expected value patch next answer
  unfolding update
  update-Updated stored space expected value patch next answer h =
      let (f, p) = >>-ok (refuse_stale files expected stored.revision) _ h in
      let (edited, e, q) = >>=-ok (edit files stored space value patch) _ p in
      let (n, s, r) = >>=-ok (seal files edited) _ q in
      let (w, t) = >>-ok (write files n) _ r in
      let u : (n, resource files n space) ≡ (next, answer) = ok-injective t in
      subst (λ x. Updated stored space expected value patch x.0 x.1) u
        (record { edited = edited; fresh = f; edits = e; seals = s; writes = w; answers = refl })

  Sealed-IsStored :
      (edited next : StoredSettings float Leaf)
      → IsStored files edited
      → Sealed edited next
      → IsStored files next
  Sealed-IsStored edited next i s = record {
    valid = rw s.defaults i.valid;
    patches =
        rw (s.defaults, s.spaces)
          (normalize-IsPatch files doc edited.defaults edited.spaces i.patches);
    keys = rw s.spaces (normalize-DistinctKeys files doc edited.defaults edited.spaces i.keys);
  }

  -- In a sound store some settings are in effect everywhere.
  pub effective-Succeeds :
      (stored : StoredSettings float Leaf) (space : Option Text)
      → IsStored files stored
      → Succeeds (effective files stored space)
  unfolding effective
  effective-Succeeds stored none i = (stored.defaults, doc.read stored.defaults i.valid)
  effective-Succeeds stored (some id) i = elim (Option-cases (lookup stored.spaces id)) [
    | inl e ↦ rw (effective, e) (stored.defaults, doc.read stored.defaults i.valid)
    | inr (p, e) ↦
        let q = lookup-Values (IsPatch files stored.defaults) stored.spaces id p i.patches e in
        let (r, f, _) = q.decodes in rw (effective, e) (r, f)
  ]

  resource-Succeeds :
      (stored : StoredSettings float Leaf) (space : Option Text)
      → IsStored files stored
      → Succeeds (resource files stored space)
  unfolding resource
  resource-Succeeds stored space i =
      Succeeds-bind (effective files stored space) _ (effective-Succeeds stored space i)
        λ settings e. (_, refl)

  pub Edited-IsStored :
      (stored edited : StoredSettings float Leaf)
      → Edited files doc stored edited
      → validate files edited ≡ ok tt
      → IsStored files edited
  Edited-IsStored stored edited (k, d, _, _) v = validate-IsStored files edited k d v

  -- No revision is expected, or the stored one.
  abbrev pub Current : Option ℕ → ℕ → Type 0
  Current none actual = Unit
  Current (some expected) actual = expected ≡ actual

  refuse_stale-Current :
      (expected : Option ℕ) (actual : ℕ)
      → refuse_stale files expected actual ≡ ok tt
      → Current expected actual
  refuse_stale-Current none actual h = tt
  refuse_stale-Current (some expected) actual h = ground (arith, h)

  -- What holds after an update.
  pub record IsUpdate (stored : StoredSettings float Leaf) (expected : Option ℕ)
      (next : StoredSettings float Leaf) (answer : Outcome Text (RuntimeSettingsResource float))
      : Type 0 where
    pub sound : IsStored files next
    pub loads : validate files next ≡ ok tt
    pub few : length next.spaces ≤ max_spaces
    pub current : Current expected stored.revision
    pub counted : next.revision ≡ stored.revision + 1
    pub bounded : next.revision < 2 ^ 64
    pub answers : Succeeds answer

  -- With documents as `Documents` says, a successful update of a sound store, by a value whose
  -- objects name no key twice, leaves a sound store, which `validate` accepts, with at most 1024
  -- overrides; its revision is the next one and fits 64 bits; the expected revision, if one was
  -- given, was the stored one; and the answer finds the settings in effect, so that the `expect`
  -- of `effective` does not panic.
  pub update-IsUpdate :
      (stored : StoredSettings float Leaf) (space : Option Text) (expected : Option ℕ)
      (value : Option (Json Leaf)) (patch : Bool) (next : StoredSettings float Leaf)
      (answer : Outcome Text (RuntimeSettingsResource float))
      → IsStored files stored
      → DistinctValue value
      → update files stored space expected value patch ≡ ok (next, answer)
      → IsUpdate stored expected next answer
  update-IsUpdate stored space expected value patch next answer i d h =
      let u = update-Updated stored space expected value patch next answer h in
      let s = seal-Sealed u.edited next u.seals in
      let e =
        edit-Edited files doc stored u.edited space value patch
          (all-IsDistinct files doc stored.defaults stored.spaces i.patches) i.keys d u.edits in
      let sound = Sealed-IsStored u.edited next (Edited-IsStored stored u.edited e s.checked) s in
      record {
        sound = sound;
        loads = IsStored-validate files next sound;
        few = s.few;
        current = refuse_stale-Current expected stored.revision u.fresh;
        counted = s.counted ∙ ap (λ r. r + 1) e.2;
        bounded = s.bounded;
        answers = rw u.answers (resource-Succeeds next space sound);
      }

  pub seal-effective :
      (edited next : StoredSettings float Leaf) (space : Option Text)
      → IsStored files edited
      → Sealed edited next
      → effective files next space ≡ effective files edited space
  unfolding effective
  seal-effective edited next none i s = rw s.defaults refl
  seal-effective edited next (some id) i s =
      rw (s.defaults, s.spaces)
        (ap files.from_value
          (merged-normalize files doc edited.defaults edited.spaces id i.patches i.keys))
