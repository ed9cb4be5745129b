-- ===== src/Commit/Images.antt =====
-- Applying a prepared commit installs its after-images and changes no other file.
use momo_core.Prelude.{
  ◌≡◌, refl, sym, ap, ◌∙◌, subst, inl, inr, Bool, true, false, not, ◌&&◌, ◌||◌, Option, none, some,
  List, [], ◌∷◌, arith, ◌==◌, if◌then◌else◌, Text, text_eq, eq_of_text_eq, text_eq_refl, member,
  All, Outcome, ok, err, unless-passed, >>=-ok, ok-injective, Bool-cases,
}
use momo_core.Commit.Transaction.{
  Files, Disk, FileMutation, write, delete, path_of, image_of, MemoryError, unsafe_path,
  duplicate_target, conflict, store, commit_mutations, PreparedFile, PreparedMemoryCommit,
  same_image, mutation_of, pending_mutations, commit_pending, apply_prepared_commit,
}
use momo_core.Commit.Atomicity.{apply-version, apply-unsupported}
use momo_core.Commit.Success.{installed, installed-same, commit_mutations-installed}

eq_of_same_image : (a b : Option Text) → same_image a b ≡ true → a ≡ b
unfolding same_image
eq_of_same_image none none h = refl
eq_of_same_image none (some t) h = absurd (ground (arith, h))
eq_of_same_image (some s) none h = absurd (ground (arith, h))
eq_of_same_image (some s) (some t) h = ap (λ x. some x) (eq_of_text_eq s t h)

-- The mutation of a prepared file stores its after-image at its path.
abbrev after_of : Text → Option Text → FileMutation
after_of path after = elim after [ some content ↦ write path content | none ↦ delete path ]

store-after_of :
    (g : Files) (path : Text) (after : Option Text) (q : Text)
    → store g (path_of (after_of path after)) (image_of (after_of path after)) q
      ≡ store g path after q
store-after_of g path none q = refl
store-after_of g path (some content) q = refl

All-turn :
    (f g : Files) (plan : List PreparedFile)
    → ((file : PreparedFile) → f file.path ≡ g file.path)
    → All (λ file. f file.path ≡ file.after) plan
    → All (λ file. g file.path ≡ file.after) plan
All-turn f g [] e h = tt
All-turn f g (file ∷ rest) e h = (sym (e file) ∙ h.0, All-turn f g rest e h.1)

-- A path that the plan names.
abbrev pub mentions : List PreparedFile → Text → Bool
mentions [] q = false
mentions (file ∷ rest) q = text_eq file.path q || mentions rest q

module _ (refused : Text → Bool) (files : Files) where
  -- A step of the loop that succeeds.
  pending-step :
      (seen : List Text) (file : PreparedFile) (rest : List PreparedFile)
      (mutations : List FileMutation)
      → pending_mutations refused seen files (file ∷ rest) ≡ ok mutations
      → (member seen file.path ≡ false)
        × ((later : List FileMutation) × (pending_mutations refused (file.path ∷ seen) files rest
              ≡ ok later)
            × ((if same_image (files file.path) file.after then later else mutation_of file ∷ later)
                ≡ mutations))
  unfolding pending_mutations
  pending-step seen file rest mutations h =
      let (u, h1) = unless-passed (refused file.path) (unsafe_path file.path) _ h in
      let (v, h2) = unless-passed (member seen file.path) duplicate_target _ h1 in
      let (w, h3) =
        unless-passed
          (not (same_image (files file.path) file.after)
            && not (same_image (files file.path) file.before))
          (conflict file.path) _ h2 in
      let (later, e, h4) = >>=-ok (pending_mutations refused (file.path ∷ seen) files rest) _ h3 in
      (v, (later, e, ok-injective h4))

  -- The files that the mutations of a step start from.
  abbrev stepped : PreparedFile → Files → Files
  stepped file g =
      if same_image (files file.path) file.after then g else store g file.path file.after

  installed-step :
      (file : PreparedFile) (later mutations : List FileMutation)
      → (if same_image (files file.path) file.after then later else mutation_of file ∷ later)
        ≡ mutations
      → (g : Files) (q : Text) → installed mutations g q ≡ installed later (stepped file g) q
  installed-step file later mutations e g q =
      subst (λ m. installed m g q ≡ installed later (stepped file g) q) e (split _)
    where
      split :
          (same : Bool)
          → installed (if same then later else mutation_of file ∷ later) g q
            ≡ installed later (if same then g else store g file.path file.after) q
      split true = refl
      split false =
          installed-same later _ (store g file.path file.after)
            (λ p. store-after_of g file.path file.after p) q

  -- The file of a step has its after-image, and the files not seen are as before.
  head_image :
      (file : PreparedFile) (g : Files)
      → g file.path ≡ files file.path
      → stepped file g file.path ≡ file.after
  head_image file g e = elim (Bool-cases (same_image (files file.path) file.after)) [
    | inl s ↦ rw s (e ∙ eq_of_same_image _ _ s)
    | inr s ↦ rw s (ground (arith, text_eq_refl file.path))
  ]

  after_step :
      (file : PreparedFile) (g : Files) (seen : List Text) (q : Text)
      → member (file.path ∷ seen) q ≡ false
      → (member seen q ≡ false → g q ≡ files q)
      → stepped file g q ≡ files q
  unfolding member
  after_step file g seen q m e = ground (arith, m, e)

  itself : (path : Text) (seen : List Text) → member (path ∷ seen) path ≡ true
  unfolding member
  itself path seen = ground (arith, text_eq_refl path)

  pending-untouched :
      (plan : List PreparedFile) (seen : List Text) (mutations : List FileMutation)
      → pending_mutations refused seen files plan ≡ ok mutations
      → (g : Files) (q : Text) → member seen q ≡ true
      → installed mutations g q ≡ g q
  unfolding pending_mutations member
  pending-untouched [] seen mutations h g q m = ap (λ x. installed x g q) (sym (ok-injective h))
  pending-untouched (file ∷ rest) seen mutations h g q m =
      let (new, (later, e, s)) = pending-step seen file rest mutations h in
      installed-step file later mutations s g q
      ∙ (pending-untouched rest (file.path ∷ seen) later e (stepped file g) q (ground (arith, m))
          ∙ ground (arith, new, m, eq_of_text_eq file.path q, ap (member seen)))

  pending-images :
      (plan : List PreparedFile) (seen : List Text) (mutations : List FileMutation)
      → pending_mutations refused seen files plan ≡ ok mutations
      → (g : Files) → ((q : Text) → member seen q ≡ false → g q ≡ files q)
      → All (λ file. installed mutations g file.path ≡ file.after) plan
  unfolding pending_mutations
  pending-images [] seen mutations h g same = tt
  pending-images (file ∷ rest) seen mutations h g same =
      let (new, (later, e, s)) = pending-step seen file rest mutations h in
      (
        installed-step file later mutations s g file.path
            ∙ (pending-untouched rest (file.path ∷ seen) later e (stepped file g) file.path
                  (itself file.path seen)
                ∙ head_image file g (same file.path new)),
        All-turn (installed later (stepped file g)) (installed mutations g) rest
            (λ f. sym (installed-step file later mutations s g f.path))
            (pending-images rest (file.path ∷ seen) later e (stepped file g)
              (λ q m. after_step file g seen q m (same q))),
      )

  pending-others :
      (plan : List PreparedFile) (seen : List Text) (mutations : List FileMutation)
      → pending_mutations refused seen files plan ≡ ok mutations
      → (g : Files) (q : Text) → mentions plan q ≡ false
      → installed mutations g q ≡ g q
  unfolding pending_mutations
  pending-others [] seen mutations h g q m = ap (λ x. installed x g q) (sym (ok-injective h))
  pending-others (file ∷ rest) seen mutations h g q m =
      let (new, (later, e, s)) = pending-step seen file rest mutations h in
      installed-step file later mutations s g q
      ∙ (pending-others rest (file.path ∷ seen) later e (stepped file g) q (ground (arith, m))
          ∙ ground (arith, m))

module _ (refused : Text → Bool) where
  commit_pending-images :
      (plan : List PreparedFile) (disk : Disk) (pending : Outcome MemoryError (List FileMutation))
      → pending_mutations refused [] disk.files plan ≡ pending
      → (commit_pending refused pending disk).0 ≡ ok tt
      → All (λ file. (commit_pending refused pending disk).1.files file.path ≡ file.after) plan
        × ((q : Text)
            → mentions plan q ≡ false
            → (commit_pending refused pending disk).1.files q ≡ disk.files q)
  unfolding commit_pending
  commit_pending-images plan disk (err x) e h = absurd (ground (arith, h))
  commit_pending-images plan disk (ok mutations) e h = (
    All-turn (installed mutations disk.files) (commit_mutations mutations disk).1.files plan
        (λ f. sym (commit_mutations-installed mutations disk h f.path))
        (pending-images refused disk.files plan [] mutations e disk.files (λ q m. refl)),
    λ q m.
        commit_mutations-installed mutations disk h q
        ∙ pending-others refused disk.files plan [] mutations e disk.files q m,
  )

  -- A prepared commit that succeeds leaves every file of the plan with its after-image, also where
  -- it was there before, and every other file as it was.
  pub apply_prepared_commit-images :
      (plan : PreparedMemoryCommit) (disk : Disk)
      → (apply_prepared_commit refused plan disk).0 ≡ ok tt
      → All
          (λ file. (apply_prepared_commit refused plan disk).1.files file.path ≡ file.after)
          plan.files
        × ((q : Text)
            → mentions plan.files q ≡ false
            → (apply_prepared_commit refused plan disk).1.files q ≡ disk.files q)
  apply_prepared_commit-images plan disk h = elim (Bool-cases (plan.version == 1)) [
    | inr v ↦
        let s = ap (λ result. result.0) (apply-unsupported refused plan disk v) in
        absurd (ground (arith, sym s ∙ h))
    | inl v ↦
        let s = apply-version refused plan disk v in
        subst
          (λ (result : Outcome MemoryError (Unit {0}) × Disk).
            All (λ file. result.1.files file.path ≡ file.after) plan.files
            × ((q : Text) → mentions plan.files q ≡ false → result.1.files q ≡ disk.files q))
          (sym s)
          (commit_pending-images plan.files disk _ refl (sym (ap (λ result. result.0) s) ∙ h))
  ]
