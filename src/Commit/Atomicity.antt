-- ===== src/Commit/Atomicity.antt =====
-- A transaction is made wholly or not at all, unless its rollback fails as well.
use momo_core.Prelude.{
  ◌≡◌, ◌≢◌, refl, sym, ap, ◌∙◌, subst, inl, inr, Bool, true, false, ◌||◌, Option, none, some, List,
  [], ◌∷◌, arith, ◌==◌, if◌then◌else◌, Text, text_eq, eq_of_text_eq, member, All, Outcome, ok, err,
  unless-passed, >>=-ok, ok-injective, Bool-cases,
}
use momo_core.Commit.Transaction.{
  Files, Disk, FileMutation, write, delete, path_of, image_of, MemoryError, io,
  transaction_rollback, duplicate_path, unsupported_version, store, change, perform,
  restore_snapshot, roll_back, perform_all, snapshot_all, commit_snapshots, commit_mutations,
  PreparedMemoryCommit, pending_mutations, commit_pending, apply_prepared_commit,
}

-- A change that succeeds stores the image, and one that fails leaves every file as it is.
change-files :
    (disk : Disk) (path : Text) (image : Option Text) (q : Text)
    → (change disk path image).1.files q
      ≡ (if (change disk path image).0 then store disk.files path image q else disk.files q)
unfolding change
change-files disk path image q = ground arith

restore-files :
    (disk : Disk) (path : Text) (snapshot : Option Text) (q : Text)
    → (restore_snapshot disk path snapshot).0 ≡ true
    → (restore_snapshot disk path snapshot).1.files q ≡ store disk.files path snapshot q
unfolding restore_snapshot
restore-files disk path (some content) q h =
    ground (arith, h, change-files disk path (some content) q)
restore-files disk path none q h =
    ground (arith, h, change-files disk path none q, ap disk.files, eq_of_text_eq path q)

pub perform-files :
    (disk : Disk) (mutation : FileMutation) (q : Text)
    → (perform disk mutation).1.files q ≡ (
        if (perform disk mutation).0
        then store disk.files (path_of mutation) (image_of mutation) q
        else disk.files q)
unfolding perform
perform-files disk (write path content) q = change-files disk path (some content) q
perform-files disk (delete path) q = ground (arith, change-files disk path none q)

-- The path has a snapshot in the list.
abbrev covers : List (Text × Option Text) → Text → Bool
covers [] q = false
covers ((path, snapshot) ∷ rest) q = text_eq path q || covers rest q

-- The two branches of a step.
pub perform_all-done :
    (performed : List (Text × Option Text)) (mutation : FileMutation) (snapshot : Option Text)
    (rest : List (FileMutation × Option Text)) (disk : Disk)
    → (perform disk mutation).0 ≡ true
    → perform_all performed ((mutation, snapshot) ∷ rest) disk
      ≡ perform_all ((path_of mutation, snapshot) ∷ performed) rest (perform disk mutation).1
unfolding perform_all
perform_all-done performed mutation snapshot rest disk h = ground (arith, h)

pub perform_all-undone :
    (performed : List (Text × Option Text)) (mutation : FileMutation) (snapshot : Option Text)
    (rest : List (FileMutation × Option Text)) (disk : Disk)
    → (perform disk mutation).0 ≡ false
    → perform_all performed ((mutation, snapshot) ∷ rest) disk ≡ (
        let undone =
          roll_back ((path_of mutation, snapshot) ∷ performed) (perform disk mutation).1 in
        (err (if undone.0 then io else transaction_rollback), undone.1))
unfolding perform_all
perform_all-undone performed mutation snapshot rest disk h = ground (arith, h)

module _ (original : Files) where
  -- The snapshots are those of the original files.
  abbrev Faithful : List (Text × Option Text) → Type 0
  Faithful = All (λ entry. original entry.0 ≡ entry.1)

  -- Every file is as it was, or has a snapshot.
  abbrev Recoverable : List (Text × Option Text) → Files → Type 0
  Recoverable performed files = (q : Text) → covers performed q ≡ false → files q ≡ original q

  -- A rollback without an error brings every file back.
  roll_back-original :
      (performed : List (Text × Option Text)) (disk : Disk)
      → Faithful performed
      → Recoverable performed disk.files
      → (roll_back performed disk).0 ≡ true
      → (q : Text) → (roll_back performed disk).1.files q ≡ original q
  unfolding roll_back
  roll_back-original [] disk f r h q = r q refl
  roll_back-original ((path, snapshot) ∷ rest) disk f r h q =
      let first : (restore_snapshot disk path snapshot).0 ≡ true = ground (arith, h) in
      let others : (roll_back rest (restore_snapshot disk path snapshot).1).0 ≡ true =
        ground (arith, h) in
      roll_back-original rest (restore_snapshot disk path snapshot).1 f.1
        (λ p c. ground (
          arith,
          c,
          restore-files disk path snapshot p first,
          r p,
          f.0,
          ap original,
          eq_of_text_eq path p,
        ))
        others q

  perform-Recoverable :
      (performed : List (Text × Option Text)) (disk : Disk) (mutation : FileMutation)
      (snapshot : Option Text)
      → Recoverable performed disk.files
      → Recoverable ((path_of mutation, snapshot) ∷ performed) (perform disk mutation).1.files
  perform-Recoverable performed disk mutation snapshot r q c =
      ground (arith, c, r q, perform-files disk mutation q)

  -- A rollback reports its errors.
  undone_cases :
      (b : Bool) (e : MemoryError)
      → ◌≡◌ {A = Outcome MemoryError (Unit {0})}
          (err (if b then io else transaction_rollback))
          (err e)
      → e ≢ transaction_rollback
      → b ≡ true
  undone_cases true e h n = refl
  undone_cases false e h n = absurd (n (cc h))

  perform_all-original :
      (performed : List (Text × Option Text)) (pending : List (FileMutation × Option Text))
      (disk : Disk) (e : MemoryError)
      → Faithful performed
      → All (λ entry. original (path_of entry.0) ≡ entry.1) pending
      → Recoverable performed disk.files
      → (perform_all performed pending disk).0 ≡ err e
      → e ≢ transaction_rollback
      → (q : Text) → (perform_all performed pending disk).1.files q ≡ original q
  unfolding perform_all
  perform_all-original performed [] disk e f g r h n q = absurd (ground (arith, h))
  perform_all-original performed ((mutation, snapshot) ∷ rest) disk e f g r h n q =
      let r' = perform-Recoverable performed disk mutation snapshot r in
      elim (Bool-cases (perform disk mutation).0) [
        | inl done ↦
            let s = perform_all-done performed mutation snapshot rest disk done in
            ap (λ result. result.1.files q) s
            ∙ perform_all-original ((path_of mutation, snapshot) ∷ performed) rest
                (perform disk mutation).1 e (g.0, f) g.1 r' (sym (ap (λ result. result.0) s) ∙ h) n
                q
        | inr failed ↦
            let s = perform_all-undone performed mutation snapshot rest disk failed in
            ap (λ result. result.1.files q) s
            ∙ roll_back-original ((path_of mutation, snapshot) ∷ performed)
                (perform disk mutation).1 (g.0, f) r'
                (undone_cases _ e (sym (ap (λ result. result.0) s) ∙ h) n) q
      ]

-- The snapshots that a transaction begins with.
snapshot_all-Faithful :
    (seen : List Text) (files : Files) (mutations : List FileMutation)
    (snapshots : List (FileMutation × Option Text))
    → snapshot_all seen files mutations ≡ ok snapshots
    → All (λ entry. files (path_of entry.0) ≡ entry.1) snapshots
unfolding snapshot_all
snapshot_all-Faithful seen files [] snapshots h = subst (All _) (ok-injective h) tt
snapshot_all-Faithful seen files (mutation ∷ rest) snapshots h =
    let (u, h1) =
      unless-passed (member seen (path_of mutation)) (duplicate_path (path_of mutation)) _ h in
    let (later, e, h2) = >>=-ok (snapshot_all (path_of mutation ∷ seen) files rest) _ h1 in
    subst (All (λ entry. files (path_of entry.0) ≡ entry.1)) (ok-injective h2)
      (refl, snapshot_all-Faithful (path_of mutation ∷ seen) files rest later e)

commit_snapshots-atomic :
    (taken : Outcome MemoryError (List (FileMutation × Option Text))) (disk : Disk)
    (e : MemoryError)
    → ((snapshots : List (FileMutation × Option Text))
        → taken ≡ ok snapshots
        → All (λ entry. disk.files (path_of entry.0) ≡ entry.1) snapshots)
    → (commit_snapshots taken disk).0 ≡ err e
    → e ≢ transaction_rollback
    → (q : Text) → (commit_snapshots taken disk).1.files q ≡ disk.files q
unfolding commit_snapshots
commit_snapshots-atomic (err e') disk e f h n q = refl
commit_snapshots-atomic (ok snapshots) disk e f h n q =
    perform_all-original disk.files [] snapshots disk e tt (f snapshots refl) (λ p c. refl) h n q

-- A transaction that returns an error, other than that of a rollback that failed too, leaves every
-- file as it was, whichever changes of the disk failed.
commit_mutations-atomic :
    (mutations : List FileMutation) (disk : Disk) (e : MemoryError)
    → (commit_mutations mutations disk).0 ≡ err e
    → e ≢ transaction_rollback
    → (q : Text) → (commit_mutations mutations disk).1.files q ≡ disk.files q
unfolding commit_mutations
commit_mutations-atomic mutations disk e h n q =
    commit_snapshots-atomic (snapshot_all [] disk.files mutations) disk e
      (snapshot_all-Faithful [] disk.files mutations) h n q

commit_pending-atomic :
    (refused : Text → Bool) (pending : Outcome MemoryError (List FileMutation)) (disk : Disk)
    (e : MemoryError)
    → (commit_pending refused pending disk).0 ≡ err e
    → e ≢ transaction_rollback
    → (q : Text) → (commit_pending refused pending disk).1.files q ≡ disk.files q
unfolding commit_pending
commit_pending-atomic refused (err e') disk e h n q = refl
commit_pending-atomic refused (ok mutations) disk e h n q =
    commit_mutations-atomic mutations disk e h n q

pub apply-version :
    (refused : Text → Bool) (plan : PreparedMemoryCommit) (disk : Disk)
    → (plan.version == 1) ≡ true
    → apply_prepared_commit refused plan disk
      ≡ commit_pending refused (pending_mutations refused [] disk.files plan.files) disk
unfolding apply_prepared_commit
apply-version refused plan disk v = ground (arith, v)

pub apply-unsupported :
    (refused : Text → Bool) (plan : PreparedMemoryCommit) (disk : Disk)
    → (plan.version == 1) ≡ false
    → apply_prepared_commit refused plan disk ≡ (err unsupported_version, disk)
unfolding apply_prepared_commit
apply-unsupported refused plan disk v = ground (arith, v)

-- A prepared commit that is refused or fails changes nothing: whatever error it returns, other than
-- that of a rollback that failed too, every file is as it was.
pub apply_prepared_commit-atomic :
    (refused : Text → Bool) (plan : PreparedMemoryCommit) (disk : Disk) (e : MemoryError)
    → (apply_prepared_commit refused plan disk).0 ≡ err e
    → e ≢ transaction_rollback
    → (q : Text) → (apply_prepared_commit refused plan disk).1.files q ≡ disk.files q
apply_prepared_commit-atomic refused plan disk e h n q = elim (Bool-cases (plan.version == 1)) [
  | inl v ↦
      let s = apply-version refused plan disk v in
      ap (λ result. result.1.files q) s
      ∙ commit_pending-atomic refused _ disk e (sym (ap (λ result. result.0) s) ∙ h) n q
  | inr v ↦ ap (λ result. result.1.files q) (apply-unsupported refused plan disk v)
]
