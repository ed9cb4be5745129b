-- ===== src/Commit/Success.antt =====
-- A transaction that succeeds makes its mutations.
use momo_core.Prelude.{
  ◌≡◌, refl, sym, ap, ◌∙◌, inl, inr, Option, List, [], ◌∷◌, arith, Text, member, Outcome, ok, err,
  unless-passed, >>=-ok, ok-injective, Bool-cases,
}
use momo_core.Commit.Transaction.{
  Files, Disk, FileMutation, path_of, image_of, MemoryError, duplicate_path, store, perform,
  perform_all, snapshot_all, commit_snapshots, commit_mutations,
}
use momo_core.Commit.Atomicity.{perform-files, perform_all-done, perform_all-undone}

-- The files after the mutations, one after the other.
abbrev pub installed : List FileMutation → Files → Files
installed [] files = files
installed (mutation ∷ rest) files =
    installed rest (store files (path_of mutation) (image_of mutation))

pub installed-same :
    (mutations : List FileMutation) (f g : Files)
    → ((q : Text) → f q ≡ g q)
    → (q : Text) → installed mutations f q ≡ installed mutations g q
installed-same [] f g h q = h q
installed-same (mutation ∷ rest) f g h q =
    installed-same rest (store f (path_of mutation) (image_of mutation))
      (store g (path_of mutation) (image_of mutation)) (λ p. ground (arith, h p)) q

abbrev mutations_of : List (FileMutation × Option Text) → List FileMutation
mutations_of [] = []
mutations_of ((mutation, snapshot) ∷ rest) = mutation ∷ mutations_of rest

perform_all-installed :
    (performed : List (Text × Option Text)) (pending : List (FileMutation × Option Text))
    (disk : Disk)
    → (perform_all performed pending disk).0 ≡ ok tt
    → (q : Text)
    → (perform_all performed pending disk).1.files q ≡ installed (mutations_of pending) disk.files q
unfolding perform_all
perform_all-installed performed [] disk h q = refl
perform_all-installed performed ((mutation, snapshot) ∷ rest) disk h q =
    elim (Bool-cases (perform disk mutation).0) [
      | inl done ↦
          let s = perform_all-done performed mutation snapshot rest disk done in
          ap (λ result. result.1.files q) s
          ∙ (perform_all-installed ((path_of mutation, snapshot) ∷ performed) rest
                (perform disk mutation).1 (sym (ap (λ result. result.0) s) ∙ h) q
              ∙ installed-same (mutations_of rest) _ _
                  (λ p. ground (arith, done, perform-files disk mutation p)) q)
      | inr failed ↦
          let s = perform_all-undone performed mutation snapshot rest disk failed in
          let t = sym (ap (λ result. result.0) s) ∙ h in absurd (ground (arith, t))
    ]

snapshot_all-mutations :
    (seen : List Text) (files : Files) (mutations : List FileMutation)
    (snapshots : List (FileMutation × Option Text))
    → snapshot_all seen files mutations ≡ ok snapshots
    → mutations_of snapshots ≡ mutations
unfolding snapshot_all
snapshot_all-mutations seen files [] snapshots h = ap mutations_of (sym (ok-injective h))
snapshot_all-mutations seen files (mutation ∷ rest) snapshots h =
    let (u, h1) =
      unless-passed (member seen (path_of mutation)) (duplicate_path (path_of mutation)) _ h in
    let (later, e, h2) = >>=-ok (snapshot_all (path_of mutation ∷ seen) files rest) _ h1 in
    ap mutations_of (sym (ok-injective h2))
    ∙ ap (λ m. mutation ∷ m) (snapshot_all-mutations (path_of mutation ∷ seen) files rest later e)

commit_snapshots-installed :
    (taken : Outcome MemoryError (List (FileMutation × Option Text))) (disk : Disk)
    (mutations : List FileMutation)
    → ((snapshots : List (FileMutation × Option Text))
        → taken ≡ ok snapshots
        → mutations_of snapshots ≡ mutations)
    → (commit_snapshots taken disk).0 ≡ ok tt
    → (q : Text) → (commit_snapshots taken disk).1.files q ≡ installed mutations disk.files q
unfolding commit_snapshots
commit_snapshots-installed (err e) disk mutations f h q = absurd (ground (arith, h))
commit_snapshots-installed (ok snapshots) disk mutations f h q =
    perform_all-installed [] snapshots disk h q
    ∙ ap (λ m. installed m disk.files q) (f snapshots refl)

-- A transaction that succeeds makes exactly its mutations, in their order.
pub commit_mutations-installed :
    (mutations : List FileMutation) (disk : Disk)
    → (commit_mutations mutations disk).0 ≡ ok tt
    → (q : Text) → (commit_mutations mutations disk).1.files q ≡ installed mutations disk.files q
unfolding commit_mutations
commit_mutations-installed mutations disk h q =
    commit_snapshots-installed (snapshot_all [] disk.files mutations) disk mutations
      (snapshot_all-mutations [] disk.files mutations) h q
