-- ===== src/Commit/Tests.antt =====
-- Runs of prepared commits, and instances of their theorems.
use momo_core.Prelude.{
  ◌≡◌, ◌≢◌, refl, Bool, true, false, Option, none, some, List, [], ◌∷◌, arith, Text, codes, text_eq,
  member, All, ok, err,
}
use momo_core.Commit.Transaction.{
  Disk, PreparedMemoryCommit, io, transaction_rollback, apply_prepared_commit, pending_mutations,
  commit_mutations, snapshot_all, perform_all, perform, roll_back, restore_snapshot, same_image,
  write, FileMutation, delete,
}
use momo_core.Commit.Atomicity.{apply_prepared_commit-atomic}
use momo_core.Commit.Images.{mentions, apply_prepared_commit-images}

abbrev scene : Text
scene = codes "scene.md"

abbrev log_file : Text
log_file = codes "log.md"

abbrev no_files : Text → Option Text
no_files q = none

abbrev plan : PreparedMemoryCommit
plan = record {
  version = 1;
  files =
      record { path = scene; before = none; after = some (codes "calm") }
      ∷ record { path = log_file; before = none; after = some (codes "day 1") }
      ∷ [];
}

abbrev refused : Text → Bool
refused path = false

-- The second write fails, and the first one is undone.
abbrev failing : Disk
failing = record { files = no_files; failures = false ∷ true ∷ [] }

abbrev working : Disk
working = record { files = no_files; failures = [] }

failing_run : (apply_prepared_commit refused plan failing).0 ≡ err io
unfolding apply_prepared_commit pending_mutations member same_image snapshot_all perform_all perform
    roll_back restore_snapshot text_eq
failing_run = refl

working_run : (apply_prepared_commit refused plan working).0 ≡ ok tt
unfolding apply_prepared_commit pending_mutations member same_image snapshot_all perform_all perform
    roll_back restore_snapshot text_eq
working_run = refl

io-differs : io ≢ transaction_rollback
io-differs h = absurd (ground (arith, h))

apply_prepared_commit-atomic_example :
    (apply_prepared_commit refused plan failing).1.files scene ≡ no_files scene
apply_prepared_commit-atomic_example =
    apply_prepared_commit-atomic refused plan failing io failing_run io-differs scene

apply_prepared_commit-images_example :
    All
      (λ file. (apply_prepared_commit refused plan working).1.files file.path ≡ file.after)
      plan.files
    × ((q : Text)
        → mentions plan.files q ≡ false
        → (apply_prepared_commit refused plan working).1.files q ≡ no_files q)
apply_prepared_commit-images_example = apply_prepared_commit-images refused plan working working_run

abbrev mutations : List FileMutation
mutations = write scene (codes "calm") ∷ delete log_file ∷ []

-- There is no file to delete.
missing_run : (commit_mutations mutations working).0 ≡ err io
unfolding commit_mutations member snapshot_all perform_all perform roll_back restore_snapshot
    text_eq
missing_run = refl
