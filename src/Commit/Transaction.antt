-- ===== src/Commit/Transaction.antt =====
-- lib.rs, `commit_mutations_with`, and commit.rs, `apply_prepared_commit`. The files are a function
-- from relative paths to contents; links and directories are not modelled.
use momo_core.Prelude.{
  ℕ, Bool, true, false, not, ◌&&◌, ◌||◌, Option, none, some, List, [], ◌∷◌, ◌==◌, if◌then◌else◌,
  Text, codes, text_eq, starts_with, ends_with, any, member, Outcome, ok, err, ◌>>=◌, ◌>>◌, unless,
}

abbrev pub Files : Type 0
Files = Text → Option Text

-- Which of the next changes to the disk fail; those after the list succeed.
pub record Disk : Type 0 where
  pub files : Files
  pub failures : List Bool

pub data FileMutation : Type 0 where
  write : Text → Text → FileMutation
  delete : Text → FileMutation

abbrev pub path_of : FileMutation → Text
path_of (write path content) = path
path_of (delete path) = path

abbrev pub image_of : FileMutation → Option Text
image_of (write path content) = some content
image_of (delete path) = none

pub data MemoryError : Type 0 where
  duplicate_path : Text → MemoryError
  duplicate_target unsupported_version io transaction_rollback : MemoryError
  unsafe_path conflict : Text → MemoryError

abbrev pub is_file : Option Text → Bool
is_file none = false
is_file (some content) = true

abbrev pub store : Files → Text → Option Text → Files
store files path image q = if text_eq path q then image else files q

-- An atomic write, or a removal: it is done wholly or not at all.
unfoldable pub change : Disk → Text → Option Text → Bool × Disk
change disk path image = elim disk.failures [
  | [] ↦ (true, record { files = store disk.files path image; failures = [] })
  | fails ∷ later ↦
      if fails
      then (false, record { files = disk.files; failures = later })
      else (true, record { files = store disk.files path image; failures = later })
]

-- `fs::remove_file` fails where there is no file.
unfoldable pub perform : Disk → FileMutation → Bool × Disk
unfolding change
perform disk (write path content) = change disk path (some content)
perform disk (delete path) =
    let removed = change disk path none in
    if is_file (disk.files path) then removed else (false, disk)

unfoldable pub restore_snapshot : Disk → Text → Option Text → Bool × Disk
unfolding change
restore_snapshot disk path (some content) = change disk path (some content)
restore_snapshot disk path none =
    let removed = change disk path none in
    if is_file (disk.files path) then removed else (true, disk)

-- `for rollback_index in (0..=index).rev()`: the list is newest first; the flag says that
-- `rollback_errors` stays empty.
unfoldable pub roll_back : List (Text × Option Text) → Disk → Bool × Disk
roll_back [] disk = (true, disk)
roll_back ((path, snapshot) ∷ rest) disk =
    let restored = restore_snapshot disk path snapshot in
    let later = roll_back rest restored.1 in (restored.0 && later.0, later.1)

-- The second loop, with the snapshots of the mutations performed so far.
unfoldable pub perform_all :
    List (Text × Option Text)
    → List (FileMutation × Option Text)
    → Disk
    → Outcome MemoryError (Unit {0}) × Disk
perform_all performed [] disk = (ok tt, disk)
perform_all performed ((mutation, snapshot) ∷ rest) disk =
    let done = perform disk mutation in
    let touched = (path_of mutation, snapshot) ∷ performed in
    let undone = roll_back touched done.1 in
    let later = perform_all touched rest done.1 in
    if done.0 then later else (err (if undone.0 then io else transaction_rollback), undone.1)

-- The first loop: `unique_paths` and `snapshots`. Every file can be read.
unfoldable pub snapshot_all :
    List Text → Files → List FileMutation → Outcome MemoryError (List (FileMutation × Option Text))
snapshot_all unique_paths files [] = ok []
snapshot_all unique_paths files (mutation ∷ rest) =
    let later = snapshot_all (path_of mutation ∷ unique_paths) files rest in
    do
      unless (member unique_paths (path_of mutation)) (duplicate_path (path_of mutation))
      snapshots ← later
      ok ((mutation, files (path_of mutation)) ∷ snapshots)

unfoldable pub commit_snapshots :
    Outcome MemoryError (List (FileMutation × Option Text))
    → Disk
    → Outcome MemoryError (Unit {0}) × Disk
commit_snapshots (err e) disk = (err e, disk)
commit_snapshots (ok snapshots) disk = perform_all [] snapshots disk

unfoldable pub commit_mutations : List FileMutation → Disk → Outcome MemoryError (Unit {0}) × Disk
unfolding commit_snapshots
commit_mutations mutations disk = commit_snapshots (snapshot_all [] disk.files mutations) disk

pub record PreparedFile : Type 0 where
  pub path : Text
  pub before : Option Text
  pub after : Option Text

pub record PreparedMemoryCommit : Type 0 where
  pub version : ℕ
  pub files : List PreparedFile

unfoldable pub same_image : Option Text → Option Text → Bool
same_image none none = true
same_image (some s) (some t) = text_eq s t
same_image _ _ = false

-- `changes_current_scene`
unfoldable pub changes_current_scene : PreparedMemoryCommit → Bool
changes_current_scene plan =
    any
      (λ file.
        not (same_image file.before file.after)
        && starts_with file.path (codes "current/")
        && (ends_with file.path (codes "/scene.md")
            || ends_with file.path (codes "/active_threads.md")))
      plan.files

abbrev pub mutation_of : PreparedFile → FileMutation
mutation_of file = elim file.after [
  | some content ↦ write file.path content
  | none ↦ delete file.path
]

-- `refused` stands for `validate_relative` and `resolve`, which read the directory tree.
module _ (refused : Text → Bool) where
  -- `PreparedMemoryCommit::prepare`, its loop. A path that is refused is reported before one that
  -- is repeated, and paths are equal as texts.
  unfoldable pub prepare_files :
      List Text → Files → List FileMutation → Outcome MemoryError (List PreparedFile)
  prepare_files seen files [] = ok []
  prepare_files seen files (mutation ∷ rest) =
      let later = prepare_files (path_of mutation ∷ seen) files rest in
      do
        unless (refused (path_of mutation)) (unsafe_path (path_of mutation))
        unless (member seen (path_of mutation)) duplicate_target
        prepared ← later
        ok (
            record {
              path = path_of mutation;
              before = files (path_of mutation);
              after = image_of mutation;
            }
            ∷ prepared)

  unfoldable pub prepare : Files → List FileMutation → Outcome MemoryError PreparedMemoryCommit
  unfolding prepare_files
  prepare files mutations = do
    prepared ← prepare_files [] files mutations
    ok (record { version = 1; files = prepared })

  -- `apply_prepared_commit`, its loop: the mutations that are still to be made. Every file can be
  -- read.
  unfoldable pub pending_mutations :
      List Text → Files → List PreparedFile → Outcome MemoryError (List FileMutation)
  pending_mutations seen files [] = ok []
  pending_mutations seen files (file ∷ rest) =
      let later = pending_mutations (file.path ∷ seen) files rest in
      do
        unless (refused file.path) (unsafe_path file.path)
        unless (member seen file.path) duplicate_target
        unless
            (not (same_image (files file.path) file.after)
              && not (same_image (files file.path) file.before))
            (conflict file.path)
        mutations ← later
        ok (
            if same_image (files file.path) file.after
            then mutations
            else mutation_of file ∷ mutations)

  unfoldable pub commit_pending :
      Outcome MemoryError (List FileMutation) → Disk → Outcome MemoryError (Unit {0}) × Disk
  unfolding commit_mutations
  commit_pending (err e) disk = (err e, disk)
  commit_pending (ok mutations) disk = commit_mutations mutations disk

  unfoldable pub apply_prepared_commit :
      PreparedMemoryCommit → Disk → Outcome MemoryError (Unit {0}) × Disk
  unfolding commit_pending
  apply_prepared_commit plan disk =
      if not (plan.version == 1)
      then (err unsupported_version, disk)
      else commit_pending (pending_mutations [] disk.files plan.files) disk
