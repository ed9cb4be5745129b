-- ===== src/Memory/Archive.antt =====
-- Archiving a memory and restoring it.
use momo_core.Prelude.{
  ◌≡◌, refl, ◌↔◌, Option, none, some, [], ◌∷◌, ◌++◌, Text, arith, ok, >>=-ok, ok-injective, sym, ap,
}
use momo_core.Memory.Components.{PathBuf, normal, strip_base, strip_base-append, append-strip_base}
use momo_core.Memory.Metadata.{MemoryError, unsupported_type, unsafe_path}
use momo_core.Memory.Paths.{
  active_directory_for_kind, ok_or, archive_base, archive_path_for, active_path_for,
}

pub ok_or-ok : {A : Type 0} (o : Option A) (x : MemoryError) {a : A} → ok_or o x ≡ ok a → o ≡ some a
ok_or-ok none x h = absurd (ground (arith, h))
ok_or-ok (some b) x h = ap some (ok-injective h)

-- The two paths of a memory of the kind.
record ArePaths (relative archive_path : PathBuf) (kind : Text) : Type 0 where
  directory : Text
  suffix : PathBuf
  known : active_directory_for_kind kind ≡ some directory
  here : relative ≡ normal directory ∷ suffix
  there : archive_path ≡ archive_base kind ++ suffix

archive_path_for-ArePaths :
    (relative archive_path : PathBuf) (kind : Text)
    → archive_path_for relative kind ≡ ok archive_path
    → ArePaths relative archive_path kind
unfolding archive_path_for
archive_path_for-ArePaths relative archive_path kind h =
    let (directory, e, h1) =
      >>=-ok (ok_or (active_directory_for_kind kind) (unsupported_type kind)) _ h in
    let (suffix, s, h2) =
      >>=-ok (ok_or (strip_base (normal directory ∷ []) relative) (unsafe_path relative)) _ h1 in
    record {
      directory = directory;
      suffix = suffix;
      known = ok_or-ok _ _ e;
      here = append-strip_base (normal directory ∷ []) relative suffix (ok_or-ok _ _ s);
      there = sym (ok-injective h2);
    }

active_path_for-ArePaths :
    (relative archive_path : PathBuf) (kind : Text)
    → active_path_for archive_path kind ≡ ok relative
    → ArePaths relative archive_path kind
unfolding active_path_for
active_path_for-ArePaths relative archive_path kind h =
    let (directory, e, h1) =
      >>=-ok (ok_or (active_directory_for_kind kind) (unsupported_type kind)) _ h in
    let (suffix, s, h2) =
      >>=-ok (ok_or (strip_base (archive_base kind) archive_path) (unsafe_path archive_path)) _
        h1 in
    record {
      directory = directory;
      suffix = suffix;
      known = ok_or-ok _ _ e;
      here = sym (ok-injective h2);
      there = append-strip_base (archive_base kind) archive_path suffix (ok_or-ok _ _ s);
    }

ArePaths-archive :
    (relative archive_path : PathBuf) (kind : Text)
    → ArePaths relative archive_path kind
    → archive_path_for relative kind ≡ ok archive_path
unfolding archive_path_for
ArePaths-archive relative archive_path kind v =
    rw (v.here, v.there, v.known, strip_base-append (normal v.directory ∷ []) v.suffix) refl

ArePaths-active :
    (relative archive_path : PathBuf) (kind : Text)
    → ArePaths relative archive_path kind
    → active_path_for archive_path kind ≡ ok relative
unfolding active_path_for
ArePaths-active relative archive_path kind v =
    rw (v.here, v.there, v.known, strip_base-append (archive_base kind) v.suffix) refl

-- A memory has an archive path exactly if restoring from there brings it back to where it was.
pub archive_path_for-active_path_for :
    (relative archive_path : PathBuf) (kind : Text)
    → (archive_path_for relative kind ≡ ok archive_path)
      ↔ (active_path_for archive_path kind ≡ ok relative)
archive_path_for-active_path_for relative archive_path kind = (
  λ h.
      ArePaths-active relative archive_path kind
        (archive_path_for-ArePaths relative archive_path kind h),
  λ h.
      ArePaths-archive relative archive_path kind
        (active_path_for-ArePaths relative archive_path kind h),
)
