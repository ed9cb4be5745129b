-- ===== src/Memory/Access.antt =====
-- lib.rs, `AccessConfig`: which kinds of memory a plan may read and write.
use momo_core.Prelude.{ℕ, Bool, not, List, ◌++◌, Text, all, member, ◌==◌, Outcome, ◌>>◌, unless}
use momo_core.Memory.Metadata.{MemoryError, kinds, access_version, unknown_kind, access_denied}

pub record AccessConfig : Type 0 where
  pub version : ℕ
  pub read : List Text
  pub write : List Text
  pub allow_archive_restore : Bool

unfoldable pub validate : AccessConfig → Outcome MemoryError (Unit {0})
validate access =
    unless (not (access.version == 1)) access_version
    >> unless (not (all (member kinds) (access.read ++ access.write))) unknown_kind

abbrev pub can_read : AccessConfig → Text → Bool
can_read access kind = member access.read kind

abbrev pub can_write : AccessConfig → Text → Bool
can_write access kind = member access.write kind

unfoldable pub require_read : AccessConfig → Text → Outcome MemoryError (Unit {0})
require_read access kind = unless (not (can_read access kind)) (access_denied kind)

unfoldable pub require_write : AccessConfig → Text → Outcome MemoryError (Unit {0})
require_write access kind = unless (not (can_write access kind)) (access_denied kind)
