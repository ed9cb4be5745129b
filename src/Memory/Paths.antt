-- ===== src/Memory/Paths.antt =====
-- filesystem.rs: which paths a memory may stand at, and where it goes when it is archived.
use momo_core.Prelude.{
  Bool, false, not, Option, none, some, List, [], ◌∷◌, ◌++◌, Text, codes, text_eq, any, member,
  lookup, if◌then◌else◌, Outcome, ok, err, ◌>>=◌, ◌>>◌, unless,
}
use momo_core.Ddm.Profile.{Double}
use momo_core.Memory.Components.{normal, PathBuf, is_normal, component_name, strip_base, extension}
use momo_core.Memory.Metadata.{
  MemoryError, unsafe_path, unsupported_type, wrong_type, Metadata, validate_metadata,
}

-- (directory, kind)
abbrev pub active_memory_directories : List (Text × Text)
active_memory_directories =
    (codes "characters", codes "character")
    ∷ (codes "relationships", codes "relationship")
    ∷ (codes "events", codes "event")
    ∷ (codes "world", codes "world")
    ∷ []

-- `components().next().and_then(component_name)`
abbrev pub first_name : PathBuf → Option Text
first_name [] = none
first_name (c ∷ path) = component_name c

abbrev patch_directories : List Text
patch_directories =
    codes "current"
    ∷ codes "characters"
    ∷ codes "relationships"
    ∷ codes "events"
    ∷ codes "world"
    ∷ []

abbrev archived_kinds : List Text
archived_kinds = codes "character" ∷ codes "relationship" ∷ codes "event" ∷ codes "world" ∷ []

-- A path without components is the empty path; an absolute one has the component `root_dir`.
unfoldable pub validate_relative : PathBuf → Outcome MemoryError (Unit {0})
validate_relative [] = err (unsafe_path [])
validate_relative (c ∷ path) =
    unless (any (λ d. not (is_normal d)) (c ∷ path)) (unsafe_path (c ∷ path))

abbrev has_text : Option Text → Text → Bool
has_text none text = false
has_text (some found) text = text_eq found text

abbrev is_among : List Text → Option Text → Bool
is_among names none = false
is_among names (some name) = member names name

unfoldable pub validate_patch_target : PathBuf → Outcome MemoryError (Unit {0})
unfolding validate_relative
validate_patch_target relative =
    validate_relative relative
    >> unless (not (has_text (extension relative) (codes "md"))) (unsafe_path relative)
    >> unless (not (is_among patch_directories (first_name relative))) (unsafe_path relative)

unfoldable pub archived_kind_of : Option Text → Option Text
archived_kind_of none = none
archived_kind_of (some name) = if member archived_kinds name then some name else none

unfoldable pub kind_of_directory : Text → PathBuf → Option Text
unfolding archived_kind_of
kind_of_directory name path =
    if text_eq name (codes "current")
    then some (codes "current")
    else if text_eq name (codes "archive")
    then archived_kind_of (first_name path)
    else lookup active_memory_directories name

unfoldable pub expected_kind_for_path : PathBuf → Option Text
unfolding kind_of_directory
expected_kind_for_path [] = none
expected_kind_for_path (c ∷ path) = elim (component_name c) [
  | none ↦ none
  | some name ↦ kind_of_directory name path
]

-- The first directory of the kind.
unfoldable pub find_directory : List (Text × Text) → Text → Option Text
find_directory [] kind = none
find_directory ((directory, expected) ∷ entries) kind =
    let later = find_directory entries kind in
    if text_eq expected kind then some directory else later

abbrev pub active_directory_for_kind : Text → Option Text
active_directory_for_kind kind = find_directory active_memory_directories kind

-- `option.ok_or(error)?`
abbrev pub ok_or {ℓ} : {A : Type ℓ} → Option A → MemoryError → Outcome MemoryError A
ok_or none error = err error
ok_or (some a) error = ok a

abbrev pub archive_base : Text → PathBuf
archive_base kind = normal (codes "archive") ∷ normal kind ∷ []

unfoldable pub archive_path_for : PathBuf → Text → Outcome MemoryError PathBuf
unfolding find_directory strip_base
archive_path_for relative kind = do
  active_directory ← ok_or (active_directory_for_kind kind) (unsupported_type kind)
  suffix ← ok_or (strip_base (normal active_directory ∷ []) relative) (unsafe_path relative)
  ok (archive_base kind ++ suffix)

unfoldable pub active_path_for : PathBuf → Text → Outcome MemoryError PathBuf
unfolding find_directory strip_base
active_path_for relative kind = do
  active_directory ← ok_or (active_directory_for_kind kind) (unsupported_type kind)
  suffix ← ok_or (strip_base (archive_base kind) relative) (unsafe_path relative)
  ok (normal active_directory ∷ suffix)

module _ (f64 : Double) where
  unfoldable pub validate_document_location :
      PathBuf → Metadata f64 → Outcome MemoryError (Unit {0})
  unfolding validate_metadata expected_kind_for_path
  validate_document_location relative metadata = validate_metadata f64 metadata >> (do
    expected_kind ← ok_or (expected_kind_for_path relative) (unsafe_path relative)
    unless (not (text_eq metadata.kind expected_kind)) (wrong_type metadata.kind))
