-- ===== src/Memory/Components.antt =====
-- Paths: `std::path::Path` on Unix, as far as filesystem.rs reads it.
use momo_core.Prelude.{
  Bool, true, false, ◌||◌, Option, none, some, List, [], ◌∷◌, ◌++◌, Text, codes, text_eq, split,
  ◌==◌, if◌then◌else◌, ◌≡◌, refl, ap, arith, text_eq_refl, eq_of_text_eq,
}

-- A component of a path, as `std::path::Path::components` yields them on Unix. A path is the list
-- of its components, which is what comparison, `join` and `strip_prefix` read of it.
pub data Component : Type 0 where
  root_dir cur_dir parent_dir : Component
  normal : Text → Component

abbrev pub PathBuf : Type 0
PathBuf = List Component

-- `Path::components` on Unix: empty parts and inner "." are skipped.
unfoldable pub inner_components : List Text → PathBuf
inner_components [] = []
inner_components (part ∷ parts) =
    let rest = inner_components parts in
    if text_eq part [] || text_eq part (codes ".")
    then rest
    else if text_eq part (codes "..")
    then parent_dir ∷ rest
    else normal part ∷ rest

unfoldable pub components : Text → PathBuf
unfolding split inner_components
components text = elim (split (codes "/") text) [
  | [] ↦ []
  | part ∷ parts ↦
      if text_eq text []
      then []
      else if text_eq part []
      then root_dir ∷ inner_components parts
      else if text_eq part (codes ".")
      then cur_dir ∷ inner_components parts
      else inner_components (part ∷ parts)
]

abbrev pub is_normal : Component → Bool
is_normal (normal name) = true
is_normal root_dir = false
is_normal cur_dir = false
is_normal parent_dir = false

abbrev pub component_name : Component → Option Text
component_name (normal name) = some name
component_name root_dir = none
component_name cur_dir = none
component_name parent_dir = none

abbrev pub same_component : Component → Component → Bool
same_component (normal name) (normal other) = text_eq name other
same_component root_dir root_dir = true
same_component cur_dir cur_dir = true
same_component parent_dir parent_dir = true
same_component _ _ = false

-- `path.strip_prefix(base)`
unfoldable pub strip_base : PathBuf → PathBuf → Option PathBuf
strip_base [] path = some path
strip_base (b ∷ base) [] = none
strip_base (b ∷ base) (c ∷ path) = if same_component b c then strip_base base path else none

abbrev pub first_name : PathBuf → Option Text
first_name [] = none
first_name (c ∷ path) = component_name c

-- `OsStr::rsplit_once('.')` on the name; a leading dot starts no extension.
unfoldable pub after_dot : Text → Option Text
after_dot [] = none
after_dot (c ∷ name) = elim (after_dot name) [
  | some extension ↦ some extension
  | none ↦ if c == 46 then some name else none
]

unfoldable pub extension : PathBuf → Option Text
unfolding after_dot
extension [] = none
extension (normal (c ∷ name) ∷ []) = after_dot name
extension (_ ∷ []) = none
extension (_ ∷ c ∷ path) = extension (c ∷ path)

pub same_component_refl : (c : Component) → same_component c c ≡ true
same_component_refl (normal name) = text_eq_refl name
same_component_refl root_dir = refl
same_component_refl cur_dir = refl
same_component_refl parent_dir = refl

pub same_component_lem : (c d : Component) → same_component c d ≡ true → c ≡ d
same_component_lem (normal name) (normal other) h = ap normal (eq_of_text_eq name other h)
same_component_lem root_dir root_dir h = refl
same_component_lem cur_dir cur_dir h = refl
same_component_lem parent_dir parent_dir h = refl
same_component_lem (normal name) root_dir h = cc
same_component_lem (normal name) cur_dir h = cc
same_component_lem (normal name) parent_dir h = cc
same_component_lem root_dir (normal name) h = cc
same_component_lem root_dir cur_dir h = cc
same_component_lem root_dir parent_dir h = cc
same_component_lem cur_dir (normal name) h = cc
same_component_lem cur_dir root_dir h = cc
same_component_lem cur_dir parent_dir h = cc
same_component_lem parent_dir (normal name) h = cc
same_component_lem parent_dir root_dir h = cc
same_component_lem parent_dir cur_dir h = cc

pub strip_base-append : (base path : PathBuf) → strip_base base (base ++ path) ≡ some path
unfolding strip_base
strip_base-append [] path = refl
strip_base-append (b ∷ base) path =
    ground (arith, same_component_refl b, strip_base-append base path)

pub append-strip_base :
    (base path rest : PathBuf) → strip_base base path ≡ some rest → path ≡ base ++ rest
unfolding strip_base
append-strip_base [] path rest h = ground (arith, h)
append-strip_base (b ∷ base) [] rest h = cc
append-strip_base (b ∷ base) (c ∷ path) rest h =
    ground (arith, h, same_component_lem b c, append-strip_base base path rest)
