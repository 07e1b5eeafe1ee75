-- ===== src/Core/SyncPath.antt =====
-- `SyncPath` of crates/lnxdrive-core/src/domain/newtypes.rs: an absolute, normalised local path.
-- A `PathBuf` is the list of its components (`Path::components` on Unix), by which Rust compares,
-- extends and strips paths; a `Prefix` component exists on Windows only.
use lnxdrive.Prelude.{
  ℕ, Bool, true, false, not, ◌&&◌, ◌||◌, if◌then◌else◌, ◌==◌, Option, none, some, List, [], ◌∷◌,
  ◌++◌, reverse, Text, codes, text_eq, starts_with, contains, is_empty, Result, ok, err, ◌>>=◌,
  ok_or,
}
use lnxdrive.Core.Error.{DomainError, invalid_path, path_not_in_sync_root}
pub mod Normal
pub mod Within

pub data Component : Type 0 where
  root_dir cur_dir parent_dir : Component
  normal : Text → Component

abbrev pub PathBuf : Type 0
PathBuf = List Component

abbrev pub component_eq : Component → Component → Bool
component_eq root_dir root_dir = true
component_eq cur_dir cur_dir = true
component_eq parent_dir parent_dir = true
component_eq (normal s) (normal t) = text_eq s t
component_eq _ _ = false

unfoldable pub path_eq : PathBuf → PathBuf → Bool
path_eq [] [] = true
path_eq (c ∷ p) (d ∷ q) = component_eq c d && path_eq p q
path_eq _ _ = false

abbrev pub is_absolute : PathBuf → Bool
is_absolute (root_dir ∷ p) = true
is_absolute _ = false

-- `Path::strip_prefix`; `Path::starts_with` is whether it succeeds.
unfoldable pub strip_prefix : PathBuf → PathBuf → Option PathBuf
strip_prefix p [] = some p
strip_prefix [] (d ∷ root) = none
strip_prefix (c ∷ p) (d ∷ root) =
    let rest = strip_prefix p root in if component_eq c d then rest else none

-- The names between the separators of a text that stands behind another path: empty names and `.`
-- are no components there.
abbrev pub add_char : ℕ → List Text → List Text
add_char c [] = (c ∷ []) ∷ []
add_char c (s ∷ rest) = (c ∷ s) ∷ rest

unfoldable pub split : ℕ → Text → List Text
split x [] = [] ∷ []
split x (c ∷ s) = let rest = split x s in if c == x then [] ∷ rest else add_char c rest

abbrev pub component_of : Text → Option Component
component_of name =
    if is_empty name
    then none
    else if text_eq name (codes ".")
    then none
    else if text_eq name (codes "..")
    then some parent_dir
    else some (normal name)

unfoldable pub components_of : List Text → PathBuf
components_of [] = []
components_of (name ∷ names) = elim (component_of name) [
  | none ↦ components_of names
  | some c ↦ c ∷ components_of names
]

unfoldable pub relative_components : Text → PathBuf
relative_components s = components_of (split b'/' s)

pub record SyncPath : Type 0 where
  pub path : PathBuf

-- The body of the loop of `normalize_path`. The buffer is kept with its last component first; `pop`
-- fails where nothing is left, and at the root directory.
unfoldable pub normalize_step : PathBuf → Component → Result DomainError PathBuf
normalize_step buffer root_dir = ok (root_dir ∷ [])
normalize_step buffer cur_dir = ok buffer
normalize_step [] parent_dir = err invalid_path
normalize_step (root_dir ∷ buffer) parent_dir = err invalid_path
normalize_step (_ ∷ buffer) parent_dir = ok buffer
normalize_step buffer (normal c) = ok (normal c ∷ buffer)

unfoldable pub normalize_from : PathBuf → PathBuf → Result DomainError PathBuf
normalize_from buffer [] = ok buffer
normalize_from buffer (c ∷ rest) = do next ← normalize_step buffer c; normalize_from next rest

unfoldable pub normalize_path : PathBuf → Result DomainError PathBuf
normalize_path path = do buffer ← normalize_from [] path; ok (reverse buffer)

unfoldable pub new : PathBuf → Result DomainError SyncPath
new path =
    if is_absolute path
    then (do normalized ← normalize_path path; ok (record { path = normalized }))
    else err invalid_path

unfoldable pub new_within_root : PathBuf → SyncPath → Result DomainError SyncPath
new_within_root path sync_root = do
  sync_path ← new path
  elim (strip_prefix sync_path.path sync_root.path) [
    | none ↦ err path_not_in_sync_root
    | some _ ↦ ok sync_path
  ]

unfoldable pub relative_to : SyncPath → SyncPath → Result DomainError PathBuf
relative_to self root = ok_or path_not_in_sync_root (strip_prefix self.path root.path)

unfoldable pub join : SyncPath → Text → Result DomainError SyncPath
join self component =
    if contains component (codes "..") || starts_with component (codes "/")
    then err invalid_path
    else new (self.path ++ relative_components component)
