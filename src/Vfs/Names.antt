-- ===== src/Vfs/Names.antt =====
-- kernel/vfs.c: the components of a path, as `path_component` takes them off its front.
pub mod Split
use project_lariat.Prelude.{
  Bool, List, Option, [], false, if◌then◌else◌, length, none, some, suc, zero, ℕ, ◌-◌, ◌==◌, ◌∷◌,
}
use project_lariat.Vfs.{FilePath, slash}

unfoldable pub skip_slashes : FilePath → FilePath
skip_slashes [] = []
skip_slashes (c ∷ p) = if c == slash then skip_slashes p else c ∷ p

-- The loop that copies a component, with the room that is left in the buffer.
unfoldable pub take_component : ℕ → FilePath → FilePath × FilePath
take_component zero p = ([], p)
take_component (suc room) [] = ([], [])
take_component (suc room) (c ∷ p) =
    let (name, rest) = take_component room p in if c == slash then ([], c ∷ p) else (c ∷ name, rest)

-- The component and what is left of the path; `none` is the result 0.
unfoldable pub path_component : FilePath → ℕ → Option (FilePath × FilePath)
path_component path buflen = elim (skip_slashes path) [
  | [] ↦ none
  | c ∷ p ↦ some (take_component (buflen - 1) (c ∷ p))
]

abbrev pub name_size : ℕ
name_size = 64

-- The components that the calls of `vfs_walk` take one after the other, with fuel for their number.
unfoldable pub components : ℕ → FilePath → List FilePath
components zero path = []
components (suc fuel) path = elim (path_component path name_size) [
  | none ↦ []
  | some (name, rest) ↦ name ∷ components fuel rest
]

-- A component takes at least one byte of the path, so that its length is enough fuel.
unfoldable pub split_path : FilePath → List FilePath
split_path path = components (length path) path

unfoldable pub is_absolute : FilePath → Bool
is_absolute [] = false
is_absolute (c ∷ p) = c == slash

-- The index of the last slash.
unfoldable pub last_slash : FilePath → Option ℕ
last_slash [] = none
last_slash (c ∷ p) = elim (last_slash p) [
  | some i ↦ some (suc i)
  | none ↦ if c == slash then some 0 else none
]
