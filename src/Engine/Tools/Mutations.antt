-- ===== src/Engine/Tools/Mutations.antt =====
-- `WorkspacePath::atomic_replace` of crates/latte-engine/src/workspace.rs. The calls of the operating
-- system are a parameter; nobody else changes the files between two of them.
use latte_code.Base.{
  ℕ, String, Bool, not, Option, none, some, List, [], ◌∷◌, Result, ok, err, guard, ok_or, ◌>>=◌,
  ◌>>◌, nat_eq, string_eq, keep, if◌then◌else◌,
}
use latte_code.Engine.Workspace.{
  PathError, IoError, Files, escape, invalid, symlink, unsupported_safe_path_operation, is_skipped,
  strip, mutation,
}

pub record FileIdentity : Type 0 where
  pub hash : String
  pub size : ℕ
  pub modified_ns : ℕ

-- The calls on files, each in a state, and those on the handle of an open directory.
pub record System : Type 1 where
  pub State : Type 0
  pub Dir : Type 0
  pub files : State → Files
  pub identity : State → List String → Result FileIdentity IoError
  pub read_to_string : State → List String → Result String IoError
  pub exists : State → List String → Bool
  pub open_root : State → Result Dir IoError
  pub open_dir : State → Dir → String → Result Dir IoError
  pub is_symlink : State → Dir → String → Bool
  pub create_new : State → Dir → String → State × Result (Unit {0}) IoError
  pub write_all : State → Dir → String → String → State × Result (Unit {0}) IoError
  pub rename : State → Dir → String → String → State × Result (Unit {0}) IoError
  pub remove_file : State → Dir → String → State

-- The last of the names and those before it.
abbrev pub file_name : List String → Option (List String × String)
file_name [] = none
file_name (s ∷ ss) = elim (file_name ss) [
  | none ↦ some ([], s)
  | some (front, name) ↦ some (s ∷ front, name)
]

abbrev pub or_io {ℓ} : {A : Type ℓ} → Result A IoError → Result A PathError
or_io (ok a) = ok a
or_io (err e) = err (PathError.io e)

module _ (sys : System) (root : List String) where
  open sys use {
    State, Dir, files, identity, read_to_string, exists, open_root, open_dir, is_symlink,
    create_new, write_all, rename, remove_file,
  }

  abbrev pub open_parent : State → Dir → List String → Result Dir IoError
  open_parent st dir [] = ok dir
  open_parent st dir (s ∷ ss) = open_dir st dir s >>= λ next. open_parent st next ss

  -- Where writing and renaming fail, the temporary file is removed.
  abbrev pub or_remove :
      Dir → String → State × Result (Unit {0}) IoError → State × Result (Unit {0}) PathError
  or_remove dir temp (st, ok done) = (st, ok tt)
  or_remove dir temp (st, err e) = (remove_file st dir temp, err (PathError.io e))

  abbrev pub and_then :
      State × Result (Unit {0}) IoError
      → (State → State × Result (Unit {0}) IoError)
      → State × Result (Unit {0}) IoError
  and_then (st, err e) next = (st, err e)
  and_then (st, ok done) next = next st

  -- The temporary file, once it was created.
  abbrev pub fill :
      Dir
      → String
      → String
      → String
      → State × Result (Unit {0}) IoError
      → State × Result (Unit {0}) PathError
  fill dir temp name content (st, err e) = (st, err (PathError.io e))
  fill dir temp name content (st, ok done) =
      or_remove dir temp
        (and_then (write_all st dir temp content) (λ written. rename written dir temp name))

  -- The checks of `atomic_replace_with`: the handle of the parent, and the name in it.
  unfoldable pub locate : State → String → Bool → Result (Dir × String) PathError
  locate st input create = do
    target ← mutation root (files st) input create
    relative ← ok_or (strip root target) escape
    (parents, name) ← ok_or (file_name (keep (λ (s : String). not (is_skipped s)) relative)) invalid
    top ← or_io (open_root st)
    dir ← or_io (open_parent st top parents)
    guard (not (is_symlink st dir name)) (symlink input)
    ok (dir, name)

  -- `WorkspacePath::atomic_replace`, with the name of the temporary file.
  unfoldable pub atomic_replace :
      Bool → String → State → String → String → Bool → State × Result (Unit {0}) PathError
  atomic_replace supported temp st input content create =
      if not supported
      then (st, err unsupported_safe_path_operation)
      else elim (locate st input create) [
        | err e ↦ (st, err e)
        | ok (dir, name) ↦ fill dir temp name content (create_new st dir temp)
      ]
