-- ===== src/Engine/Workspace.antt =====
-- crates/latte-engine/src/workspace.rs: the paths that the file tools take, below the canonical root of a
-- workspace. A path is a list of segments as it is spelled, in the syntax of Unix, with empty and `.`
-- segments in it; `fs` is a parameter.
pub mod Contained
pub mod Display
mod Examples
use Prim.Native.Char.{Char, code}
use Prim.Native.String
use latte_code.Base.{
  ℕ, ◌+◌, ◌≤◌, ◌≡◌, String, Bool, true, false, not, ◌||◌, ◌&&◌, Option, none, some, List, [], ◌∷◌,
  ◌++◌, Result, ok, err, guard, ok_or, ◌>>=◌, ◌>>◌, ◌==◌, nat_eq, string_eq, any, all, keep,
  is_empty, if◌then◌else◌,
}

pub data IoError : Type 0 where
  not_found other : IoError

pub data PathError : Type 0 where
  invalid escape unsupported_safe_path_operation : PathError
  symlink : String → PathError
  missing : List String → PathError
  io : IoError → PathError

pub data Component : Type 0 where
  root_dir current parent : Component
  normal : String → Component

-- What the paths take of `fs`, in one state of the files: the canonical path, and whether there is a
-- symbolic link at a path.
pub record Files : Type 0 where
  pub canonicalize : List String → Result (List String) IoError
  pub symlink_metadata : List String → Result Bool IoError

abbrev pub slash : ℕ
slash = 47

abbrev pub push : Char → List String → List String
push a [] = Prim.Native.String.◌∷◌ a "" ∷ []
push a (s ∷ ss) = Prim.Native.String.◌∷◌ a s ∷ ss

-- The segments of a text between slashes.
abbrev pub segments : String → List String
segments Prim.Native.String.[] = "" ∷ []
segments (Prim.Native.String.◌∷◌ a s) =
    if code a == slash then "" ∷ segments s else push a (segments s)

abbrev pub is_absolute : String → Bool
is_absolute Prim.Native.String.[] = false
is_absolute (Prim.Native.String.◌∷◌ a s) = code a == slash

-- Segments that are no components, except for `.` at the start of a relative path.
unfoldable pub is_skipped : String → Bool
is_skipped s = s == "" || s == "."

abbrev pub component : String → Component
component s = if s == ".." then parent else normal s

-- `Path::components` of what follows the root or the first segment, and of a whole text.
abbrev pub body : List String → List Component
body ss = let named = keep (λ (s : String). not (is_skipped s)) ss in components_of named
  where
    components_of : List String → List Component
    components_of [] = []
    components_of (s ∷ rest) = component s ∷ components_of rest

abbrev pub relative_components : List String → List Component
relative_components [] = []
relative_components (s ∷ ss) = if s == "." then current ∷ body ss else body (s ∷ ss)

unfoldable pub components : String → List Component
components input =
    if is_absolute input
    then root_dir ∷ body (segments input)
    else relative_components (segments input)

abbrev pub is_plain : Component → Bool
is_plain (normal s) = true
is_plain current = true
is_plain parent = false
is_plain root_dir = false

-- `Path::strip_prefix`, before its result is trimmed.
abbrev pub strip : List String → List String → Option (List String)
strip [] path = some path
strip (r ∷ root) [] = none
strip (r ∷ root) (p ∷ path) =
    if is_skipped p then strip (r ∷ root) path else (if r == p then strip root path else none)

-- `Path::starts_with` on canonical paths.
abbrev pub starts_with : List String → List String → Bool
starts_with path [] = true
starts_with [] (r ∷ root) = false
starts_with (p ∷ path) (r ∷ root) = p == r && starts_with path root

-- The ends of a relative path are trimmed of what is no component.
abbrev pub trim_left : List String → List String
trim_left [] = []
trim_left (s ∷ ss) = if is_skipped s then trim_left ss else s ∷ ss

abbrev pub keep_right : String → List String → List String
keep_right s [] = if is_skipped s then [] else s ∷ []
keep_right s (t ∷ ts) = s ∷ t ∷ ts

abbrev pub trim_right : List String → List String
trim_right [] = []
trim_right (s ∷ ss) = keep_right s (trim_right ss)

-- The text of segments, and the replacement of backslashes.
abbrev pub joined : String → String → String
joined Prim.Native.String.[] t = Prim.Native.String.◌∷◌ "/" t
joined (Prim.Native.String.◌∷◌ a s) t = Prim.Native.String.◌∷◌ a (joined s t)

abbrev pub text_of : List String → String
text_of [] = ""
text_of (s ∷ []) = s
text_of (s ∷ t ∷ ts) = joined s (text_of (t ∷ ts))

abbrev pub forward : String → String
forward Prim.Native.String.[] = ""
forward (Prim.Native.String.◌∷◌ a s) =
    Prim.Native.String.◌∷◌ (if code a == 92 then "/" else a) (forward s)

module _ (root : List String) where
  -- `WorkspacePath::lexical`.
  unfoldable pub lexical : String → Result (List String) PathError
  lexical input =
      if input == ""
        || is_absolute input
        || any (λ (p : Component). not (is_plain p)) (components input)
      then err invalid
      else ok (root ++ segments input)

  -- `WorkspacePath::display`.
  unfoldable pub display : String → Result String PathError
  display input = do
    path ← lexical input
    relative ← ok_or (strip root path) escape
    ok (forward (text_of (trim_right (trim_left relative))))

  module _ (fs : Files) where
    -- `WorkspacePath::read`.
    abbrev pub or_missing : String → Result (List String) IoError → Result (List String) PathError
    or_missing input (ok path) = ok path
    or_missing input (err not_found) = err (missing (input ∷ []))
    or_missing input (err other) = err (io other)

    unfoldable pub read : String → Result (List String) PathError
    read input = do
      path ← lexical input
      canonical ← or_missing input (fs.canonicalize path)
      guard (starts_with canonical root) escape
      ok canonical

    -- The loop of `mutation` over the components below the cursor.
    unfoldable pub walk : String → Bool → List String → List String → Result (Unit {0}) PathError
    walk input allow_missing_final cursor [] = ok tt
    walk input allow_missing_final cursor (part ∷ parts) = do
      let next = cursor ++ part ∷ []
      let rest = walk input allow_missing_final next parts
      elim (fs.symlink_metadata next) [
        | ok true ↦ display input >>= λ shown. err (symlink shown)
        | ok false ↦ rest
        | err not_found ↦ if allow_missing_final && is_empty parts then rest else err (missing next)
        | err other ↦ err (io other)
      ]

    -- `WorkspacePath::mutation`.
    unfoldable pub mutation : String → Bool → Result (List String) PathError
    mutation input allow_missing_final = do
      target ← lexical input
      relative ← ok_or (strip root target) escape
      walk input allow_missing_final root (keep (λ (s : String). not (is_skipped s)) relative)
      ok target
