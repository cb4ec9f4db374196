-- ===== src/Engine/Workspace/Examples.antt =====
-- The paths of crates/latte-engine/src/workspace.rs in a concrete workspace.
use latte_code.Base.{
  ◌≡◌, refl, String, Bool, true, false, List, [], ◌∷◌, ◌++◌, Result, ok, err, ◌==◌, string_eq,
  if◌then◌else◌,
}
use latte_code.Engine.Workspace.{
  Files, IoError, not_found, segments, is_skipped, components, lexical, display, read, walk,
  mutation,
}
use latte_code.Engine.Workspace.Contained.{IsRoot, IsDown, IsSolid, names, mutation-IsContained}
use latte_code.Engine.Workspace.Display.{display-names}

abbrev root : List String
root = "srv" ∷ "work" ∷ []

-- A directory `src` with a file `main`, and a link to the file in another place.
abbrev files : Files
files = record {
  canonicalize = λ path. ok ("srv" ∷ "work" ∷ "src" ∷ "main" ∷ []);
  symlink_metadata = link_at;
}
  where
    link_at : List String → Result Bool IoError
    link_at [] = ok false
    link_at (s ∷ []) = if s == "new" then err not_found else ok false
    link_at (s ∷ t ∷ ss) = link_at (t ∷ ss)

root-IsRoot : IsRoot root
unfolding is_skipped
root-IsRoot = (refl, (refl, tt))

reads : read root files "./src//main" ≡ ok ("srv" ∷ "work" ∷ "src" ∷ "main" ∷ [])
unfolding read lexical components is_skipped
reads = refl

creates : mutation root files "src/./new" true ≡ ok ("srv" ∷ "work" ∷ "src" ∷ "." ∷ "new" ∷ [])
unfolding mutation walk lexical components is_skipped
creates = refl

shows : display root "./src/./new/" ≡ ok "src/./new"
unfolding display lexical components is_skipped
shows = refl

mutation-IsContained_example :
    ("srv" ∷ "work" ∷ "src" ∷ "." ∷ "new" ∷ [] ≡ root ++ segments "src/./new")
    × IsDown (segments "src/./new")
    × IsSolid root files true root (names "src/./new")
mutation-IsContained_example =
    mutation-IsContained root files "src/./new" true
      {target = "srv" ∷ "work" ∷ "src" ∷ "." ∷ "new" ∷ []} root-IsRoot creates

display-names_example : names "src/./new" ≡ names "./src/./new/"
display-names_example =
    display-names root "./src/./new/" {shown = "src/./new"} root-IsRoot refl shows
