-- ===== src/Engine/Tools/Execute.antt =====
-- The edits and writes of `ToolRegistry::execute` in crates/latte-engine/src/tools.rs.
pub mod Occurrences
pub mod Edits
use Prim.Native.Char.{code}
use Prim.Native.String
use latte_code.Base.{
  ℕ, zero, suc, ◌+◌, ◌-◌, String, Bool, true, false, not, ◌||◌, ◌&&◌, Option, none, some, List, [],
  ◌∷◌, Result, ok, err, guard, ok_or, ◌>>=◌, ◌>>◌, ◌==◌, nat_eq, string_eq, keep, if◌then◌else◌,
}
use latte_code.Engine.Workspace.{PathError, IoError, Files, is_skipped, mutation}
use latte_code.Engine.Tools.{
  ToolError, read_required, stale, match_count, not_missing, identity_changed, path_rejected,
  or_rejected,
}
use latte_code.Engine.Tools.Mutations.{System, FileIdentity, atomic_replace, or_io}

-- The text `s` without the prefix `p`.
abbrev pub strip_text : String → String → Option String
strip_text Prim.Native.String.[] s = some s
strip_text (Prim.Native.String.◌∷◌ a p) Prim.Native.String.[] = none
strip_text (Prim.Native.String.◌∷◌ a p) (Prim.Native.String.◌∷◌ b s) =
    let rest = strip_text p s in if code a == code b then rest else none

abbrev pub count_chars : String → ℕ
count_chars Prim.Native.String.[] = 0
count_chars (Prim.Native.String.◌∷◌ a s) = suc (count_chars s)

-- `str::match_indices` counted: the matches of a text that is not empty, from the left, without overlap.
-- The first argument counts the characters of the last match that are still to come.
abbrev pub matches : ℕ → String → String → ℕ
matches skip p Prim.Native.String.[] = 0
matches zero p (Prim.Native.String.◌∷◌ a s) =
    let here = matches (count_chars p - 1) p s in
    let later = matches zero p s in
    elim (strip_text p (Prim.Native.String.◌∷◌ a s)) [ none ↦ later | some rest ↦ suc here ]
matches (suc skip) p (Prim.Native.String.◌∷◌ a s) = matches skip p s

-- `str::replacen` with the count one.
abbrev pub replace_first : String → String → String → String
replace_first p r Prim.Native.String.[] = Prim.Native.String.[]
replace_first p r (Prim.Native.String.◌∷◌ a s) =
    let later = replace_first p r s in
    elim (strip_text p (Prim.Native.String.◌∷◌ a s)) [
      | none ↦ Prim.Native.String.◌∷◌ a later
      | some rest ↦ Prim.Native.String.◌++◌ r rest
    ]

abbrev pub or_failed {ℓ} : {A : Type ℓ} → Result A IoError → Result A ToolError
or_failed (ok a) = ok a
or_failed (err e) = err (ToolError.io e)

module _ (sys : System) (root : List String) where
  open sys use {State, files, identity, read_to_string, exists}

  -- `ToolRegistry::require_fresh`, with the snapshot of the target where one was taken.
  unfoldable pub require_fresh :
      State
      → Option FileIdentity
      → String
      → List String
      → Option String
      → Result (Unit {0}) ToolError
  require_fresh st snapshot target path expected = do
    actual ← or_rejected (or_io (identity st path))
    elim expected [
      | some hash ↦ guard (actual.hash == hash) (stale target)
      | none ↦ elim snapshot [
        | none ↦ err (read_required target)
        | some seen ↦
            guard
              (actual.hash == seen.hash
                && actual.size == seen.size
                && actual.modified_ns == seen.modified_ns)
              (stale target)
      ]
    ]

  abbrev pub same_path : List String → List String → Bool
  same_path [] [] = true
  same_path [] (q ∷ qs) = false
  same_path (p ∷ ps) [] = false
  same_path (p ∷ ps) (q ∷ qs) = p == q && same_path ps qs

  -- Two paths are equal where their components are.
  abbrev pub same_components : List String → List String → Bool
  same_components p q =
      same_path (keep (λ (s : String). not (is_skipped s)) p)
        (keep (λ (s : String). not (is_skipped s)) q)

  -- The steps of `execute` that only look, for an edit: the next content of the file.
  unfoldable pub next_content :
      State
      → Option FileIdentity
      → String
      → List String
      → String
      → String
      → Option String
      → Result String ToolError
  next_content st snapshot target path before after expected = do
    checked ← or_rejected (mutation root (files st) target false)
    guard (same_components checked path) identity_changed
    require_fresh st snapshot target path expected
    content ← or_failed (read_to_string st path)
    guard (matches 0 before content == 1) (match_count (matches 0 before content))
    ok (replace_first before after content)

  -- Those for a write.
  pub check_write :
      State
      → Option FileIdentity
      → String
      → List String
      → Bool
      → Option String
      → Result (Unit {0}) ToolError
  check_write st snapshot target path create expected = do
    checked ← or_rejected (mutation root (files st) target create)
    guard (same_components checked path) identity_changed
    (if create
        then guard (not (exists st path)) not_missing
        else require_fresh st snapshot target path expected)

  -- The identity of the file after a replacement.
  abbrev pub report :
      List String → State × Result (Unit {0}) PathError → State × Result FileIdentity ToolError
  report path (st, err e) = (st, err (path_rejected e))
  report path (st, ok done) = (st, or_rejected (or_io (identity st path)))

  module _ (supported : Bool) (temp : String) where
    -- `ToolRegistry::execute` of an edit and of a write.
    unfoldable pub execute_edit :
        State
        → Option FileIdentity
        → String
        → List String
        → String
        → String
        → Option String
        → State × Result FileIdentity ToolError
    execute_edit st snapshot target path before after expected =
        elim (next_content st snapshot target path before after expected) [
          | err e ↦ (st, err e)
          | ok content ↦
              report path (atomic_replace sys root supported temp st target content false)
        ]

    pub execute_write :
        State
        → Option FileIdentity
        → String
        → List String
        → String
        → Bool
        → Option String
        → State × Result FileIdentity ToolError
    execute_write st snapshot target path content create expected =
        elim (check_write st snapshot target path create expected) [
          | err e ↦ (st, err e)
          | ok done ↦ report path (atomic_replace sys root supported temp st target content create)
        ]
