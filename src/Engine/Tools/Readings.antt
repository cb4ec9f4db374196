-- ===== src/Engine/Tools/Readings.antt =====
-- The actions of crates/latte-engine/src/tools.rs that change nothing, and the tools that prepare them.
use latte_code.Base.{
  ◌≡◌, refl, sym, ap, ◌∙◌, subst, String, Bool, true, false, List, Result, ok, err, ◌>>=◌,
  >>=-eq-ok, string_eq, arith,
}
use latte_code.Engine.Workspace.{display, read, Files}
use latte_code.Engine.Policy.{read_only, modify, is_read_only}
use latte_code.Engine.Tools.{
  text, bool_field, usize_field, or_rejected, Json, Action, Builtin, Prepared, ToolError, reads,
  lists, searches, manifest, git_diff, edits, writes, read_file, list_directory, search,
  read_project_manifest, edit_file, write_file, git_diff_tool, prepare_action, prepare, effect_of,
  effect_class,
}

-- The actions that change nothing.
abbrev pub is_reading : Action → Bool
is_reading (edits path before after) = false
is_reading (writes path content create_intent) = false
is_reading (reads path max) = true
is_reading (lists path max) = true
is_reading (searches query regex max_results max) = true
is_reading (manifest max) = true
is_reading (git_diff max) = true

-- A block that succeeds has what its last step gives.
pub through {ℓ κ μ ν} :
    {A : Type ℓ} {B : Type κ} {E : Type μ} {P : Type ν} {out : B} (first : Result A E)
    (next : A → Result B E)
    → ((a : A) → next a ≡ ok out → P)
    → (first >>= next) ≡ ok out
    → P
through first next last h = let (a, _, rest) = >>=-eq-ok first next h in last a rest

reading_of : Result (String × Action) ToolError → Bool
reading_of (ok (target, action)) = is_reading action
reading_of (err e) = true

module _ (j : Json) (root : List String) (fs : Files) where
  open j use {Value}

  modify-effect : (a : Action) → is_read_only (effect_class j root fs modify a) ≡ false
  modify-effect (reads path max) = refl
  modify-effect (lists path max) = refl
  modify-effect (searches query regex max_results max) = refl
  modify-effect (manifest max) = refl
  modify-effect (git_diff max) = refl
  modify-effect (edits path before after) = refl
  modify-effect (writes path content true) = refl
  modify-effect (writes path content false) = refl

  last :
      {target : String} {action : Action} {out : String × Action}
      → ◌≡◌ {A = Result (String × Action) ToolError} (ok (target, action)) (ok out)
      → is_reading out.1 ≡ is_reading action
  unfolding reading_of
  last h = sym (ap reading_of h)

  action-reading :
      (tool : Builtin) (v : Value) {out : String × Action}
      → effect_of tool ≡ read_only
      → prepare_action j root fs tool v ≡ ok out
      → is_reading out.1 ≡ true
  unfolding prepare_action
  action-reading read_file v e h =
      through (text j v "path") _
        (λ p. through (or_rejected (display root p)) _ (λ target.
          through (or_rejected (read root fs p)) _
            (λ path. through (usize_field j v "max_output" 65536 1 65536) _ (λ max. last))))
        h
  action-reading list_directory v e h =
      through (text j v "path") _
        (λ p. through (or_rejected (display root p)) _ (λ target.
          through (or_rejected (read root fs p)) _
            (λ path. through (usize_field j v "max_entries" 1000 1 10000) _ (λ max. last))))
        h
  action-reading search v e h =
      through (text j v "query") _
        (λ query. through (bool_field j v "regex" false) _ (λ regex.
          through (usize_field j v "max_results" 100 1 10000) _
            (λ most. through (usize_field j v "max_output" 65536 1 65536) _ (λ max. last))))
        h
  action-reading read_project_manifest v e h =
      through (usize_field j v "max_output" 65536 1 65536) _ (λ max. last) h
  action-reading git_diff_tool v e h =
      through (usize_field j v "max_output" 65536 1 65536) _ (λ max. last) h
  action-reading edit_file v e h = cc
  action-reading write_file v e h = cc

  pub prepare-reading :
      (tool : Builtin) (v : Value) {p : Prepared}
      → prepare j root fs tool v ≡ ok p
      → is_read_only p.effect ≡ true
      → is_reading p.action ≡ true
  unfolding prepare
  prepare-reading tool v {p} h free =
      let (out, acted, made) = >>=-eq-ok (prepare_action j root fs tool v) _ h in
      let effect : effect_class j root fs (effect_of tool) out.1 ≡ p.effect =
        ground (arith, made) in
      let action : out.1 ≡ p.action = ground (arith, made) in
      subst (λ a. is_reading a ≡ true) action (by_effect tool acted (ap is_read_only effect ∙ free))
    where
      by_effect :
          (t : Builtin) {o : String × Action}
          → prepare_action j root fs t v ≡ ok o
          → is_read_only (effect_class j root fs (effect_of t) o.1) ≡ true
          → is_reading o.1 ≡ true
      by_effect edit_file {o} acted free = absurd (ground (arith, modify-effect o.1))
      by_effect write_file {o} acted free = absurd (ground (arith, modify-effect o.1))
      by_effect read_file acted free = action-reading read_file v refl acted
      by_effect list_directory acted free = action-reading list_directory v refl acted
      by_effect search acted free = action-reading search v refl acted
      by_effect read_project_manifest acted free = action-reading read_project_manifest v refl acted
      by_effect git_diff_tool acted free = action-reading git_diff_tool v refl acted
