-- ===== src/Engine/Tools/Examples.antt =====
-- The tools of crates/latte-engine/src/tools.rs on a concrete file.
use latte_code.Base.{
  ◌<>◌, ◌≡◌, refl, String, true, false, Option, none, some, List, [], ◌∷◌, ok, is_some, ◌==◌,
  string_eq, if◌then◌else◌,
}
use latte_code.Engine.Workspace.{
  Files, is_skipped, components, lexical, display, read, walk, mutation,
}
use latte_code.Engine.Policy.{PermissionPolicy, allow, ask, deny, modify, decide}
use latte_code.Engine.Tools.{
  Json, Prepared, ToolInvocation, OperationBinding, edits, read_file, edit_file, prepare_for_engine,
  approve, prepare, prepare_action, text,
}
use latte_code.Engine.Tools.Readings.{is_reading}
use latte_code.Engine.Tools.Decisions.{prepare-IsAuthorized}
use latte_code.Engine.Tools.Execute.Occurrences.{OverlapsAll}
use latte_code.Engine.Tools.Mutations.{System, FileIdentity, atomic_replace, locate}
use latte_code.Engine.Tools.Execute.{execute_edit, next_content, require_fresh, matches}
use latte_code.Engine.Tools.Execute.Edits.{edit-IsExact}

abbrev root : List String
root = "srv" ∷ []

abbrev files : Files
files = record { canonicalize = λ path. ok path; symlink_metadata = λ path. ok false }

-- A JSON object by its fields, all of them texts.
abbrev field : List (String × String) → String → Option String
field [] key = none
field ((k, s) ∷ rest) key = if k == key then some s else field rest key

abbrev fields : Json
fields = record {
  Value = List (String × String);
  get = λ v key. elim (field v key) [ none ↦ none | some s ↦ some ((key, s) ∷ []) ];
  as_str = λ v. elim v [ [] ↦ none | p ∷ ps ↦ some p.1 ];
  as_bool = λ v. none;
  as_u64 = λ v. none;
}

abbrev edit : ToolInvocation (List (String × String))
edit = record {
  name = "edit_file";
  input = ("path", "a") ∷ ("before", "x") ∷ ("after", "y") ∷ [];
  turn_revision = 1;
  effect_id = "e";
  attempt = 1;
  precondition = some "h";
  timeout_ms = 10;
  output_cap = 10;
  lease_owner = "o";
  lease_token = 1;
}

abbrev policy : PermissionPolicy
policy = record { is_match = λ target. target == "secret"; version = 1 }

abbrev sign : OperationBinding (List (String × String)) → String
sign b = b.target

abbrev prepared : Prepared
prepared = record {
  target = "a";
  effect = modify;
  action = edits ("srv" ∷ "a" ∷ []) "x" "y";
  expected_hash = some "h";
}

asks :
    prepare_for_engine fields root files policy (read_file ∷ edit_file ∷ []) true sign edit
    ≡ ok (prepared, ask, "a")
unfolding prepare_for_engine approve prepare prepare_action decide text lexical display read
    mutation walk components is_skipped
asks = refl

prepare-IsAuthorized_example :
    (policy.is_match "a" ≡ true → ask ≡ deny)
    × (ask ≡ allow → is_reading prepared.action ≡ true)
    × (is_reading prepared.action ≡ false → true ≡ true)
    × (prepared.effect ≡ modify → is_some edit.precondition ≡ true)
    × (prepared.expected_hash ≡ edit.precondition)
    × ("a"
        ≡ sign (record {
          descriptor_version = 1;
          invocation = edit;
          target = "a";
          policy_version = 1;
        }))
prepare-IsAuthorized_example =
    prepare-IsAuthorized fields root files policy (read_file ∷ edit_file ∷ []) true sign edit
      {p = prepared} {d = ask} {g = "a"} asks

-- One file, whose state is its content; the temporary file is the second text.
abbrev disk : System
disk = record {
  State = String × String;
  Dir = Unit;
  files = λ st. files;
  identity = λ st path. ok (record { hash = st.0; size = 1; modified_ns = 0 });
  read_to_string = λ st path. ok st.0;
  exists = λ st path. true;
  open_root = λ st. ok tt;
  open_dir = λ st dir name. ok tt;
  is_symlink = λ st dir name. false;
  create_new = λ st dir temp. (st, ok tt);
  write_all = λ st dir temp content. ((st.0, content), ok tt);
  rename = λ st dir temp name. ((st.1, ""), ok tt);
  remove_file = λ st dir temp. (st.0, "");
}

abbrev edited : FileIdentity
edited = record { hash = "ayb"; size = 1; modified_ns = 0 }

edits_once :
    execute_edit disk root true "t" ("axb", "") none "a" ("srv" ∷ "a" ∷ []) "x" "y" (some "axb")
    ≡ (("ayb", ""), ok edited)
unfolding execute_edit next_content require_fresh atomic_replace locate lexical mutation walk
    components is_skipped
edits_once = refl

edit-IsExact_example :
    (front back : String) × (disk.read_to_string ("axb", "") ("srv" ∷ "a" ∷ [])
      ≡ ok (front <> ("x" <> back)))
    × OverlapsAll "x" (front <> ("x" <> back)) front
    × (matches 0 "x" back ≡ 0)
    × (require_fresh disk root ("axb", "") none "a" ("srv" ∷ "a" ∷ []) (some "axb") ≡ ok tt)
    × (atomic_replace disk root true "t" ("axb", "") "a" (front <> ("y" <> back)) false
        ≡ (("ayb", ""), ok tt))
    × (disk.identity ("ayb", "") ("srv" ∷ "a" ∷ []) ≡ ok edited)
edit-IsExact_example =
    edit-IsExact disk root true "t" ("axb", "") none "a" ("srv" ∷ "a" ∷ []) "x" "y" (some "axb")
      {st' = ("ayb", "")} {id = edited} refl edits_once
