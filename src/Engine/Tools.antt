-- ===== src/Engine/Tools.antt =====
-- crates/latte-engine/src/tools.rs: what a file tool of the engine is asked to do, and
-- whether it is allowed. Digests and JSON values are parameters.
pub mod Mutations
pub mod Execute
pub mod Readings
pub mod Decisions
mod Examples
use latte_code.Base.{
  ℕ, ◌≡◌, String, Bool, true, false, not, ◌||◌, ◌&&◌, Option, none, some, List, [], ◌∷◌, Result, ok,
  err, guard, ok_or, ◌>>=◌, ◌>>◌, ◌==◌, nat_eq, string_eq, leb, is_some, if◌then◌else◌,
}
use latte_code.Engine.Policy.{
  EffectClass, PolicyDecision, PermissionPolicy, decide, is_read_only, read_only, create, modify,
}
use latte_code.Engine.Workspace.{
  PathError, IoError, Files, display, read, mutation, unsupported_safe_path_operation,
}

pub data ToolError : Type 0 where
  unknown read_required stale : String → ToolError
  not_text not_boolean not_integer out_of_bounds : String → ToolError
  no_anchor not_missing identity_changed : ToolError
  match_count : ℕ → ToolError
  path_rejected : PathError → ToolError
  io : IoError → ToolError

pub data Action : Type 0 where
  reads lists : (path : List String) (max : ℕ) → Action
  searches : (query : String) (regex : Bool) (max_results max_output : ℕ) → Action
  manifest git_diff : (max : ℕ) → Action
  edits : (path : List String) (before after : String) → Action
  writes : (path : List String) (content : String) (create_intent : Bool) → Action

pub record Prepared : Type 0 where
  pub target : String
  pub effect : EffectClass
  pub action : Action
  pub expected_hash : Option String

-- The builtin tools.
pub data Builtin : Type 0 where
  read_file list_directory search read_project_manifest edit_file write_file git_diff_tool : Builtin

abbrev pub tool_name : Builtin → String
tool_name read_file = "read_file"
tool_name list_directory = "list_directory"
tool_name search = "search"
tool_name read_project_manifest = "read_project_manifest"
tool_name edit_file = "edit_file"
tool_name write_file = "write_file"
tool_name git_diff_tool = "git_diff"

abbrev pub effect_of : Builtin → EffectClass
effect_of edit_file = modify
effect_of write_file = modify
effect_of read_file = read_only
effect_of list_directory = read_only
effect_of search = read_only
effect_of read_project_manifest = read_only
effect_of git_diff_tool = read_only

abbrev pub find_tool : String → List Builtin → Option Builtin
find_tool name [] = none
find_tool name (t ∷ ts) = if tool_name t == name then some t else find_tool name ts

-- What the tools read of a JSON object: its fields as texts, Booleans and numbers.
pub record Json : Type 1 where
  pub Value : Type 0
  pub get : Value → String → Option Value
  pub as_str : Value → Option String
  pub as_bool : Value → Option Bool
  pub as_u64 : Value → Option ℕ

-- A path error as a tool's.
abbrev pub or_rejected {ℓ} : {A : Type ℓ} → Result A PathError → Result A ToolError
or_rejected (ok a) = ok a
or_rejected (err e) = err (path_rejected e)

-- `ToolInvocation`, without the approval that only tests supply.
pub record ToolInvocation (Value : Type 0) : Type 0 where
  pub name : String
  pub input : Value
  pub turn_revision : ℕ
  pub effect_id : String
  pub attempt : ℕ
  pub precondition : Option String
  pub timeout_ms : ℕ
  pub output_cap : ℕ
  pub lease_owner : String
  pub lease_token : ℕ

-- What an approval is bound to: the descriptor's version, the invocation, its target, and the policy's version.
pub record OperationBinding (Value : Type 0) : Type 0 where
  pub descriptor_version : ℕ
  pub invocation : ToolInvocation Value
  pub target : String
  pub policy_version : ℕ

module _ (j : Json) where
  open j use {Value, get, as_str, as_bool, as_u64}

  abbrev pub text_value : String → Option Value → Option String
  text_value key none = none
  text_value key (some v) = as_str v

  abbrev pub filled : Option String → Option String
  filled none = none
  filled (some s) = if s == "" then none else some s

  pub text : Value → String → Result String ToolError
  text v key = ok_or (filled (text_value key (get v key))) (not_text key)

  pub bool_field : Value → String → Bool → Result Bool ToolError
  bool_field v key default = elim (get v key) [
    | none ↦ ok default
    | some w ↦ ok_or (as_bool w) (not_boolean key)
  ]

  pub usize_field : Value → String → ℕ → ℕ → ℕ → Result ℕ ToolError
  usize_field v key default low high = do
    n ← elim (get v key) [ none ↦ ok default | some w ↦ ok_or (as_u64 w) (not_integer key) ]
    guard (leb low n && leb n high) (out_of_bounds key)
    ok n

  abbrev max_output : Value → Result ℕ ToolError
  max_output v = usize_field v "max_output" 65536 1 65536

  -- `before`, or else `anchor`.
  abbrev pub anchor : Value → Option Value
  anchor v = elim (get v "before") [ none ↦ get v "anchor" | some w ↦ some w ]

  module _ (root : List String) (fs : Files) where
    -- `Tool::prepare` of a builtin tool: the target and the action.
    pub prepare_action : Builtin → Value → Result (String × Action) ToolError
    prepare_action read_file v = do
      p ← text v "path"
      target ← or_rejected (display root p)
      path ← or_rejected (read root fs p)
      max ← max_output v
      ok (target, reads path max)
    prepare_action list_directory v = do
      p ← text v "path"
      target ← or_rejected (display root p)
      path ← or_rejected (read root fs p)
      max ← usize_field v "max_entries" 1000 1 10000
      ok (target, lists path max)
    prepare_action search v = do
      query ← text v "query"
      regex ← bool_field v "regex" false
      max_results ← usize_field v "max_results" 100 1 10000
      max ← max_output v
      ok (".", searches query regex max_results max)
    prepare_action read_project_manifest v = max_output v >>= λ max. ok (".", manifest max)
    prepare_action edit_file v = do
      p ← text v "path"
      before ← ok_or (filled (text_value "before" (anchor v))) no_anchor
      target ← or_rejected (display root p)
      path ← or_rejected (mutation root fs p false)
      after ← text v "after"
      ok (target, edits path before after)
    prepare_action write_file v = do
      p ← text v "path"
      create_intent ← bool_field v "create_intent" false
      target ← or_rejected (display root p)
      path ← or_rejected (mutation root fs p create_intent)
      content ← text v "content"
      ok (target, writes path content create_intent)
    prepare_action git_diff_tool v = max_output v >>= λ max. ok (".", git_diff max)

    -- The effect of an action: a write that is to create a file is a creation.
    abbrev pub effect_class : EffectClass → Action → EffectClass
    effect_class effect (writes path content true) = create
    effect_class effect (writes path content false) = effect
    effect_class effect (reads path max) = effect
    effect_class effect (lists path max) = effect
    effect_class effect (searches query regex max_results max) = effect
    effect_class effect (manifest max) = effect
    effect_class effect (git_diff max) = effect
    effect_class effect (edits path before after) = effect

    pub prepare : Builtin → Value → Result Prepared ToolError
    prepare tool v = do
      (target, action) ← prepare_action tool v
      ok (record {
        target = target;
        effect = effect_class (effect_of tool) action;
        action = action;
        expected_hash = none;
      })

    abbrev pub is_modify : EffectClass → Bool
    is_modify modify = true
    is_modify create = false
    is_modify read_only = false

    -- The rest of `prepare_for_engine`, once the action is prepared.
    pub approve :
        PermissionPolicy
        → Bool
        → (OperationBinding Value → String)
        → ToolInvocation Value
        → Prepared
        → Result (Prepared × PolicyDecision × String) ToolError
    approve policy safe_mutations_supported digest invocation prepared = do
      guard (is_read_only prepared.effect || safe_mutations_supported)
          (path_rejected unsupported_safe_path_operation)
      guard (not (is_modify prepared.effect) || is_some invocation.precondition)
          (read_required prepared.target)
      let binding : OperationBinding Value = record {
        descriptor_version = 1;
        invocation = invocation;
        target = prepared.target;
        policy_version = policy.version;
      }
      ok (
        record prepared { expected_hash = invocation.precondition },
        decide policy prepared.effect prepared.target,
        digest binding,
      )

    -- `ToolRegistry::prepare_for_engine`, with the digest as a parameter.
    pub prepare_for_engine :
        PermissionPolicy
        → List Builtin
        → Bool
        → (OperationBinding Value → String)
        → ToolInvocation Value
        → Result (Prepared × PolicyDecision × String) ToolError
    prepare_for_engine policy tools safe_mutations_supported digest invocation = do
      tool ← ok_or (find_tool invocation.name tools) (unknown invocation.name)
      prepared ← prepare tool invocation.input
      approve policy safe_mutations_supported digest invocation prepared
