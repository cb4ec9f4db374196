-- ===== src/Tui/Command.antt =====
-- crates/latte-tui/src/command.rs: the builtin commands, and what a prompt that starts with a slash is.
pub mod Policy
pub mod Names
pub mod Suggestions
pub mod Ranking
mod Examples
use Prim.Native.Char.{Char, code}
use Prim.Native.String
use latte_code.Base.{
  ℕ, ◌+◌, ◌≤◌, String, Bool, true, false, not, ◌||◌, ◌&&◌, Option, none, some, List, [], ◌∷◌, ◌==◌,
  nat_eq, string_eq, any, find, leb, if◌then◌else◌,
}

pub data BuiltinCommand : Type 0 where
  new sessions rename fork model help navigation refresh quit : BuiltinCommand

pub data CommandKind : Type 0 where
  local_ui typed_action prompt_template : CommandKind

pub data ArgumentPolicy : Type 0 where
  no_argument optional required : ArgumentPolicy

pub record CommandDescriptor : Type 0 where
  pub id : BuiltinCommand
  pub name : String
  pub aliases : List String
  pub description : String
  pub argument_hint : Option String
  pub kind : CommandKind
  pub arguments : ArgumentPolicy

-- `BUILTINS`.
abbrev pub builtins : List CommandDescriptor
builtins =
    record {
      id = new;
      name = "new";
      aliases = [];
      description = "Start a new conversation draft";
      argument_hint = none;
      kind = local_ui;
      arguments = no_argument;
    }
    ∷ record {
      id = sessions;
      name = "sessions";
      aliases = "resume" ∷ [];
      description = "Find and resume a saved session";
      argument_hint = some "[query]";
      kind = typed_action;
      arguments = optional;
    }
    ∷ record {
      id = model;
      name = "model";
      aliases = [];
      description = "Select a provider and model";
      argument_hint = none;
      kind = local_ui;
      arguments = no_argument;
    }
    ∷ record {
      id = help;
      name = "help";
      aliases = [];
      description = "Show keyboard shortcuts";
      argument_hint = none;
      kind = local_ui;
      arguments = no_argument;
    }
    ∷ record {
      id = navigation;
      name = "navigation";
      aliases = "nav" ∷ [];
      description = "Enter transcript navigation";
      argument_hint = none;
      kind = local_ui;
      arguments = no_argument;
    }
    ∷ record {
      id = refresh;
      name = "refresh";
      aliases = [];
      description = "Refresh authoritative session state";
      argument_hint = none;
      kind = typed_action;
      arguments = no_argument;
    }
    ∷ record {
      id = quit;
      name = "quit";
      aliases = "exit" ∷ "q" ∷ [];
      description = "Quit Latte Code";
      argument_hint = none;
      kind = local_ui;
      arguments = no_argument;
    }
    ∷ record {
      id = rename;
      name = "rename";
      aliases = [];
      description = "Rename the current session";
      argument_hint = some "<title>";
      kind = typed_action;
      arguments = required;
    }
    ∷ record {
      id = fork;
      name = "fork";
      aliases = "branch" ∷ [];
      description = "Fork committed history into a new session";
      argument_hint = some "[title]";
      kind = typed_action;
      arguments = optional;
    }
    ∷ []

pub data SlashResolution : Type 0 where
  prompt : SlashResolution
  command : (descriptor : CommandDescriptor) (argument : String) → SlashResolution
  -- The command does not accept arguments, or requires one.
  unexpected_argument missing_argument : (name : String) → SlashResolution

abbrev within : ℕ → ℕ → ℕ → Bool
within low high n = leb low n && leb n high

-- `char::is_whitespace`: the property White_Space of Unicode.
abbrev pub is_whitespace : ℕ → Bool
is_whitespace n =
    within 9 13 n
    || n == 32
    || n == 133
    || n == 160
    || n == 5760
    || within 8192 8202 n
    || n == 8232
    || n == 8233
    || n == 8239
    || n == 8287
    || n == 12288

-- The token at the front of a text, and the rest from the first whitespace on.
abbrev pub token : String → String
token Prim.Native.String.[] = ""
token (Prim.Native.String.◌∷◌ a s) =
    let later = token s in if is_whitespace (code a) then "" else Prim.Native.String.◌∷◌ a later

abbrev pub after_token : String → String
after_token Prim.Native.String.[] = ""
after_token (Prim.Native.String.◌∷◌ a s) =
    let later = after_token s in
    if is_whitespace (code a) then Prim.Native.String.◌∷◌ a s else later

-- `str::trim`.
abbrev pub trim_start : String → String
trim_start Prim.Native.String.[] = ""
trim_start (Prim.Native.String.◌∷◌ a s) =
    let later = trim_start s in if is_whitespace (code a) then later else Prim.Native.String.◌∷◌ a s

abbrev pub trim_end : String → String
trim_end Prim.Native.String.[] = ""
trim_end (Prim.Native.String.◌∷◌ a s) =
    let later = trim_end s in
    if is_whitespace (code a) && later == "" then "" else Prim.Native.String.◌∷◌ a later

abbrev pub trim : String → String
trim s = trim_end (trim_start s)

abbrev is_name_start : ℕ → Bool
is_name_start n = within 97 122 n || within 48 57 n

abbrev all_named : String → Bool
all_named Prim.Native.String.[] = true
all_named (Prim.Native.String.◌∷◌ a s) =
    (is_name_start (code a) || code a == 58 || code a == 95 || code a == 45) && all_named s

-- `valid_name`; a name that passes has one byte per character.
pub valid_name : String → Bool
valid_name Prim.Native.String.[] = false
valid_name (Prim.Native.String.◌∷◌ a s) =
    leb (Prim.Native.String.len (Prim.Native.String.◌∷◌ a s)) 64
    && is_name_start (code a)
    && all_named s

abbrev pub has_name : String → CommandDescriptor → Bool
has_name name d = d.name == name || any (λ (alias : String). alias == name) d.aliases

-- The checks of the argument.
abbrev pub accept_under : ArgumentPolicy → CommandDescriptor → String → SlashResolution
accept_under no_argument d argument =
    if argument == "" then command d argument else unexpected_argument d.name
accept_under optional d argument = command d argument
accept_under required d argument =
    if argument == "" then missing_argument d.name else command d argument

abbrev pub accept : CommandDescriptor → String → SlashResolution
accept d argument = accept_under d.arguments d argument

pub find_command : String → Option CommandDescriptor
find_command name = find (has_name name) builtins

-- The rest of `resolve_slash`, with the name and what follows it.
pub dispatch : String → String → SlashResolution
dispatch name rest =
    if valid_name name
    then elim (find_command name) [ none ↦ prompt | some d ↦ accept d (trim rest) ]
    else prompt

pub resolve_slash : String → SlashResolution
resolve_slash Prim.Native.String.[] = prompt
resolve_slash (Prim.Native.String.◌∷◌ a s) =
    if code a == 47 then dispatch (token s) (after_token s) else prompt
