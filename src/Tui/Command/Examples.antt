-- ===== src/Tui/Command/Examples.antt =====
-- The slash commands of crates/latte-tui/src/command.rs on concrete prompts.
use Prim.Native.String
use latte_code.Base.{◌<>◌, ◌≡◌, refl, inl, inr, true, some, List, [], ◌∷◌, ◌++◌, Picks, string_eq}
use latte_code.Tui.Command.{
  builtins, CommandDescriptor, command, sessions, typed_action, optional, accept, resolve_slash,
  dispatch, find_command, valid_name, trim,
}
use latte_code.Tui.Command.Suggestions.{slash_suggestions, is_discoverable}
use latte_code.Tui.Command.Ranking.{IsNamed, IsByName, IsByAlias, slash_suggestions-Picks}
use latte_code.Tui.Command.Policy.{IsJudged}
use latte_code.Tui.Command.Names.{resolve-names}

abbrev resume : CommandDescriptor
resume = record {
  id = sessions;
  name = "sessions";
  aliases = "resume" ∷ [];
  description = "Find and resume a saved session";
  argument_hint = some "[query]";
  kind = typed_action;
  arguments = optional;
}

resumes : resolve_slash "/resume  a title " ≡ command resume "a title"
unfolding resolve_slash dispatch find_command valid_name
resumes = refl

resolve-names_example :
    (resolve_slash (Prim.Native.String.◌∷◌ "/" ("resume" <> " a")) ≡ accept resume (trim " a"))
    × IsJudged resume (trim " a") (resolve_slash (Prim.Native.String.◌∷◌ "/" ("resume" <> " a")))
resolve-names_example = resolve-names resume "resume" " " "a" (inr (inl refl)) (inr (inl refl)) refl

discoverable : is_discoverable "re" ≡ true
unfolding is_discoverable valid_name
discoverable = refl

slash_suggestions-Picks_example :
    (named by_name by_alias : List CommandDescriptor) × (slash_suggestions
        (Prim.Native.String.◌∷◌ "/" "re")
      ≡ named ++ (by_name ++ by_alias))
    × Picks (IsNamed "re") builtins named
    × Picks (IsByName "re") builtins by_name
    × Picks (IsByAlias "re") builtins by_alias
slash_suggestions-Picks_example = slash_suggestions-Picks "re" discoverable
