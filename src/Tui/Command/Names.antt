-- ===== src/Tui/Command/Names.antt =====
-- Which prompts are commands of the catalog of crates/latte-tui/src/command.rs.
use Prim.Native.Char.{Char, code}
use Prim.Native.String
use text.Mathlib.TextLemmas.{nil-append, cons-append}
use text.Mathlib.TextEquality.{Char-path}
use latte_code.Base.{
  ◌<>◌, ◌≡◌, ◌⊎◌, inl, inr, refl, sym, ap, ◌∙◌, subst, String, Bool, true, false, not, ◌&&◌, some,
  List, [], ◌∷◌, ◌==◌, nat_eq, string_eq, find, All, Bool-cases, Option-cases, arith,
}
use latte_code.Tui.Command.Policy.{IsJudged, accept_under-IsJudged}
use latte_code.Tui.Command.{
  CommandDescriptor, ArgumentPolicy, SlashResolution, prompt, command, unexpected_argument,
  missing_argument, builtins, no_argument, optional, required, is_whitespace, token, after_token,
  trim, valid_name, has_name, accept, accept_under, find_command, dispatch, resolve_slash,
}

abbrev pub is_solid : String → Bool
is_solid Prim.Native.String.[] = true
is_solid (Prim.Native.String.◌∷◌ a s) = not (is_whitespace (code a)) && is_solid s

token-append :
    (n : String) (w : Char) (s : String)
    → is_solid n ≡ true
    → is_whitespace (code w) ≡ true
    → (token (n <> Prim.Native.String.◌∷◌ w s) ≡ n)
      × (after_token (n <> Prim.Native.String.◌∷◌ w s) ≡ Prim.Native.String.◌∷◌ w s)
token-append Prim.Native.String.[] w s h white =
    let bare = nil-append (Prim.Native.String.◌∷◌ w s) in
    (rw (bare, white) refl, rw (bare, white) refl)
token-append (Prim.Native.String.◌∷◌ a n) w s h white = elim (Bool-cases (is_whitespace (code a))) [
  | inl e ↦ absurd (ground (arith, e))
  | inr e ↦
      let (front, back) = token-append n w s (rw e at h) white in
      let moved = cons-append a n (Prim.Native.String.◌∷◌ w s) in
      (rw (moved, e) (ap (λ t. Prim.Native.String.◌∷◌ a t) front), rw (moved, e) back)
]

-- A name that the catalog has, followed by whitespace, is its command with what follows as argument.
resolve-name :
    (n : String) (d : CommandDescriptor) (w : Char) (s : String)
    → is_solid n ≡ true
    → valid_name n ≡ true
    → find_command n ≡ some d
    → is_whitespace (code w) ≡ true
    → resolve_slash (Prim.Native.String.◌∷◌ "/" (n <> Prim.Native.String.◌∷◌ w s))
      ≡ accept d (trim (Prim.Native.String.◌∷◌ w s))
unfolding resolve_slash dispatch
resolve-name n d w s solid valid found white =
    let (front, back) = token-append n w s solid white in
    ap (λ t. dispatch t (after_token (n <> Prim.Native.String.◌∷◌ w s))) front
    ∙ ap (dispatch n) back
    ∙ rw (valid, found, dispatch) refl

find-passes {ℓ} :
    {A : Type ℓ} (p : A → Bool) (xs : List A) {a : A} → find p xs ≡ some a → p a ≡ true
find-passes p [] h = cc
find-passes p (x ∷ xs) {a} h = elim (Bool-cases (p x)) [
  | inl e ↦ let same : x ≡ a = ground (arith, e) in subst (λ y. p y ≡ true) same e
  | inr e ↦ find-passes p xs (rw e at h)
]

-- The names of a command.
abbrev pub names : CommandDescriptor → List String
names d = d.name ∷ d.aliases

-- Names that are found, without whitespace in them.
abbrev IsKnown : CommandDescriptor → String → Type 0
IsKnown d n = (is_solid n ≡ true) × (valid_name n ≡ true) × (find_command n ≡ some d)

catalog-IsKnown : All (λ (d : CommandDescriptor). All (IsKnown d) (names d)) builtins
unfolding valid_name find_command
catalog-IsKnown = (
  ((refl, refl, refl), tt),
  (
    ((refl, refl, refl), ((refl, refl, refl), tt)),
    (
      ((refl, refl, refl), tt),
      (
        ((refl, refl, refl), tt),
        (
          ((refl, refl, refl), ((refl, refl, refl), tt)),
          (
            ((refl, refl, refl), tt),
            (
              ((refl, refl, refl), ((refl, refl, refl), ((refl, refl, refl), tt))),
              (((refl, refl, refl), tt), (((refl, refl, refl), ((refl, refl, refl), tt)), tt)),
            ),
          ),
        ),
      ),
    ),
  ),
)

descriptor_of : CommandDescriptor → SlashResolution → CommandDescriptor
descriptor_of d (command e a) = e
descriptor_of d prompt = d
descriptor_of d (unexpected_argument n) = d
descriptor_of d (missing_argument n) = d

argument_of : SlashResolution → String
argument_of (command e a) = a
argument_of prompt = ""
argument_of (unexpected_argument n) = ""
argument_of (missing_argument n) = ""

command-inj :
    {d e : CommandDescriptor} {x a : String} → command d x ≡ command e a → (d ≡ e) × (x ≡ a)
unfolding descriptor_of argument_of
command-inj {d} h = (ap (descriptor_of d) h, ap argument_of h)

accept-command :
    (policy : ArgumentPolicy) (d : CommandDescriptor) (argument : String) {e : CommandDescriptor}
    {a : String}
    → accept_under policy d argument ≡ command e a
    → (d ≡ e)
      × (argument ≡ a)
      × (policy ≡ no_argument → (a == "") ≡ true)
      × (policy ≡ required → (a == "") ≡ false)
accept-command optional d argument {e} {a} h =
    let (same, text) = command-inj h in (same, text, λ bad. cc, λ bad. cc)
accept-command no_argument d argument {e} {a} h = elim (Bool-cases (argument == "")) [
  | inl empty ↦
      let (same, text) = command-inj (rw empty at h) in
      (same, text, λ kept. subst (λ t. (t == "") ≡ true) text empty, λ bad. cc)
  | inr given ↦ let bad : unexpected_argument d.name ≡ command e a = rw given at h in cc
]
accept-command required d argument {e} {a} h = elim (Bool-cases (argument == "")) [
  | inl empty ↦ let bad : missing_argument d.name ≡ command e a = rw empty at h in cc
  | inr given ↦
      let (same, text) = command-inj (rw given at h) in
      (same, text, λ bad. cc, λ kept. subst (λ t. (t == "") ≡ false) text given)
]

-- A name is one of a command of the catalog.
abbrev pub IsIn : {A : Type 0} → A → List A → Type 0
IsIn a [] = ⊥
IsIn a (x ∷ xs) = (x ≡ a) ⊎ IsIn a xs

All-IsIn {κ} : {A : Type 0} (P : A → Type κ) (xs : List A) {a : A} → All P xs → IsIn a xs → P a
All-IsIn P [] h i = absurd i
All-IsIn P (x ∷ xs) h (inl e) = subst P e h.0
All-IsIn P (x ∷ xs) h (inr i) = All-IsIn P xs h.1 i

-- Every name and alias of every command of the catalog, after a slash and before whitespace, invokes this
-- command with the trimmed rest as its argument, where its policy admits that; an argument is refused
-- exactly where the command takes none, and its absence exactly where the command requires one.
pub resolve-names :
    (d : CommandDescriptor) (n : String) (w : Char) (s : String)
    → IsIn d builtins
    → IsIn n (names d)
    → is_whitespace (code w) ≡ true
    → (resolve_slash (Prim.Native.String.◌∷◌ "/" (n <> Prim.Native.String.◌∷◌ w s))
        ≡ accept d (trim (Prim.Native.String.◌∷◌ w s)))
      × IsJudged d
          (trim (Prim.Native.String.◌∷◌ w s))
          (resolve_slash (Prim.Native.String.◌∷◌ "/" (n <> Prim.Native.String.◌∷◌ w s)))
resolve-names d n w s in_catalog in_names white =
    let (solid, valid, found) =
      All-IsIn (IsKnown d) (names d)
        (All-IsIn (λ e. All (IsKnown e) (names e)) builtins catalog-IsKnown in_catalog) in_names in
    let resolved = resolve-name n d w s solid valid found white in
    (
      resolved,
      subst (IsJudged d (trim (Prim.Native.String.◌∷◌ w s))) (sym resolved)
          (accept_under-IsJudged d.arguments d (trim (Prim.Native.String.◌∷◌ w s)) refl),
    )

dispatch-command :
    (n rest : String) {d : CommandDescriptor} {a : String}
    → dispatch n rest ≡ command d a
    → (valid_name n ≡ true)
      × (has_name n d ≡ true)
      × (trim rest ≡ a)
      × (d.arguments ≡ no_argument → (a == "") ≡ true)
      × (d.arguments ≡ required → (a == "") ≡ false)
unfolding dispatch find_command
dispatch-command n rest {d} {a} h = elim (Bool-cases (valid_name n)) [
  | inr e ↦ let bad : prompt ≡ command d a = rw (e, dispatch) at h in cc
  | inl valid ↦ elim (Option-cases (find_command n)) [
    | inl e ↦ let bad : prompt ≡ command d a = rw (valid, e, dispatch) at h in cc
    | inr (e, found) ↦
        let accepted : accept e (trim rest) ≡ command d a = rw (valid, found, dispatch) at h in
        let (same, text, kept, given) = accept-command e.arguments e (trim rest) accepted in
        (
          valid,
          subst (λ x. has_name n x ≡ true) same (find-passes (has_name n) builtins found),
          text,
          λ none_taken. kept (ap (λ x. x.arguments) same ∙ none_taken),
          λ one_taken. given (ap (λ x. x.arguments) same ∙ one_taken),
        )
  ]
]

-- A prompt that invokes a command starts with a slash and a valid name of that command; the argument is
-- the trimmed rest, empty where the command takes none and not empty where it requires one.
pub resolve-IsCommand :
    (value : String) {d : CommandDescriptor} {a : String}
    → resolve_slash value ≡ command d a
    → (s : String) × (value ≡ Prim.Native.String.◌∷◌ "/" s)
      × (valid_name (token s) ≡ true)
      × (has_name (token s) d ≡ true)
      × (a ≡ trim (after_token s))
      × (d.arguments ≡ no_argument → (a == "") ≡ true)
      × (d.arguments ≡ required → (a == "") ≡ false)
unfolding resolve_slash
resolve-IsCommand Prim.Native.String.[] {d} {a} h = cc
resolve-IsCommand (Prim.Native.String.◌∷◌ x s) {d} {a} h = elim (Bool-cases (code x == 47)) [
  | inr e ↦ let bad : prompt ≡ command d a = rw e at h in cc
  | inl e ↦
      let slash : x ≡ "/" = Char-path x "/" ((nat_eq.test_iff (code x) 47).0 e) in
      let (valid, named, text, kept, given) =
        dispatch-command (token s) (after_token s) (rw e at h) in
      (s, ap (λ c. Prim.Native.String.◌∷◌ c s) slash, valid, named, sym text, kept, given)
]
