-- ===== src/Tui/Command/Ranking.antt =====
-- Which commands crates/latte-tui/src/command.rs suggests, by what their names are.
use Prim.Native.Char.{code}
use Prim.Native.String
use text.Mathlib.TextLemmas.{nil-append, cons-append}
use text.Mathlib.TextEquality.{Char-path}
use latte_code.Base.{
  ℕ, ◌≡◌, refl, sym, ap, ◌∙◌, ◌⊎◌, inl, inr, String, Bool, true, false, List, [], ◌∷◌, ◌++◌, ◌==◌,
  nat_eq, string_eq, eq_iff, any, Picks, Decides, keep-Picks, Bool-cases, arith, ◌<>◌,
}
use latte_code.Tui.Command.{CommandDescriptor, builtins, has_name}
use latte_code.Tui.Command.Suggestions.{
  begins, rank, is_discoverable, slash_suggestions, is_rank, at_rank, suggestions-at_rank,
}

-- The text goes on after the partial name.
abbrev pub Starts : String → String → Type 0
Starts p s = (rest : String) × (s ≡ p <> rest)

abbrev pub Some : (String → Type 0) → List String → Type 0
Some Q [] = ⊥
Some Q (x ∷ xs) = Q x ⊎ Some Q xs

-- The command has this very name or alias; its name starts with the text; one of its aliases does.
abbrev pub IsNamed : String → CommandDescriptor → Type 0
IsNamed p d = (d.name ≡ p) ⊎ Some (λ alias. alias ≡ p) d.aliases

abbrev pub IsByName : String → CommandDescriptor → Type 0
IsByName p d = (¬ IsNamed p d) × Starts p d.name

abbrev pub IsByAlias : String → CommandDescriptor → Type 0
IsByAlias p d = (¬ IsNamed p d) × (¬ Starts p d.name) × Some (Starts p) d.aliases

begins-Starts : (p s : String) → begins p s ≡ true → Starts p s
begins-Starts Prim.Native.String.[] s h = (s, sym (nil-append s))
begins-Starts (Prim.Native.String.◌∷◌ a p) Prim.Native.String.[] h = cc
begins-Starts (Prim.Native.String.◌∷◌ a p) (Prim.Native.String.◌∷◌ b s) h =
    elim (Bool-cases (code a == code b)) [
      | inl e ↦
          let same : b ≡ a = sym (Char-path a b ((nat_eq.test_iff (code a) (code b)).0 e)) in
          let (rest, whole) = begins-Starts p s (rw e at h) in
          (
            rest,
            ap (λ c. Prim.Native.String.◌∷◌ c s) same
                ∙ ap (λ t. Prim.Native.String.◌∷◌ a t) whole
                ∙ sym (cons-append a p rest),
          )
      | inr e ↦ let bad : false ≡ true = rw e at h in cc
    ]

begins-append : (p rest : String) → begins p (p <> rest) ≡ true
begins-append Prim.Native.String.[] rest = refl
begins-append (Prim.Native.String.◌∷◌ a p) rest =
    let same = (nat_eq.test_iff (code a) (code a)).1 refl in
    ap (begins (Prim.Native.String.◌∷◌ a p)) (cons-append a p rest)
    ∙ rw (same, begins-append p rest) refl

begins-Decides : (p : String) → Decides (begins p) (Starts p)
begins-Decides p = (
  begins-Starts p,
  λ s h (rest, whole). let hit = ap (begins p) whole ∙ begins-append p rest in cc (h, hit),
)

any-Decides : (t : String → Bool) (Q : String → Type 0) → Decides t Q → Decides (any t) (Some Q)
any-Decides t Q d = (there, absent)
  where
    there : (xs : List String) → any t xs ≡ true → Some Q xs
    there [] h = cc
    there (x ∷ xs) h = elim (Bool-cases (t x)) [
      | inl q ↦ inl (d.0 x q)
      | inr q ↦ inr (there xs (ground (arith, q, h)))
    ]

    absent : (xs : List String) → any t xs ≡ false → ¬ Some Q xs
    absent [] h bad = bad
    absent (x ∷ xs) h (inl q) = d.1 x (ground (arith, h)) q
    absent (x ∷ xs) h (inr q) = absent xs (ground (arith, h)) q

same-Decides : (p : String) → Decides (λ (x : String). x == p) (λ x. x ≡ p)
same-Decides p =
    (λ x h. (eq_iff x p).0 h, λ x h e. let hit = (eq_iff x p).1 e in ground (arith, h, hit))

IsNamed-Decides : (p : String) → Decides (has_name p) (IsNamed p)
IsNamed-Decides p = (yes_named, not_named)
  where
    aliases : Decides (any (λ (x : String). x == p)) (Some (λ alias. alias ≡ p))
    aliases = any-Decides (λ (x : String). x == p) (λ alias. alias ≡ p) (same-Decides p)

    yes_named : (d : CommandDescriptor) → has_name p d ≡ true → IsNamed p d
    yes_named d h = elim (Bool-cases (d.name == p)) [
      | inl q ↦ inl ((eq_iff d.name p).0 q)
      | inr q ↦ inr (aliases.0 d.aliases (ground (arith, q, h)))
    ]

    not_named : (d : CommandDescriptor) → has_name p d ≡ false → ¬ IsNamed p d
    not_named d h (inl q) = let hit = (eq_iff d.name p).1 q in ground (arith, h, hit)
    not_named d h (inr q) = aliases.1 d.aliases (ground (arith, h)) q

-- A rank is what it should be, whichever of the three holds.
module _ (p : String) where
  abbrev Ranks : ℕ → (CommandDescriptor → Type 0) → Type 0
  Ranks k Q = Decides (λ (d : CommandDescriptor). is_rank k (rank p d)) Q

  rank-IsNamed : Ranks 0 (IsNamed p)
  unfolding rank
  rank-IsNamed = (
    λ d h. elim (Bool-cases (has_name p d)) [
      | inl q ↦ (IsNamed-Decides p).0 d q
      | inr q ↦ absurd (ground (arith, q, h))
    ],
    λ d h.
        (IsNamed-Decides p).1 d
          (elim (Bool-cases (has_name p d)) [ inl q ↦ absurd (ground (arith, q, h)) | inr q ↦ q ]),
  )

  rank-IsByName : Ranks 1 (IsByName p)
  unfolding rank
  rank-IsByName = (
    λ d h. elim (Bool-cases (has_name p d)) [
      | inl q ↦ absurd (ground (arith, q, h))
      | inr q ↦ (
        (IsNamed-Decides p).1 d q,
        begins-Starts p d.name (elim (Bool-cases (begins p d.name)) [
          | inl r ↦ r
          | inr r ↦ absurd (ground (arith, q, r, h))
        ]),
      )
    ],
    λ d h (fresh, start). elim (Bool-cases (has_name p d)) [
      | inl q ↦ fresh ((IsNamed-Decides p).0 d q)
      | inr q ↦ elim (Bool-cases (begins p d.name)) [
        | inl r ↦ absurd (ground (arith, q, r, h))
        | inr r ↦ (begins-Decides p).1 d.name r start
      ]
    ],
  )

  rank-IsByAlias : Ranks 2 (IsByAlias p)
  unfolding rank
  rank-IsByAlias = (
    λ d h. elim (Bool-cases (has_name p d)) [
      | inl q ↦ absurd (ground (arith, q, h))
      | inr q ↦ elim (Bool-cases (begins p d.name)) [
        | inl r ↦ absurd (ground (arith, q, r, h))
        | inr r ↦ (
          (IsNamed-Decides p).1 d q,
          (begins-Decides p).1 d.name r,
          (any-Decides (begins p) (Starts p) (begins-Decides p)).0 d.aliases
              (elim (Bool-cases (any (begins p) d.aliases)) [
                | inl a ↦ a
                | inr a ↦ absurd (ground (arith, q, r, a, h))
              ]),
        )
      ]
    ],
    λ d h (fresh, other, start). elim (Bool-cases (has_name p d)) [
      | inl q ↦ fresh ((IsNamed-Decides p).0 d q)
      | inr q ↦ elim (Bool-cases (begins p d.name)) [
        | inl r ↦ other (begins-Starts p d.name r)
        | inr r ↦
            (any-Decides (begins p) (Starts p) (begins-Decides p)).1 d.aliases
              (elim (Bool-cases (any (begins p) d.aliases)) [
                | inl a ↦ absurd (ground (arith, q, r, a, h))
                | inr a ↦ a
              ])
              start
      ]
    ],
  )

-- For a partial name that is discoverable, the suggestions are the commands with this very name or alias,
-- then the others whose name starts with it, then the others of which an alias does: all of them, each
-- group in the order of the catalog.
pub slash_suggestions-Picks :
    (p : String)
    → is_discoverable p ≡ true
    → (named by_name by_alias : List CommandDescriptor) × (slash_suggestions
          (Prim.Native.String.◌∷◌ "/" p)
        ≡ named ++ (by_name ++ by_alias))
      × Picks (IsNamed p) builtins named
      × Picks (IsByName p) builtins by_name
      × Picks (IsByAlias p) builtins by_alias
slash_suggestions-Picks p shown = (
  at_rank 0 p builtins,
  at_rank 1 p builtins,
  at_rank 2 p builtins,
  suggestions-at_rank p shown,
  keep-Picks _ (IsNamed p) (rank-IsNamed p) builtins,
  keep-Picks _ (IsByName p) (rank-IsByName p) builtins,
  keep-Picks _ (IsByAlias p) (rank-IsByAlias p) builtins,
)
