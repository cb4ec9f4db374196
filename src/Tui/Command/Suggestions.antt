-- ===== src/Tui/Command/Suggestions.antt =====
-- `slash_suggestions` of crates/latte-tui/src/command.rs, and its order.
use Prim.Native.Char.{code}
use Prim.Native.String
use latte_code.Base.{
  ℕ, zero, suc, ◌≤◌, ◌<◌, ◌≡◌, refl, ap, ◌∙◌, inl, inr, String, Bool, true, false, not, ◌||◌, ◌&&◌,
  Option, none, some, List, [], ◌∷◌, ◌++◌, map, ◌==◌, nat_eq, string_eq, any, keep, leb, ltb, All,
  All-mono, All-append, if◌then◌else◌, Bool-cases, arith,
}
use latte_code.Tui.Command.{CommandDescriptor, builtins, has_name, is_whitespace, valid_name}

abbrev pub begins : String → String → Bool
begins Prim.Native.String.[] s = true
begins (Prim.Native.String.◌∷◌ a p) Prim.Native.String.[] = false
begins (Prim.Native.String.◌∷◌ a p) (Prim.Native.String.◌∷◌ b s) = code a == code b && begins p s

abbrev pub has_whitespace : String → Bool
has_whitespace Prim.Native.String.[] = false
has_whitespace (Prim.Native.String.◌∷◌ a s) = is_whitespace (code a) || has_whitespace s

-- The rank of a command for a partial name.
unfoldable pub rank : String → CommandDescriptor → Option ℕ
rank prefix d =
    if has_name prefix d
    then some 0
    else if begins prefix d.name
    then some 1
    else if any (begins prefix) d.aliases
    then some 2
    else none

abbrev pub Ranked : Type 0
Ranked = ℕ × ℕ × CommandDescriptor

abbrev pub add_rank : ℕ → CommandDescriptor → Option ℕ → List Ranked → List Ranked
add_rank index d none rest = rest
add_rank index d (some r) rest = (r, index, d) ∷ rest

abbrev pub ranked : String → ℕ → List CommandDescriptor → List Ranked
ranked prefix index [] = []
ranked prefix index (d ∷ ds) = add_rank index d (rank prefix d) (ranked prefix (suc index) ds)

-- `sort_by_key` on the rank and the index.
abbrev pub precedes : Ranked → Ranked → Bool
precedes x y = ltb x.0 y.0 || (x.0 == y.0 && leb x.1 y.1)

abbrev pub insert : Ranked → List Ranked → List Ranked
insert x [] = x ∷ []
insert x (y ∷ ys) = let rest = insert x ys in if precedes x y then x ∷ y ∷ ys else y ∷ rest

abbrev pub sort : List Ranked → List Ranked
sort [] = []
sort (x ∷ xs) = insert x (sort xs)

-- A partial token for which commands are suggested.
unfoldable pub is_discoverable : String → Bool
is_discoverable prefix =
    not (has_whitespace prefix)
    && (prefix == "" || valid_name prefix)
    && leb (Prim.Native.String.len prefix) 64

pub slash_suggestions : String → List CommandDescriptor
slash_suggestions Prim.Native.String.[] = []
slash_suggestions (Prim.Native.String.◌∷◌ a prefix) =
    if code a == 47 && is_discoverable prefix
    then map (λ (x : Ranked). x.2) (sort (ranked prefix 0 builtins))
    else []

-- Those of one rank.
abbrev group : ℕ → List Ranked → List Ranked
group k xs = keep (λ (x : Ranked). x.0 == k) xs

insert-front :
    (x : Ranked) (ys : List Ranked)
    → All (λ (y : Ranked). (x.0 ≤ y.0) × (x.1 < y.1)) ys
    → insert x ys ≡ x ∷ ys
insert-front x [] h = refl
insert-front x (y ∷ ys) h = let first : precedes x y ≡ true = ground (arith, h.0) in rw first refl

insert-past :
    (x : Ranked) (ys zs : List Ranked)
    → All (λ (y : Ranked). y.0 < x.0) ys
    → insert x (ys ++ zs) ≡ ys ++ insert x zs
insert-past x [] zs h = refl
insert-past x (y ∷ ys) zs h =
    let later : precedes x y ≡ false = ground (arith, h.0) in
    rw later (ap (λ r. y ∷ r) (insert-past x ys zs h.1))

group-rank : (k : ℕ) (xs : List Ranked) → All (λ (x : Ranked). x.0 ≡ k) (group k xs)
group-rank k [] = tt
group-rank k (x ∷ xs) = elim (Bool-cases (x.0 == k)) [
  | inl e ↦ rw e ((nat_eq.test_iff x.0 k).0 e, group-rank k xs)
  | inr e ↦ rw e (group-rank k xs)
]

-- A group has its rank, and the indexes of the list.
from :
    (k m i : ℕ) (xs : List Ranked)
    → k ≤ m
    → All (λ (y : Ranked). i < y.1) xs
    → All (λ (y : Ranked). (k ≤ y.0) × (i < y.1)) (group m xs)
from k m i [] fit up = tt
from k m i (x ∷ xs) fit up = elim (Bool-cases (x.0 == m)) [
  | inl e ↦
      let same : x.0 ≡ m = (nat_eq.test_iff x.0 m).0 e in
      rw e ((omega (arith, same, fit), up.0), from k m i xs fit up.1)
  | inr e ↦ rw e (from k m i xs fit up.1)
]

below : (k m : ℕ) (xs : List Ranked) → m < k → All (λ (y : Ranked). y.0 < k) (group m xs)
below k m xs fit = All-mono _ _ (λ y same. omega (arith, same, fit)) (group m xs) (group-rank m xs)

abbrev groups : List Ranked → List Ranked
groups xs = group 0 xs ++ (group 1 xs ++ group 2 xs)

-- An element with a rank and an index before all others goes to the front of its group.
insert-groups :
    (k i : ℕ) (d : CommandDescriptor) (xs : List Ranked)
    → k ≤ 2
    → All (λ (y : Ranked). i < y.1) xs
    → insert (k, i, d) (groups xs) ≡ groups ((k, i, d) ∷ xs)
insert-groups zero i d xs fit up =
    insert-front (0, i, d) (groups xs)
      (All-append _ (group 0 xs) (group 1 xs ++ group 2 xs) (from 0 0 i xs (omega arith) up) (
        All-append _ (group 1 xs) (group 2 xs) (from 0 1 i xs (omega arith) up)
          (from 0 2 i xs fit up)))
insert-groups (suc zero) i d xs fit up =
    insert-past (1, i, d) (group 0 xs) (group 1 xs ++ group 2 xs) (below 1 0 xs (omega arith))
    ∙ ap (λ r. group 0 xs ++ r)
        (insert-front (1, i, d) (group 1 xs ++ group 2 xs)
          (All-append _ (group 1 xs) (group 2 xs) (from 1 1 i xs (omega arith) up)
            (from 1 2 i xs (omega arith) up)))
insert-groups (suc (suc zero)) i d xs fit up =
    insert-past (2, i, d) (group 0 xs) (group 1 xs ++ group 2 xs) (below 2 0 xs (omega arith))
    ∙ ap (λ r. group 0 xs ++ r)
        (insert-past (2, i, d) (group 1 xs) (group 2 xs) (below 2 1 xs (omega arith))
          ∙ ap (λ r. group 1 xs ++ r)
              (insert-front (2, i, d) (group 2 xs) (from 2 2 i xs (omega arith) up)))
insert-groups (suc (suc (suc k))) i d xs fit up = absurd (omega (arith, fit))

-- The indexes of a ranked list start at the first.
ranked-above :
    (p : String) (i : ℕ) (ds : List CommandDescriptor)
    → All (λ (y : Ranked). i ≤ y.1) (ranked p i ds)
ranked-above p i [] = tt
ranked-above p i (d ∷ ds) =
    added (rank p d)
      (All-mono _ _ (λ y h. omega (arith, h)) (ranked p (suc i) ds) (ranked-above p (suc i) ds))
  where
    added :
        (o : Option ℕ)
        → All (λ (y : Ranked). i ≤ y.1) (ranked p (suc i) ds)
        → All (λ (y : Ranked). i ≤ y.1) (add_rank i d o (ranked p (suc i) ds))
    added none rest = rest
    added (some r) rest = (omega arith, rest)

rank_bound : (p : String) (d : CommandDescriptor) {r : ℕ} → rank p d ≡ some r → r ≤ 2
unfolding rank
rank_bound p d {r} h = ground (
  arith,
  Bool-cases (has_name p d),
  Bool-cases (begins p d.name),
  Bool-cases (any (begins p) d.aliases),
)

sort-groups :
    (p : String) (i : ℕ) (ds : List CommandDescriptor)
    → sort (ranked p i ds) ≡ groups (ranked p i ds)
sort-groups p i [] = refl
sort-groups p i (d ∷ ds) = added (sort-groups p (suc i) ds) (rank p d) refl
  where
    added :
        sort (ranked p (suc i) ds) ≡ groups (ranked p (suc i) ds)
        → (o : Option ℕ) → rank p d ≡ o
        → sort (add_rank i d o (ranked p (suc i) ds))
          ≡ groups (add_rank i d o (ranked p (suc i) ds))
    added sorted none at = sorted
    added sorted (some r) at =
        ap (insert (r, i, d)) sorted
        ∙ insert-groups r i d (ranked p (suc i) ds) (rank_bound p d at) (
            All-mono _ _ (λ y h. omega (arith, h)) (ranked p (suc i) ds)
              (ranked-above p (suc i) ds))

abbrev pub is_rank : ℕ → Option ℕ → Bool
is_rank k none = false
is_rank k (some r) = r == k

-- The commands of one rank, in the order of the catalog.
abbrev pub at_rank : ℕ → String → List CommandDescriptor → List CommandDescriptor
at_rank k p ds = keep (λ (d : CommandDescriptor). is_rank k (rank p d)) ds

group-at_rank :
    (k : ℕ) (p : String) (i : ℕ) (ds : List CommandDescriptor)
    → map (λ (x : Ranked). x.2) (group k (ranked p i ds)) ≡ at_rank k p ds
group-at_rank k p i [] = refl
group-at_rank k p i (d ∷ ds) = added (rank p d) (group-at_rank k p (suc i) ds)
  where
    added :
        (o : Option ℕ)
        → map (λ (x : Ranked). x.2) (group k (ranked p (suc i) ds)) ≡ at_rank k p ds
        → map (λ (x : Ranked). x.2) (group k (add_rank i d o (ranked p (suc i) ds)))
          ≡ (if is_rank k o then d ∷ at_rank k p ds else at_rank k p ds)
    added none same = same
    added (some r) same = elim (Bool-cases (r == k)) [
      | inl e ↦ rw e (ap (λ l. d ∷ l) same)
      | inr e ↦ rw e same
    ]

map-append : {A B : Type 0} (f : A → B) (xs ys : List A) → map f (xs ++ ys) ≡ map f xs ++ map f ys
map-append f [] ys = refl
map-append f (x ∷ xs) ys = ap (λ l. f x ∷ l) (map-append f xs ys)

-- For a partial name that is discoverable, the suggestions are the commands with this very name or alias,
-- then those whose name it begins, then those of which it begins an alias, each in the catalog's order.
pub suggestions-at_rank :
    (p : String)
    → is_discoverable p ≡ true
    → slash_suggestions (Prim.Native.String.◌∷◌ "/" p)
      ≡ at_rank 0 p builtins ++ (at_rank 1 p builtins ++ at_rank 2 p builtins)
unfolding slash_suggestions
suggestions-at_rank p shown = rw shown (in_groups builtins)
  where
    third : Ranked → CommandDescriptor
    third x = x.2

    in_groups :
        (ds : List CommandDescriptor)
        → map third (sort (ranked p 0 ds)) ≡ at_rank 0 p ds ++ (at_rank 1 p ds ++ at_rank 2 p ds)
    in_groups ds =
        let xs = ranked p 0 ds in
        ap (map third) (sort-groups p 0 ds)
        ∙ map-append third (group 0 xs) (group 1 xs ++ group 2 xs)
        ∙ ap (λ l. map third (group 0 xs) ++ l) (map-append third (group 1 xs) (group 2 xs))
        ∙ ap (λ l. l ++ (map third (group 1 xs) ++ map third (group 2 xs))) (group-at_rank 0 p 0 ds)
        ∙ ap (λ l. at_rank 0 p ds ++ (l ++ map third (group 2 xs))) (group-at_rank 1 p 0 ds)
        ∙ ap (λ l. at_rank 0 p ds ++ (at_rank 1 p ds ++ l)) (group-at_rank 2 p 0 ds)
