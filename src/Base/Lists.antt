-- ===== src/Base/Lists.antt =====
-- Lists measured by native numbers, tests over lists, and predicates on all their elements.
use Prim.Native.Nat.{ℕ, suc, ◌+◌}
use mathlib.Core.Path.{◌≡◌, refl, ap, subst}
use mathlib.Core.Logic.{inl, inr}
use mathlib.Core.Bool.{Bool, true, false, ◌&&◌, ◌||◌}
use mathlib.Core.List.{List, [], ◌∷◌, ◌++◌}
use mathlib.Core.Option.{Option, none, some}
use native.Mathlib.Omega.{arith}
use latte_code.Base.Tests.{if◌then◌else◌, Bool-cases}

module _ {ℓ} {A : Type ℓ} where
  abbrev pub length : List A → ℕ
  length [] = 0
  length (x ∷ xs) = suc (length xs)

  abbrev pub is_empty : List A → Bool
  is_empty [] = true
  is_empty (x ∷ xs) = false

  abbrev pub all : (A → Bool) → List A → Bool
  all p [] = true
  all p (x ∷ xs) = p x && all p xs

  abbrev pub any : (A → Bool) → List A → Bool
  any p [] = false
  any p (x ∷ xs) = p x || any p xs

  -- The first element that passes the test.
  abbrev pub find : (A → Bool) → List A → Option A
  find p [] = none
  find p (x ∷ xs) = if p x then some x else find p xs

  abbrev pub keep : (A → Bool) → List A → List A
  keep p [] = []
  keep p (x ∷ xs) = let rest = keep p xs in if p x then x ∷ rest else rest

  -- How many elements pass the test.
  abbrev pub count : (A → Bool) → List A → ℕ
  count p [] = 0
  count p (x ∷ xs) = if p x then suc (count p xs) else count p xs

abbrev pub All {ℓ κ} : {T : Type ℓ} (Q : T → Type κ) → List T → Type κ
All Q [] = Unit
All Q (y ∷ ys) = Q y × All Q ys

pub All-mono {ℓ κ μ} :
    {A : Type ℓ} (P : A → Type κ) (Q : A → Type μ)
    → ((a : A) → P a → Q a)
    → (xs : List A) → All P xs
    → All Q xs
All-mono P Q f [] h = tt
All-mono P Q f (x ∷ xs) h = (f x h.0, All-mono P Q f xs h.1)

pub All-append {ℓ κ} :
    {T : Type ℓ} (Q : T → Type κ) (front back : List T)
    → All Q front
    → All Q back
    → All Q (front ++ back)
All-append Q [] back before after = after
All-append Q (y ∷ front) back before after = (before.0, All-append Q front back before.1 after)

pub length-append {ℓ} : {A : Type ℓ} (xs ys : List A) → length (xs ++ ys) ≡ length xs + length ys
length-append [] ys = omega arith
length-append (x ∷ xs) ys = omega (arith, length-append xs ys)

pub append_assoc {ℓ} : {A : Type ℓ} (xs ys zs : List A) → (xs ++ ys) ++ zs ≡ xs ++ (ys ++ zs)
append_assoc [] ys zs = refl
append_assoc (x ∷ xs) ys zs = ap (λ l. x ∷ l) (append_assoc xs ys zs)

pub append-nil {ℓ} : {A : Type ℓ} (xs : List A) → xs ++ [] ≡ xs
append-nil [] = refl
append-nil (x ∷ xs) = ap (λ l. x ∷ l) (append-nil xs)

-- What holds of all elements holds of the one that is found.
pub All-find {ℓ κ} :
    {A : Type ℓ} (P : A → Type κ) (p : A → Bool) (xs : List A) {a : A}
    → All P xs
    → find p xs ≡ some a
    → P a
All-find P p [] h e = cc
All-find P p (x ∷ xs) {a} h e = elim (Bool-cases (p x)) [
  | inl hit ↦ let same : x ≡ a = ground arith in subst P same h.0
  | inr miss ↦ All-find P p xs h.1 (rw miss at e)
]

-- A sublist by a test keeps what holds of all elements.
pub All-keep {ℓ κ} :
    {A : Type ℓ} (P : A → Type κ) (p : A → Bool) (xs : List A) → All P xs → All P (keep p xs)
All-keep P p [] h = tt
All-keep P p (x ∷ xs) h = elim (Bool-cases (p x)) [
  | inl hit ↦ rw hit (h.0, All-keep P p xs h.1)
  | inr miss ↦ rw miss (All-keep P p xs h.1)
]

-- The second list has those elements of the first that the predicate holds of, in their order.
pub data Picks {A : Type 0} (Q : A → Type 0) : List A → List A → Type 0 where
  none_left : Picks Q [] []
  picked : {x : A} {xs ys : List A} → Q x → Picks Q xs ys → Picks Q (x ∷ xs) (x ∷ ys)
  passed : {x : A} {xs ys : List A} → ¬ Q x → Picks Q xs ys → Picks Q (x ∷ xs) ys

-- The test decides the predicate.
abbrev pub Decides : {A : Type 0} → (A → Bool) → (A → Type 0) → Type 0
Decides {A} t Q = ((x : A) → t x ≡ true → Q x) × ((x : A) → t x ≡ false → ¬ Q x)

pub keep-Picks :
    {A : Type 0} (t : A → Bool) (Q : A → Type 0)
    → Decides t Q
    → (xs : List A) → Picks Q xs (keep t xs)
keep-Picks t Q d [] = none_left
keep-Picks t Q d (x ∷ xs) = elim (Bool-cases (t x)) [
  | inl q ↦ rw q (picked (d.0 x q) (keep-Picks t Q d xs))
  | inr q ↦ rw q (passed (d.1 x q) (keep-Picks t Q d xs))
]

pub Picks-keep :
    {A : Type 0} (t : A → Bool) (Q : A → Type 0)
    → Decides t Q
    → {xs ys : List A} → Picks Q xs ys
    → ys ≡ keep t xs
Picks-keep t Q d none_left = refl
Picks-keep t Q d (picked {x = x} h k) = elim (Bool-cases (t x)) [
  | inl q ↦ rw q (ap (λ l. x ∷ l) (Picks-keep t Q d k))
  | inr q ↦ absurd (d.1 x q h)
]
Picks-keep t Q d (passed {x = x} h k) = elim (Bool-cases (t x)) [
  | inl q ↦ absurd (h (d.0 x q))
  | inr q ↦ rw q (Picks-keep t Q d k)
]
