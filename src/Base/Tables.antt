-- ===== src/Base/Tables.antt =====
-- SQL statements over a table, as functions on its list of rows: `UPDATE … WHERE`, `DELETE … WHERE`
-- and the number of rows that a statement changed.
use mathlib.Core.Bool.{Bool, true, false, not}
use mathlib.Core.List.{List, [], ◌∷◌, map}
use latte_code.Base.Tests.{if◌then◌else◌}
use latte_code.Base.Lists.{All, keep}

module _ {ℓ} {A : Type ℓ} where
  -- `UPDATE table SET … WHERE test`.
  abbrev pub update : (A → Bool) → (A → A) → List A → List A
  update p f = map λ x. if p x then f x else x

  -- `DELETE FROM table WHERE test`.
  abbrev pub delete : (A → Bool) → List A → List A
  delete p = keep λ x. not (p x)

  pub All-update {κ} :
      (P : A → Type κ) (p : A → Bool) (f : A → A)
      → ((a : A) → P a → P (f a))
      → (xs : List A) → All P xs
      → All P (update p f xs)
  All-update P p f h [] a = tt
  All-update P p f h (x ∷ xs) a = (step (p x), All-update P p f h xs a.1)
    where
      step : (b : Bool) → P (if b then f x else x)
      step true = h x a.0
      step false = a.0
