-- ===== src/Engine/Ledger/Leases/Rows.antt =====
-- The rows of `runtime_lease` in crates/latte-engine/src/storage.rs: distinct scopes and tokens, and
-- what writing one row does to them.
use latte_code.Base.{
  ℕ, ◌+◌, ◌≤◌, ◌≡◌, ◌≢◌, refl, sym, All-update, inl, inr, Bool, false, some, List, [], ◌∷◌, ◌==◌,
  any, keep, All, All-mono, All-find, All-keep, find, update, nat_eq, string_eq, eq_iff, arith,
  Bool-cases,
}
use latte_code.Engine.Ledger.{Database, Lease}
use latte_code.Engine.Ledger.Leases.{put}

-- Another row has another scope and another token.
abbrev pub Apart : Lease → Lease → Type 0
Apart x r = (r.scope ≢ x.scope) × (r.fencing_token ≢ x.fencing_token)

abbrev pub Separate : List Lease → Type 0
Separate [] = Unit
Separate (x ∷ xs) = All (Apart x) xs × Separate xs

abbrev pub Bounded : ℕ → List Lease → Type 0
Bounded n = All λ (r : Lease). r.fencing_token ≤ n

-- The rows have distinct scopes and distinct tokens, none above the counter.
pub record IsSound (db : Database) : Type 0 where
  pub separate : Separate db.leases
  pub bounded : Bounded db.last_token db.leases

module _ (lease : Lease) where
  abbrev pub same_scope : Lease → Bool
  same_scope r = r.scope == lease.scope

  update-absent :
      (rows : List Lease) → any same_scope rows ≡ false → update same_scope (λ r. lease) rows ≡ rows
  update-absent [] h = refl
  update-absent (r ∷ rs) h = ground (arith, update-absent rs)

  absent-Apart :
      (x : Lease) (rows : List Lease)
      → x.scope ≡ lease.scope
      → All (Apart x) rows
      → any same_scope rows ≡ false
  absent-Apart x [] e a = refl
  absent-Apart x (r ∷ rs) e a =
      ground (arith, a.0.0, eq_iff r.scope lease.scope, absent-Apart x rs e a.1)

  -- A row of another scope has another token than the lease.
  abbrev pub Fresh : Lease → Type 0
  Fresh r = r.scope ≢ lease.scope → r.fencing_token ≢ lease.fencing_token

  Apart-update :
      (x : Lease) (rows : List Lease)
      → x.scope ≢ lease.scope
      → Fresh x
      → All (Apart x) rows
      → All (Apart x) (update same_scope (λ r. lease) rows)
  Apart-update x [] n f a = tt
  Apart-update x (r ∷ rs) n f a = elim (Bool-cases (r.scope == lease.scope)) [
    | inl e ↦ rw e ((λ q. n (sym q), λ q. f n (sym q)), Apart-update x rs n f a.1)
    | inr e ↦ rw e (a.0, Apart-update x rs n f a.1)
  ]

  Apart-absent :
      (rows : List Lease) → any same_scope rows ≡ false → All Fresh rows → All (Apart lease) rows
  Apart-absent [] h f = tt
  Apart-absent (r ∷ rs) h f =
      let ne : r.scope ≢ lease.scope = λ e. ground (arith, eq_iff r.scope lease.scope) in
      ((ne, f.0 ne), Apart-absent rs (ground arith) f.1)

  Separate-update :
      (rows : List Lease)
      → All Fresh rows
      → Separate rows
      → Separate (update same_scope (λ r. lease) rows)
  Separate-update [] f s = tt
  Separate-update (x ∷ xs) f s = elim (Bool-cases (x.scope == lease.scope)) [
    | inl e ↦
        let absent : any same_scope xs ≡ false =
          absent-Apart x xs (ground (arith, eq_iff x.scope lease.scope)) s.0 in
        rw (e, update-absent xs absent) (Apart-absent xs absent f.1, s.1)
    | inr e ↦ rw e (
      Apart-update x xs (λ q. ground (arith, eq_iff x.scope lease.scope)) f.0 s.0,
      Separate-update xs f.1 s.1,
    )
  ]

  pub Separate-put :
      (rows : List Lease) → All Fresh rows → Separate rows → Separate (put lease rows)
  unfolding put
  Separate-put rows f s = elim (Bool-cases (any same_scope rows)) [
    | inl e ↦ rw (e, put) (Separate-update rows f s)
    | inr e ↦ rw (e, put) (Apart-absent rows e f, s)
  ]

  pub Bounded-put :
      (n : ℕ) (rows : List Lease)
      → lease.fencing_token ≤ n
      → Bounded n rows
      → Bounded n (put lease rows)
  unfolding put
  Bounded-put n rows h b = ground (
    arith,
    All-update (λ (r : Lease). r.fencing_token ≤ n) same_scope (λ r. lease) (λ r _. h) rows b,
  )

  -- A lease that takes the token of the row with its scope is fresh among the others.
  pub find-Fresh :
      (rows : List Lease) (held : Lease)
      → Separate rows
      → find same_scope rows ≡ some held
      → lease.fencing_token ≡ held.fencing_token
      → All Fresh rows
  find-Fresh [] held s e t = tt
  find-Fresh (x ∷ xs) held s e t = elim (Bool-cases (x.scope == lease.scope)) [
    | inl q ↦ (
      λ n. absurd (n (ground (arith, eq_iff x.scope lease.scope))),
      All-mono (Apart x) Fresh (λ r a n k. a.1 (ground (arith, q))) xs s.0,
    )
    | inr q ↦ (
      λ n k. ground (arith, (All-find (Apart x) same_scope xs {a = held} s.0 (ground arith)).1),
      find-Fresh xs held s.1 (ground arith) t,
    )
  ]

  -- So is a lease with a token above all others.
  pub new-Fresh :
      (n : ℕ) (rows : List Lease) → Bounded n rows → lease.fencing_token ≡ n + 1 → All Fresh rows
  new-Fresh n rows b t =
      All-mono (λ (r : Lease). r.fencing_token ≤ n) Fresh (λ r h k q. omega arith) rows b

-- Rows stay separate when a statement keeps their scopes and tokens, or drops some.
module _ (p : Lease → Bool) where
  pub Separate-keep : (rows : List Lease) → Separate rows → Separate (keep p rows)
  Separate-keep [] s = tt
  Separate-keep (x ∷ xs) s = ground (arith, All-keep (Apart x) p xs s.0, Separate-keep xs s.1)

  module _ (f : Lease → Lease)
      (same : (r : Lease) → ((f r).scope ≡ r.scope) × ((f r).fencing_token ≡ r.fencing_token)) where
    Apart-touch :
        (x y : Lease) (rows : List Lease)
        → y.scope ≡ x.scope
        → y.fencing_token ≡ x.fencing_token
        → All (Apart x) rows
        → All (Apart y) (update p f rows)
    Apart-touch x y [] e t a = tt
    Apart-touch x y (r ∷ rs) e t a =
        ground (arith, same r, a.0.0, a.0.1, Apart-touch x y rs e t a.1)

    pub Separate-touch : (rows : List Lease) → Separate rows → Separate (update p f rows)
    Separate-touch [] s = tt
    Separate-touch (x ∷ xs) s = elim (Bool-cases (p x)) [
      | inl e ↦ rw e (Apart-touch x (f x) xs (same x).0 (same x).1 s.0, Separate-touch xs s.1)
      | inr e ↦ rw e (Apart-touch x x xs refl refl s.0, Separate-touch xs s.1)
    ]
