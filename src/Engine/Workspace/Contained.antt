-- ===== src/Engine/Workspace/Contained.antt =====
-- The paths that `WorkspacePath::read` and `mutation` of crates/latte-engine/src/workspace.rs give out.
use latte_code.Base.{
  ◌≡◌, ◌⊎◌, inl, inr, refl, sym, ap, ◌∙◌, subst, String, Bool, true, false, not, ◌&&◌, some, List,
  [], ◌∷◌, ◌++◌, Result, ok, err, guard, ok_or, ◌>>=◌, >>=-eq-ok, Bool-cases, ◌==◌, string_eq, any,
  keep, is_empty, All, eq_iff, if◌then◌else◌, arith,
}
use latte_code.Engine.Workspace.{
  IoError, current, not_found, other, PathError, Component, Files, segments, relative_components,
  is_absolute, is_skipped, is_plain, components, body, strip, starts_with, lexical, read,
  or_missing, walk, mutation, display, escape, symlink, missing, io,
}

-- A canonical path is spelled by its components alone.
abbrev pub IsRoot : List String → Type 0
IsRoot root = All (λ (r : String). is_skipped r ≡ false) root

-- The names that a text spells.
abbrev pub names : String → List String
names input = keep (λ (s : String). not (is_skipped s)) (segments input)

-- A path without the parent component.
abbrev pub IsDown : List String → Type 0
IsDown ss = All (λ (s : String). (s == "..") ≡ false) ss

pub strip-append : (root rest : List String) → IsRoot root → strip root (root ++ rest) ≡ some rest
strip-append [] rest h = refl
strip-append (r ∷ root) rest h = rw (h.0, (eq_iff r r).1 refl) (strip-append root rest h.1)

starts_with-append :
    (root path : List String)
    → starts_with path root ≡ true
    → (rest : List String) × (path ≡ root ++ rest)
starts_with-append [] path h = (path, refl)
starts_with-append (r ∷ root) [] h = cc
starts_with-append (r ∷ root) (p ∷ path) h = elim (Bool-cases (p == r)) [
  | inl e ↦
      let (rest, same) = starts_with-append root path (rw e at h) in
      (rest, ap (λ q. q ∷ path) ((eq_iff p r).0 e) ∙ ap (λ q. r ∷ q) same)
  | inr e ↦ absurd (ground (arith, e))
]

skipped-down : (s : String) → is_skipped s ≡ true → (s == "..") ≡ false
unfolding is_skipped
skipped-down s h = elim (Bool-cases (s == "")) [
  | inl e ↦ ap (λ t. t == "..") ((eq_iff s "").0 e)
  | inr e ↦ ap (λ t. t == "..") ((eq_iff s ".").0 (rw e at h))
]

body-IsDown :
    (ss : List String) → any (λ (p : Component). not (is_plain p)) (body ss) ≡ false → IsDown ss
body-IsDown [] h = tt
body-IsDown (s ∷ ss) h = elim (Bool-cases (is_skipped s)) [
  | inl e ↦ (skipped-down s e, body-IsDown ss (rw e at h))
  | inr e ↦ elim (Bool-cases (s == "..")) [
    | inl up ↦ let no : true ≡ false = rw (e, up) at h in absurd (ground (arith, no))
    | inr down ↦ (down, body-IsDown ss (rw (e, down) at h))
  ]
]

other_branch :
    (b : Bool) (xs ys : List Component)
    → b ≡ false
    → any (λ (p : Component). not (is_plain p)) (if b then xs else ys) ≡ false
    → any (λ (p : Component). not (is_plain p)) ys ≡ false
other_branch true xs ys e h = cc
other_branch false xs ys e h = h

relative-IsDown :
    (input : String)
    → is_absolute input ≡ false
    → any (λ (p : Component). not (is_plain p)) (components input) ≡ false
    → IsDown (segments input)
unfolding components
relative-IsDown input relative h = leading (segments input) (rw relative at h)
  where
    leading :
        (ss : List String)
        → any (λ (p : Component). not (is_plain p)) (relative_components ss) ≡ false
        → IsDown ss
    leading [] h = tt
    leading (s ∷ ss) h = elim (Bool-cases (s == ".")) [
      | inl e ↦ (ap (λ t. t == "..") ((eq_iff s ".").0 e), body-IsDown ss (rw e at h))
      | inr e ↦
          body-IsDown (s ∷ ss) (other_branch (s == ".") (current ∷ body ss) (body (s ∷ ss)) e h)
    ]

-- What is accepted is a relative path without the parent component, and stands below the root.
pub lexical-IsDown :
    (root : List String) (input : String) {path : List String}
    → lexical root input ≡ ok path
    → (path ≡ root ++ segments input) × (is_absolute input ≡ false) × IsDown (segments input)
unfolding lexical
lexical-IsDown root input {path} h = elim (Bool-cases (is_absolute input)) [
  | inl absolute ↦ absurd (ground (arith, absolute))
  | inr relative ↦ (
    ground (arith, relative),
    relative,
    relative-IsDown input relative (ground (arith, relative)),
  )
]

module _ (root : List String) (fs : Files) where
  -- A path that is given out for reading is the canonical form of a path below the root without the
  -- parent component, and is below the root itself.
  pub read-IsBelow :
      (input : String) {path : List String}
      → read root fs input ≡ ok path
      → (rest : List String) × (path ≡ root ++ rest)
        × (fs.canonicalize (root ++ segments input) ≡ ok path)
        × IsDown (segments input)
  unfolding read
  read-IsBelow input {path} h =
      let (given, accepted, after) = >>=-eq-ok (lexical root input) _ h in
      let (at, _, down) = lexical-IsDown root input accepted in
      let (found, canonical, last) =
        >>=-eq-ok (or_missing root fs input (fs.canonicalize given)) _ after in
      let (done, below, same) = >>=-eq-ok (guard (starts_with found root) escape) _ last in
      let (rest, under) = starts_with-append root found (ground (arith, below)) in
      let out : found ≡ path = ground (arith, same) in
      (
        rest,
        subst (λ p. p ≡ root ++ rest) out under,
        subst (λ q. fs.canonicalize q ≡ ok path) at
            (subst (λ p. fs.canonicalize given ≡ ok p) out
              (exact (fs.canonicalize given) canonical)),
        down,
      )
    where
      exact :
          (r : Result (List String) IoError) {q : List String}
          → or_missing root fs input r ≡ ok q
          → r ≡ ok q
      exact (ok p) e = ground arith
      exact (err not_found) e = cc
      exact (err other) e = cc

  -- Between the cursor and the target there is no symbolic link; only the last name can be missing, and
  -- only where that is allowed.
  abbrev pub IsSolid : Bool → List String → List String → Type 0
  IsSolid allow cursor [] = Unit
  IsSolid allow cursor (part ∷ parts) =
      ((fs.symlink_metadata (cursor ++ part ∷ []) ≡ ok false)
        ⊎ ((fs.symlink_metadata (cursor ++ part ∷ []) ≡ err not_found)
            × (allow ≡ true)
            × (parts ≡ [])))
      × IsSolid allow (cursor ++ part ∷ []) parts

  walk-IsSolid :
      (input : String) (allow : Bool) (cursor parts : List String)
      → walk root fs input allow cursor parts ≡ ok tt
      → IsSolid allow cursor parts
  unfolding walk
  walk-IsSolid input allow cursor [] h = tt
  walk-IsSolid input allow cursor (part ∷ parts) h =
      seen (λ w. walk-IsSolid input allow (cursor ++ part ∷ []) parts w) (fs.symlink_metadata next)
        refl
    where
      empty : (ps : List String) → is_empty ps ≡ true → ps ≡ []
      empty [] h = refl
      empty (p ∷ ps) h = cc

      refuse : String → Result (Unit {0}) PathError
      refuse shown = err (symlink shown)

      next : List String
      next = cursor ++ part ∷ []

      seen :
          (walk root fs input allow next parts ≡ ok tt → IsSolid allow next parts)
          → (r : Result Bool IoError) → fs.symlink_metadata next ≡ r
          → IsSolid allow cursor (part ∷ parts)
      seen deeper (ok true) e =
          let refused : (display root input >>= λ shown. refuse shown) ≡ ok tt =
            rw (e, walk) at h in
          let (shown, displayed, bad) = >>=-eq-ok (display root input) _ refused in cc
      seen deeper (ok false) e = (inl e, deeper (rw (e, walk) at h))
      seen deeper (err other) e = let no : err (io other) ≡ ok tt = rw (e, walk) at h in cc
      seen deeper (err not_found) e = elim (Bool-cases (allow && is_empty parts)) [
        | inr stays ↦ let no : err (missing next) ≡ ok tt = rw (e, stays, walk) at h in cc
        | inl last ↦ (
          inr (e, ground (arith, last), empty parts (ground (arith, last))),
          deeper (rw (e, last, walk) at h),
        )
      ]

  -- For a canonical root, an accepted mutation stands below the root without a parent component; every
  -- name on the way is there and no symbolic link, except that the last may be missing where that is
  -- allowed.
  pub mutation-IsContained :
      (input : String) (allow : Bool) {target : List String}
      → IsRoot root
      → mutation root fs input allow ≡ ok target
      → (target ≡ root ++ segments input)
        × IsDown (segments input)
        × IsSolid allow root (names input)
  unfolding mutation
  mutation-IsContained input allow {target} canonical h =
      let (given, accepted, after) = >>=-eq-ok (lexical root input) _ h in
      let (at, _, down) = lexical-IsDown root input accepted in
      let (relative, stripped, last) = >>=-eq-ok (ok_or (strip root given) escape) _ after in
      let (done, walked, same) =
        >>=-eq-ok
          (walk root fs input allow root (keep (λ (s : String). not (is_skipped s)) relative)) _
          last in
      let whole : segments input ≡ relative =
        ground (arith, strip-append root (segments input) canonical, at, stripped) in
      (
        ground (arith, same, at),
        down,
        subst (λ r. IsSolid allow root (keep (λ (s : String). not (is_skipped s)) r)) (sym whole)
            (walk-IsSolid input allow root _ walked),
      )
