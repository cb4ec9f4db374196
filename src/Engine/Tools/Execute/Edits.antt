-- ===== src/Engine/Tools/Execute/Edits.antt =====
-- What the edits and writes of crates/latte-engine/src/tools.rs do to the content of a file.
use Prim.Native.Char.{Char, code}
use Prim.Native.String
use text.Mathlib.TextLemmas.{nil-append, cons-append}
use text.Mathlib.TextEquality.{Char-path}
use latte_code.Base.{
  suc, ◌-◌, ◌≡◌, inl, inr, sym, ap, ◌∙◌, subst, String, Bool, false, Option, none, some, List,
  Result, ok, err, guard, >>=-eq-ok, Option-cases, Result-cases, Bool-cases, ◌==◌, nat_eq,
  string_eq, arith, ◌<>◌,
}
use latte_code.Engine.Workspace.{PathError, IoError, mutation}
use latte_code.Engine.Tools.{identity_changed, match_count, or_rejected}
use latte_code.Engine.Tools.Mutations.{System, FileIdentity, atomic_replace, or_io}
use latte_code.Engine.Tools.Execute.Occurrences.{
  OverlapsAll, tail_eq, head-OverlapsAll, next-OverlapsAll,
}
use latte_code.Engine.Tools.Execute.{
  strip_text, count_chars, matches, replace_first, or_failed, same_components, require_fresh,
  next_content, report, execute_edit,
}

strip_text-eq : (p s : String) {rest : String} → strip_text p s ≡ some rest → s ≡ p <> rest
strip_text-eq Prim.Native.String.[] s {rest} h = ground (arith, nil-append rest)
strip_text-eq (Prim.Native.String.◌∷◌ a p) Prim.Native.String.[] {rest} h = cc
strip_text-eq (Prim.Native.String.◌∷◌ a p) (Prim.Native.String.◌∷◌ b s) {rest} h =
    elim (Bool-cases (code a == code b)) [
      | inl e ↦
          let same : b ≡ a = sym (Char-path a b ((nat_eq.test_iff (code a) (code b)).0 e)) in
          ap (λ c. Prim.Native.String.◌∷◌ c s) same
          ∙ ap (λ t. Prim.Native.String.◌∷◌ a t) (strip_text-eq p s {rest = rest} (rw e at h))
          ∙ sym (cons-append a p rest)
      | inr e ↦ let bad : none ≡ some rest = rw e at h in cc
    ]

-- The characters of a match are passed over.
matches-skip : (p q rest : String) → matches (count_chars q) p (q <> rest) ≡ matches 0 p rest
matches-skip p Prim.Native.String.[] rest = ap (matches 0 p) (nil-append rest)
matches-skip p (Prim.Native.String.◌∷◌ a q) rest =
    ap (matches (suc (count_chars q)) p) (cons-append a q rest) ∙ matches-skip p q rest

-- What follows the first match.
matches-after :
    (p : String) (a : Char) (s rest : String)
    → (p == "") ≡ false
    → Prim.Native.String.◌∷◌ a s ≡ p <> rest
    → matches (count_chars p - 1) p s ≡ matches 0 p rest
matches-after Prim.Native.String.[] a s rest filled h = cc
matches-after (Prim.Native.String.◌∷◌ b q) a s rest filled h =
    let p = Prim.Native.String.◌∷◌ b q in
    let same : s ≡ q <> rest = tail_eq (h ∙ cons-append b q rest) in
    let skips : suc (count_chars q) - 1 ≡ count_chars q = omega arith in
    ap (λ k. matches k p s) skips ∙ ap (matches (count_chars q) p) same ∙ matches-skip p q rest

-- Where a text has exactly one match, counted from the left and without overlap, it is replaced; every
-- occurrence of the text overlaps it from behind, and no match follows it.
pub matches-one :
    (p r s : String)
    → (p == "") ≡ false
    → matches 0 p s ≡ 1
    → (front back : String) × (s ≡ front <> (p <> back))
      × (replace_first p r s ≡ front <> (r <> back))
      × (matches 0 p back ≡ 0)
      × OverlapsAll p s front
matches-one p r Prim.Native.String.[] filled h = absurd (ground (arith, h))
matches-one p r (Prim.Native.String.◌∷◌ a s) filled h =
    elim (Option-cases (strip_text p (Prim.Native.String.◌∷◌ a s))) [
      | inl e ↦
          let (front, back, whole, next, rest, alone) =
            matches-one p r s filled (rw (e, matches) at h) in
          (
            Prim.Native.String.◌∷◌ a front,
            back,
            ap (λ t. Prim.Native.String.◌∷◌ a t) whole ∙ sym (cons-append a front (p <> back)),
            rw (e, replace_first)
                (ap (λ t. Prim.Native.String.◌∷◌ a t) next ∙ sym (cons-append a front (r <> back))),
            rest,
            next-OverlapsAll p a s front e alone,
          )
      | inr (rest, e) ↦
          let whole : Prim.Native.String.◌∷◌ a s ≡ p <> rest =
            strip_text-eq p (Prim.Native.String.◌∷◌ a s) e in
          let once : suc (matches (count_chars p - 1) p s) ≡ 1 = rw (e, matches) at h in
          let none_more : matches (count_chars p - 1) p s ≡ 0 = omega (arith, once) in
          let last = sym (matches-after p a s rest filled whole) ∙ none_more in
          (
            Prim.Native.String.[],
            rest,
            whole ∙ sym (nil-append (p <> rest)),
            rw (e, replace_first) (sym (nil-append (r <> rest))),
            last,
            head-OverlapsAll p (Prim.Native.String.◌∷◌ a s) rest filled whole last,
          )
    ]

module _ (sys : System) (root : List String) where
  open sys use {State, identity, read_to_string}

  report-ok :
      (path : List String) (m : State × Result (Unit {0}) PathError) {st' : State}
      {id : FileIdentity}
      → report sys root path m ≡ (st', ok id)
      → (m ≡ (st', ok tt)) × (identity st' path ≡ ok id)
  report-ok path (st, err e) h = absurd (ground (arith, ap (λ r. r.1) h))
  report-ok path (st, ok done) {st'} {id} h =
      let same : st ≡ st' = ap (λ r. r.0) h in
      let found : or_rejected (or_io (identity st path)) ≡ ok id = ap (λ r. r.1) h in
      (
        ap (λ s. (s, ok tt)) same,
        subst (λ s. identity s path ≡ ok id) same (exact (identity st path) found),
      )
    where
      exact : (r : Result FileIdentity IoError) → or_rejected (or_io r) ≡ ok id → r ≡ ok id
      exact (ok i) e = ground arith
      exact (err x) e = cc

  -- An edit of a text that is not empty, where it succeeds, found the file as it was read before and one
  -- match of the text in it: every occurrence of the text is that match or begins inside it, and no match
  -- follows it. It put the replacement in the place of the match, replaced the file with this content,
  -- and reports the identity of the file afterwards.
  pub edit-IsExact :
      (supported : Bool) (temp : String) (st : State) (snapshot : Option FileIdentity)
      (target : String) (path : List String) (before after : String) (expected : Option String)
      {st' : State} {id : FileIdentity}
      → (before == "") ≡ false
      → execute_edit sys root supported temp st snapshot target path before after expected
        ≡ (st', ok id)
      → (front back : String) × (read_to_string st path ≡ ok (front <> (before <> back)))
        × OverlapsAll before (front <> (before <> back)) front
        × (matches 0 before back ≡ 0)
        × (require_fresh sys root st snapshot target path expected ≡ ok tt)
        × (atomic_replace sys root supported temp st target (front <> (after <> back)) false
            ≡ (st', ok tt))
        × (identity st' path ≡ ok id)
  unfolding execute_edit next_content
  edit-IsExact supported temp st snapshot target path before after expected {st'} {id} filled h =
      elim (Result-cases (next_content sys root st snapshot target path before after expected)) [
        | inl (e, refused) ↦
            let bad : (st, err e) ≡ (st', ok id) = rw (refused, execute_edit) at h in
            absurd (ground (arith, ap (λ r. r.1) bad))
        | inr (content, accepted) ↦
            let (checked, first, h1) =
              >>=-eq-ok (or_rejected (mutation root (sys.files st) target false)) _ accepted in
            let (same, second, h2) =
              >>=-eq-ok (guard (same_components sys root checked path) identity_changed) _ h1 in
            let (fresh, third, h3) =
              >>=-eq-ok (require_fresh sys root st snapshot target path expected) _ h2 in
            let (found, fourth, h4) = >>=-eq-ok (or_failed (read_to_string st path)) _ h3 in
            let (once, fifth, h5) =
              >>=-eq-ok (guard (matches 0 before found == 1) (match_count (matches 0 before found)))
                _ h4 in
            let count : matches 0 before found ≡ 1 =
              (nat_eq.test_iff (matches 0 before found) 1).0 (ground (arith, fifth)) in
            let (front, back, whole, next, rest, alone) =
              matches-one before after found filled count in
            let out : front <> (after <> back) ≡ content = sym next ∙ ground (arith, h5) in
            let (done, then_id) = report-ok path _ (rw (accepted, execute_edit) at h) in
            (
              front,
              back,
              text-ok (read_to_string st path) fourth ∙ ap ok whole,
              subst (λ t. OverlapsAll before t front) whole alone,
              rest,
              third,
              subst (λ t. atomic_replace sys root supported temp st target t false ≡ (st', ok tt))
                  (sym out) done,
              then_id,
            )
      ]
    where
      text-ok : (r : Result String IoError) {s : String} → or_failed r ≡ ok s → r ≡ ok s
      text-ok (ok i) e = ground arith
      text-ok (err x) e = cc
