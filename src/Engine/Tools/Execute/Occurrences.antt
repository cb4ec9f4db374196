-- ===== src/Engine/Tools/Execute/Occurrences.antt =====
-- Where a text occurs in another, and what the count of crates/latte-engine/src/tools.rs says of it.
use Prim.Native.Char.{Char, code}
use Prim.Native.String
use text.Mathlib.TextLemmas.{nil-append, cons-append}
use latte_code.Base.{
  suc, ◌+◌, ◌-◌, ◌≤◌, ◌<◌, ◌≡◌, ◌≢◌, refl, sym, ap, ◌∙◌, inl, inr, String, false, none, some, ◌==◌,
  nat_eq, string_eq, arith, leb, Bool-cases, Option-cases, ◌<>◌,
}
use latte_code.Engine.Tools.Execute.{strip_text, count_chars, matches}

-- The text is found after `front`.
abbrev pub Occurs : String → String → String → Type 0
Occurs p s front = (back : String) × (s ≡ front <> (p <> back))

-- Any occurrence begins at the end of `front` or inside the occurrence there.
abbrev pub OverlapsAll : String → String → String → Type 0
OverlapsAll p s front =
    (other : String)
    → Occurs p s other
    → (count_chars front ≤ count_chars other)
      × (count_chars other < count_chars front + count_chars p)

strip_text-append : (p back : String) → strip_text p (p <> back) ≡ some back
strip_text-append Prim.Native.String.[] back = ap some (nil-append back)
strip_text-append (Prim.Native.String.◌∷◌ a p) back =
    let same = (nat_eq.test_iff (code a) (code a)).1 refl in
    ap (strip_text (Prim.Native.String.◌∷◌ a p)) (cons-append a p back)
    ∙ rw same (strip_text-append p back)

tail : String → String
tail Prim.Native.String.[] = Prim.Native.String.[]
tail (Prim.Native.String.◌∷◌ a s) = s

pub tail_eq :
    {a b : Char} {s t : String} → Prim.Native.String.◌∷◌ a s ≡ Prim.Native.String.◌∷◌ b t → s ≡ t
unfolding tail
tail_eq h = ap tail h

-- Where the text occurs there is a match.
occurs-matches :
    (p front back : String) → (p == "") ≡ false → matches 0 p (front <> (p <> back)) ≢ 0
occurs-matches Prim.Native.String.[] Prim.Native.String.[] back filled h = cc
occurs-matches (Prim.Native.String.◌∷◌ a p) Prim.Native.String.[] back filled h =
    let q = Prim.Native.String.◌∷◌ a p in
    let at : q <> back ≡ Prim.Native.String.◌∷◌ a (p <> back) = cons-append a p back in
    let hit : strip_text q (Prim.Native.String.◌∷◌ a (p <> back)) ≡ some back =
      ap (strip_text q) (sym at) ∙ strip_text-append q back in
    let whole : matches 0 q (Prim.Native.String.◌∷◌ a (p <> back)) ≡ 0 =
      ap (matches 0 q) (sym at ∙ sym (nil-append (q <> back))) ∙ h in
    let bad : suc (matches (count_chars q - 1) q (p <> back)) ≡ 0 = rw (hit, matches) at whole in
    omega (arith, bad)
occurs-matches p (Prim.Native.String.◌∷◌ x front) back filled h =
    let s = front <> (p <> back) in
    let whole : matches 0 p (Prim.Native.String.◌∷◌ x s) ≡ 0 =
      ap (matches 0 p) (sym (cons-append x front (p <> back))) ∙ h in
    elim (Option-cases (strip_text p (Prim.Native.String.◌∷◌ x s))) [
      | inl e ↦ occurs-matches p front back filled (rw (e, matches) at whole)
      | inr (rest, e) ↦
          let bad : suc (matches (count_chars p - 1) p s) ≡ 0 = rw (e, matches) at whole in
          omega (arith, bad)
    ]

-- What stands behind a text that is not longer.
cut :
    (p rest front t : String)
    → p <> rest ≡ front <> t
    → count_chars p ≤ count_chars front
    → (later : String) × (rest ≡ later <> t)
      × (count_chars front ≡ count_chars p + count_chars later)
cut Prim.Native.String.[] rest front t h l = (front, sym (nil-append rest) ∙ h, omega arith)
cut (Prim.Native.String.◌∷◌ a p) rest Prim.Native.String.[] t h l = absurd (omega (arith, l))
cut (Prim.Native.String.◌∷◌ a p) rest (Prim.Native.String.◌∷◌ b front) t h l =
    let inner : p <> rest ≡ front <> t =
      tail_eq (sym (cons-append a p rest) ∙ h ∙ cons-append b front t) in
    let (later, same, long) = cut p rest front t inner (omega (arith, l)) in
    (later, same, omega (arith, long))

-- At the head: no occurrence begins behind it, if what follows has no match.
pub head-OverlapsAll :
    (p s rest : String)
    → (p == "") ≡ false
    → s ≡ p <> rest
    → matches 0 p rest ≡ 0
    → OverlapsAll p s ""
head-OverlapsAll p s rest filled whole none_more other (back, found) =
    elim (Bool-cases (leb (count_chars p) (count_chars other))) [
      | inl q ↦
          let long : count_chars p ≤ count_chars other = ground (arith, q) in
          let (later, same, size) = cut p rest other (p <> back) (sym whole ∙ found) long in
          absurd (occurs-matches p later back filled (ap (matches 0 p) (sym same) ∙ none_more))
      | inr q ↦ (omega arith, ground (arith, q))
    ]

-- Behind a character at which there is no match, the occurrences are those of the rest.
pub next-OverlapsAll :
    (p : String) (a : Char) (s front : String)
    → strip_text p (Prim.Native.String.◌∷◌ a s) ≡ none
    → OverlapsAll p s front
    → OverlapsAll p (Prim.Native.String.◌∷◌ a s) (Prim.Native.String.◌∷◌ a front)
next-OverlapsAll p a s front e u Prim.Native.String.[] (back, found) =
    let hit : strip_text p (Prim.Native.String.◌∷◌ a s) ≡ some back =
      ap (strip_text p) (found ∙ nil-append (p <> back)) ∙ strip_text-append p back in
    absurd (cc (e, hit))
next-OverlapsAll p a s front e u (Prim.Native.String.◌∷◌ b other) (back, found) =
    let (low, high) = u other (back, tail_eq (found ∙ cons-append b other (p <> back))) in
    (omega (arith, low), omega (arith, high))
