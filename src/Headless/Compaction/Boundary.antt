-- ===== src/Headless/Compaction/Boundary.antt =====
-- Which segments the proactive boundary of crates/latte-headless/src/session.rs keeps as they are.
use latte_code.Base.{
  ℕ, zero, suc, ◌+◌, ◌-◌, ◌≤◌, ◌<◌, ◌≡◌, refl, sym, ap, ◌∙◌, ◌⊎◌, subst, inl, inr, min, String,
  true, false, Option, none, some, List, [], ◌∷◌, ◌++◌, Result, ok, err, >>=-eq-ok, ◌==◌, nat_eq,
  ltb, length, append-nil, All, if◌then◌else◌, Bool-cases, u64_max, arith,
}
use latte_code.Headless.Request.{wire_bytes}
use latte_code.Headless.Request.Assembly.{HistorySegment}
use latte_code.Headless.Compaction.{
  reverse_onto, take, retain_bytes, retain_walk, proactive_retain_boundary,
}

reverse_onto-length {ℓ} :
    {A : Type ℓ} (xs acc : List A) → length (reverse_onto xs acc) ≡ length xs + length acc
reverse_onto-length [] acc = omega arith
reverse_onto-length (x ∷ xs) acc = omega (arith, reverse_onto-length xs (x ∷ acc))

reverse_onto-twice {ℓ} :
    {A : Type ℓ} (xs acc acc' : List A)
    → reverse_onto (reverse_onto xs acc) acc' ≡ reverse_onto acc (xs ++ acc')
reverse_onto-twice [] acc acc' = refl
reverse_onto-twice (x ∷ xs) acc acc' = reverse_onto-twice xs (x ∷ acc) acc'

take-length {ℓ} : {A : Type ℓ} (n : ℕ) (xs : List A) → n ≤ length xs → length (take n xs) ≡ n
take-length zero xs h = refl
take-length (suc n) [] h = absurd (omega (arith, h))
take-length (suc n) (x ∷ xs) h = ap suc (take-length n xs (omega (arith, h)))

module _ (P : Type 0) {Message : Type 0} (to_vec : List Message → Result (List ℕ) String) where
  -- The bytes of segments, each encoded on its own.
  pub data HasBytes : List (HistorySegment Message) → ℕ → Type 0 where
    nothing : (all : ℕ) → all ≡ 0 → HasBytes [] all
    one_more :
        (s : HistorySegment Message) (ss : List (HistorySegment Message)) (size total all : ℕ)
        → wire_bytes {P = P} to_vec s.messages ≡ ok size
        → HasBytes ss total
        → all ≡ total + size
        → HasBytes (s ∷ ss) all

  abbrev pub IsRaw : HistorySegment Message → Type 0
  IsRaw s = s.from_summary ≡ false

  -- The retained segments are raw, and within the allowance unless there is only one.
  pub record IsRetained (allowance : ℕ) (back : List (HistorySegment Message)) : Type 0 where
    pub raw : All IsRaw back
    pub total : ℕ
    pub counted : HasBytes back total
    pub bounded : (length back ≤ 1) ⊎ (total ≤ allowance)

  -- The walk stops at a summary, or where the next segment would exceed the allowance.
  abbrev pub Stops : ℕ → List (HistorySegment Message) → List (HistorySegment Message) → Type 0
  Stops allowance [] back = Unit
  Stops allowance (s ∷ older) back =
      (s.from_summary ≡ true)
      ⊎ ((size : ℕ) × (total : ℕ) × (wire_bytes {P = P} to_vec s.messages ≡ ok size)
          × HasBytes back total
          × (allowance < total + size))

  pub record Retained (allowance : ℕ) (all : List (HistorySegment Message)) (boundary : ℕ)
      : Type 0 where
    pub older : List (HistorySegment Message)
    pub back : List (HistorySegment Message)
    pub split : reverse_onto older back ≡ all
    pub counts : boundary ≡ length older
    pub retained : IsRetained allowance back
    pub stops : Stops allowance older back

  module _ (allowance : ℕ) (small : allowance < u64_max)
      (encoded : (ms : List Message) (size : ℕ)
        → wire_bytes {P = P} to_vec ms ≡ ok size
        → 0 < size) where
    alone :
        (s : HistorySegment Message) (back : List (HistorySegment Message)) (total : ℕ)
        → HasBytes back total
        → total ≡ 0
        → length (s ∷ back) ≤ 1
    alone s _ total (nothing _ e) z = omega arith
    alone s _ total (one_more t ss size rest _ e h sum) z =
        absurd (omega (arith, encoded t.messages size e, sum, z))

    retain_walk-Retained :
        (older back : List (HistorySegment Message)) (accumulated : ℕ) {b : ℕ}
        → All IsRaw back
        → HasBytes back accumulated
        → (length back ≤ 1) ⊎ (accumulated ≤ allowance)
        → retain_walk {P = P} to_vec allowance older accumulated (length older) ≡ ok b
        → Retained allowance (reverse_onto older back) b
    unfolding retain_walk
    retain_walk-Retained [] back accumulated raw bytes bound h = record {
      older = [];
      back = back;
      split = refl;
      counts = ground arith;
      retained = record { raw = raw; total = accumulated; counted = bytes; bounded = bound };
      stops = tt;
    }
    retain_walk-Retained (s ∷ older) back accumulated {b} raw bytes bound h =
        elim (Bool-cases s.from_summary) [
          | inl q ↦ record {
            older = s ∷ older;
            back = back;
            split = refl;
            counts = let out : ok (length older + 1) ≡ ok b = rw q at h in ground arith;
            retained = record { raw = raw; total = accumulated; counted = bytes; bounded = bound };
            stops = inl q;
          }
          | inr q ↦
              let (size, e, k) = >>=-eq-ok (wire_bytes {P = P} to_vec s.messages) _ (rw q at h) in
              elim (Bool-cases (accumulated == 0)) [
                | inl z ↦
                    let zero_left : accumulated ≡ 0 = ground (arith, z) in
                    retain_walk-Retained older (s ∷ back) size {b = b} (q, raw)
                      (one_more s back size accumulated size e bytes (omega (arith, zero_left)))
                      (inl (alone s back accumulated bytes zero_left)) (rw z at k)
                | inr z ↦ elim (Bool-cases (ltb allowance (min (accumulated + size) u64_max))) [
                  | inl over ↦ record {
                    older = s ∷ older;
                    back = back;
                    split = refl;
                    counts =
                        let out : ok (suc (length older)) ≡ ok b = rw (z, over) at k in
                        ground arith;
                    retained = record {
                      raw = raw;
                      total = accumulated;
                      counted = bytes;
                      bounded = bound;
                    };
                    stops = inr (size, accumulated, e, bytes, ground (arith, over, small));
                  }
                  | inr fits ↦
                      retain_walk-Retained older (s ∷ back) (accumulated + size) {b = b} (q, raw)
                        (one_more s back size accumulated (accumulated + size) e bytes refl)
                        (inr (ground (arith, fits, small))) (rw (z, fits) at k)
                ]
              ]
        ]

  -- `Some(0)` does not occur: no boundary means that nothing is left to summarize.
  abbrev pub boundary_of : Option ℕ → ℕ
  boundary_of none = 0
  boundary_of (some b) = b

  boundary_of-some : (b : ℕ) → boundary_of (if ltb 0 b then some b else none) ≡ b
  boundary_of-some b = ground arith

  -- Where every encoding has bytes, the proactive boundary splits the movable segments: those from it on
  -- are raw, together within the allowance unless there is at most one, and the next older segment, if
  -- any, is a summary or would exceed the allowance.
  pub boundary-Retained :
      ((ms : List Message) (size : ℕ) → wire_bytes {P = P} to_vec ms ≡ ok size → 0 < size)
      → (segments : List (HistorySegment Message)) (budget ratio immobile_tail : ℕ) {r : Option ℕ}
      → proactive_retain_boundary {P = P} to_vec segments budget ratio immobile_tail ≡ ok r
      → Retained
          (retain_bytes budget ratio)
          (take (length segments - immobile_tail) segments)
          (boundary_of r)
  unfolding proactive_retain_boundary
  boundary-Retained encoded segments budget ratio immobile_tail {r} h =
      let end = length segments - immobile_tail in
      let movable = take end segments in
      let walk =
        retain_walk {P = P} to_vec (retain_bytes budget ratio) (reverse_onto movable []) 0 in
      let (b, w, k) = >>=-eq-ok (walk end) _ h in
      let counted : end ≡ length (reverse_onto movable []) =
        omega (arith, reverse_onto-length movable [], take-length end segments (omega arith)) in
      let it : boundary_of r ≡ b =
        sym (ap (λ m. elim m [ ok o ↦ boundary_of o | err e ↦ 0 ]) k) ∙ boundary_of-some b in
      rw it (
        subst (λ all. Retained (retain_bytes budget ratio) all b)
          (reverse_onto-twice movable [] [] ∙ append-nil movable)
          (retain_walk-Retained (retain_bytes budget ratio) (omega arith) encoded
            (reverse_onto movable []) [] 0 {b = b} tt (nothing 0 refl) (inl (omega arith))
            (sym (ap walk counted) ∙ w)))
