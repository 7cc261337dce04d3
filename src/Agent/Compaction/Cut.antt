-- ===== src/Agent/Compaction/Cut.antt =====
-- The point at which a conversation is cut.
use auto_ai.Common.{
  min, zero, suc, some, true, false, inl, inr, refl, sym, ap, subst, ◌-◌, ◌+◌, ◌<◌, ◌≤◌, ◌⊎◌, List,
  ℕ, ◌≡◌, length, drop, arith, Bool-cases, get_elem?, ltb, Option-cases, leb, lt_of_get_elem?, ◌||◌,
  drop-length, leb→le, le-or_gt,
}
use auto_ai.Agent.Compaction.Walks.{
  sum_tokens-drop_le, tail_start-fits, forward-finds, backward-finds,
}
use auto_ai.Agent.Compaction.{
  Json, sum_tokens, backward, tail_start, forward, Message, boundary_at, checked, find_cut_point,
  cut_from,
}

module _ (json : Json) where
  -- What a cut is: inside the history, after its first two messages at the earliest, at a turn
  -- boundary; the tail fits the budget, or no turn boundary follows.
  abbrev pub IsCut : List (Message json.Value) → ℕ → ℕ → Type 0
  IsCut ms keep cut =
      (1 < cut)
      × (cut < length ms)
      × (boundary_at json ms cut ≡ true)
      × ((sum_tokens json (drop cut ms) ≤ keep)
          ⊎ ((j : ℕ) → cut < j → boundary_at json ms j ≡ false))

  abbrev CutFits : List (Message json.Value) → ℕ → ℕ → Type 0
  CutFits ms keep cut =
      (1 < cut → cut < length ms → (boundary_at json ms cut ≡ true))
      × ((sum_tokens json (drop cut ms) ≤ keep)
          ⊎ ((j : ℕ) → cut < j → boundary_at json ms j ≡ false))

  checked-IsCut :
      (ms : List (Message json.Value)) (keep c cut : ℕ)
      → CutFits ms keep c
      → checked json ms c ≡ some cut
      → IsCut ms keep cut
  checked-IsCut ms keep c cut h q = elim (Bool-cases (leb c 1 || leb (length ms) c)) [
    | inl out ↦ absurd (ground arith)
    | inr inside ↦
        subst (IsCut ms keep) (same inside)
          (ground arith, ground arith, h.0 (ground arith) (ground arith), h.1)
  ]
    where
      same : (leb c 1 || leb (length ms) c) ≡ false → c ≡ cut
      same inside = ground arith

  beyond : (ms : List (Message json.Value)) (j : ℕ) → length ms ≤ j → boundary_at json ms j ≡ false
  beyond ms j h = elim (Option-cases (get_elem? ms j)) [
    | inl e ↦ rw e refl
    | inr (m, e) ↦ absurd (omega (arith, lt_of_get_elem? ms j e))
  ]

  sum_tokens-after :
      (ms : List (Message json.Value)) (i j : ℕ)
      → i ≤ j
      → sum_tokens json (drop j ms) ≤ sum_tokens json (drop i ms)
  sum_tokens-after ms i j h =
      subst (λ k. sum_tokens json (drop k ms) ≤ sum_tokens json (drop i ms)) same
        (sum_tokens-drop_le json ms i (j - i))
    where
      same : (j - i) + i ≡ j
      same = omega arith

  -- No turn boundary follows the walk back, after a walk forward that found none.
  CutFits-backward :
      (ms : List (Message json.Value)) (keep s : ℕ)
      → length ms ≤ forward json ms (length ms - s) s
      → s ≤ length ms
      → CutFits ms keep (backward json ms (min s (length ms - 1)))
  CutFits-backward ms keep s none_ahead h =
      let start = min s (length ms - 1) in
      let (_, found, passed) = backward-finds json ms start in
      let (_, _, skipped) = forward-finds json ms (length ms - s) s (omega (arith, h)) in
      (
        λ low high. elim found [ inl small ↦ absurd (omega arith) | inr q ↦ q ],
        inr (λ j after. elim (le-or_gt j start) [
          | inl before ↦ passed j after before
          | inr later ↦ elim (le-or_gt (length ms) j) [
            | inl out ↦ beyond ms j out
            | inr inside ↦ skipped j (ground arith) (omega arith)
          ]
        ]),
      )

  CutFits-forward :
      (ms : List (Message json.Value)) (keep s : ℕ)
      → sum_tokens json (drop s ms) ≤ keep
      → s ≤ length ms
      → CutFits ms keep (forward json ms (length ms - s) s)
  CutFits-forward ms keep s fits h =
      let cut = forward json ms (length ms - s) s in
      let (later, found, _) = forward-finds json ms (length ms - s) s (omega (arith, h)) in
      (
        λ low high. elim found [ inl out ↦ absurd (omega arith) | inr q ↦ q ],
        inl (omega (arith, fits, sum_tokens-after ms s cut later)),
      )

  cut_from-IsCut :
      (ms : List (Message json.Value)) (keep s cut : ℕ)
      → s ≤ length ms
      → sum_tokens json (drop s ms) ≤ keep
      → cut_from json ms s ≡ some cut
      → IsCut ms keep cut
  cut_from-IsCut ms keep zero cut h fits q = cc
  cut_from-IsCut ms keep (suc s) cut h fits q =
      let ahead = forward json ms (length ms - suc s) (suc s) in
      elim (Bool-cases (leb (length ms) ahead)) [
        | inl out ↦
            checked-IsCut ms keep (backward json ms (min (suc s) (length ms - 1))) cut
              (CutFits-backward ms keep (suc s) (leb→le (length ms) ahead out) h) (cc)
        | inr inside ↦ checked-IsCut ms keep ahead cut (CutFits-forward ms keep (suc s) fits h) (cc)
      ]

  -- The cut that find_cut_point returns is one.
  pub find_cut_point-IsCut :
      (ms : List (Message json.Value)) (keep cut : ℕ)
      → find_cut_point json ms keep ≡ some cut
      → IsCut ms keep cut
  unfolding find_cut_point sum_tokens
  find_cut_point-IsCut ms keep cut h = elim (Bool-cases (ltb (length ms) 2)) [
    | inl short ↦ absurd (ground arith)
    | inr long ↦
        let (bound, fits) =
          tail_start-fits json ms keep (length ms) 0 (nothing_left ms) (omega arith) in
        cut_from-IsCut ms keep (tail_start json ms keep (length ms) 0) cut bound fits (is_long long)
  ]
    where
      nothing_left : (ms : List (Message json.Value)) → 0 ≡ sum_tokens json (drop (length ms) ms)
      nothing_left ms = ap (sum_tokens json) (sym (drop-length ms))

      is_long :
          ltb (length ms) 2 ≡ false
          → cut_from json ms (tail_start json ms keep (length ms) 0) ≡ some cut
      is_long long = ground arith
