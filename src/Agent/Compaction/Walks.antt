-- ===== src/Agent/Compaction/Walks.antt =====
-- The walks over the history that find_cut_point takes.
use auto_ai.Common.{
  zero, suc, [], ◌∷◌, true, false, inl, inr, refl, sym, subst, ◌+◌, ◌<◌, ◌≤◌, ◌&&◌, not, ◌⊎◌, List,
  ℕ, ◌≡◌, length, drop, arith, Bool-cases, get_elem?, ltb, le-cases,
}
use auto_ai.Agent.Compaction.{
  Json, sum_tokens, backward, tail_start, forward, Message, boundary_at, tokens_at,
}

module _ (json : Json) where
  sum_tokens-drop-suc :
      (ms : List (Message json.Value)) (i : ℕ)
      → sum_tokens json (drop i ms)
        ≡ tokens_at json (get_elem? ms i) + sum_tokens json (drop (suc i) ms)
  unfolding sum_tokens
  sum_tokens-drop-suc [] zero = omega arith
  sum_tokens-drop-suc [] (suc i) = omega arith
  sum_tokens-drop-suc (m ∷ ms) zero = refl
  sum_tokens-drop-suc (m ∷ ms) (suc i) = sum_tokens-drop-suc ms i

  pub sum_tokens-drop_le :
      (ms : List (Message json.Value)) (i n : ℕ)
      → sum_tokens json (drop (n + i) ms) ≤ sum_tokens json (drop i ms)
  sum_tokens-drop_le ms i zero =
      subst (λ k. sum_tokens json (drop k ms) ≤ sum_tokens json (drop i ms)) same (omega arith)
    where
      same : i ≡ 0 + i
      same = omega arith
  sum_tokens-drop_le ms i (suc n) =
      subst (λ k. sum_tokens json (drop k ms) ≤ sum_tokens json (drop i ms)) same
        (omega (arith, sum_tokens-drop-suc ms (n + i), sum_tokens-drop_le ms i n))
    where
      same : suc (n + i) ≡ suc n + i
      same = omega arith

  -- The tail that is found fits the budget.
  pub tail_start-fits :
      (ms : List (Message json.Value)) (keep start acc : ℕ)
      → acc ≡ sum_tokens json (drop start ms)
      → acc ≤ keep
      → (tail_start json ms keep start acc ≤ start)
        × (sum_tokens json (drop (tail_start json ms keep start acc) ms) ≤ keep)
  unfolding tail_start
  tail_start-fits ms keep zero acc q h = (omega arith, omega (arith, q, h))
  tail_start-fits ms keep (suc start) acc q h =
      elim (Bool-cases (ltb keep (acc + tokens_at json (get_elem? ms start)))) [
        | inl over ↦ rw over (omega arith, omega (arith, q, h))
        | inr within ↦ rw within (
            let (bound, fits) =
              tail_start-fits ms keep start (acc + tokens_at json (get_elem? ms start))
                (omega (arith, q, sum_tokens-drop-suc ms start)) (ground arith) in
            (omega (arith, bound), fits))
      ]

  -- The walk forward ends at a turn boundary or at the end, and passes no boundary.
  pub forward-finds :
      (ms : List (Message json.Value)) (fuel cut : ℕ)
      → length ms ≤ cut + fuel
      → (cut ≤ forward json ms fuel cut)
        × ((length ms ≤ forward json ms fuel cut)
            ⊎ (boundary_at json ms (forward json ms fuel cut) ≡ true))
        × ((j : ℕ) → cut ≤ j → j < forward json ms fuel cut → boundary_at json ms j ≡ false)
  unfolding forward
  forward-finds ms zero cut h = (omega arith, inl (omega arith), λ j a b. absurd (omega arith))
  forward-finds ms (suc fuel) cut h =
      elim (Bool-cases (ltb cut (length ms) && not (boundary_at json ms cut))) [
        | inl walks ↦ rw walks (
            let (later, found, passed) = forward-finds ms fuel (suc cut) (omega arith) in
            (
              omega (arith, later),
              found,
              λ j a b. elim (le-cases cut j a) [
                | inl e ↦ subst (λ i. boundary_at json ms i ≡ false) e (ground arith)
                | inr after ↦ passed j after b
              ],
            ))
        | inr stops ↦ rw stops (omega arith, ground arith, λ j a b. absurd (omega arith))
      ]

  -- The walk back ends at a turn boundary or at the first two messages, and passes no boundary.
  pub backward-finds :
      (ms : List (Message json.Value)) (cut : ℕ)
      → (backward json ms cut ≤ cut)
        × ((backward json ms cut ≤ 1) ⊎ (boundary_at json ms (backward json ms cut) ≡ true))
        × ((j : ℕ) → backward json ms cut < j → j ≤ cut → boundary_at json ms j ≡ false)
  unfolding backward
  backward-finds ms zero = (omega arith, inl (omega arith), λ j a b. absurd (omega arith))
  backward-finds ms (suc cut) =
      elim (Bool-cases (ltb 1 (suc cut) && not (boundary_at json ms (suc cut)))) [
        | inl walks ↦ rw walks (
            let (earlier, found, passed) = backward-finds ms cut in
            (
              omega (arith, earlier),
              found,
              λ j a b. elim (le-cases j (suc cut) b) [
                | inl e ↦ subst (λ i. boundary_at json ms i ≡ false) (sym e) (ground arith)
                | inr before ↦ passed j a (omega arith)
              ],
            ))
        | inr stops ↦ rw stops (omega arith, ground arith, λ j a b. absurd (omega arith))
      ]
