-- ===== src/Orchestration/Pipeline/Potential.antt =====
-- How much an engine still has to do: the loop iterations left to its steps, and the steps ahead.
use auto_ai.Common.{
  ℕ, zero, suc, ◌+◌, ◌-◌, ◌*◌, ◌≤◌, ◌<◌, ◌≡◌, ap, ◌∙◌, String, List, [], ◌∷◌, some, arith, length,
  get_elem?, string_eq, ◌==◌, if◌then◌else◌, Bool-cases, beq-true_self, eq_of_beq, inl, inr,
}
use auto_ai.Common.HashMap
use auto_ai.Common.HashMap.{HashMap, get-insert}
use auto_ai.Orchestration.Flow.{FlowStep, FlowSpec, ExitRouting, next, loop}
use auto_ai.Orchestration.Pipeline.{PipelineEngine}

-- The iterations that a step's loop still has.
abbrev pub left : ExitRouting → ℕ → ℕ
left next count = 0
left (loop target max) count = max - count

abbrev pub allowance : HashMap String ℕ → FlowStep → ℕ
allowance counters s = left s.exit (HashMap.get_or s.id 0 counters)

abbrev pub allowances : HashMap String ℕ → List FlowStep → ℕ
allowances counters [] = 0
allowances counters (s ∷ steps) = allowance counters s + allowances counters steps

abbrev pub potential_of : HashMap String ℕ → FlowSpec → ℕ → ℕ
potential_of counters flow current =
    allowances counters flow.steps * suc (length flow.steps) + (length flow.steps - current)

abbrev pub potential : PipelineEngine → ℕ
potential e = potential_of e.loop_counters e.flow e.current_step

-- The next step is one nearer to the end.
pub potential-next :
    (counters : HashMap String ℕ) (flow : FlowSpec) (current : ℕ)
    → current < length flow.steps
    → potential_of counters flow (current + 1) < potential_of counters flow current
potential-next counters flow current h = omega arith

-- A loop iteration pays for the whole way back.
pub potential-loop :
    (counters counters' : HashMap String ℕ) (flow : FlowSpec) (current i : ℕ)
    → allowances counters' flow.steps < allowances counters flow.steps
    → current < length flow.steps
    → potential_of counters' flow i < potential_of counters flow current
potential-loop counters counters' flow current i h inside = grind arith

left_mono : (x : ExitRouting) (a b : ℕ) → a ≤ b → left x b ≤ left x a
left_mono next a b h = omega arith
left_mono (loop target max) a b h = omega arith

module _ (counters : HashMap String ℕ) (id : String) where
  -- The counters after one more iteration of `id`.
  abbrev more : HashMap String ℕ
  more = HashMap.insert id (HashMap.get_or id 0 counters + 1) counters

  get_or-more :
      (j : String)
      → HashMap.get_or j 0 more
        ≡ (if id == j then HashMap.get_or id 0 counters + 1 else HashMap.get_or j 0 counters)
  get_or-more j = rw (get-insert id j _ counters) (ground arith)

  pub get_or-more_self_or :
      (j : String) (bound : ℕ)
      → HashMap.get_or j 0 counters < bound
      → HashMap.get_or id 0 counters + 1 < bound
      → HashMap.get_or j 0 more < bound
  get_or-more_self_or j bound h k = rw (get_or-more j) (ground arith)

  get_or-le-more : (j : String) → HashMap.get_or j 0 counters ≤ HashMap.get_or j 0 more
  get_or-le-more j = elim (Bool-cases (id == j)) [
    | inl same ↦
        rw (get_or-more j, same)
          (omega (arith, ap (λ k. HashMap.get_or k 0 counters) (eq_of_beq id j same)))
    | inr other ↦ rw (get_or-more j, other) (omega arith)
  ]

  get_or-more_self : HashMap.get_or id 0 more ≡ HashMap.get_or id 0 counters + 1
  get_or-more_self = rw (get_or-more id, beq-true_self id)

  -- The allowance of a step with this id, read off its loop.
  allowance_at :
      (m : HashMap String ℕ) (s : FlowStep) (target : String) (max : ℕ)
      → s.id ≡ id
      → s.exit ≡ loop target max
      → allowance m s ≡ max - HashMap.get_or id 0 m
  allowance_at m s target max same x = cc

  allowance-more-le : (s : FlowStep) → allowance more s ≤ allowance counters s
  allowance-more-le s = left_mono s.exit _ _ (get_or-le-more s.id)

  allowances-more-le : (steps : List FlowStep) → allowances more steps ≤ allowances counters steps
  allowances-more-le [] = omega arith
  allowances-more-le (s ∷ steps) = omega (arith, allowance-more-le s, allowances-more-le steps)

  -- An iteration below the maximum of a step of this id uses some of the allowance up.
  pub allowances-more-lt :
      (steps : List FlowStep) (i : ℕ) (s : FlowStep) (target : String) (max : ℕ)
      → get_elem? steps i ≡ some s
      → s.id ≡ id
      → s.exit ≡ loop target max
      → HashMap.get_or id 0 counters + 1 < max
      → allowances more steps < allowances counters steps
  allowances-more-lt [] i s target max at same x h = cc
  allowances-more-lt (t ∷ steps) zero s target max at same x h =
      let t-s : t ≡ s = ground arith in
      let t-id : t.id ≡ id = ap (λ u. u.id) t-s ∙ same in
      let t-exit : t.exit ≡ loop target max = ap (λ u. u.exit) t-s ∙ x in
      omega (
        arith,
        allowance_at more t target max t-id t-exit,
        allowance_at counters t target max t-id t-exit,
        get_or-more_self,
        allowances-more-le steps,
      )
  allowances-more-lt (t ∷ steps) (suc i) s target max at same x h =
      omega (arith, allowance-more-le t, allowances-more-lt steps i s target max at same x h)
