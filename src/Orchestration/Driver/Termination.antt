-- ===== src/Orchestration/Driver/Termination.antt =====
-- The bound on the rounds of the driver's loop.
use auto_ai.Common.{ℕ, suc, ◌+◌, ◌*◌, List, [], ◌∷◌, length, string_eq}
use auto_ai.Common.HashMap
use auto_ai.Orchestration.Flow.{FlowSpec, FlowStep}
use auto_ai.Orchestration.Pipeline.Potential.{left}
use auto_ai.Orchestration.Driver.Loop.{Outcome, again, done, fault, crash}

-- The loop has returned: it neither panicked nor ran out of rounds.
abbrev pub Returns : Outcome → Type 0
Returns (again s) = ⊥
Returns (done s) = Unit {0}
Returns (fault s e) = Unit {0}
Returns crash = ⊥

-- The maxima of a flow's loops together, and rounds that are enough for it.
abbrev pub iterations : List FlowStep → ℕ
iterations [] = 0
iterations (s ∷ steps) = left s.exit 0 + iterations steps

abbrev pub enough_rounds : FlowSpec → ℕ
enough_rounds flow = 2 * (iterations flow.steps * suc (length flow.steps) + length flow.steps) + 2
