-- ===== src/Orchestration/Budget.antt =====
-- orchestration/budget.rs: token budgets and their tracker.
use auto_ai.Common.{
  ℕ, zero, suc, ◌+◌, ◌-◌, ◌*◌, ◌/◌, ◌%◌, ◌^◌, String, [], Option, none, some, true, false, ◌&&◌,
  ◌||◌, ltb, leb, nat_beq, if◌then◌else◌, add64, string_eq,
}
use auto_ai.Common.HashMap
use auto_ai.Common.HashMap.{HashMap}

pub data BudgetStrategy : Type 0 where
  hard_stop escalate_model summarize_context skip_optional : BudgetStrategy

pub record TokenBudget : Type 0 where
  pub limit : ℕ  -- u64
  pub warning_at : ℕ  -- u64
  pub strategy : BudgetStrategy

-- `limit as f64 * 0.7` exactly: a double has 53 bits, and 0.7 is `seven_tenths` / 2 ^ 53.
abbrev seven_tenths : ℕ
seven_tenths = 6305039478318694

abbrev two_53 : ℕ
two_53 = 9007199254740992

-- The bits of `n` beyond 53, for `n` below 2 ^ (53 + fuel).
excess : ℕ → ℕ → ℕ
excess zero n = 0
excess (suc fuel) n = elim (ltb n two_53) [ true ↦ 0 | false ↦ suc (excess fuel (n / 2)) ]

-- `n` to the nearest multiple of `unit`, a tie to the even multiple.
round_to : ℕ → ℕ → ℕ
round_to unit n =
    if ltb unit (2 * (n % unit)) || (nat_beq (2 * (n % unit)) unit && nat_beq (n / unit % 2) 1)
    then (n / unit + 1) * unit
    else n / unit * unit

-- The nearest double of a natural number.
round_53 : ℕ → ℕ
unfolding excess round_to
round_53 n = round_to (2 ^ excess 128 n) n

-- `(limit as f64 * 0.7) as u64`
unfoldable pub warning_threshold : ℕ → ℕ
unfolding round_53
warning_threshold limit = round_53 (round_53 limit * seven_tenths) / two_53

unfoldable pub with_strategy : ℕ → BudgetStrategy → TokenBudget
unfolding warning_threshold
with_strategy limit strategy = record {
  limit = limit;
  warning_at = warning_threshold limit;
  strategy = strategy;
}

unfoldable pub new_budget : ℕ → TokenBudget
unfolding with_strategy
new_budget limit = with_strategy limit hard_stop

unfoldable pub default_budget : TokenBudget
unfolding new_budget
default_budget = new_budget 100000000

pub data BudgetAction : Type 0 where
  nothing : BudgetAction  -- `BudgetAction::None`
  warning : ℕ → BudgetAction  -- remaining
  limit_reached : BudgetAction

pub record BudgetTracker : Type 0 where
  pub run_budget : TokenBudget
  pub step_budgets : HashMap String TokenBudget
  pub cumulative : ℕ  -- u64
  pub per_step : HashMap String ℕ

unfoldable pub new_tracker : TokenBudget → BudgetTracker
new_tracker b = record { run_budget = b; step_budgets = []; cumulative = 0; per_step = [] }

unfoldable pub record_usage : BudgetTracker → String → ℕ → ℕ → BudgetTracker
record_usage t step input output =
    let total = add64 input output in
    record t {
      cumulative = add64 t.cumulative total;
      per_step = HashMap.modify step 0 (λ n. add64 n total) t.per_step;
    }

-- The two tests that `check` makes of one budget; `nothing` is the fall through.
against : TokenBudget → ℕ → BudgetAction
against b used =
    if leb b.limit used
    then limit_reached
    else if leb b.warning_at used
    then warning (b.limit - used)
    else nothing

or_else : BudgetAction → BudgetAction → BudgetAction
or_else nothing later = later
or_else (warning n) later = warning n
or_else limit_reached later = limit_reached

check_step : Option TokenBudget → ℕ → BudgetAction
unfolding against
check_step none used = nothing
check_step (some b) used = against b used

unfoldable pub check : BudgetTracker → String → BudgetAction
unfolding check_step or_else against
check t step =
    or_else (check_step (HashMap.get step t.step_budgets) (HashMap.get_or step 0 t.per_step))
      (against t.run_budget t.cumulative)

unfoldable pub set_step_budget : BudgetTracker → String → TokenBudget → BudgetTracker
set_step_budget t step b = record t { step_budgets = HashMap.insert step b t.step_budgets }
