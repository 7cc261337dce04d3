-- ===== src/Agent/Memory/Batch.antt =====
-- A batch of tool results that outgrows the window while it is recorded.
use auto_ai.Common.{zero, suc, refl, string_eq, List, Bool, ℕ, ◌≡◌, ◌==◌, ◌≤◌, ltb-false}
use auto_ai.Config.Wire.{Message}
use auto_ai.Agent.Memory.{trim_loop, non_system_count, Memory}

module _ {J : Type 0} where
  abbrev pub is_user : Message J → Bool
  is_user m = m.role == "user"

  pub trim_loop-within :
      (fuel max_non_system : ℕ) (ms : List (Message J))
      → non_system_count ms ≤ max_non_system
      → trim_loop fuel max_non_system ms ≡ ms
  unfolding trim_loop
  trim_loop-within zero max_non_system ms h = refl
  trim_loop-within (suc fuel) max_non_system ms h =
      rw (ltb-false max_non_system (non_system_count ms) h) refl
