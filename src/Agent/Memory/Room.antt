-- ===== src/Agent/Memory/Room.antt =====
-- Additions for which the window has room: nothing is trimmed.
use auto_ai.Common.{
  zero, suc, [], ◌∷◌, none, some, false, inl, inr, refl, ◌++◌, ◌∙◌, ap, string_eq, ◌+◌, ◌≤◌, ◌*◌,
  Option, List, ℕ, find, filter, arith, ◌≡◌, ◌==◌, length, filter-append, Bool-cases, length-append,
}
use auto_ai.Agent.Memory.Batch.{trim_loop-within}
use auto_ai.Agent.Memory.History.{messages-add_message}
use auto_ai.Config.Wire.{Message}
use auto_ai.Agent.Memory.{
  trim_to, Memory, insert_anchor, non_system_count, starts_with_assistant, non_system, is_system,
  add_message,
}

abbrev pub Room : Option ℕ → ℕ → Type 0
Room none n = Unit
Room (some l) n = n ≤ l * 2

pub Room-le : (limit : Option ℕ) (m n : ℕ) → m ≤ n → Room limit n → Room limit m
Room-le none m n h r = tt
Room-le (some l) m n h r = omega (arith, h, r)

pub Room-zero : (limit : Option ℕ) → Room limit 0
Room-zero none = tt
Room-zero (some l) = omega arith

module _ {J : Type 0} where
  filter-all_systems : (ms : List (Message J)) → non_system_count ms ≤ 0 → filter is_system ms ≡ ms
  filter-all_systems [] h = refl
  filter-all_systems (m ∷ ms) h = elim (Bool-cases (m.role == "system")) [
    | inl is_sys ↦ rw is_sys (ap (◌∷◌ m) (filter-all_systems ms (ground (arith, is_sys))))
    | inr is_other ↦ absurd (ground (arith, is_other))
  ]

  pub trim-Room :
      (limit : Option ℕ) (ms : List (Message J))
      → Room limit (non_system_count ms)
      → starts_with_assistant (find non_system ms) ≡ false
      → trim_to limit ms ≡ ms
  unfolding trim_to insert_anchor
  trim-Room none ms h q = refl
  trim-Room (some zero) ms h q = filter-all_systems ms h
  trim-Room (some (suc l)) ms h q = rw (trim_loop-within (length ms) (suc l * 2) ms h, q) refl

  pub find-append :
      (xs ys : List (Message J)) (u : Message J)
      → find non_system xs ≡ some u
      → find non_system (xs ++ ys) ≡ some u
  find-append [] ys u h = cc
  find-append (x ∷ xs) ys u h = ground (arith, find-append xs ys u)

  pub count-append :
      (xs ys : List (Message J))
      → non_system_count (xs ++ ys) ≡ non_system_count xs + non_system_count ys
  count-append xs ys =
      ap length (filter-append non_system xs ys)
      ∙ length-append (filter non_system xs) (filter non_system ys)

  pub add_message-Room :
      (m u : Message J) (mem : Memory J)
      → Room mem.limit (non_system_count (mem.messages ++ m ∷ []))
      → find non_system (mem.messages ++ m ∷ []) ≡ some u
      → (u.role == "assistant") ≡ false
      → (add_message m mem).messages ≡ mem.messages ++ m ∷ []
  add_message-Room m u mem r h q =
      messages-add_message m mem
      ∙ trim-Room mem.limit (mem.messages ++ m ∷ []) r (ap starts_with_assistant h ∙ q)
