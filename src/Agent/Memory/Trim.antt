-- ===== src/Agent/Memory/Trim.antt =====
-- Trimming by recursion on the list, and what it keeps: the system messages, the bound, the order.
use auto_ai.Common.{
  ℕ, suc, ◌≡◌, refl, sym, ap, List, [], ◌∷◌, some, true, false, ◌==◌, string_eq, if◌then◌else◌,
  drop, position, Bool-cases, Option-cases, inl, inr, arith, filter, none, eq_of_beq, ◌<◌,
  length-drop,
}
use auto_ai.Config.Wire.{Message}
use auto_ai.Agent.Memory.{non_system, user_run, drain_unit, run_after, non_system_count, is_system}

module _ {J : Type 0} where
  abbrev pub drop_users : List (Message J) → List (Message J)
  drop_users [] = []
  drop_users (m ∷ ms) = if m.role == "user" then drop_users ms else m ∷ ms

  abbrev pub after_unit : Message J → List (Message J) → List (Message J)
  after_unit m rest = if m.role == "assistant" then drop_users rest else rest

  -- What is left when the oldest unit goes.
  abbrev pub without_oldest : List (Message J) → List (Message J)
  without_oldest [] = []
  without_oldest (m ∷ ms) = if m.role == "system" then m ∷ without_oldest ms else after_unit m ms

  drop-user_run : (ms : List (Message J)) → drop (user_run ms) ms ≡ drop_users ms
  drop-user_run [] = refl
  drop-user_run (m ∷ ms) = ground (arith, drop-user_run ms)

  drain_unit-suc :
      (i : ℕ) (m : Message J) (ms : List (Message J))
      → drain_unit (suc i) (m ∷ ms) ≡ m ∷ drain_unit i ms
  unfolding drain_unit
  drain_unit-suc i m ms = refl

  drain_unit-zero :
      (m : Message J) (ms : List (Message J)) → drain_unit 0 (m ∷ ms) ≡ after_unit m ms
  unfolding drain_unit
  drain_unit-zero m ms = elim (Bool-cases (m.role == "assistant")) [
    | inl is_assistant ↦ rw (is_assistant, drop-user_run ms) refl
    | inr is_other ↦ rw is_other refl
  ]

  pub drain_unit-position :
      (ms : List (Message J)) (i : ℕ)
      → position non_system ms ≡ some i
      → drain_unit i ms ≡ without_oldest ms
  drain_unit-position [] i h = cc
  drain_unit-position (m ∷ ms) i h = elim (Bool-cases (m.role == "system")) [
    | inl is_sys ↦ elim (Option-cases (position non_system ms)) [
      | inl e ↦ absurd (ground arith)
      | inr (j, e) ↦
          rw (is_sys, sym (index_of is_sys e), drain_unit-suc j m ms)
            (ap (◌∷◌ m) (drain_unit-position ms j e))
    ]
    | inr is_other ↦ rw (is_other, sym (first_of is_other)) (drain_unit-zero m ms)
  ]
    where
      index_of : {j : ℕ} → (m.role == "system") ≡ true → position non_system ms ≡ some j → suc j ≡ i
      index_of a e = ground arith

      first_of : (m.role == "system") ≡ false → 0 ≡ i
      first_of a = ground arith

  pub system_of_user : (m : Message J) → (m.role == "user") ≡ true → (m.role == "system") ≡ false
  system_of_user m h = ap (λ r. r == "system") (eq_of_beq m.role "user" h)

  filter-system-drop_users :
      (ms : List (Message J)) → filter is_system (drop_users ms) ≡ filter is_system ms
  filter-system-drop_users [] = refl
  filter-system-drop_users (m ∷ ms) = ground (arith, system_of_user m, filter-system-drop_users ms)

  pub filter-system-without_oldest :
      (ms : List (Message J)) → filter is_system (without_oldest ms) ≡ filter is_system ms
  filter-system-without_oldest [] = refl
  filter-system-without_oldest (m ∷ ms) =
      ground (arith, filter-system-drop_users ms, filter-system-without_oldest ms)

  -- How many messages the oldest unit has.
  abbrev pub unit_size : List (Message J) → ℕ
  unit_size [] = 0
  unit_size (m ∷ ms) = if m.role == "system" then unit_size ms else suc (run_after (some m) ms)

  filter-drop_users :
      (ms : List (Message J))
      → filter non_system (drop_users ms) ≡ drop (user_run ms) (filter non_system ms)
  filter-drop_users [] = refl
  filter-drop_users (m ∷ ms) = ground (arith, system_of_user m, filter-drop_users ms)

  pub filter-without_oldest :
      (ms : List (Message J))
      → filter non_system (without_oldest ms) ≡ drop (unit_size ms) (filter non_system ms)
  filter-without_oldest [] = refl
  filter-without_oldest (m ∷ ms) = ground (arith, filter-drop_users ms, filter-without_oldest ms)

  unit_size-positive : (ms : List (Message J)) → 0 < non_system_count ms → 0 < unit_size ms
  unit_size-positive [] h = h
  unit_size-positive (m ∷ ms) h = ground (arith, unit_size-positive ms)

  pub count-without_oldest :
      (ms : List (Message J))
      → 0 < non_system_count ms
      → non_system_count (without_oldest ms) < non_system_count ms
  count-without_oldest ms h =
      rw (filter-without_oldest ms)
        (omega (arith, length-drop (unit_size ms) (filter non_system ms), unit_size-positive ms h))

  pub position-none :
      (ms : List (Message J)) → position non_system ms ≡ none → non_system_count ms ≡ 0
  position-none [] h = refl
  position-none (m ∷ ms) h = elim (Option-cases (position non_system ms)) [
    | inl e ↦ ground (arith, position-none ms)
    | inr (j, e) ↦ ground arith
  ]
