-- ===== src/Agent/Memory/Window.antt =====
-- Trimming, and a window of the most recent messages.
use auto_ai.Agent.Memory.Trim.{
  without_oldest, drain_unit-position, position-none, unit_size, filter-without_oldest,
  filter-system-without_oldest, count-without_oldest,
}
use auto_ai.Common.{
  zero, suc, [], ◌∷◌, none, some, true, false, inl, inr, refl, sym, ap, subst, ◌∙◌, string_eq, List,
  Bool, ℕ, ◌≡◌, arith, if◌then◌else◌, ◌≤◌, ◌==◌, ◌+◌, ltb, Bool-cases, ◌<◌, Option-cases, position,
  ltb→lt, filter, find_of_position, find, drop, length, ◌*◌, drop-drop, drop-length,
  length-filter-le,
}
use auto_ai.Agent.Memory.{
  insert_anchor, trim_loop, Message, user, non_system_count, anchor_text, non_system,
  starts_with_assistant, trim_to, is_system,
}

module _ {J : Type 0} where
  -- A property that survives the loss of the oldest unit survives the loop.
  pub trim_loop-keeps :
      (P : List (Message J) → Type 0)
      → ((ms : List (Message J)) → P ms → P (without_oldest ms))
      → (fuel max_non_system : ℕ) (ms : List (Message J)) → P ms
      → P (trim_loop fuel max_non_system ms)
  unfolding trim_loop
  trim_loop-keeps P step zero max_non_system ms h = h
  trim_loop-keeps P step (suc fuel) max_non_system ms h =
      elim (Bool-cases (ltb max_non_system (non_system_count ms))) [
        | inl over ↦ rw over (elim (Option-cases (position non_system ms)) [
          | inl e ↦ rw e h
          | inr (i, e) ↦
              rw (e, drain_unit-position ms i e)
                (trim_loop-keeps P step fuel max_non_system (without_oldest ms) (step ms h))
        ])
        | inr within ↦ rw within h
      ]

  -- Fuel for every message that is no system message is enough.
  pub trim_loop-bounded :
      (fuel max_non_system : ℕ) (ms : List (Message J))
      → non_system_count ms ≤ fuel + max_non_system
      → non_system_count (trim_loop fuel max_non_system ms) ≤ max_non_system
  unfolding trim_loop
  trim_loop-bounded zero max_non_system ms h = omega (arith, h)
  trim_loop-bounded (suc fuel) max_non_system ms h =
      elim (Bool-cases (ltb max_non_system (non_system_count ms))) [
        | inl over ↦ rw over (elim (Option-cases (position non_system ms)) [
          | inl e ↦ rw e (omega (arith, position-none ms e))
          | inr (i, e) ↦
              rw (e, drain_unit-position ms i e)
                (trim_loop-bounded fuel max_non_system (without_oldest ms)
                  (omega (arith, count-without_oldest ms (positive over))))
        ])
        | inr within ↦ rw within (ground arith)
      ]
    where
      positive : ltb max_non_system (non_system_count ms) ≡ true → 0 < non_system_count ms
      positive over = omega (arith, ltb→lt max_non_system (non_system_count ms) over)

  -- The anchor by recursion on the list.
  abbrev pub anchor_unless : Bool → Message J → List (Message J) → List (Message J)
  anchor_unless true m ms = user anchor_text ∷ m ∷ ms
  anchor_unless false m ms = m ∷ ms

  abbrev pub anchored : List (Message J) → List (Message J)
  anchored [] = []
  anchored (m ∷ ms) =
      if m.role == "system" then m ∷ anchored ms else anchor_unless (m.role == "assistant") m ms

  pub insert_anchor-anchored : (ms : List (Message J)) → insert_anchor ms ≡ anchored ms
  unfolding insert_anchor
  insert_anchor-anchored [] = refl
  insert_anchor-anchored (m ∷ ms) = elim (Option-cases (position non_system ms)) [
    | inl e ↦ ground (arith, insert_anchor-anchored ms, find_of_position non_system ms e)
    | inr (i, e) ↦ ground (arith, insert_anchor-anchored ms, e)
  ]

  filter-system-anchored :
      (ms : List (Message J)) → filter is_system (anchored ms) ≡ filter is_system ms
  filter-system-anchored [] = refl
  filter-system-anchored (m ∷ ms) = ground (arith, filter-system-anchored ms)

  filter-anchored :
      (ms : List (Message J)) → filter non_system (anchored ms) ≡ anchored (filter non_system ms)
  filter-anchored [] = refl
  filter-anchored (m ∷ ms) = ground (arith, filter-anchored ms)

  first-anchored :
      (ms : List (Message J)) → starts_with_assistant (find non_system (anchored ms)) ≡ false
  first-anchored [] = refl
  first-anchored (m ∷ ms) = ground (arith, first-anchored ms)

  -- The window of `n` dropped messages: what is left of a list of messages.
  trim_loop-window :
      (fuel max_non_system : ℕ) (ms : List (Message J))
      → (n : ℕ) × (filter non_system (trim_loop fuel max_non_system ms)
          ≡ drop n (filter non_system ms))
  trim_loop-window fuel max_non_system ms =
      trim_loop-keeps (λ xs. (n : ℕ) × (filter non_system xs ≡ drop n (filter non_system ms))) later
        fuel max_non_system ms (0, refl)
    where
      later :
          (xs : List (Message J))
          → (n : ℕ) × (filter non_system xs ≡ drop n (filter non_system ms))
          → (n : ℕ) × (filter non_system (without_oldest xs) ≡ drop n (filter non_system ms))
      later xs (n, q) = (
        n + unit_size xs,
        filter-without_oldest xs
            ∙ ap (drop (unit_size xs)) q
            ∙ drop-drop (unit_size xs) n (filter non_system ms),
      )

  trim_loop-systems :
      (fuel max_non_system : ℕ) (ms : List (Message J))
      → filter is_system (trim_loop fuel max_non_system ms) ≡ filter is_system ms
  trim_loop-systems fuel max_non_system ms =
      trim_loop-keeps (λ xs. filter is_system xs ≡ filter is_system ms)
        (λ xs q. filter-system-without_oldest xs ∙ q) fuel max_non_system ms refl

  filter-system_twice :
      (ms : List (Message J)) → filter is_system (filter is_system ms) ≡ filter is_system ms
  filter-system_twice [] = refl
  filter-system_twice (m ∷ ms) = ground (arith, filter-system_twice ms)

  filter-non_system : (ms : List (Message J)) → filter non_system (filter is_system ms) ≡ []
  filter-non_system [] = refl
  filter-non_system (m ∷ ms) = ground (arith, filter-non_system ms)

  find-non_system : (ms : List (Message J)) → find non_system (filter is_system ms) ≡ none
  find-non_system [] = refl
  find-non_system (m ∷ ms) = ground (arith, find-non_system ms)

  -- With a limit `l`, trimming keeps every system message, in order; of the others it keeps the most
  -- recent, at most twice the limit, and puts the anchor before them when the first of them is an
  -- assistant's; so no history that is left starts with a message of an assistant.
  pub trim-window :
      (l : ℕ) (ms : List (Message J))
      → (n : ℕ) × (filter is_system (trim_to (some l) ms) ≡ filter is_system ms)
        × (filter non_system (trim_to (some l) ms) ≡ anchored (drop n (filter non_system ms)))
        × (length (drop n (filter non_system ms)) ≤ l * 2)
        × (starts_with_assistant (find non_system (trim_to (some l) ms)) ≡ false)
  unfolding trim_to
  trim-window zero ms =
      let others = filter non_system ms in
      (
        length others,
        filter-system_twice ms,
        filter-non_system ms ∙ ap anchored (sym (drop-length others)),
        subst (λ xs. length xs ≤ 0) (sym (drop-length others)) (omega arith),
        ap starts_with_assistant (find-non_system ms),
      )
  trim-window (suc l) ms =
      let kept = trim_loop (length ms) (suc l * 2) ms in
      let (n, q) = trim_loop-window (length ms) (suc l * 2) ms in
      rw (insert_anchor-anchored kept) (
        n,
        filter-system-anchored kept ∙ trim_loop-systems (length ms) (suc l * 2) ms,
        filter-anchored kept ∙ ap anchored q,
        subst (λ xs. length xs ≤ suc l * 2) q
            (trim_loop-bounded (length ms) (suc l * 2) ms
              (omega (arith, length-filter-le non_system ms))),
        first-anchored kept,
      )
