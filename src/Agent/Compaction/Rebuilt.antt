-- ===== src/Agent/Compaction/Rebuilt.antt =====
-- The memory that compaction builds.
use auto_ai.Common.{
  suc, [], ◌∷◌, none, some, true, false, inl, inr, refl, ◌++◌, ◌∙◌, sym, ap, subst, string_eq,
  append_assoc, append-nil, ◌≤◌, List, find, ◌≡◌, ◌==◌, arith, filter, Option, ℕ, Bool-cases,
  String, filter-append,
}
use auto_ai.Agent.Memory.{
  Memory, non_system_count, non_system, add_message, add, is_system, starts_with_assistant,
  new_memory,
}
use auto_ai.Agent.Memory.Room.{
  Room, add_message-Room, Room-le, find-append, count-append, trim-Room, Room-zero,
}
use auto_ai.Agent.Compaction.{Json, Message}
use auto_ai.Agent.Compaction.Compact.{add_all, add_systems, rebuild, summary_anchor, add_if_system}
use auto_ai.Agent.Memory.History.{limit-add_message, messages-add_message}
use auto_ai.Config.Wire.{user}

module _ (json : Json) where
  add_all-Room :
      (ms : List (Message json.Value)) (u : Message json.Value) (mem : Memory json.Value)
      → Room mem.limit (non_system_count (mem.messages ++ ms))
      → find non_system mem.messages ≡ some u
      → (u.role == "assistant") ≡ false
      → (add_all json ms mem).messages ≡ mem.messages ++ ms
  unfolding add_all
  add_all-Room [] u mem r h q = sym (append-nil mem.messages)
  add_all-Room (m ∷ ms) u mem r h q =
      add_all-Room ms u (add_message m mem)
        (subst (λ limit. Room limit (non_system_count ((add_message m mem).messages ++ ms)))
          (sym (limit-add_message m mem))
          (subst (λ xs. Room mem.limit (non_system_count xs)) (sym regrouped) r))
        (ap (find non_system) added ∙ find-append mem.messages (m ∷ []) u h) q
      ∙ regrouped
    where
      fewer : non_system_count (mem.messages ++ m ∷ []) ≤ non_system_count (mem.messages ++ m ∷ ms)
      fewer = omega (
        arith,
        count-append mem.messages (m ∷ []),
        count-append mem.messages (m ∷ ms),
        count-append (m ∷ []) ms,
      )

      added : (add_message m mem).messages ≡ mem.messages ++ m ∷ []
      added =
          add_message-Room m u mem
            (Room-le mem.limit (non_system_count (mem.messages ++ m ∷ []))
              (non_system_count (mem.messages ++ m ∷ ms)) fewer r)
            (find-append mem.messages (m ∷ []) u h) q

      regrouped : (add_message m mem).messages ++ ms ≡ mem.messages ++ m ∷ ms
      regrouped = ap (λ xs. xs ++ ms) added ∙ append_assoc mem.messages (m ∷ []) ms

  find-count :
      (ms : List (Message json.Value)) → non_system_count ms ≤ 0 → find non_system ms ≡ none
  find-count [] h = refl
  find-count (m ∷ ms) h = ground (arith, find-count ms)

  add_system :
      (m : Message json.Value) (mem : Memory json.Value)
      → (m.role == "system") ≡ true
      → non_system_count mem.messages ≤ 0
      → ((add_message m mem).messages ≡ mem.messages ++ m ∷ [])
        × (non_system_count (mem.messages ++ m ∷ []) ≤ 0)
  add_system m mem is_sys h =
      let none_left : non_system_count (mem.messages ++ m ∷ []) ≤ 0 =
        omega (arith, count-append mem.messages (m ∷ []), alone) in
      (
        messages-add_message m mem
            ∙ trim-Room mem.limit (mem.messages ++ m ∷ [])
                (Room-le mem.limit (non_system_count (mem.messages ++ m ∷ [])) 0 none_left
                  (Room-zero mem.limit))
                (ap starts_with_assistant (find-count (mem.messages ++ m ∷ []) none_left)),
        none_left,
      )
    where
      alone : non_system_count (m ∷ []) ≤ 0
      alone = rw is_sys (omega arith)

  -- What an addition does that trims nothing.
  abbrev Extends : List (Message json.Value) → Memory json.Value → Memory json.Value → Type 0
  Extends ms old new =
      (new.messages ≡ old.messages ++ ms)
      × (new.limit ≡ old.limit)
      × (non_system_count new.messages ≤ 0)

  add_if_system-Extends :
      (m : Message json.Value) (mem : Memory json.Value)
      → non_system_count mem.messages ≤ 0
      → Extends (filter is_system (m ∷ [])) mem (add_if_system json m mem)
  add_if_system-Extends m mem h = elim (Bool-cases (m.role == "system")) [
    | inl is_sys ↦ rw is_sys (
        let (added, few) = add_system m mem is_sys h in
        (added, limit-add_message m mem, subst (λ xs. non_system_count xs ≤ 0) (sym added) few))
    | inr is_other ↦ rw is_other (sym (append-nil mem.messages), refl, h)
  ]

  add_systems-Extends :
      (ms : List (Message json.Value)) (mem : Memory json.Value)
      → non_system_count mem.messages ≤ 0
      → Extends (filter is_system ms) mem (add_systems json ms mem)
  unfolding add_systems
  add_systems-Extends [] mem h = (sym (append-nil mem.messages), refl, h)
  add_systems-Extends (m ∷ ms) mem h =
      let (added, same, few) = add_if_system-Extends m mem h in
      let (later, still, none_left) = add_systems-Extends ms (add_if_system json m mem) few in
      (
        later
            ∙ ap (λ xs. xs ++ filter is_system ms) added
            ∙ append_assoc mem.messages (filter is_system (m ∷ [])) (filter is_system ms)
            ∙ ap (λ xs. mem.messages ++ xs) (sym (filter-append is_system (m ∷ []) ms)),
        still ∙ same,
        none_left,
      )

  find-after_systems :
      (ms : List (Message json.Value)) (body : String)
      → non_system_count ms ≤ 0
      → find non_system (ms ++ user body ∷ []) ≡ some (user body)
  find-after_systems [] body h = refl
  find-after_systems (m ∷ ms) body h = ground (arith, find-after_systems ms body)

  add_all-user :
      (mem : Memory json.Value) (body : String) (tail : List (Message json.Value))
      → non_system_count mem.messages ≤ 0
      → Room mem.limit (suc (non_system_count tail))
      → (add_all json tail (add_message (user body) mem)).messages
        ≡ mem.messages ++ user body ∷ tail
  add_all-user mem body tail h r =
      add_all-Room tail (user body) (add_message (user body) mem)
        (subst
          (λ limit. Room limit (non_system_count ((add_message (user body) mem).messages ++ tail)))
          (sym (limit-add_message (user body) mem))
          (Room-le mem.limit (non_system_count ((add_message (user body) mem).messages ++ tail))
            (suc (non_system_count tail)) total r))
        (ap (find non_system) added ∙ find-after_systems mem.messages body h) refl
      ∙ regrouped
    where
      added : (add_message (user body) mem).messages ≡ mem.messages ++ user body ∷ []
      added =
          add_message-Room (user body) (user body) mem
            (Room-le mem.limit (non_system_count (mem.messages ++ user body ∷ []))
              (suc (non_system_count tail))
              (omega (arith, count-append mem.messages (user body ∷ []), h)) r)
            (find-after_systems mem.messages body h) refl

      regrouped : (add_message (user body) mem).messages ++ tail ≡ mem.messages ++ user body ∷ tail
      regrouped = ap (λ xs. xs ++ tail) added ∙ append_assoc mem.messages (user body ∷ []) tail

      total :
          non_system_count ((add_message (user body) mem).messages ++ tail)
          ≤ suc (non_system_count tail)
      total =
          subst (λ xs. non_system_count xs ≤ suc (non_system_count tail)) (sym regrouped)
            (omega (arith, count-append mem.messages (user body ∷ tail), h))

  pub rebuild-Room :
      (limit : Option ℕ) (prefix tail : List (Message json.Value)) (summary : String)
      → Room limit (suc (non_system_count tail))
      → (rebuild json limit prefix summary tail).messages
        ≡ filter is_system prefix ++ user (summary_anchor json summary) ∷ tail
  unfolding rebuild add
  rebuild-Room limit prefix tail summary r =
      let (systems, same, few) = add_systems-Extends prefix (new_memory limit) (omega arith) in
      add_all-user (add_systems json prefix (new_memory limit)) (summary_anchor json summary) tail
        few (subst (λ l. Room l (suc (non_system_count tail))) (sym same) r)
      ∙ ap (λ xs. xs ++ user (summary_anchor json summary) ∷ tail) systems
