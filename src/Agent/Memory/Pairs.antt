-- ===== src/Agent/Memory/Pairs.antt =====
-- Tool results and the requests they answer: what trimming does to a pair.
use auto_ai.Common.{
  zero, suc, [], ◌∷◌, none, some, true, false, refl, ap, string_eq, ◌&&◌, List, String, Option,
  ◌==◌, ◌≡◌, filter, Bool, ℕ, eq_of_beq, arith, if◌then◌else◌, all, any, length, ◌*◌,
}
use auto_ai.Config.Wire.{ContentBlock, Message}
use auto_ai.Agent.Memory.Trim.{without_oldest, drop_users}
use auto_ai.Agent.Memory.{trim_to, is_system, trim_loop}
use auto_ai.Agent.Memory.Window.{anchored, insert_anchor-anchored, trim_loop-keeps}

module _ {J : Type 0} where
  abbrev pub uses : List (ContentBlock J) → List String
  uses [] = []
  uses (ContentBlock.text _ ∷ blocks) = uses blocks
  uses (ContentBlock.tool_use id _ _ ∷ blocks) = id ∷ uses blocks
  uses (ContentBlock.tool_result _ _ _ ∷ blocks) = uses blocks

  abbrev pub results : List (ContentBlock J) → List String
  results [] = []
  results (ContentBlock.text _ ∷ blocks) = results blocks
  results (ContentBlock.tool_use _ _ _ ∷ blocks) = results blocks
  results (ContentBlock.tool_result id _ _ ∷ blocks) = id ∷ results blocks

  -- Does every result of the message answer a request among `ids`?
  abbrev pub answered : List String → Message J → Bool
  answered ids m =
      if m.role == "user" then all (λ x. any (λ id. id == x) ids) (results m.content) else true

  -- The requests that a result after the message may answer.
  abbrev pub next_ids : List String → Message J → List String
  next_ids ids m =
      if m.role == "assistant" then uses m.content else if m.role == "user" then ids else []

  -- Every tool result answers a request of the assistant's message before the run of the user's
  -- messages it stands in.
  abbrev pub answers : List String → List (Message J) → Bool
  answers ids [] = true
  answers ids (m ∷ ms) = answered ids m && answers (next_ids ids m) ms

  not_assistant_of_user :
      (m : Message J) → (m.role == "user") ≡ true → (m.role == "assistant") ≡ false
  not_assistant_of_user m h = ap (λ r. r == "assistant") (eq_of_beq m.role "user" h)

  not_user_of_system : (m : Message J) → (m.role == "system") ≡ true → (m.role == "user") ≡ false
  not_user_of_system m h = ap (λ r. r == "user") (eq_of_beq m.role "system" h)

  not_assistant_of_system :
      (m : Message J) → (m.role == "system") ≡ true → (m.role == "assistant") ≡ false
  not_assistant_of_system m h = ap (λ r. r == "assistant") (eq_of_beq m.role "system" h)

  answers-drop_users :
      (ids : List String) (ms : List (Message J))
      → answers ids ms ≡ true
      → answers [] (drop_users ms) ≡ true
  answers-drop_users ids [] h = refl
  answers-drop_users ids (m ∷ ms) h =
      ground (arith, not_assistant_of_user m, answers-drop_users ids ms)

  answers-without_oldest :
      (ms : List (Message J)) → answers [] ms ≡ true → answers [] (without_oldest ms) ≡ true
  answers-without_oldest [] h = refl
  answers-without_oldest (m ∷ ms) h = ground (
    arith,
    not_user_of_system m,
    not_assistant_of_system m,
    answers-drop_users (uses m.content) ms,
    answers-without_oldest ms,
  )

  answers-anchored :
      (ms : List (Message J)) → answers [] ms ≡ true → answers [] (anchored ms) ≡ true
  answers-anchored [] h = refl
  answers-anchored (m ∷ ms) h =
      ground (arith, not_user_of_system m, not_assistant_of_system m, answers-anchored ms)

  answers-system : (ms : List (Message J)) → answers [] (filter is_system ms) ≡ true
  answers-system [] = refl
  answers-system (m ∷ ms) =
      ground (arith, not_user_of_system m, not_assistant_of_system m, answers-system ms)

  -- Trimming never leaves a tool result without its request: where every result of a history answers
  -- a request, every result of the trimmed history does.
  pub trim-answers :
      (limit : Option ℕ) (ms : List (Message J))
      → answers [] ms ≡ true
      → answers [] (trim_to limit ms) ≡ true
  unfolding trim_to
  trim-answers none ms h = h
  trim-answers (some zero) ms h = answers-system ms
  trim-answers (some (suc l)) ms h =
      let kept = trim_loop (length ms) (suc l * 2) ms in
      rw (insert_anchor-anchored kept) (
        answers-anchored kept (
          trim_loop-keeps (λ xs. answers [] xs ≡ true) answers-without_oldest (length ms)
            (suc l * 2) ms h))
