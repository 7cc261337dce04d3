-- ===== src/Agent/Memory.antt =====
-- memory.rs: the bounded history of a conversation.
pub mod Trim
pub mod Window
pub mod History
pub mod Pairs
pub mod Batch
pub mod Room
use auto_ai.Common.{
  ℕ, zero, suc, ◌+◌, ◌*◌, String, List, [], ◌∷◌, ◌++◌, Option, none, some, Bool, true, false, not,
  ◌==◌, string_eq, ltb, if◌then◌else◌, unwrap_or, length, get_elem?, take, drop, position, find,
  filter,
}
use auto_ai.Config.Wire.{Message, user, assistant, system}

pub record Memory (J : Type 0) : Type 0 where
  pub messages : List (Message J)
  pub limit : Option ℕ

abbrev pub anchor_text : String
anchor_text = "（更早的对话历史因上下文限制被裁剪，请基于现有上下文继续。）"

module _ {J : Type 0} where
  abbrev pub new_memory : Option ℕ → Memory J
  new_memory limit = record { messages = []; limit = limit }

  abbrev pub is_system : Message J → Bool
  is_system m = m.role == "system"

  abbrev pub non_system : Message J → Bool
  non_system m = not (m.role == "system")

  abbrev pub non_system_count : List (Message J) → ℕ
  non_system_count ms = length (filter non_system ms)

  -- How many messages of the user come first: the inner `while` of `trim`.
  abbrev pub user_run : List (Message J) → ℕ
  user_run [] = 0
  user_run (m ∷ ms) = if m.role == "user" then suc (user_run ms) else 0

  abbrev pub run_after : Option (Message J) → List (Message J) → ℕ
  run_after none rest = 0
  run_after (some m) rest = if m.role == "assistant" then user_run rest else 0

  -- `self.messages.drain(start..end)`: the oldest unit goes, the message at `start` and the run
  -- counted from `start + 1` to `end`.
  unfoldable pub drain_unit : ℕ → List (Message J) → List (Message J)
  drain_unit start ms =
      let rest = drop (suc start) ms in
      take start ms ++ drop (run_after (get_elem? ms start) rest) rest

  abbrev pub trim_at :
      (List (Message J) → List (Message J)) → Option ℕ → List (Message J) → List (Message J)
  trim_at loop none ms = ms
  trim_at loop (some start) ms = loop (drain_unit start ms)

  -- The outer `while`; each round drops a message, so the length is fuel enough.
  unfoldable pub trim_loop : ℕ → ℕ → List (Message J) → List (Message J)
  trim_loop zero max_non_system ms = ms
  trim_loop (suc fuel) max_non_system ms =
      let next = trim_at (trim_loop fuel max_non_system) (position non_system ms) ms in
      if ltb max_non_system (non_system_count ms) then next else ms

  abbrev pub starts_with_assistant : Option (Message J) → Bool
  starts_with_assistant none = false
  starts_with_assistant (some m) = m.role == "assistant"

  -- `self.messages.insert(i, m)`
  abbrev pub insert_at : ℕ → Message J → List (Message J) → List (Message J)
  insert_at i m ms = take i ms ++ m ∷ drop i ms

  -- A message of the user is put before an assistant's that has become the first.
  unfoldable pub insert_anchor : List (Message J) → List (Message J)
  insert_anchor ms =
      if starts_with_assistant (find non_system ms)
      then insert_at (unwrap_or (position non_system ms) 0) (user anchor_text) ms
      else ms

  unfoldable pub trim_to : Option ℕ → List (Message J) → List (Message J)
  unfolding trim_loop insert_anchor
  trim_to none ms = ms
  trim_to (some zero) ms = filter is_system ms
  trim_to (some (suc l)) ms = insert_anchor (trim_loop (length ms) (suc l * 2) ms)

  unfoldable pub trim : Memory J → Memory J
  unfolding trim_to
  trim mem = record mem { messages = trim_to mem.limit mem.messages }

  unfoldable pub add_message : Message J → Memory J → Memory J
  unfolding trim
  add_message m mem = trim (record mem { messages = mem.messages ++ m ∷ [] })

  abbrev pub message_of : String → String → Message J
  message_of role content =
      if role == "assistant"
      then assistant content
      else if role == "system"
      then system content
      else user content

  unfoldable pub add : String → String → Memory J → Memory J
  unfolding add_message
  add role content mem = add_message (message_of role content) mem

  unfoldable pub extend_pairs : List (String × String) → Memory J → Memory J
  unfolding add
  extend_pairs [] mem = mem
  extend_pairs ((role, content) ∷ pairs) mem = extend_pairs pairs (add role content mem)
