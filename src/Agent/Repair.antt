-- ===== src/Agent/Repair.antt =====
-- agent.rs: what the loop of an agent does to tool calls apart from running them: the placeholders for
-- calls that were left without a result, the cut of long results, and the thresholds of the cycle guard.
pub mod Complete
use Prim.Native.String.{String, count}
use auto_ai.Common.{
  zero, suc, [], ◌∷◌, none, some, true, false, ◌++◌, ◌+◌, ◌-◌, string_eq, ◌==◌, ◌&&◌, ◌||◌, not,
  if◌then◌else◌, List, Option, Bool, ℕ, get_elem?, drop, any, filter, leb,
}
use auto_ai.Common.Format.{format, show}
use auto_ai.Common.BTreeSet.{mem}
use auto_ai.Config.Wire.{ContentBlock, Message, result}
use auto_ai.Agent.Memory.{Memory, add_message}
use auto_ai.Agent.Memory.Pairs.{uses, results}

abbrev pub loop_detect_threshold : ℕ
loop_detect_threshold = 3

-- Tools that poll may repeat more often.
abbrev pub loop_terminate_threshold : String → ℕ
loop_terminate_threshold tool =
    if tool == "canvas_snapshot"
      || tool == "canvas_state"
      || tool == "canvas_status"
      || tool == "canvas_overlay"
      || tool == "canvas_run"
      || tool == "canvas_act"
    then 8
    else loop_detect_threshold + 1

abbrev pub max_tool_result_chars : ℕ
max_tool_result_chars = 20000

-- `chars().take(n).collect()`
unfoldable pub take_chars : ℕ → String → String
take_chars zero s = ""
take_chars (suc n) String.[] = ""
take_chars (suc n) (String.◌∷◌ c s) = String.◌∷◌ c (take_chars n s)

unfoldable pub truncate_tool_result : String → String
unfolding take_chars
truncate_tool_result s =
    if leb (count s) max_tool_result_chars
    then s
    else format (
        take_chars max_tool_result_chars s
        ∷ "\n…[truncated "
        ∷ show (count s - max_tool_result_chars)
        ∷ " more chars]"
        ∷ [])

abbrev pub last_or : Option ℕ → Bool → Option ℕ
last_or none false = none
last_or none true = some 0
last_or (some i) here = some (suc i)

module _ {J : Type 0} where
  abbrev is_tool_use : ContentBlock J → Bool
  is_tool_use (ContentBlock.text _) = false
  is_tool_use (ContentBlock.tool_use _ _ _) = true
  is_tool_use (ContentBlock.tool_result _ _ _) = false

  abbrev pub asks_tools : Message J → Bool
  asks_tools m = m.role == "assistant" && any is_tool_use m.content

  -- `iter().rposition(p)`
  unfoldable pub rposition : (Message J → Bool) → List (Message J) → Option ℕ
  rposition p [] = none
  rposition p (m ∷ ms) = last_or (rposition p ms) (p m)

  abbrev pub uses_of : Option (Message J) → List String
  uses_of none = []
  uses_of (some m) = uses m.content

  abbrev pub answered_ids : List (Message J) → List String
  answered_ids [] = []
  answered_ids (m ∷ ms) = results m.content ++ answered_ids ms

  abbrev pub missing_at : Option ℕ → List (Message J) → List String
  missing_at none ms = []
  missing_at (some idx) ms =
      filter (λ id. not (mem id (answered_ids (drop (suc idx) ms)))) (uses_of (get_elem? ms idx))

  -- The calls of the last message with any that have no result after it.
  unfoldable pub missing : List (Message J) → List String
  unfolding rposition
  missing ms = missing_at (rposition asks_tools ms) ms

  abbrev pub placeholder : String → Message J
  placeholder id = result id "[interrupted before completion]"

  unfoldable pub add_placeholders : List String → Memory J → Memory J
  add_placeholders [] mem = mem
  add_placeholders (id ∷ ids) mem = add_placeholders ids (add_message (placeholder id) mem)

  unfoldable pub repair_orphan_tool_uses : Memory J → Memory J
  unfolding missing add_placeholders
  repair_orphan_tool_uses mem = add_placeholders (missing mem.messages) mem
