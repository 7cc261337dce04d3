-- ===== src/Agent/Compaction.antt =====
-- compaction.rs: when and where a conversation is cut, and the files it touched. JSON values, and
-- the summary request, are those of the parameter `env`.
pub mod Walks
pub mod Cut
pub mod Files
pub mod Manifest
pub mod Overflow
pub mod Compact
pub mod Rebuilt
pub mod Replaced
use Prim.Native.String.{len}
use auto_ai.Common.{
  min, zero, suc, [], ◌∷◌, none, some, true, false, ◌++◌, string_eq, ◌&&◌, ◌||◌, ◌+◌, ◌-◌, ◌/◌,
  ◌>>=◌, ◌==◌, ltb, leb, if◌then◌else◌, length, get_elem?, take, drop, not, ℕ, List, String, Bool,
  Option,
}
use auto_ai.Config.Wire.{ContentBlock, Message, Usage, total_tokens}

pub record CompactionSettings : Type 0 where
  pub context_window : ℕ
  pub reserve_tokens : ℕ
  pub keep_recent_tokens : ℕ

abbrev pub default_settings : CompactionSettings
default_settings = record {
  context_window = 128000;
  reserve_tokens = 16384;
  keep_recent_tokens = 20000;
}

-- `saturating_sub` is the subtraction that stops at 0.
abbrev pub should_compact : ℕ → CompactionSettings → Bool
should_compact tokens s = ltb (s.context_window - s.reserve_tokens) tokens

-- What the module takes of serde_json: the text of a value, and the text in a field of it.
pub record Json : Type 1 where
  pub Value : Type 0
  pub to_string : Value → String
  pub field_str : Value → String → Option String

module _ (json : Json) where
  abbrev block_cost : ContentBlock json.Value → ℕ
  block_cost (ContentBlock.text body) = len body
  block_cost (ContentBlock.tool_use id name input) = len name + len (json.to_string input)
  block_cost (ContentBlock.tool_result id content _) = len content

  abbrev blocks_cost : List (ContentBlock json.Value) → ℕ
  blocks_cost [] = 0
  blocks_cost (b ∷ blocks) = block_cost b + blocks_cost blocks

  unfoldable pub message_cost : Message json.Value → ℕ
  message_cost m = len m.role + blocks_cost m.content

  -- The share of the message in the estimate.
  unfoldable pub tokens : Message json.Value → ℕ
  unfolding message_cost
  tokens m = message_cost m / 4

  unfoldable pub sum_tokens : List (Message json.Value) → ℕ
  sum_tokens [] = 0
  sum_tokens (m ∷ ms) = tokens m + sum_tokens ms

  abbrev usage_tokens : Option Usage → ℕ
  usage_tokens none = 0
  usage_tokens (some u) = total_tokens u

  unfoldable pub estimate_tokens : List (Message json.Value) → Option Usage → ℕ
  estimate_tokens ms last_usage = usage_tokens last_usage + sum_tokens ms

  abbrev starts_with_text : List (ContentBlock json.Value) → Bool
  starts_with_text (ContentBlock.text _ ∷ _) = true
  starts_with_text _ = false

  unfoldable pub is_turn_boundary : Message json.Value → Bool
  is_turn_boundary m = m.role == "user" && starts_with_text m.content

  abbrev pub is_boundary : Option (Message json.Value) → Bool
  is_boundary none = false
  is_boundary (some m) = is_turn_boundary m

  abbrev pub boundary_at : List (Message json.Value) → ℕ → Bool
  boundary_at ms i = is_boundary (get_elem? ms i)

  abbrev pub tokens_at : Option (Message json.Value) → ℕ
  tokens_at none = 0
  tokens_at (some m) = tokens m

  -- The `while start > 0`: the messages before `start` are read from the last one back, until the
  -- tail is over the budget.
  unfoldable pub tail_start : List (Message json.Value) → ℕ → ℕ → ℕ → ℕ
  tail_start ms keep zero acc = 0
  tail_start ms keep (suc start) acc =
      let next = acc + tokens_at (get_elem? ms start) in
      let rest = tail_start ms keep start next in if ltb keep next then suc start else rest

  -- `while cut < len && !is_turn_boundary(&messages[cut])`, with as many rounds as messages are left.
  unfoldable pub forward : List (Message json.Value) → ℕ → ℕ → ℕ
  forward ms zero cut = cut
  forward ms (suc fuel) cut =
      let rest = forward ms fuel (suc cut) in
      if ltb cut (length ms) && not (boundary_at ms cut) then rest else cut

  -- `while cut > 1 && !is_turn_boundary(&messages[cut])`
  unfoldable pub backward : List (Message json.Value) → ℕ → ℕ
  backward ms zero = 0
  backward ms (suc cut) =
      let rest = backward ms cut in
      if ltb 1 (suc cut) && not (boundary_at ms (suc cut)) then rest else suc cut

  -- A cut must leave something on both sides.
  abbrev pub checked : List (Message json.Value) → ℕ → Option ℕ
  checked ms cut = if leb cut 1 || leb (length ms) cut then none else some cut

  abbrev pub cut_from : List (Message json.Value) → ℕ → Option ℕ
  cut_from ms zero = none
  cut_from ms (suc s) =
      let cut = forward ms (length ms - suc s) (suc s) in
      checked ms (if leb (length ms) cut then backward ms (min (suc s) (length ms - 1)) else cut)

  unfoldable pub find_cut_point : List (Message json.Value) → ℕ → Option ℕ
  unfolding tail_start forward backward
  find_cut_point ms keep_recent_tokens =
      if ltb (length ms) 2
      then none
      else cut_from ms (tail_start ms keep_recent_tokens (length ms) 0)
