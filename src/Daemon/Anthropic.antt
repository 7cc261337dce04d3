-- ===== src/Daemon/Anthropic.antt =====
-- provider/anthropic.rs: the response of an Anthropic server, streamed or in one piece. JSON is read
-- through an interface to serde_json; an event of the stream is a text in code points.
pub mod Stream
pub mod Complete
pub mod Body
pub mod Budget
pub mod Assembled
pub mod Cut
mod Examples
use Prim.Native.String.{◌++◌ as append}
use auto_ai.Common.{
  ℕ, zero, suc, ◌%◌, [], ◌∷◌, ◌++◌, none, some, string_eq, u32_mod, false, String, List, Option,
  Bool, if◌then◌else◌, ◌==◌, unwrap_or, or,
}
use auto_ai.Common.Format.{format, show}
use auto_ai.Common.Results.{Result, err, ok}
use auto_ai.Config.Wire.{Usage, ToolCall, CompletionResponse}

-- `json[k]` is null where there is no `k`; `get` tells whether there is.
pub record JsonReader : Type 1 where
  pub Value : Type 0
  pub index : String → Value → Value
  pub get : String → Value → Option Value
  pub as_str : Value → Option String
  pub as_u64 : Value → Option ℕ
  pub as_array : Value → Option (List Value)
  pub from_event : List ℕ → Option Value  -- `from_str` of an event
  pub from_str : String → Result String Value
  pub empty_object : Value

pub data StreamDelta : Type 0 where
  text : String → StreamDelta
  reasoning : String → StreamDelta
  warning : String → StreamDelta

pub record ToolBlock : Type 0 where
  pub id : String
  pub name : String
  pub input_json : String

abbrev pub new_block : ToolBlock
new_block = record { id = ""; name = ""; input_json = "" }

-- The variables that the events of a stream change, and the deltas that were reported.
pub record Streamed : Type 0 where
  pub content : String
  pub tool_blocks : List ToolBlock
  pub stop_reason : Option String
  pub usage : Option Usage
  pub deltas : List StreamDelta

abbrev pub nothing_streamed : Streamed
nothing_streamed = record {
  content = "";
  tool_blocks = [];
  stop_reason = none;
  usage = none;
  deltas = [];
}

abbrev pub report : StreamDelta → Streamed → Streamed
report delta s = record s { deltas = s.deltas ++ delta ∷ [] }

-- The block at an index, after blocks were pushed until there is one.
unfoldable pub update_block : ℕ → (ToolBlock → ToolBlock) → List ToolBlock → List ToolBlock
update_block zero f [] = f new_block ∷ []
update_block zero f (b ∷ bs) = f b ∷ bs
update_block (suc i) f [] = new_block ∷ update_block i f []
update_block (suc i) f (b ∷ bs) = b ∷ update_block i f bs

module _ (j : JsonReader) where
  -- `as u32`
  abbrev count : j.Value → String → ℕ
  count u k = unwrap_or (j.as_u64 (j.index k u)) 0 % u32_mod

  abbrev pub usage_from_json : j.Value → Usage
  usage_from_json u = record {
    input_tokens = count u "input_tokens";
    output_tokens = count u "output_tokens";
    cache_read_tokens = count u "cache_read_input_tokens";
    cache_write_tokens = count u "cache_creation_input_tokens";
  }

  abbrev pub str_or_empty : String → j.Value → String
  str_or_empty k v = unwrap_or (j.as_str (j.index k v)) ""

  abbrev pub block_index : j.Value → ℕ
  block_index json = unwrap_or (j.as_u64 (j.index "index" json)) 0

  abbrev pub delta_field : String → j.Value → Option String
  delta_field k json = j.as_str (j.index k (j.index "delta" json))

  abbrev pub add_text : Option String → Streamed → Streamed
  add_text none s = s
  add_text (some body) s =
      report (StreamDelta.text body) (record s { content = append s.content body })

  abbrev pub add_partial : ℕ → Option String → Streamed → Streamed
  add_partial i none s = s
  add_partial i (some partial) s = record s {
    tool_blocks =
        update_block i (λ b. record b { input_json = append b.input_json partial }) s.tool_blocks;
  }

  abbrev pub add_reasoning : Option String → Streamed → Streamed
  add_reasoning none s = s
  add_reasoning (some r) s = report (StreamDelta.reasoning r) s

  unfoldable pub block_delta : j.Value → Streamed → Streamed
  block_delta json s =
      add_reasoning (or (delta_field "thinking" json) (delta_field "reasoning_content" json)) (
        add_partial (block_index json) (delta_field "partial_json" json)
          (add_text (delta_field "text" json) s))

  abbrev pub declare_block : j.Value → ToolBlock → ToolBlock
  declare_block block b = record b {
    id = str_or_empty "id" block;
    name = str_or_empty "name" block;
  }

  abbrev pub is_text : Option String → String → Bool
  is_text none t = false
  is_text (some s) t = s == t

  unfoldable pub block_start : j.Value → Streamed → Streamed
  block_start json s =
      let block = j.index "content_block" json in
      if is_text (j.as_str (j.index "type" block)) "tool_use"
      then record s {
        tool_blocks = update_block (block_index json) (declare_block block) s.tool_blocks;
      }
      else s

  abbrev pub take_usage : Option j.Value → Streamed → Streamed
  take_usage none s = s
  take_usage (some u) s = record s { usage = some (usage_from_json u) }

  abbrev pub inner_usage : Option j.Value → Option j.Value
  inner_usage none = none
  inner_usage (some m) = j.get "usage" m

  unfoldable pub message_start : j.Value → Streamed → Streamed
  message_start json s = take_usage (inner_usage (j.get "message" json)) s

  abbrev pub take_stop : Option String → Streamed → Streamed
  take_stop none s = s
  take_stop (some stop) s = record s { stop_reason = some stop }

  abbrev pub with_output : ℕ → Option Usage → Usage
  with_output out (some prev) = record prev { output_tokens = out }
  with_output out none = record {
    input_tokens = 0;
    output_tokens = out;
    cache_read_tokens = 0;
    cache_write_tokens = 0;
  }

  abbrev pub take_output : Option j.Value → Streamed → Streamed
  take_output none s = s
  take_output (some u) s = record s { usage = some (with_output (count u "output_tokens") s.usage) }

  unfoldable pub message_delta : j.Value → Streamed → Streamed
  message_delta json s =
      take_output (j.get "usage" json) (take_stop (delta_field "stop_reason" json) s)

  unfoldable pub process_json : j.Value → Streamed → Streamed
  process_json json s =
      let kind = str_or_empty "type" json in
      if kind == "content_block_delta"
      then block_delta json s
      else if kind == "content_block_start"
      then block_start json s
      else if kind == "message_start"
      then message_start json s
      else if kind == "message_delta"
      then message_delta json s
      else s

  -- An event that is no JSON is skipped.
  abbrev pub process_parsed : Option j.Value → Streamed → Streamed
  process_parsed none s = s
  process_parsed (some json) s = process_json json s

  unfoldable pub process_events : List (List ℕ) → Streamed → Streamed
  process_events [] s = s
  process_events (event ∷ events) s = process_events events (process_parsed (j.from_event event) s)
