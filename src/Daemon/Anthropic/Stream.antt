-- ===== src/Daemon/Anthropic/Stream.antt =====
-- provider/anthropic.rs: the loop that reads a stream. It is given by what each round receives, in
-- order; the stream ends after the last one. `none` is a panic.
use Prim.Native.String.{len}
use text.Mathlib.Text.{get?}
use auto_ai.Common.{
  min, ℕ, [], ◌∷◌, ◌++◌, none, some, string_eq, String, List, Option, if◌then◌else◌, ◌==◌, ◌>>=◌,
  map,
}
use auto_ai.Common.Format.{format, show}
use auto_ai.Common.Results.{Result, err, ok}
use auto_ai.Config.Wire.{ToolCall, CompletionResponse}
use auto_ai.Daemon.Errors.{LlmError, from_upstream_status}
use auto_ai.Daemon.Sse.{Bytes, push, finish}
use auto_ai.Daemon.Anthropic.{
  JsonReader, StreamDelta, ToolBlock, Streamed, nothing_streamed, process_events,
}

-- What a round of the loop receives: a chunk or an error of the connection, nothing for too long, or
-- the caller's cancellation.
pub data Arrival : Type 0 where
  chunk : Bytes → Arrival
  broken : String → Arrival
  idle : Arrival
  cancelled : Arrival

-- What sending the request gives.
pub data Sent : Type 0 where
  unsent : LlmError → Sent
  refused : (status : ℕ) → (body : String) → Sent
  streaming : List Arrival → Sent

abbrev pub warning_text : ToolBlock → String → String → String
warning_text tb e head = format (
    "tool_use '"
    ∷ tb.name
    ∷ "' input failed to parse ("
    ∷ e
    ∷ "); raw len="
    ∷ show (len tb.input_json)
    ∷ ", head '"
    ∷ head
    ∷ "…' — empty input substituted"
    ∷ [])

module _ (j : JsonReader) where
  -- The response, and the deltas that were reported before it.
  abbrev pub Ending : Type 0
  Ending = Result LlmError (CompletionResponse j.Value) × List StreamDelta

  abbrev pub call_of : ToolBlock → j.Value → ToolCall j.Value
  call_of tb input = record { id = tb.id; name = tb.name; input = input }

  -- The input of a block, and the warning where it is no JSON.
  abbrev pub input_of : ToolBlock → Result String j.Value → Option (j.Value × List String)
  input_of tb (ok v) = some (v, [])
  input_of tb (err e) = do
    head ← get? tb.input_json 0 (min (len tb.input_json) 80)
    some (j.empty_object, warning_text tb e head ∷ [])

  unfoldable pub tool_calls_from_blocks :
      List ToolBlock → Option (List (ToolCall j.Value) × List String)
  tool_calls_from_blocks [] = some ([], [])
  tool_calls_from_blocks (tb ∷ blocks) =
      let rest = tool_calls_from_blocks blocks in
      if tb.name == "" then rest else (do
        (input, warning) ← input_of tb (j.from_str tb.input_json)
        (calls, warnings) ← rest
        some (call_of tb input ∷ calls, warning ++ warnings))

  -- After the loop: the parser's rest is flushed, and the blocks become calls.
  abbrev pub response_of : String → Streamed → List (ToolCall j.Value) × List String → Ending
  response_of model s (calls, warnings) = (
    ok (record {
      content = s.content;
      tool_calls = calls;
      stop_reason = s.stop_reason;
      usage = s.usage;
      model = model;
      error = none;
      model_meta = none;
    }),
    s.deltas ++ map StreamDelta.warning warnings,
  )

  abbrev pub conclude : String → Streamed → Option Ending
  conclude model s = do
    calls ← tool_calls_from_blocks s.tool_blocks
    some (response_of model s calls)

  abbrev pub flush : String → Bytes → Streamed → Option Ending
  flush model buffer s = conclude model (process_events j (finish buffer) s)

  unfoldable pub read_stream : String → List Arrival → Bytes → Streamed → Option Ending
  read_stream model [] buffer s = flush model buffer s
  read_stream model (chunk bytes ∷ arrivals) buffer s =
      read_stream model arrivals (push buffer bytes).1 (process_events j (push buffer bytes).0 s)
  read_stream model (broken e ∷ arrivals) buffer s = some (err (LlmError.http e), s.deltas)
  read_stream model (idle ∷ arrivals) buffer s =
      some (err (LlmError.http "upstream idle timeout (30s)"), s.deltas)
  read_stream model (cancelled ∷ arrivals) buffer s = flush model buffer s

  unfoldable pub complete_stream : String → Sent → Option Ending
  unfolding read_stream
  complete_stream model (unsent e) = some (err e, [])
  complete_stream model (refused status body) = some (err (from_upstream_status status body), [])
  complete_stream model (streaming arrivals) = read_stream model arrivals [] nothing_streamed
