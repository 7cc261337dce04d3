-- ===== src/Daemon/Anthropic/Complete.antt =====
-- provider/anthropic.rs: a request that is answered in one piece.
use Prim.Native.String.{◌++◌ as append}
use auto_ai.Common.{
  ℕ, [], ◌∷◌, ◌++◌, none, some, string_eq, String, List, Option, if◌then◌else◌, ◌==◌, unwrap_or,
}
use auto_ai.Common.Format.{format}
use auto_ai.Common.Results.{Result, err, ok}
use auto_ai.Config.Wire.{Usage, ToolCall, CompletionResponse}
use auto_ai.Daemon.Errors.{LlmError, from_upstream_status}
use auto_ai.Daemon.Anthropic.{JsonReader, usage_from_json, str_or_empty, is_text}

module _ (j : JsonReader) where
  -- What sending the request gives: an error, or a status with a body, which may be no JSON.
  pub data Answered : Type 0 where
    unsent : LlmError → Answered
    refused : (status : ℕ) → (body : String) → Answered
    unreadable : String → Answered
    answered : j.Value → Answered

  -- The content and the calls of the blocks so far.
  abbrev Parts : Type 0
  Parts = String × List (ToolCall j.Value)

  abbrev add_body : Option String → Parts → Parts
  add_body none parts = parts
  add_body (some s) (content, calls) = (append content s, calls)

  abbrev add_call : j.Value → Parts → Parts
  add_call b (content, calls) = (
    content,
    calls
        ++ (record {
          id = str_or_empty j "id" b;
          name = str_or_empty j "name" b;
          input = j.index "input" b;
        })
          ∷ [],
  )

  abbrev add_block : j.Value → Parts → Parts
  add_block b parts =
      let kind = j.as_str (j.index "type" b) in
      if is_text j kind "text"
      then add_body (j.as_str (j.index "text" b)) parts
      else if is_text j kind "tool_use"
      then add_call b parts
      else parts

  abbrev add_blocks : List j.Value → Parts → Parts
  add_blocks [] parts = parts
  add_blocks (b ∷ bs) parts = add_blocks bs (add_block b parts)

  abbrev blocks_of : Option (List j.Value) → Parts
  blocks_of none = ("", [])
  blocks_of (some blocks) = add_blocks blocks ("", [])

  -- `filter(|s| !s.is_empty())`
  abbrev not_empty : Option String → Option String
  not_empty none = none
  not_empty (some s) = if s == "" then none else some s

  abbrev usage_of : Option j.Value → Option Usage
  usage_of none = none
  usage_of (some u) = some (usage_from_json j u)

  abbrev response_of : String → j.Value → Parts → CompletionResponse j.Value
  response_of model json (content, calls) = record {
    content = content;
    tool_calls = calls;
    stop_reason = not_empty (j.as_str (j.index "stop_reason" json));
    usage = usage_of (j.get "usage" json);
    model = unwrap_or (j.as_str (j.index "model" json)) model;
    error = none;
    model_meta = none;
  }

  unfoldable pub complete : String → Answered → Result LlmError (CompletionResponse j.Value)
  complete model (unsent e) = err e
  complete model (refused status body) = err (from_upstream_status status body)
  complete model (unreadable e) = err (LlmError.api (format ("parse response: " ∷ e ∷ [])))
  complete model (answered json) =
      ok (response_of model json (blocks_of (j.as_array (j.index "content" json))))
