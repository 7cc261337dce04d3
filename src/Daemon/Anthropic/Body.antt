-- ===== src/Daemon/Anthropic/Body.antt =====
-- provider/anthropic.rs and provider/mod.rs: the body of a request, written through an interface to
-- serde_json.
use auto_ai.Common.{
  ℕ, [], ◌∷◌, ◌+◌, ◌++◌, none, some, false, string_eq, String, List, Option, Bool, if◌then◌else◌,
  ◌==◌, leb, not, unwrap_or, map, ◌≡◌,
}
use auto_ai.Common.Chars.{codes, trim, to_ascii_lowercase, is_text}
use auto_ai.Config.Wire.{ContentBlock, Message, ToolDefinition, CompletionRequest}

pub data ThinkingLevel : Type 0 where
  off : ThinkingLevel
  low : ThinkingLevel
  high : ThinkingLevel
  max : ThinkingLevel

abbrev pub budget_tokens : ThinkingLevel → ℕ
budget_tokens ThinkingLevel.off = 0
budget_tokens ThinkingLevel.low = 2048
budget_tokens ThinkingLevel.high = 8192
budget_tokens ThinkingLevel.max = 32768

abbrev pub level_of : List ℕ → Option ThinkingLevel
unfolding is_text
level_of s =
    if is_text s "off"
    then some ThinkingLevel.off
    else if is_text s "low"
    then some ThinkingLevel.low
    else if is_text s "high"
    then some ThinkingLevel.high
    else if is_text s "max"
    then some ThinkingLevel.max
    else none

unfoldable pub parse_thinking_level : String → Option ThinkingLevel
unfolding codes trim to_ascii_lowercase level_of
parse_thinking_level raw = level_of (to_ascii_lowercase (trim (codes raw)))

-- `json!` and `body[k] = v`; `read` is what a reader of the body sees.
pub record JsonWriter : Type 1 where
  pub Value : Type 0
  pub Double : Type 0
  pub str : String → Value
  pub num : ℕ → Value
  pub double : Double → Value
  pub boolean : Bool → Value
  pub array : List Value → Value
  pub object : List (String × Value) → Value
  pub set : String → Value → Value → Value
  pub read : String → Value → Option Value

-- What serde_json promises of an object.
pub record JsonWriterLaws (w : JsonWriter) : Type 0 where
  pub read-object_nil : (k : String) → w.read k (w.object []) ≡ none
  pub read-object :
      (k j : String) (v : w.Value) (fs : List (String × w.Value))
      → w.read k (w.object ((j, v) ∷ fs)) ≡ (if k == j then some v else w.read k (w.object fs))
  pub read-set_same : (k : String) (v body : w.Value) → w.read k (w.set k v body) ≡ some v
  pub read-set_other :
      (k j : String) (v body : w.Value)
      → (k == j) ≡ false
      → w.read k (w.set j v body) ≡ w.read k body

module _ (w : JsonWriter) where
  abbrev block_to_anthropic : ContentBlock w.Value → w.Value
  block_to_anthropic (ContentBlock.text body) =
      w.object (("type", w.str "text") ∷ ("text", w.str body) ∷ [])
  block_to_anthropic (ContentBlock.tool_use id name input) =
      w.object (
        ("type", w.str "tool_use")
        ∷ ("id", w.str id)
        ∷ ("name", w.str name)
        ∷ ("input", input)
        ∷ [])
  block_to_anthropic (ContentBlock.tool_result tool_use_id content is_error) = w.object (
      ("type", w.str "tool_result")
      ∷ ("tool_use_id", w.str tool_use_id)
      ∷ ("content", w.str content)
      ∷ ("is_error", w.boolean is_error)
      ∷ [])

  abbrev pub content_blocks_to_anthropic : List (ContentBlock w.Value) → w.Value
  content_blocks_to_anthropic blocks = w.array (map block_to_anthropic blocks)

  abbrev pub tool_to_anthropic : ToolDefinition w.Value → w.Value
  tool_to_anthropic t = w.object (
      ("name", w.str t.name)
      ∷ ("description", w.str t.description)
      ∷ ("input_schema", t.parameters)
      ∷ [])

  abbrev pub message_to_anthropic : Message w.Value → w.Value
  message_to_anthropic m =
      w.object (("role", w.str m.role) ∷ ("content", content_blocks_to_anthropic m.content) ∷ [])

  abbrev continued : w.Value
  continued = w.object (
      ("role", w.str "user")
      ∷ (
        "content",
        w.array (w.object (("type", w.str "text") ∷ ("text", w.str "(continued)") ∷ []) ∷ []),
      )
      ∷ [])

  -- A user message is put before a history that does not begin with one.
  unfoldable pub messages_to_anthropic : List (Message w.Value) → List w.Value
  messages_to_anthropic [] = []
  messages_to_anthropic (m ∷ ms) =
      (if not (m.role == "user") then continued ∷ [] else []) ++ map message_to_anthropic (m ∷ ms)

  abbrev pub set_system : Option String → w.Value → w.Value
  set_system none body = body
  set_system (some sys) body = w.set "system" (w.str sys) body

  abbrev pub set_temperature : Option w.Double → w.Value → w.Value
  set_temperature none body = body
  set_temperature (some t) body = w.set "temperature" (w.double t) body

  abbrev pub set_tools : List (ToolDefinition w.Value) → w.Value → w.Value
  set_tools [] body = body
  set_tools (t ∷ ts) body = w.set "tools" (w.array (map tool_to_anthropic (t ∷ ts))) body

  abbrev pub enabled : ℕ → w.Value
  enabled budget = w.object (("type", w.str "enabled") ∷ ("budget_tokens", w.num budget) ∷ [])

  abbrev pub disabled : w.Value
  disabled = w.object (("type", w.str "disabled") ∷ [])

  -- The limit is raised where the budget does not fit in it.
  unfoldable pub set_budget : ℕ → ℕ → w.Value → w.Value
  set_budget max_tokens budget body =
      w.set "thinking" (enabled budget)
        (if leb max_tokens budget then w.set "max_tokens" (w.num (budget + 1024)) body else body)

  unfoldable pub set_level : ℕ → Option ThinkingLevel → w.Value → w.Value
  set_level max_tokens none body = body
  set_level max_tokens (some ThinkingLevel.off) body = w.set "thinking" disabled body
  set_level max_tokens (some ThinkingLevel.low) body =
      set_budget max_tokens (budget_tokens ThinkingLevel.low) body
  set_level max_tokens (some ThinkingLevel.high) body =
      set_budget max_tokens (budget_tokens ThinkingLevel.high) body
  set_level max_tokens (some ThinkingLevel.max) body =
      set_budget max_tokens (budget_tokens ThinkingLevel.max) body

  abbrev pub set_asked : ℕ → Option String → w.Value → w.Value
  set_asked max_tokens none body = body
  set_asked max_tokens (some raw) body = set_level max_tokens (parse_thinking_level raw) body

  abbrev pub set_thinking : Bool → ℕ → Option String → w.Value → w.Value
  set_thinking accepts max_tokens asked body =
      if accepts then set_asked max_tokens asked body else body

  abbrev pub fixed_part : CompletionRequest w.Value w.Double → w.Value
  fixed_part req = set_tools req.tools (
      set_temperature req.temperature (
        set_system req.system_prompt (
          w.object (
            ("model", w.str req.model)
            ∷ ("max_tokens", w.num (unwrap_or req.max_tokens 4096))
            ∷ ("messages", w.array (messages_to_anthropic req.messages))
            ∷ []))))

  -- `accepts` is the provider's `accepts_thinking_param`.
  unfoldable pub build_body : Bool → CompletionRequest w.Value w.Double → w.Value
  build_body accepts req =
      set_thinking accepts (unwrap_or req.max_tokens 4096) req.thinking_level (fixed_part req)
