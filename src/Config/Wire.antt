-- ===== src/Config/Wire.antt =====
-- wire.rs: messages, requests and responses. `J` is the type of JSON values, which serde_json
-- defines.
use auto_ai.Common.{ℕ, String, List, [], ◌∷◌, Option, none, some, Bool, true, false, not, add32}
use auto_ai.Common.Format.{format}

pub data ContentBlock (J : Type 0) : Type 0 where
  text : String → ContentBlock J
  tool_use : (id name : String) → J → ContentBlock J
  tool_result : (tool_use_id content : String) → Bool → ContentBlock J

pub record Message (J : Type 0) : Type 0 where
  pub role : String
  pub content : List (ContentBlock J)

pub record ToolDefinition (J : Type 0) : Type 0 where
  pub name : String
  pub description : String
  pub parameters : J

pub record ToolCall (J : Type 0) : Type 0 where
  pub id : String
  pub name : String
  pub input : J

pub record ModelCandidate : Type 0 where
  pub provider : String
  pub model : String

-- A temperature is a double, of the type `F`.
pub record CompletionRequest (J F : Type 0) : Type 0 where
  pub model : String
  pub messages : List (Message J)
  pub max_tokens : Option ℕ
  pub temperature : Option F
  pub system_prompt : Option String
  pub tools : List (ToolDefinition J)
  pub stream : Bool
  pub preferred_provider : Option String
  pub thinking_level : Option String
  pub model_chain : List ModelCandidate

pub record ModelMeta : Type 0 where
  pub id : String
  pub context_window : ℕ
  pub max_output_tokens : Option ℕ

pub record Usage : Type 0 where
  pub input_tokens : ℕ
  pub output_tokens : ℕ
  pub cache_read_tokens : ℕ
  pub cache_write_tokens : ℕ

pub record CompletionResponse (J : Type 0) : Type 0 where
  pub content : String
  pub tool_calls : List (ToolCall J)
  pub stop_reason : Option String
  pub usage : Option Usage
  pub model : String
  pub error : Option String
  pub model_meta : Option ModelMeta

abbrev is_none : Option String → Bool
is_none none = true
is_none (some _) = false

module _ {J : Type 0} where
  abbrev pub message : String → ContentBlock J → Message J
  message role block = record { role = role; content = block ∷ [] }

  abbrev pub user : String → Message J
  user body = message "user" (ContentBlock.text body)

  abbrev pub assistant : String → Message J
  assistant body = message "assistant" (ContentBlock.text body)

  abbrev pub system : String → Message J
  system body = message "system" (ContentBlock.text body)

  abbrev pub result : String → String → Message J
  result id content = message "user" (ContentBlock.tool_result id content false)

  abbrev pub tool_error : String → String → Message J
  tool_error id content = message "user" (ContentBlock.tool_result id content true)

  abbrev texts_of : List (ContentBlock J) → List String
  texts_of [] = []
  texts_of (ContentBlock.text body ∷ blocks) = body ∷ texts_of blocks
  texts_of (ContentBlock.tool_use _ _ _ ∷ blocks) = texts_of blocks
  texts_of (ContentBlock.tool_result _ _ _ ∷ blocks) = texts_of blocks

  -- `Message::text`
  abbrev pub text_of : Message J → String
  text_of m = format (texts_of m.content)

  abbrev pub is_ok : CompletionResponse J → Bool
  is_ok r = is_none r.error

  abbrev is_empty : List (ToolCall J) → Bool
  is_empty [] = true
  is_empty (_ ∷ _) = false

  abbrev pub wants_tool : CompletionResponse J → Bool
  wants_tool r = not (is_empty r.tool_calls)

  module _ {F : Type 0} where
    abbrev pub single : String → String → CompletionRequest J F
    single model prompt = record {
      model = model;
      messages = user prompt ∷ [];
      max_tokens = none;
      temperature = none;
      system_prompt = none;
      tools = [];
      stream = false;
      preferred_provider = none;
      thinking_level = none;
      model_chain = [];
    }

    abbrev pin_head : List ModelCandidate → CompletionRequest J F → CompletionRequest J F
    pin_head [] r = r
    pin_head (head ∷ _) r = record r { model = head.model }

    abbrev pub with_model_chain :
        List ModelCandidate → CompletionRequest J F → CompletionRequest J F
    with_model_chain chain r = record (pin_head chain r) { model_chain = chain }

    abbrev pub with_thinking_level : String → CompletionRequest J F → CompletionRequest J F
    with_thinking_level level r = record r { thinking_level = some level }

    abbrev pub with_system : String → CompletionRequest J F → CompletionRequest J F
    with_system prompt r = record r { system_prompt = some prompt }

    abbrev pub with_max_tokens : ℕ → CompletionRequest J F → CompletionRequest J F
    with_max_tokens n r = record r { max_tokens = some n }

    abbrev pub with_temperature : F → CompletionRequest J F → CompletionRequest J F
    with_temperature t r = record r { temperature = some t }

    abbrev pub with_tools : List (ToolDefinition J) → CompletionRequest J F → CompletionRequest J F
    with_tools tools r = record r { tools = tools }

-- `Usage::total_tokens`, of 32-bit counts
abbrev pub total_tokens : Usage → ℕ
total_tokens u = add32 u.input_tokens u.output_tokens
