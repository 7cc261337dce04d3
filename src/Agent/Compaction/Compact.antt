-- ===== src/Agent/Compaction/Compact.antt =====
-- compaction.rs: `compact`. The client is a parameter: what it answers to a request, and the text of
-- its errors.
use Prim.Native.String.{String}
use Prim.Native.Char.{code}
use auto_ai.Common.{
  [], ◌∷◌, none, some, false, ◌++◌, string_eq, ◌==◌, ◌&&◌, if◌then◌else◌, List, Option, take, drop,
  ℕ,
}
use auto_ai.Common.Format.{format}
use auto_ai.Common.Chars.{is_whitespace}
use auto_ai.Config.Wire.{
  ContentBlock, Message, CompletionRequest, CompletionResponse, ModelCandidate, user,
}
use auto_ai.Agent.Memory.{Memory, add, add_message, new_memory}
use auto_ai.Agent.Compaction.{Json, CompactionSettings, find_cut_point}
use auto_ai.Agent.Compaction.Files.{extract_file_ops, format_file_operations}

-- `str::trim`
trim_start : String → String
trim_start String.[] = ""
trim_start (String.◌∷◌ c s) = if is_whitespace (code c) then trim_start s else String.◌∷◌ c s

trim_end : String → String
trim_end String.[] = ""
trim_end (String.◌∷◌ c s) =
    let rest = trim_end s in if is_whitespace (code c) && rest == "" then "" else String.◌∷◌ c rest

abbrev pub summary_system : String
summary_system =
    "You compress a coding-agent conversation history. Produce a terse markdown summary with exactly these sections:\n## Goal\n## Progress\n## Key Decisions\n## Next Steps\nNever invent facts; omit sections with no content. Do not list files — the file manifest is appended mechanically."

abbrev pub update_system : String
update_system =
    "You update an existing conversation summary with new messages. PRESERVE all still-relevant information from the previous summary; ADD new progress, decisions, and context; move finished items to done; drop what is no longer relevant. Keep the same sections:\n## Goal\n## Progress\n## Key Decisions\n## Next Steps\nNever invent facts; omit sections with no content. Do not list files — the file manifest is appended mechanically."

-- The client's answer.
pub data Answer (J E : Type 0) : Type 0 where
  refused : E → Answer J E
  answered : CompletionResponse J → Answer J E

-- What `compact` returns: `Err(AgentError::Config(…))`, or the memory and the summary.
pub data Outcome (J : Type 0) : Type 0 where
  failed : String → Outcome J
  compacted : Memory J → String → Outcome J

-- The client, the doubles of a request, and the lower case of a text.
pub record Client (json : Json) : Type 1 where
  pub Double : Type 0
  pub zero_temperature : Double
  pub Error : Type 0
  pub show_error : Error → String
  pub to_lowercase : String → String
  pub complete : CompletionRequest json.Value Double → Answer json.Value Error

module _ (json : Json) where
  block_line : ContentBlock json.Value → String
  block_line (ContentBlock.text body) = format (body ∷ "\n" ∷ [])
  block_line (ContentBlock.tool_use _ name input) =
      format ("(tool_use " ∷ name ∷ " " ∷ json.to_string input ∷ ")\n" ∷ [])
  block_line (ContentBlock.tool_result _ content _) =
      format ("(tool_result " ∷ content ∷ ")\n" ∷ [])

  block_lines : List (ContentBlock json.Value) → List String
  unfolding block_line
  block_lines [] = []
  block_lines (b ∷ blocks) = block_line b ∷ block_lines blocks

  transcript_lines : List (Message json.Value) → List String
  unfolding block_lines
  transcript_lines [] = []
  transcript_lines (m ∷ ms) =
      format ("[" ∷ m.role ∷ "] " ∷ []) ∷ block_lines m.content ++ transcript_lines ms

  unfoldable pub transcript : List (Message json.Value) → String
  unfolding transcript_lines
  transcript ms = format (transcript_lines ms)

  abbrev pub system_of : Option String → String
  system_of none = summary_system
  system_of (some _) = update_system

  abbrev pub prompt_of : Option String → String → String
  prompt_of none text =
      format ("Summarize this conversation history for continuation:\n\n" ∷ text ∷ [])
  prompt_of (some prev) text = format (
      "Update the existing summary with this new conversation history.\n\n<previous-summary>\n"
      ∷ prev ∷ "\n</previous-summary>\n\n<conversation>\n" ∷ text
      ∷ "\n</conversation>\n\nProduce the updated summary now." ∷ [])

  -- The narrative of the model, then the manifest, if it names a file.
  unfoldable pub with_manifest : String → String → String
  unfolding trim_start trim_end
  with_manifest content manifest =
      let summary = trim_start (trim_end content) in
      if manifest == "" then summary else format (summary ∷ "\n\n" ∷ manifest ∷ [])

  abbrev pub summary_anchor : String → String
  summary_anchor summary = format (
      "[Compacted conversation summary — older turns were summarized to save context]\n\n" ∷ summary
      ∷ [])

  abbrev pub add_if_system : Message json.Value → Memory json.Value → Memory json.Value
  add_if_system m mem = if m.role == "system" then add_message m mem else mem

  unfoldable pub add_systems : List (Message json.Value) → Memory json.Value → Memory json.Value
  add_systems [] mem = mem
  add_systems (m ∷ ms) mem = add_systems ms (add_if_system m mem)

  unfoldable pub add_all : List (Message json.Value) → Memory json.Value → Memory json.Value
  add_all [] mem = mem
  add_all (m ∷ ms) mem = add_all ms (add_message m mem)

  -- The system messages of the prefix, the summary as a message of the user, the tail.
  unfoldable pub rebuild :
      Option ℕ → List (Message json.Value) → String → List (Message json.Value) → Memory json.Value
  unfolding add_systems add_all
  rebuild limit prefix summary tail =
      add_all tail (add "user" (summary_anchor summary) (add_systems prefix (new_memory limit)))

module _ (json : Json) (client : Client json) where
  unfoldable pub request :
      String → List ModelCandidate → String → String → CompletionRequest json.Value client.Double
  request model model_chain system prompt = record {
    model = model;
    messages = user prompt ∷ [];
    max_tokens = none;
    temperature = some client.zero_temperature;
    system_prompt = some system;
    tools = [];
    stream = false;
    preferred_provider = none;
    thinking_level = none;
    model_chain = model_chain;
  }

  unfoldable pub with_response :
      Option String → CompletionResponse json.Value → Memory json.Value → ℕ → Outcome json.Value
  with_response (some err) resp mem cut = failed (format ("compaction summary error: " ∷ err ∷ []))
  with_response none resp mem cut =
      let prefix = take cut mem.messages in
      let manifest = format_file_operations (extract_file_ops json client.to_lowercase prefix) in
      let summary = with_manifest json resp.content manifest in
      compacted (rebuild json mem.limit prefix summary (drop cut mem.messages)) summary

  unfoldable pub with_answer :
      Answer json.Value client.Error → Memory json.Value → ℕ → Outcome json.Value
  unfolding with_response
  with_answer (refused e) mem cut =
      failed (format ("compaction summary request failed: " ∷ client.show_error e ∷ []))
  with_answer (answered resp) mem cut = with_response resp.error resp mem cut

  unfoldable pub compact_at :
      Option ℕ
      → Memory json.Value
      → String
      → List ModelCandidate
      → Option String
      → Outcome json.Value
  unfolding with_answer
  compact_at none mem model model_chain previous_summary = failed "memory too short to compact"
  compact_at (some cut) mem model model_chain previous_summary =
      let text = transcript json (take cut mem.messages) in
      with_answer
        (client.complete (
          request model model_chain (system_of json previous_summary)
            (prompt_of json previous_summary text)))
        mem cut

  unfoldable pub compact :
      Memory json.Value
      → String
      → List ModelCandidate
      → CompactionSettings
      → Option String
      → Outcome json.Value
  unfolding compact_at
  compact mem model model_chain settings previous_summary =
      compact_at (find_cut_point json mem.messages settings.keep_recent_tokens) mem model
        model_chain previous_summary
