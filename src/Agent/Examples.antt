-- ===== src/Agent/Examples.antt =====
-- The theorems about the agent at concrete conversations.
use auto_ai.Common.{
  [], ◌∷◌, none, some, true, false, refl, string_eq, ℕ, String, List, ◌≡◌, ◌≤◌, ◌*◌, length, drop,
  filter, find, ◌&&◌, ◌||◌,
}
use auto_ai.Config.Wire.{
  Message, ContentBlock, message, user, assistant, system, result, CompletionResponse,
}
use auto_ai.Agent.Memory.{
  Memory, is_system, extend_pairs, trim_to, non_system, starts_with_assistant, new_memory,
}
use auto_ai.Agent.Compaction.{Json, find_cut_point, is_turn_boundary, tokens, CompactionSettings}
use auto_ai.Agent.Memory.Pairs.{answers, trim-answers}
use auto_ai.Agent.Compaction.Cut.{IsCut, find_cut_point-IsCut}
use auto_ai.Agent.Memory.Window.{anchored, trim-window}
use auto_ai.Agent.Memory.History.{messages_of, systems-extend_pairs}
use auto_ai.Agent.Compaction.Manifest.{touched, asked, extract_file_ops-touched}
use auto_ai.Agent.Compaction.Compact.{Client, Answer}
use auto_ai.Agent.Compaction.Replaced.{Replaced}
use auto_ai.Agent.Compaction.Files.{extract_file_ops}
use auto_ai.Common.BTreeSet.{mem}
use auto_ai.Agent.Repair.{missing}

-- JSON values as their texts, without fields.
abbrev json : Json
json = record { Value = String; to_string = λ v. v; field_str = λ v k. none }

abbrev request : Message String
request = message "assistant" (ContentBlock.tool_use "1" "read" "{}")

abbrev history : List (Message String)
history = system "be kind" ∷ user "task" ∷ request ∷ result "1" "data" ∷ assistant "done" ∷ []

trim-window_example :
    (n : ℕ) × (filter is_system (trim_to (some 1) history) ≡ filter is_system history)
    × (filter non_system (trim_to (some 1) history) ≡ anchored (drop n (filter non_system history)))
    × (length (drop n (filter non_system history)) ≤ 1 * 2)
    × (starts_with_assistant (find non_system (trim_to (some 1) history)) ≡ false)
trim-window_example = trim-window 1 history

trim-answers_example : answers [] (trim_to (some 1) history) ≡ true
trim-answers_example = trim-answers (some 1) history refl

systems-extend_pairs_example :
    filter is_system
      (extend_pairs
        (("system", "be kind") ∷ ("user", "hi") ∷ [])
        (new_memory {J = String} (some 1))).messages
    ≡ filter is_system (messages_of (("system", "be kind") ∷ ("user", "hi") ∷ []))
systems-extend_pairs_example =
    systems-extend_pairs (("system", "be kind") ∷ ("user", "hi") ∷ []) (new_memory (some 1))

abbrev full : Memory String
full = record { messages = request ∷ result "1" "data" ∷ []; limit = some 1 }

abbrev dialogue : List (Message String)
dialogue = user "old task" ∷ assistant "old answer!!" ∷ user "new task" ∷ assistant "ok" ∷ []

dialogue-cut : find_cut_point json dialogue 5 ≡ some 2
unfolding find_cut_point is_turn_boundary tokens
dialogue-cut = refl

find_cut_point-IsCut_example : IsCut json dialogue 5 2
find_cut_point-IsCut_example = find_cut_point-IsCut json dialogue 5 2 dialogue-cut

abbrev response : CompletionResponse String
response = record {
  content = "## Goal";
  tool_calls = [];
  stop_reason = none;
  usage = none;
  model = "m";
  error = none;
  model_meta = none;
}

-- A client that gives one answer.
abbrev client : Client json
client = record {
  Double = ℕ;
  zero_temperature = 0;
  Error = String;
  show_error = λ e. e;
  to_lowercase = λ s. s;
  complete = λ r. Answer.answered response;
}

abbrev kept : Memory String
kept = record { messages = dialogue; limit = some 2 }

abbrev settings : CompactionSettings
settings = record { context_window = 128000; reserve_tokens = 16384; keep_recent_tokens = 5 }

-- One file is read, and the other one read and written.
abbrev with_files : Json
with_files = record { Value = String; to_string = λ v. v; field_str = λ v k. some v }

abbrev edits : List (Message String)
edits =
    message "assistant" (ContentBlock.tool_use "1" "read_file" "a.rs")
    ∷ message "assistant" (ContentBlock.tool_use "2" "read_file" "b.rs")
    ∷ message "assistant" (ContentBlock.tool_use "3" "write_file" "b.rs")
    ∷ []

extract_file_ops-touched_example :
    (touched "b.rs" (extract_file_ops with_files (λ s. s) edits)
      ≡ asked with_files (λ s. s) "b.rs" edits)
    × ((mem "b.rs" (extract_file_ops with_files (λ s. s) edits).read
          && (mem "b.rs" (extract_file_ops with_files (λ s. s) edits).edited
              || mem "b.rs" (extract_file_ops with_files (λ s. s) edits).written))
        ≡ false)
extract_file_ops-touched_example = extract_file_ops-touched with_files (λ s. s) "b.rs" edits

-- One of two calls has its result.
abbrev interrupted : Memory String
interrupted = record {
  messages =
      user "task"
      ∷ record {
        role = "assistant";
        content =
            ContentBlock.tool_use "1" "read" "{}" ∷ ContentBlock.tool_use "2" "write" "{}" ∷ [];
      }
      ∷ result "1" "data"
      ∷ [];
  limit = none;
}

interrupted-missing : missing interrupted.messages ≡ "2" ∷ []
unfolding missing
interrupted-missing = refl
