-- ===== src/Agent/Compaction/Replaced.antt =====
-- What a compaction that succeeds leaves of the memory.
use auto_ai.Common.{◌∷◌, ◌++◌, string_eq, List, ◌≡◌, filter, Option, ℕ, String, take, drop}
use auto_ai.Agent.Memory.{Memory, is_system}
use auto_ai.Agent.Memory.Room.{Room}
use auto_ai.Agent.Compaction.{Json}
use auto_ai.Agent.Compaction.Compact.{
  Client, Outcome, summary_anchor, request, system_of, prompt_of, transcript, with_manifest,
}
use auto_ai.Config.Wire.{user, ModelCandidate, CompletionRequest}
use auto_ai.Agent.Compaction.Files.{format_file_operations, extract_file_ops}

module _ (json : Json) (client : Client json) where
  -- The request of a compaction at `cut`.
  abbrev pub request_at :
      Memory json.Value
      → ℕ
      → String
      → List ModelCandidate
      → Option String
      → CompletionRequest json.Value client.Double
  request_at mem cut model model_chain previous_summary =
      request json client model model_chain (system_of json previous_summary)
        (prompt_of json previous_summary (transcript json (take cut mem.messages)))

  -- A compaction that succeeds: the messages before the cut are replaced by their system messages and
  -- the summary, which ends in the manifest of the files they touched; the tail stays.
  abbrev pub Replaced : Memory json.Value → ℕ → String → Outcome json.Value → Type 0
  Replaced mem cut content (Outcome.failed _) = ⊥
  Replaced mem cut content (Outcome.compacted next summary) =
      (summary
        ≡ with_manifest json content (
            format_file_operations
              (extract_file_ops json client.to_lowercase (take cut mem.messages))))
      × (next.messages
          ≡ filter is_system (take cut mem.messages)
            ++ user (summary_anchor json summary) ∷ drop cut mem.messages)
