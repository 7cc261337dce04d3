-- ===== src/Orchestration/Pipeline/Operations.antt =====
-- The operations of a pipeline engine as data, and a history of them.
use auto_ai.Common.{ℕ, String, List, [], ◌∷◌, Option, none, some, ◌>>=◌}
use auto_ai.Orchestration.Handoff.{HandoffDocument}
use auto_ai.Orchestration.Pipeline.{PipelineEngine, GateDecision, advance, fail}
use auto_ai.Orchestration.Pipeline.Submit.{submit_handoff}
use auto_ai.Orchestration.Pipeline.Control.{resolve_gate, pause, resume, rerun}

pub data Operation : Type 0 where
  advances : ℕ → Operation
  submits : ℕ → HandoffDocument → Operation
  resolves : ℕ → GateDecision → Operation
  pauses : Operation
  resumes : ℕ → Operation
  reruns : ℕ → Operation
  fails : String → Operation

abbrev pub state_of {ℓ} : {R : Type ℓ} → Option (PipelineEngine × R) → Option PipelineEngine
state_of none = none
state_of (some (e, _)) = some e

-- The engine after one operation; `none` is a panic.
unfoldable pub perform : Operation → PipelineEngine → Option PipelineEngine
perform (advances now) e = state_of (advance now e)
perform (submits now h) e = state_of (submit_handoff now h e)
perform (resolves now d) e = state_of (resolve_gate now d e)
perform pauses e = some (pause e)
perform (resumes now) e = state_of (resume now e)
perform (reruns now) e = state_of (rerun now e)
perform (fails msg) e = some (fail msg e).0

unfoldable pub perform_all : List Operation → PipelineEngine → Option PipelineEngine
perform_all [] e = some e
perform_all (o ∷ os) e = do e' ← perform o e; perform_all os e'
