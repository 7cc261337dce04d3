-- ===== src/Agent/Run/Request.antt =====
-- agent.rs: `build_request`, `try_compact` and `request_with_recovery`.
use Prim.Native.String.{◌++◌ as str_append}
use auto_ai.Common.{
  ℕ, String, List, [], ◌∷◌, ◌++◌, Option, none, some, Bool, true, false, ◌&&◌, ◌==◌, string_eq,
  if◌then◌else◌, unwrap_or, map, ◌≡◌, refl,
}
use auto_ai.Common.Chars.{codes, to_ascii_lowercase}
use auto_ai.Common.Format.{format, show}
use auto_ai.Config.Tier.{ModelTier, display_name}
use auto_ai.Config.Wire.{CompletionRequest, CompletionResponse, ModelCandidate, ModelMeta}
use auto_ai.Agent.Compaction.{estimate_tokens}
use auto_ai.Agent.Compaction.Compact as Compact
use auto_ai.Agent.Compaction.Compact.{Client, Answer, refused, answered, compact}
use auto_ai.Agent.Compaction.Overflow.{is_context_overflow}
use auto_ai.Agent.Role.{Role}
use auto_ai.Agent.Tools.{visible, tool_to_definition}
use auto_ai.Agent.Run.{Agent, AgentError, StreamEvent, Setup, State, emit, emit_all, set_agent}

-- `display_name().to_ascii_lowercase()`
unfoldable pub lower_name : ModelTier → String
lower_name ModelTier.min = "min"
lower_name ModelTier.lite = "lite"
lower_name ModelTier.mid = "mid"
lower_name ModelTier.pro = "pro"
lower_name ModelTier.max = "max"

codes-lower_name :
    (t : ModelTier) → codes (lower_name t) ≡ to_ascii_lowercase (codes (display_name t))
unfolding lower_name to_ascii_lowercase display_name codes
codes-lower_name ModelTier.min = refl
codes-lower_name ModelTier.lite = refl
codes-lower_name ModelTier.mid = refl
codes-lower_name ModelTier.pro = refl
codes-lower_name ModelTier.max = refl

-- The model of a role: the head of its chain, or its pinned model, or its tier.
abbrev pub pinned_or_tier : {F : Type 0} → Role F → String
pinned_or_tier role =
    if role.model == "" then format ("tier:" ∷ lower_name role.model_tier ∷ []) else role.model

abbrev pub model_of : {F : Type 0} → Role F → List ModelCandidate → String
model_of role [] = pinned_or_tier role
model_of role (head ∷ chain) = head.model

abbrev pub with_context : Option String → String → String
with_context none prompt = prompt
with_context (some context) prompt = str_append context (str_append "\n\n---\n\n" prompt)

abbrev pub or_else {ℓ} : {A : Type ℓ} → Option A → Option A → Option A
or_else none b = b
or_else (some a) b = some a

module _ (u : Setup) where
  unfoldable pub build_request : Agent u.json.Value → CompletionRequest u.json.Value u.client.Double
  build_request a = record {
    model = model_of u.role u.role.models;
    messages = a.memory.messages;
    max_tokens = none;
    temperature = some u.role.temperature;
    system_prompt = some (
        with_context a.context_block
          (str_append u.role.system_prompt (unwrap_or a.skills_block "")));
    tools = map tool_to_definition (visible u.role.allowed_tools u.tools);
    stream = false;
    preferred_provider = u.role.preferred_provider;
    thinking_level = or_else a.thinking_override u.role.thinking_level;
    model_chain = u.role.models;
  }

  -- The client as it is in a world.
  abbrev pub client_at : u.World → Client u.json
  client_at w = record u.client { complete = u.complete w }

  abbrev pub compacted_text : Bool → ℕ → String
  compacted_text true est =
      format
        ("context overflow recovered, compacted and retried (was ~" ∷ show est ∷ " tokens)" ∷ [])
  compacted_text false est = format ("context compacted (estimated " ∷ show est ∷ " tokens)" ∷ [])

  abbrev pub after_compact : Bool → ℕ → Compact.Outcome u.json.Value → State u → Bool × State u
  after_compact overflow est (Compact.Outcome.compacted next summary) s = (
    true,
    emit (StreamEvent.warning (compacted_text overflow est))
        (set_agent (record s.agent { memory = next; last_summary = some summary }) s),
  )
  after_compact overflow est (Compact.Outcome.failed e) s =
      (false, emit (StreamEvent.warning (format ("compaction skipped: config error: " ∷ e ∷ []))) s)

  -- `overflow` is whether the reason is "overflow".
  unfoldable pub try_compact : Bool → State u → Bool × State u
  try_compact overflow s =
      let a = s.agent in
      after_compact overflow (estimate_tokens u.json a.memory.messages a.last_usage)
        (compact u.json (client_at s.world) a.memory (model_of u.role u.role.models) u.role.models
          a.compaction a.last_summary)
        (record s { world = u.completed s.world })

  abbrev chunk_event : Option String → Option String → List (StreamEvent u.json.Value)
  chunk_event kind none = []
  chunk_event kind (some body) =
      (if unwrap_or kind "" == "reasoning"
        then StreamEvent.thinking body
        else StreamEvent.delta body)
      ∷ []

  -- The events of the stream callback.
  unfoldable pub chunk_events : List u.json.Value → List (StreamEvent u.json.Value)
  chunk_events [] = []
  chunk_events (ev ∷ evs) =
      chunk_event (u.json.field_str ev "type") (u.json.field_str ev "text") ++ chunk_events evs

  pub data Reply : Type 0 where
    replied : CompletionResponse u.json.Value → Reply
    errored : AgentError u.client.Error → Reply

  abbrev pub send : State u → Answer u.json.Value u.client.Error × State u
  send s =
      let (chunks, (answer, w)) = u.complete_stream s.world (build_request s.agent) in
      (answer, emit_all (chunk_events chunks) (record s { world = w }))

  -- The window follows the model that served, unless it is pinned.
  abbrev pub refresh_window : Option ModelMeta → State u → State u
  refresh_window none s = s
  refresh_window (some meta) s =
      if s.agent.compaction_window_pinned
      then s
      else set_agent
          (record s.agent {
            compaction = record s.agent.compaction { context_window = meta.context_window };
          })
          s

  abbrev pub overflows : State u → String → Bool
  overflows s message =
      s.agent.compaction_enabled && is_context_overflow u.client.to_lowercase message

  abbrev pub settle_error :
      Option String → CompletionResponse u.json.Value → State u → Reply × State u
  settle_error none resp s = (replied resp, refresh_window resp.model_meta s)
  settle_error (some err) resp s = (errored (AgentError.config err), emit (StreamEvent.error err) s)

  -- An answer that is not tried again.
  abbrev pub settle : Answer u.json.Value u.client.Error → State u → Reply × State u
  settle (refused e) s = (errored (AgentError.client e), s)
  settle (answered resp) s = settle_error resp.error resp s

  abbrev pub error_of : Answer u.json.Value u.client.Error → Option String
  error_of (refused e) = some (u.client.show_error e)
  error_of (answered resp) = resp.error

  -- The second request, with the compacted history; its errors are final.
  abbrev pub retry : Answer u.json.Value u.client.Error → Bool × State u → Reply × State u
  retry answer (true, s) = let (second, s') = send s in settle second s'
  retry answer (false, s) = settle answer s

  abbrev pub recover :
      Option String → Answer u.json.Value u.client.Error → State u → Reply × State u
  recover none answer s = settle answer s
  recover (some message) answer s =
      if overflows s message then retry answer (try_compact true s) else settle answer s

  unfoldable pub request_with_recovery : State u → Reply × State u
  request_with_recovery s = let (answer, s') = send s in recover (error_of answer) answer s'
