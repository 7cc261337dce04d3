-- ===== src/Agent/Run.antt =====
-- agent.rs: the state of an agent and of one run of its loop. What is outside the agent is a world
-- `World`, which each call of the client, each tool and each read of the cancel flag or of a queue may
-- change; a message that is pushed into a queue while the agent works arrives at the next read.
mod Examples
pub mod Request
pub mod Batch
pub mod Loop
pub mod Rules
pub mod Told
pub mod Book
pub mod Guard
pub mod Pairing
pub mod Paired
pub mod Turns
pub mod Answered
use auto_ai.Common.{
  ℕ, zero, ◌+◌, String, List, [], ◌∷◌, ◌++◌, Option, none, some, Bool, true, false, length, ltb,
  if◌then◌else◌,
}
use auto_ai.Common.Format.{format, show}
use auto_ai.Common.HashMap.{HashMap}
use auto_ai.Config.Wire.{Usage, CompletionRequest}
use auto_ai.Agent.Memory.{Memory, add, new_memory}
use auto_ai.Agent.Compaction.{Json, CompactionSettings, default_settings}
use auto_ai.Agent.Compaction.Compact.{Client, Answer}
use auto_ai.Agent.Role.{Role}
use auto_ai.Agent.Tools.{Tool}
use auto_ai.Orchestration.Driver.{ToolCallRecord, AgentResult}

pub data StreamEvent (J : Type 0) : Type 0 where
  turn_start : ℕ → StreamEvent J
  turn_end : (turn : ℕ) → Option Usage → (tool_count : ℕ) → StreamEvent J
  delta : String → StreamEvent J
  thinking : String → StreamEvent J
  tool_start : (tool : String) → J → StreamEvent J
  warning : String → StreamEvent J
  tool : (tool : String) → J → (result : String) → Option J → StreamEvent J
  done : AgentResult J → StreamEvent J
  cancelled : AgentResult J → StreamEvent J
  error : String → StreamEvent J

-- `E` is an error of the client.
pub data AgentError (E : Type 0) : Type 0 where
  client : E → AgentError E
  max_turns_exceeded : ℕ → AgentError E
  loop_detected : String → AgentError E
  config : String → AgentError E

pub record Agent (J : Type 0) : Type 0 where
  pub memory : Memory J
  pub skills_block : Option String
  pub context_block : Option String
  pub steering : List String
  pub follow_ups : List String
  pub last_usage : Option Usage
  pub compaction : CompactionSettings
  pub compaction_enabled : Bool
  pub compaction_window_pinned : Bool
  pub last_summary : Option String
  pub thinking_override : Option String

-- What an agent is built from, and the world it runs in.
pub record Setup : Type 1 where
  pub json : Json
  pub client : Client json
  pub World : Type 0
  pub complete : World → CompletionRequest json.Value client.Double → Answer json.Value client.Error
  pub completed : World → World  -- after a request of `complete`
  pub complete_stream :
      World
      → CompletionRequest json.Value client.Double
      → List json.Value × (Answer json.Value client.Error × World)
  pub cancelled : World → Bool × World
  pub steered : World → List String × World
  pub followed_up : World → List String × World
  pub role : Role client.Double
  pub tools : HashMap String (Tool json.Value World)

-- An agent in a run: its events so far, and the variables of `run_inner`.
pub record Session (J W : Type 0) : Type 0 where
  pub agent : Agent J
  pub world : W
  pub events : List (StreamEvent J)
  pub result : AgentResult J
  pub seen : HashMap String ℕ
  pub corrected : List String
  pub security_errors : ℕ

-- How a run ends.
pub data Outcome (J E : Type 0) : Type 0 where
  finished : AgentResult J → Outcome J E
  failed : AgentError E → Outcome J E

-- A part of a run goes on, or ends the run.
pub data Next (S O : Type 0) : Type 0 where
  go_on : S → Next S O
  stop : O → S → Next S O

module _ {S O : Type 0} where
  infixl 5 ◌then_do◌
  abbrev pub ◌then_do◌ : Next S O → (S → Next S O) → Next S O
  go_on s then_do f = f s
  stop o s then_do f = stop o s

module _ {J : Type 0} where
  abbrev pub new_agent : Option ℕ → Agent J
  new_agent limit = record {
    memory = new_memory limit;
    skills_block = none;
    context_block = none;
    steering = [];
    follow_ups = [];
    last_usage = none;
    compaction = default_settings;
    compaction_enabled = true;
    compaction_window_pinned = false;
    last_summary = none;
    thinking_override = none;
  }

  abbrev pub steer : String → Agent J → Agent J
  steer msg a = record a { steering = a.steering ++ msg ∷ [] }

  abbrev pub follow_up : String → Agent J → Agent J
  follow_up msg a = record a { follow_ups = a.follow_ups ++ msg ∷ [] }

  abbrev pub set_compaction_settings : CompactionSettings → Agent J → Agent J
  set_compaction_settings settings a = record a {
    compaction = settings;
    compaction_window_pinned = true;
  }

  abbrev pub set_compaction_enabled : Bool → Agent J → Agent J
  set_compaction_enabled on a = record a { compaction_enabled = on }

  abbrev pub set_thinking_level_override : Option String → Agent J → Agent J
  set_thinking_level_override level a = record a { thinking_override = level }

  -- `while let Some(msg) = queue.pop_front() { memory.add("user", &msg) }`
  unfoldable pub add_users : List String → Memory J → Memory J
  add_users [] mem = mem
  add_users (msg ∷ msgs) mem = add_users msgs (add "user" msg mem)

  abbrev pub no_result : AgentResult J
  no_result = record { output = ""; turns = 0; tool_calls = []; total_tokens = 0 }

  module _ {W : Type 0} where
    abbrev pub emit : StreamEvent J → Session J W → Session J W
    emit ev s = record s { events = s.events ++ ev ∷ [] }

    abbrev pub emit_all : List (StreamEvent J) → Session J W → Session J W
    emit_all evs s = record s { events = s.events ++ evs }

    abbrev pub set_agent : Agent J → Session J W → Session J W
    set_agent a s = record s { agent = a }

    abbrev pub set_memory : Memory J → Session J W → Session J W
    set_memory mem s = record s { agent = record s.agent { memory = mem } }

module _ (u : Setup) where
  abbrev pub State : Type 0
  State = Session u.json.Value u.World

  abbrev pub End : Type 0
  End = Outcome u.json.Value u.client.Error

  abbrev pub Turn : Type 0
  Turn = Next State End

  -- `cancel.load(..)`: what the flag is, and the state after it is read.
  abbrev pub read_cancel : State → Bool × State
  read_cancel s = let (flag, w) = u.cancelled s.world in (flag, record s { world = w })

  -- The messages that were pushed into a queue in the meantime arrive.
  abbrev pub arrive_steering : State → State
  arrive_steering s =
      let (msgs, w) = u.steered s.world in
      record s { world = w; agent = record s.agent { steering = s.agent.steering ++ msgs } }

  abbrev pub arrive_follow_ups : State → State
  arrive_follow_ups s =
      let (msgs, w) = u.followed_up s.world in
      record s { world = w; agent = record s.agent { follow_ups = s.agent.follow_ups ++ msgs } }

  abbrev pub report_dropped : ℕ → State → State
  report_dropped n s =
      if ltb 0 n
      then emit
          (StreamEvent.warning
            (format ("cancelled: " ∷ show n ∷ " steering message(s) dropped" ∷ [])))
          s
      else s

  abbrev pub drop_steering : State → State
  drop_steering s =
      report_dropped (length s.agent.steering) (set_agent (record s.agent { steering = [] }) s)

  unfoldable pub clear_steering_on_cancel : State → State
  clear_steering_on_cancel s = drop_steering (arrive_steering s)

  -- The run stops at a checkpoint, with the results so far.
  unfoldable pub stop_cancelled : State → Turn
  unfolding clear_steering_on_cancel
  stop_cancelled s =
      stop (Outcome.finished s.result)
        (emit (StreamEvent.cancelled s.result) (clear_steering_on_cancel s))
