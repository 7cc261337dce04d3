-- ===== src/Agent/Run/Rules.antt =====
-- Rules for parts of a run that go on or end it, and what a request leaves as it was.
use auto_ai.Common.{
  String, Option, none, some, Bool, true, false, ◌≡◌, refl, arith, Bool-cases, inl, inr, ◌∙◌, ℕ,
}
use auto_ai.Config.Wire.{ModelMeta, CompletionResponse}
use auto_ai.Agent.Compaction.Compact as Compact
use auto_ai.Agent.Compaction.Compact.{Answer, refused, answered, compact}
use auto_ai.Agent.Run.{Setup, State, Session, Next, go_on, stop, ◌then_do◌}
use auto_ai.Agent.Run.Request.{
  request_with_recovery, try_compact, after_compact, settle, settle_error, retry, recover, send,
  error_of, overflows, refresh_window, client_at, model_of,
}
use auto_ai.Agent.Compaction.{estimate_tokens}

module _ {S O : Type 0} where
  -- A postcondition of a part that goes on, and one of a part that ends the run.
  pub data Ensures (Q : S → Type 0) (P : O → S → Type 0) : Next S O → Type 0 where
    goes_on : {s : S} → Q s → Ensures Q P (go_on s)
    stops : {o : O} {s : S} → P o s → Ensures Q P (stop o s)

  pub Ensures-then_do :
      {Q R : S → Type 0} {P : O → S → Type 0} {n : Next S O} {f : S → Next S O}
      → Ensures Q P n
      → ((s : S) → Q s → Ensures R P (f s))
      → Ensures R P (n then_do f)
  Ensures-then_do (goes_on {s} h) k = k s h
  Ensures-then_do (stops h) k = stops h

  -- A part that ends the run, with a postcondition.
  abbrev pub Ends : (O → S → Type 0) → Next S O → Type 0
  Ends P n = (o : O) × (s : S) × (n ≡ stop o s) × P o s

  pub Ends-of_Ensures : {P : O → S → Type 0} {n : Next S O} → Ensures (λ s. ⊥) P n → Ends P n
  Ends-of_Ensures (goes_on h) = elim h [ ]
  Ends-of_Ensures (stops {o} {s} h) = (o, s, refl, h)

module _ {J W : Type 0} where
  -- What a request leaves as it was.
  pub record Kept (s s' : Session J W) : Type 0 where
    pub result : s'.result ≡ s.result
    pub seen : s'.seen ≡ s.seen
    pub corrected : s'.corrected ≡ s.corrected
    pub enabled : s'.agent.compaction_enabled ≡ s.agent.compaction_enabled
    pub follow_ups : s'.agent.follow_ups ≡ s.agent.follow_ups

  pub Kept-trans : {s t r : Session J W} → Kept s t → Kept t r → Kept s r
  Kept-trans h k = record {
    result = k.result ∙ h.result;
    seen = k.seen ∙ h.seen;
    corrected = k.corrected ∙ h.corrected;
    enabled = k.enabled ∙ h.enabled;
    follow_ups = k.follow_ups ∙ h.follow_ups;
  }

module _ (u : Setup) where
  after_compact-Kept :
      (overflow : Bool) (est : ℕ) (o : Compact.Outcome u.json.Value) (s : State u)
      → Kept s (after_compact u overflow est o s).1
  after_compact-Kept overflow est (Compact.Outcome.compacted next summary) s = record {
    result = refl;
    seen = refl;
    corrected = refl;
    enabled = refl;
    follow_ups = refl;
  }
  after_compact-Kept overflow est (Compact.Outcome.failed e) s = record {
    result = refl;
    seen = refl;
    corrected = refl;
    enabled = refl;
    follow_ups = refl;
  }

  pub try_compact-Kept : (overflow : Bool) (s : State u) → Kept s (try_compact u overflow s).1
  unfolding try_compact
  try_compact-Kept overflow s =
      Kept-trans
        (record { result = refl; seen = refl; corrected = refl; enabled = refl; follow_ups = refl })
        (after_compact-Kept overflow
          (estimate_tokens u.json s.agent.memory.messages s.agent.last_usage)
          (compact u.json (client_at u s.world) s.agent.memory (model_of u.role u.role.models)
            u.role.models s.agent.compaction s.agent.last_summary)
          (record s { world = u.completed s.world }))

  pub refresh_window-Kept :
      (meta : Option ModelMeta) (s : State u) → Kept s (refresh_window u meta s)
  refresh_window-Kept none s = record {
    result = refl;
    seen = refl;
    corrected = refl;
    enabled = refl;
    follow_ups = refl;
  }
  refresh_window-Kept (some meta) s = elim (Bool-cases s.agent.compaction_window_pinned) [
    | inl pinned ↦
        rw pinned (record {
          result = refl;
          seen = refl;
          corrected = refl;
          enabled = refl;
          follow_ups = refl;
        })
    | inr free ↦
        rw free (record {
          result = refl;
          seen = refl;
          corrected = refl;
          enabled = refl;
          follow_ups = refl;
        })
  ]

  settle_error-Kept :
      (err : Option String) (resp : CompletionResponse u.json.Value) (s : State u)
      → Kept s (settle_error u err resp s).1
  settle_error-Kept none resp s = refresh_window-Kept resp.model_meta s
  settle_error-Kept (some err) resp s = record {
    result = refl;
    seen = refl;
    corrected = refl;
    enabled = refl;
    follow_ups = refl;
  }

  settle-Kept :
      (answer : Answer u.json.Value u.client.Error) (s : State u) → Kept s (settle u answer s).1
  settle-Kept (refused e) s = record {
    result = refl;
    seen = refl;
    corrected = refl;
    enabled = refl;
    follow_ups = refl;
  }
  settle-Kept (answered resp) s = settle_error-Kept resp.error resp s

  send-Kept : (s : State u) → Kept s (send u s).1
  send-Kept s = record {
    result = refl;
    seen = refl;
    corrected = refl;
    enabled = refl;
    follow_ups = refl;
  }

  retry-Kept :
      (answer : Answer u.json.Value u.client.Error) (compacted : Bool × State u)
      → Kept compacted.1 (retry u answer compacted).1
  retry-Kept answer (true, s) = Kept-trans (send-Kept s) (settle-Kept _ _)
  retry-Kept answer (false, s) = settle-Kept answer s

  recover-Kept :
      (err : Option String) (answer : Answer u.json.Value u.client.Error) (s : State u)
      → Kept s (recover u err answer s).1
  recover-Kept none answer s = settle-Kept answer s
  recover-Kept (some err) answer s = elim (Bool-cases (overflows u s err)) [
    | inl over ↦ rw over (Kept-trans (try_compact-Kept true s) (retry-Kept answer _))
    | inr within ↦ rw within (settle-Kept answer s)
  ]

  pub request_with_recovery-Kept : (s : State u) → Kept s (request_with_recovery u s).1
  unfolding request_with_recovery
  request_with_recovery-Kept s = Kept-trans (send-Kept s) (recover-Kept _ _ _)

  refresh_window-memory :
      (meta : Option ModelMeta) (s : State u)
      → (refresh_window u meta s).agent.memory ≡ s.agent.memory
  refresh_window-memory none s = refl
  refresh_window-memory (some meta) s = elim (Bool-cases s.agent.compaction_window_pinned) [
    | inl pinned ↦ rw pinned
    | inr free ↦ rw free
  ]

  settle_error-memory :
      (err : Option String) (resp : CompletionResponse u.json.Value) (s : State u)
      → (settle_error u err resp s).1.agent.memory ≡ s.agent.memory
  settle_error-memory none resp s = refresh_window-memory resp.model_meta s
  settle_error-memory (some err) resp s = refl

  settle-memory :
      (answer : Answer u.json.Value u.client.Error) (s : State u)
      → (settle u answer s).1.agent.memory ≡ s.agent.memory
  settle-memory (refused e) s = refl
  settle-memory (answered resp) s = settle_error-memory resp.error resp s

  overflows-false :
      (s : State u) (err : String) → s.agent.compaction_enabled ≡ false → overflows u s err ≡ false
  overflows-false s err off = ground arith

  recover-memory :
      (err : Option String) (answer : Answer u.json.Value u.client.Error) (s : State u)
      → s.agent.compaction_enabled ≡ false
      → (recover u err answer s).1.agent.memory ≡ s.agent.memory
  recover-memory none answer s off = settle-memory answer s
  recover-memory (some err) answer s off = rw (overflows-false s err off) (settle-memory answer s)

  -- Where compaction is off, a request leaves the memory as it was.
  pub request_with_recovery-memory :
      (s : State u)
      → s.agent.compaction_enabled ≡ false
      → (request_with_recovery u s).1.agent.memory ≡ s.agent.memory
  unfolding request_with_recovery
  request_with_recovery-memory s off =
      recover-memory (error_of u (send u s).0) (send u s).0 (send u s).1 off
