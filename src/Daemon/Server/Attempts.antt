-- ===== src/Daemon/Server/Attempts.antt =====
-- server.rs: `chat_completions`, the attempts over the candidates.
use auto_ai.Common.{
  ℕ, ◌+◌, String, List, [], ◌∷◌, Option, none, some, Bool, true, false, ◌&&◌, string_eq,
  if◌then◌else◌, ltb, ◌⊎◌, inl, inr,
}
use auto_ai.Common.Format.{format}
use auto_ai.Common.HashMap
use auto_ai.Config.Wire.{CompletionRequest, CompletionResponse, Usage}
use auto_ai.Daemon.Errors.{LlmError, is_quota_exhausted, is_retryable, show_llm_error}
use auto_ai.Daemon.Pool.{ConcurrencyManager, acquire, drop_permit}
use auto_ai.Daemon.Pool.Balanced.{without}
use auto_ai.Daemon.Server.{
  Server, AiProvider, AppState, quota_exhausted, upstream_error, all_failed, Response, ok, stream,
  refused,
}
use auto_ai.Daemon.Server.Route.{Candidate, Routed, rejected, routed, route, model_meta_for}
use auto_ai.Daemon.Tracker.{record_full, record_short}

-- The wait for a permit in seconds: short on an explicit chain, where a candidate follows.
abbrev pub permit_wait : Bool → ℕ → ℕ → ℕ
permit_wait is_explicit_chain idx total = if is_explicit_chain && ltb (idx + 1) total then 1 else 30

-- What an attempt comes to: the next candidate, after an error, or a response.
pub data Verdict (J F : Type 0) : Type 0 where
  passed : (last_error : String) → Verdict J F
  responded : Response J F → Verdict J F

abbrev is_nonempty {ℓ} : {A : Type ℓ} → List A → Bool
is_nonempty [] = false
is_nonempty (_ ∷ _) = true

module _ (sv : Server) where
  abbrev pub Request : Type 0
  Request = CompletionRequest sv.J sv.F

  abbrev pub Attempt : Type 0
  Attempt = Verdict sv.J sv.F × AppState sv

  -- The guard of the provider is dropped.
  abbrev pub release : String → AppState sv → AppState sv
  release provider s = record s {
    pool = drop_permit sv.tokio provider s.pool;
    held = without provider s.held;
  }

  abbrev pub charge_usage : String → Option Usage → AppState sv → AppState sv
  charge_usage app none s = s
  charge_usage app (some u) s = record s {
    tracker =
        record_full
          (record {
            app = app;
            input = u.input_tokens;
            output = u.output_tokens;
            cache_read = u.cache_read_tokens;
            cache_write = u.cache_write_tokens;
          })
          s.tracker;
  }

  -- An error of the provider: of the account, of the provider alone, or of the request.
  abbrev pub judge : LlmError → Verdict sv.J sv.F
  judge e =
      if is_quota_exhausted sv.to_lowercase e
      then responded (refused (quota_exhausted e))
      else if is_retryable e
      then passed (show_llm_error e)
      else responded (refused (upstream_error e))

  unfoldable pub settle :
      String → Candidate → CompletionResponse sv.J ⊎ LlmError → AppState sv → Attempt
  settle app (provider, model_id) (inl resp) s = (
    responded (ok (record resp { model_meta = model_meta_for sv.config provider model_id })),
    release provider (charge_usage app resp.usage s),
  )
  settle app (provider, model_id) (inr e) s = (judge e, release provider s)

  abbrev pub call : String → Candidate → AiProvider sv.J sv.F sv.W → Request → AppState sv → Attempt
  call app c p req s =
      let (result, w) = p.complete s.world req in settle app c result (record s { world = w })

  -- A stream keeps the guard; any other call ends here.
  abbrev pub serve :
      Bool → String → Candidate → AiProvider sv.J sv.F sv.W → Request → AppState sv → Attempt
  serve true app (provider, model_id) p req s =
      (responded (stream provider req (model_meta_for sv.config provider model_id)), s)
  serve false app c p req s = call app c p req s

  -- The candidate's turn, its guard taken. Leaving the scope drops the guard.
  unfoldable pub with_permit :
      String → Candidate → Option (AiProvider sv.J sv.F sv.W) → Request → AppState sv → Attempt
  with_permit app (provider, model_id) none req s =
      (passed (format ("provider '" ∷ provider ∷ "' not in registry" ∷ [])), release provider s)
  with_permit app c (some p) req s = serve req.stream app c p req s

  abbrev pub with_acquired :
      String → Candidate → Option (ConcurrencyManager sv.tokio) → Request → AppState sv → Attempt
  with_acquired app (provider, model_id) none req s =
      (passed (format ("provider '" ∷ provider ∷ "' concurrency pool unavailable" ∷ [])), s)
  with_acquired app (provider, model_id) (some pool) req s =
      with_permit app (provider, model_id) (HashMap.get provider sv.registry)
        (record req { model = model_id }) (record s { pool = pool; held = provider ∷ s.held })

  -- One pass of the loop over the candidates.
  unfoldable pub attempt : String → Candidate → Request → AppState sv → Attempt
  attempt app (provider, model_id) req s =
      with_acquired app (provider, model_id) (acquire sv.tokio provider s.pool) req s

  abbrev pub continue_with :
      (Option String → AppState sv → Response sv.J sv.F × AppState sv)
      → Attempt
      → Response sv.J sv.F × AppState sv
  continue_with next (passed e, s) = next (some e) s
  continue_with next (responded r, s) = (r, s)

  unfoldable pub try_all :
      String
      → Request
      → List Candidate
      → Option String
      → AppState sv
      → Response sv.J sv.F × AppState sv
  try_all app req [] last_error s = (refused (all_failed last_error), s)
  try_all app req (c ∷ cs) last_error s = continue_with (try_all app req cs) (attempt app c req s)

  abbrev pub serve_routed :
      String → Request → Routed → AppState sv → Response sv.J sv.F × AppState sv
  serve_routed app req (rejected r) s = (refused r, s)
  serve_routed app req (routed cs) s = try_all app req cs none s

  unfoldable pub chat_completions :
      String → Request → AppState sv → Response sv.J sv.F × AppState sv
  chat_completions app req s = serve_routed app req (route sv req) s

  abbrev pub charge_stream : String → Option Usage → AppState sv → AppState sv
  charge_stream app none s = s
  charge_stream app (some u) s = record s {
    tracker = record_short app u.input_tokens u.output_tokens s.tracker;
  }

  -- The end of the task that `streaming_response` spawns: an answer's usage is recorded, and the
  -- guard is dropped; `usage` is `none` where the provider failed.
  unfoldable pub end_stream : String → Option Usage → Response sv.J sv.F → AppState sv → AppState sv
  end_stream app usage (ok resp) s = s
  end_stream app usage (stream provider req meta) s = release provider (charge_stream app usage s)
  end_stream app usage (refused r) s = s
