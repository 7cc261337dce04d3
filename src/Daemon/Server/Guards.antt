-- ===== src/Daemon/Server/Guards.antt =====
-- The guards that a request takes and drops, as steps of the pool.
use auto_ai.Common.HashMap
use auto_ai.Common.{
  [], ◌∷◌, none, some, refl, string_eq, arith, inl, inr, String, List, ◌≡◌, ◌<◌, beq-true_self,
  Bool-cases, Option, ◌∙◌, ◌⊎◌, ap, Bool, true, false,
}
use auto_ai.Daemon.Pool.Balanced.{Steps, done, then, acquired, released, without, held_by}
use auto_ai.Daemon.Server.Attempts.{
  passed, responded, Verdict, Attempt, judge, settle, Request, try_all, chat_completions, attempt,
  with_permit, release, continue_with, with_acquired, serve_routed, charge_usage, serve, end_stream,
  charge_stream,
}
use auto_ai.Daemon.Server.{ok, stream, refused, Server, Response, AppState, AiProvider}
use auto_ai.Daemon.Pool.{acquire, drop_permit, ConcurrencyManager}
use auto_ai.Daemon.Errors.{is_quota_exhausted, is_retryable, LlmError}
use auto_ai.Daemon.Server.Route.{Routed, Candidate, route, rejected, routed}
use auto_ai.Config.Wire.{Usage, CompletionResponse}

module _ (sv : Server) where
  abbrev Reaches : AppState sv → AppState sv → Type 0
  Reaches s s' = Steps sv.tokio (s.pool, s.held) (s'.pool, s'.held)

  Steps-append :
      {s t r : ConcurrencyManager sv.tokio × List String}
      → Steps sv.tokio s t
      → Steps sv.tokio t r
      → Steps sv.tokio s r
  Steps-append done k = k
  Steps-append (then h hs) k = then h (Steps-append hs k)

  -- The guards after a response: those before it, and the stream's own.
  abbrev pub held_after : Response sv.J sv.F → List String → List String
  held_after (ok resp) held = held
  held_after (stream provider req meta) held = provider ∷ held
  held_after (refused r) held = held

  abbrev HeldAfter : Verdict sv.J sv.F → List String → List String → Type 0
  HeldAfter (passed e) held held' = held' ≡ held
  HeldAfter (responded r) held held' = held' ≡ held_after r held

  -- An attempt takes steps of the pool, and keeps a guard only for a stream.
  abbrev Keeps : AppState sv → Attempt sv → Type 0
  Keeps s (v, s') = Reaches s s' × HeldAfter v s.held s'.held

  without-cons : (p : String) (held : List String) → without p (p ∷ held) ≡ held
  without-cons p held = rw (beq-true_self p)

  held_by-cons : (p : String) (held : List String) → 0 < held_by p (p ∷ held)
  held_by-cons p held = rw (beq-true_self p) (omega arith)

  -- A guard that was taken is dropped.
  Steps-taken :
      {m m' : ConcurrencyManager sv.tokio} (p : String) (held : List String)
      → acquire sv.tokio p m ≡ some m'
      → Steps sv.tokio (m, held) (drop_permit sv.tokio p m', without p (p ∷ held))
  Steps-taken p held got = then (acquired p got) (then (released p (held_by-cons p held)) done)

  judge-HeldAfter : (e : LlmError) (held : List String) → HeldAfter (judge sv e) held held
  judge-HeldAfter e held = elim (Bool-cases (is_quota_exhausted sv.to_lowercase e)) [
    | inl quota ↦ rw quota refl
    | inr other ↦ elim (Bool-cases (is_retryable e)) [
      | inl again ↦ rw (other, again) refl
      | inr final ↦ rw (other, final) refl
    ]
  ]

  -- The state with the guard of a provider taken since `s0`.
  pub record Taken (p : String) (s0 s : AppState sv) : Type 0 where
    pub got : acquire sv.tokio p s0.pool ≡ some s.pool
    pub holds : s.held ≡ p ∷ s0.held

  Taken-release :
      {p : String} {s0 s : AppState sv}
      → Taken p s0 s
      → Reaches s0 (release sv p s) × ((release sv p s).held ≡ s0.held)
  Taken-release {p} {s0} {s} h =
      (rw h.holds (Steps-taken p s0.held h.got), rw h.holds (without-cons p s0.held))

  Taken-charge_usage :
      {p : String} {s0 : AppState sv} (app : String) (usage : Option Usage) (s : AppState sv)
      → Taken p s0 s
      → Taken p s0 (charge_usage sv app usage s)
  Taken-charge_usage app none s h = h
  Taken-charge_usage app (some u) s h = record { got = h.got; holds = h.holds }

  settle-Keeps :
      (app p model_id : String) (result : CompletionResponse sv.J ⊎ LlmError) (s0 s : AppState sv)
      → Taken p s0 s
      → Keeps s0 (settle sv app (p, model_id) result s)
  unfolding settle
  settle-Keeps app p model_id (inl resp) s0 s h =
      Taken-release (Taken-charge_usage app resp.usage s h)
  settle-Keeps app p model_id (inr e) s0 s h =
      let (steps, same) = Taken-release h in (steps, rw same (judge-HeldAfter e s0.held))

  serve-Keeps :
      (streams : Bool) (app p model_id : String) (provider : AiProvider sv.J sv.F sv.W)
      (req : Request sv) (s0 s : AppState sv)
      → Taken p s0 s
      → Keeps s0 (serve sv streams app (p, model_id) provider req s)
  serve-Keeps true app p model_id provider req s0 s h =
      (rw h.holds (then (acquired p h.got) done), h.holds)
  serve-Keeps false app p model_id provider req s0 s h =
      settle-Keeps app p model_id (provider.complete s.world req).0 s0
        (record s { world = (provider.complete s.world req).1 })
        (record { got = h.got; holds = h.holds })

  with_permit-Keeps :
      (app p model_id : String) (found : Option (AiProvider sv.J sv.F sv.W)) (req : Request sv)
      (s0 s : AppState sv)
      → Taken p s0 s
      → Keeps s0 (with_permit sv app (p, model_id) found req s)
  unfolding with_permit
  with_permit-Keeps app p model_id none req s0 s h = Taken-release h
  with_permit-Keeps app p model_id (some provider) req s0 s h =
      serve-Keeps req.stream app p model_id provider req s0 s h

  with_acquired-Keeps :
      (app p model_id : String) (got : Option (ConcurrencyManager sv.tokio)) (req : Request sv)
      (s : AppState sv)
      → acquire sv.tokio p s.pool ≡ got
      → Keeps s (with_acquired sv app (p, model_id) got req s)
  with_acquired-Keeps app p model_id none req s h = (done, refl)
  with_acquired-Keeps app p model_id (some pool) req s h =
      with_permit-Keeps app p model_id (HashMap.get p sv.registry) (record req { model = model_id })
        s (record s { pool = pool; held = p ∷ s.held }) (record { got = h; holds = refl })

  attempt-Keeps :
      (app p model_id : String) (req : Request sv) (s : AppState sv)
      → Keeps s (attempt sv app (p, model_id) req s)
  unfolding attempt
  attempt-Keeps app p model_id req s =
      with_acquired-Keeps app p model_id (acquire sv.tokio p s.pool) req s refl

  abbrev Ends : AppState sv → Response sv.J sv.F × AppState sv → Type 0
  Ends s (r, s') = Reaches s s' × (s'.held ≡ held_after r s.held)

  continue-Ends :
      (s : AppState sv) (att : Attempt sv)
      (next : Option String → AppState sv → Response sv.J sv.F × AppState sv)
      → ((e : Option String) (s' : AppState sv) → Ends s' (next e s'))
      → Keeps s att
      → Ends s (continue_with sv next att)
  continue-Ends s (passed e, s') next ends (steps, same) =
      let (more, last) = ends (some e) s' in
      (Steps-append steps more, last ∙ ap (held_after (next (some e) s').0) same)
  continue-Ends s (responded r, s') next ends keeps = keeps

  try_all-Ends :
      (app : String) (req : Request sv) (cs : List Candidate) (e : Option String) (s : AppState sv)
      → Ends s (try_all sv app req cs e s)
  unfolding try_all
  try_all-Ends app req [] e s = (done, refl)
  try_all-Ends app req ((p, model_id) ∷ cs) e s =
      continue-Ends s (attempt sv app (p, model_id) req s) (try_all sv app req cs)
        (try_all-Ends app req cs) (attempt-Keeps app p model_id req s)

  serve_routed-Ends :
      (app : String) (req : Request sv) (found : Routed) (s : AppState sv)
      → Ends s (serve_routed sv app req found s)
  serve_routed-Ends app req (rejected r) s = (done, refl)
  serve_routed-Ends app req (routed cs) s = try_all-Ends app req cs none s

  -- A request is a sequence of steps of the pool, each of which takes a permit or drops a guard. It
  -- leaves the guards held that were held before it, and one more, of the provider that serves it,
  -- exactly where its response is a stream.
  pub chat_completions-Steps :
      (app : String) (req : Request sv) (s : AppState sv)
      → let (r, s') = chat_completions sv app req s in
        Steps sv.tokio (s.pool, s.held) (s'.pool, s'.held) × (s'.held ≡ held_after r s.held)
  unfolding chat_completions
  chat_completions-Steps app req s = serve_routed-Ends app req (route sv req) s

  Taken-end :
      (app : String) (usage : Option Usage) (p : String) (s : AppState sv) (held : List String)
      → s.held ≡ p ∷ held
      → Reaches s (release sv p (charge_stream sv app usage s))
        × ((release sv p (charge_stream sv app usage s)).held ≡ held)
  Taken-end app none p s held h =
      (then (released p (rw h (held_by-cons p held))) done, rw h (without-cons p held))
  Taken-end app (some u) p s held h =
      (then (released p (rw h (held_by-cons p held))) done, rw h (without-cons p held))

  end_stream-Ends :
      (app : String) (usage : Option Usage) (s : AppState sv) (r : Response sv.J sv.F)
      (s' : AppState sv)
      → Ends s (r, s')
      → Reaches s (end_stream sv app usage r s') × ((end_stream sv app usage r s').held ≡ s.held)
  unfolding end_stream
  end_stream-Ends app usage s (ok resp) s' h = h
  end_stream-Ends app usage s (stream p req meta) s' (steps, same) =
      let (more, back) = Taken-end app usage p s' s.held same in (Steps-append steps more, back)
  end_stream-Ends app usage s (refused r) s' h = h

  -- Once the stream of a request has ended, where it has one, the request has taken steps of the pool
  -- only, and holds no guard.
  pub end_stream-Steps :
      (app : String) (req : Request sv) (usage : Option Usage) (s : AppState sv)
      → let (r, s') = chat_completions sv app req s in
        let s'' = end_stream sv app usage r s' in
        Steps sv.tokio (s.pool, s.held) (s''.pool, s''.held) × (s''.held ≡ s.held)
  end_stream-Steps app req usage s =
      let (r, s') = chat_completions sv app req s in
      end_stream-Ends app usage s r s' (chat_completions-Steps app req s)
