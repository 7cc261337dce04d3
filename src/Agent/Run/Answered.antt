-- ===== src/Agent/Run/Answered.antt =====
-- A run that nobody disturbs, with a model that answers at once.
use auto_ai.Common.{
  zero, suc, false, none, some, refl, string_eq, arith, [], ◌≡◌, Option, ℕ, String, Bool-cases, ap,
  ◌<◌, leb, ◌∙◌, ◌&&◌, ltb, inl, inr,
}
use auto_ai.Agent.Compaction.Compact.{answered}
use auto_ai.Agent.Run.{Outcome, ◌then_do◌, Setup, State, Turn, read_cancel, Agent}
use auto_ai.Agent.Run.Rules.{Ends, refresh_window-Kept, try_compact-Kept}
use auto_ai.Config.Wire.{CompletionResponse, wants_tool, Usage, CompletionRequest}
use auto_ai.Agent.Run.Request.{request_with_recovery, replied, refresh_window, send, build_request}
use auto_ai.Agent.Run.Loop.{
  answer_turn, note_usage, run_turns, take_response, ready, one_turn, run_inner, prepare,
  hard_limit, start, compacts,
}
use auto_ai.Agent.Repair.{repair_orphan_tool_uses}

module _ (u : Setup) where
  -- Nobody cancels or queues a message, and the model answers in words.
  pub record Undisturbed (resp : CompletionResponse u.json.Value) : Type 0 where
    pub uncancelled : (w : u.World) → (u.cancelled w).0 ≡ false
    pub no_follow_up : (w : u.World) → (u.followed_up w).0 ≡ []
    pub answers :
        (w : u.World) (r : CompletionRequest u.json.Value u.client.Double)
        → (u.complete_stream w r).1.0 ≡ answered resp
    pub no_error : resp.error ≡ none
    pub no_calls : resp.tool_calls ≡ []

  module _ {resp : CompletionResponse u.json.Value} (calm : Undisturbed resp) where
    settled : State u → State u
    settled s = refresh_window u resp.model_meta (send u s).1

    request-replied : (s : State u) → request_with_recovery u s ≡ (replied resp, settled s)
    unfolding request_with_recovery settled
    request-replied s = rw (calm.answers s.world (build_request u s.agent), calm.no_error)

    note_usage-agent :
        (usage : Option Usage) (s : State u)
        → ((note_usage u usage s).agent.follow_ups ≡ s.agent.follow_ups)
          × ((note_usage u usage s).result.turns ≡ s.result.turns)
    note_usage-agent none s = (refl, refl)
    note_usage-agent (some usage) s = (refl, refl)

    -- The run ends, with the answer.
    abbrev Finishes : ℕ → Turn u → Type 0
    Finishes n t =
        Ends
          (λ o s.
            (o ≡ Outcome.finished s.result)
            × (s.result.output ≡ resp.content)
            × (s.result.turns ≡ n))
          t

    answer_turn-Finishes :
        (n turn : ℕ) (s : State u)
        → s.agent.follow_ups ≡ []
        → s.result.turns ≡ n
        → Finishes n (answer_turn u turn resp s)
    unfolding answer_turn
    answer_turn-Finishes n turn s none_queued h =
        rw (calm.no_follow_up s.world, none_queued) (_, _, refl, (refl, refl, h))

    speaks : wants_tool resp ≡ false
    speaks = rw calm.no_calls

    take_response-Finishes :
        (n turn : ℕ) (s : State u)
        → s.agent.follow_ups ≡ []
        → s.result.turns ≡ n
        → Finishes n (take_response u turn resp s)
    unfolding take_response
    take_response-Finishes n turn s none_queued h =
        let kept = note_usage-agent resp.usage (read_cancel u s).1 in
        rw (calm.uncancelled s.world, speaks)
          (answer_turn-Finishes n turn _ (kept.0 ∙ none_queued) (kept.1 ∙ h))

    ready-kept :
        (turn remaining : ℕ) (s : State u)
        → ((ready u turn remaining s).agent.follow_ups ≡ s.agent.follow_ups)
          × ((ready u turn remaining s).result.turns ≡ suc turn)
    ready-kept turn remaining s = elim (Bool-cases (leb remaining 5 && ltb 1 remaining)) [
      | inl near ↦ rw near (refl, refl)
      | inr far ↦ rw far (refl, refl)
    ]

    settled-kept :
        (s : State u)
        → ((settled s).agent.follow_ups ≡ s.agent.follow_ups)
          × ((settled s).result.turns ≡ s.result.turns)
    unfolding settled
    settled-kept s =
        let kept = refresh_window-Kept u resp.model_meta (send u s).1 in
        (kept.follow_ups, ap (λ r. r.turns) kept.result)

    one_turn-Finishes :
        (turn remaining : ℕ) (s : State u)
        → s.agent.follow_ups ≡ []
        → Finishes (suc turn) (one_turn u turn remaining s)
    unfolding one_turn
    one_turn-Finishes turn remaining s none_queued =
        let s1 = ready u turn remaining (read_cancel u s).1 in
        let before = ready-kept turn remaining (read_cancel u s).1 in
        let after = settled-kept s1 in
        rw (calm.uncancelled s.world, request-replied s1)
          (take_response-Finishes (suc turn) turn (settled s1) (after.0 ∙ before.0 ∙ none_queued)
            (after.1 ∙ before.1))

    then_do-Finishes :
        (n : ℕ) (t : Turn u) (f : State u → Turn u) → Finishes n t → Finishes n (t then_do f)
    then_do-Finishes n t f (o, s', e, h) = rw e (o, s', refl, h)

    run_turns-Finishes :
        (turn limit : ℕ) (s : State u)
        → 0 < limit
        → s.agent.follow_ups ≡ []
        → Finishes (suc turn) (run_turns u turn limit s)
    unfolding run_turns
    run_turns-Finishes turn zero s h none_queued = absurd (omega arith)
    run_turns-Finishes turn (suc limit) s h none_queued =
        then_do-Finishes (suc turn) (one_turn u turn (suc limit) s) (run_turns u (suc turn) limit)
          (one_turn-Finishes turn (suc limit) s none_queued)

    prepare-follow_ups :
        (task : String) (a : Agent u.json.Value) (w : u.World)
        → (prepare u task a w).agent.follow_ups ≡ a.follow_ups
    prepare-follow_ups task a w =
        let s = start u (record a { memory = repair_orphan_tool_uses a.memory }) w in
        elim (Bool-cases (compacts u s)) [
          | inl over ↦ rw over (try_compact-Kept u false s).follow_ups
          | inr within ↦ rw within
        ]

    -- A run that nobody disturbs, by a model that answers in words, finishes in its first turn with the
    -- answer as its output.
    pub run_inner-Answered :
        (task : String) (a : Agent u.json.Value) (w : u.World)
        → 0 < hard_limit u
        → a.follow_ups ≡ []
        → Ends
            (λ o s.
              (o ≡ Outcome.finished s.result)
              × (s.result.output ≡ resp.content)
              × (s.result.turns ≡ 1))
            (run_inner u task a w)
    unfolding run_inner
    run_inner-Answered task a w limit none_queued =
        run_turns-Finishes 0 (hard_limit u) _ limit (prepare-follow_ups task a w ∙ none_queued)
