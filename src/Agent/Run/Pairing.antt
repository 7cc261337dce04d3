-- ===== src/Agent/Run/Pairing.antt =====
-- The wire format of providers: every message with tool calls is followed by the results of its calls.
use auto_ai.Common.{
  none, some, refl, string_eq, [], ◌∷◌, ◌>>=◌, String, List, ◌≡◌, Option, if◌then◌else◌, ◌++◌,
  Bool-cases, beq-true_self, ◌==◌, Option-cases, inl, ap, inr,
}
use auto_ai.Agent.Memory.{add_message, Memory, trim_to, add}
use auto_ai.Agent.Run.{add_users}
use auto_ai.Config.Wire.{CompletionResponse, assistant, result, ToolCall, user, Message}
use auto_ai.Agent.Run.Batch.{assistant_blocks, add_cancelled, call_blocks}
use auto_ai.Agent.Memory.Pairs.{results, uses}

abbrev pub answer_ids : List String → List String → Option (List String)
answer_ids [] open_ids = some open_ids
answer_ids (r ∷ rs) [] = none
answer_ids (r ∷ rs) (id ∷ ids) = if id == r then answer_ids rs ids else none

-- The calls that are open after a message with these results and calls: while some are open, a message
-- answers the next ones, and asks for nothing.
abbrev pub step : List String → List String → List String → Option (List String)
step [] [] calls = some calls
step [] (_ ∷ _) calls = none
step (_ ∷ _) [] calls = none
step (id ∷ ids) (r ∷ rs) [] = answer_ids (r ∷ rs) (id ∷ ids)
step (_ ∷ _) (_ ∷ _) (_ ∷ _) = none

module _ {J : Type 0} where
  -- The calls that a history leaves open, in their order; `none` where it breaks the format.
  abbrev pub pending : List String → List (Message J) → Option (List String)
  pending ids [] = some ids
  pending ids (m ∷ ms) = step ids (results m.content) (uses m.content) >>= λ left. pending left ms

  abbrev pub IsPaired : List (Message J) → Type 0
  IsPaired ms = pending [] ms ≡ some []

  pending-append :
      (ids : List String) (ms : List (Message J)) (m : Message J)
      → pending ids (ms ++ m ∷ [])
        ≡ (pending ids ms >>= λ left. step left (results m.content) (uses m.content))
  pending-append ids [] m = elim (Option-cases (step ids (results m.content) (uses m.content))) [
    | inl broken ↦ rw broken
    | inr (left, e) ↦ rw e
  ]
  pending-append ids (x ∷ ms) m =
      elim (Option-cases (step ids (results x.content) (uses x.content))) [
        | inl broken ↦ rw broken
        | inr (left, e) ↦ rw e (pending-append left ms m)
      ]

  -- A memory without a limit, whose history leaves these calls open.
  pub record Leaves (ids : List String) (mem : Memory J) : Type 0 where
    pub unlimited : mem.limit ≡ none
    pub open_calls : pending [] mem.messages ≡ some ids

  add_message-messages :
      (m : Message J) (mem : Memory J)
      → mem.limit ≡ none
      → (add_message m mem).messages ≡ mem.messages ++ m ∷ []
  unfolding add_message trim_to
  add_message-messages m mem free = rw free

  Leaves-add_message :
      {ids left : List String} (m : Message J) {mem : Memory J}
      → Leaves ids mem
      → step ids (results m.content) (uses m.content) ≡ some left
      → Leaves left (add_message m mem)
  unfolding add_message
  Leaves-add_message {ids} {left} m {mem} h e = record {
    unlimited = h.unlimited;
    open_calls =
        rw (add_message-messages m mem h.unlimited, pending-append [] mem.messages m, h.open_calls)
          e;
  }

  pub Leaves-add_user :
      (text : String) {mem : Memory J} → Leaves [] mem → Leaves [] (add "user" text mem)
  unfolding add
  Leaves-add_user text h = Leaves-add_message (user text) h refl

  pub Leaves-add_assistant :
      (text : String) {mem : Memory J} → Leaves [] mem → Leaves [] (add "assistant" text mem)
  unfolding add
  Leaves-add_assistant text h = Leaves-add_message (assistant text) h refl

  pub Leaves-add_users :
      (msgs : List String) {mem : Memory J} → Leaves [] mem → Leaves [] (add_users msgs mem)
  unfolding add_users
  Leaves-add_users [] h = h
  Leaves-add_users (msg ∷ msgs) h = Leaves-add_users msgs (Leaves-add_user msg h)

  pub Leaves-result :
      (id content : String) {ids : List String} {mem : Memory J}
      → Leaves (id ∷ ids) mem
      → Leaves ids (add_message (result id content) mem)
  Leaves-result id content h = Leaves-add_message (result id content) h (rw (beq-true_self id))

  abbrev pub ids_of : List (ToolCall J) → List String
  ids_of [] = []
  ids_of (tc ∷ tcs) = tc.id ∷ ids_of tcs

  uses-call_blocks : (tcs : List (ToolCall J)) → uses (call_blocks tcs) ≡ ids_of tcs
  uses-call_blocks [] = refl
  uses-call_blocks (tc ∷ tcs) = ap (λ ids. tc.id ∷ ids) (uses-call_blocks tcs)

  results-call_blocks : (tcs : List (ToolCall J)) → results (call_blocks tcs) ≡ []
  results-call_blocks [] = refl
  results-call_blocks (tc ∷ tcs) = results-call_blocks tcs

  pub Leaves-asked :
      (resp : CompletionResponse J) {mem : Memory J}
      → Leaves [] mem
      → Leaves
          (ids_of resp.tool_calls)
          (add_message (record { role = "assistant"; content = assistant_blocks resp }) mem)
  Leaves-asked resp h = Leaves-add_message _ h (elim (Bool-cases (resp.content == "")) [
    | inl quiet ↦ rw (quiet, results-call_blocks resp.tool_calls, uses-call_blocks resp.tool_calls)
    | inr speaks ↦
        rw (speaks, results-call_blocks resp.tool_calls, uses-call_blocks resp.tool_calls)
  ])

  pub Leaves-add_cancelled :
      (tcs : List (ToolCall J)) {mem : Memory J}
      → Leaves (ids_of tcs) mem
      → Leaves [] (add_cancelled tcs mem)
  Leaves-add_cancelled [] h = h
  Leaves-add_cancelled (tc ∷ tcs) h =
      Leaves-add_cancelled tcs (Leaves-result tc.id "[cancelled by user]" h)
