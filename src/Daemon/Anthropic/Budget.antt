-- ===== src/Daemon/Anthropic/Budget.antt =====
-- The limit of tokens and the thinking budget of a request.
use auto_ai.Common.{
  ℕ, [], ◌∷◌, ◌+◌, ◌<◌, ◌⊎◌, none, some, true, false, refl, inl, inr, ◌∙◌, ◌≡◌, string_eq, String,
  List, Option, Bool, ◌==◌, leb, unwrap_or, arith, Bool-cases, lt_of_leb,
}
use auto_ai.Config.Wire.{ToolDefinition, CompletionRequest}
use auto_ai.Daemon.Anthropic.Body.{
  JsonWriter, JsonWriterLaws, ThinkingLevel, set_system, set_temperature, set_tools, enabled,
  disabled, set_budget, set_level, set_asked, fixed_part, build_body, parse_thinking_level,
  messages_to_anthropic,
}

module _ {w : JsonWriter} (laws : JsonWriterLaws w) where
  -- A field that none of the optional fields is.
  fixed_part-read :
      (k : String) (req : CompletionRequest w.Value w.Double)
      → (k == "tools") ≡ false
      → (k == "temperature") ≡ false
      → (k == "system") ≡ false
      → w.read k (fixed_part w req)
        ≡ w.read k (
            w.object (
              ("model", w.str req.model)
              ∷ ("max_tokens", w.num (unwrap_or req.max_tokens 4096))
              ∷ ("messages", w.array (messages_to_anthropic w req.messages))
              ∷ []))
  fixed_part-read k req not_tools not_temperature not_system =
      tools req.tools _ ∙ temperature req.temperature _ ∙ system req.system_prompt _
    where
      tools :
          (ts : List (ToolDefinition w.Value)) (body : w.Value)
          → w.read k (set_tools w ts body) ≡ w.read k body
      tools [] body = refl
      tools (t ∷ ts) body = laws.read-set_other k "tools" _ body not_tools

      temperature :
          (t : Option w.Double) (body : w.Value)
          → w.read k (set_temperature w t body) ≡ w.read k body
      temperature none body = refl
      temperature (some t) body = laws.read-set_other k "temperature" _ body not_temperature

      system : (s : Option String) (body : w.Value) → w.read k (set_system w s body) ≡ w.read k body
      system none body = refl
      system (some s) body = laws.read-set_other k "system" _ body not_system

  read-max_tokens :
      (req : CompletionRequest w.Value w.Double)
      → w.read "max_tokens" (fixed_part w req) ≡ some (w.num (unwrap_or req.max_tokens 4096))
  read-max_tokens req =
      fixed_part-read "max_tokens" req refl refl refl
      ∙ laws.read-object "max_tokens" "model" _ _
      ∙ laws.read-object "max_tokens" "max_tokens" _ _

  read-thinking :
      (req : CompletionRequest w.Value w.Double) → w.read "thinking" (fixed_part w req) ≡ none
  read-thinking req =
      fixed_part-read "thinking" req refl refl refl
      ∙ laws.read-object "thinking" "model" _ _
      ∙ laws.read-object "thinking" "max_tokens" _ _
      ∙ laws.read-object "thinking" "messages" _ _
      ∙ laws.read-object_nil "thinking"

  -- A body without thinking, or one in which it is disabled, or one whose limit exceeds the budget.
  abbrev pub Fits : w.Value → Type 0
  Fits body =
      (w.read "thinking" body ≡ none)
      ⊎ (w.read "thinking" body ≡ some (disabled w))
      ⊎ ((limit budget : ℕ) × (w.read "max_tokens" body ≡ some (w.num limit))
          × (w.read "thinking" body ≡ some (enabled w budget))
          × (budget < limit))

  set_budget-Fits :
      (max_tokens budget : ℕ) (body : w.Value)
      → w.read "max_tokens" body ≡ some (w.num max_tokens)
      → Fits (set_budget w max_tokens budget body)
  unfolding set_budget
  set_budget-Fits max_tokens budget body h = elim (Bool-cases (leb max_tokens budget)) [
    | inl raised ↦
        rw (raised, set_budget)
          (inr (
            inr (
              budget + 1024,
              budget,
              laws.read-set_other "max_tokens" "thinking" _ _ refl
                  ∙ laws.read-set_same "max_tokens" _ body,
              laws.read-set_same "thinking" _ _,
              omega arith,
            )))
    | inr fits ↦
        rw (fits, set_budget)
          (inr (
            inr (
              max_tokens,
              budget,
              laws.read-set_other "max_tokens" "thinking" _ body refl ∙ h,
              laws.read-set_same "thinking" _ body,
              lt_of_leb max_tokens budget fits,
            )))
  ]

  set_level-Fits :
      (max_tokens : ℕ) (level : Option ThinkingLevel) (body : w.Value)
      → w.read "max_tokens" body ≡ some (w.num max_tokens)
      → w.read "thinking" body ≡ none
      → Fits (set_level w max_tokens level body)
  unfolding set_level
  set_level-Fits max_tokens none body h q = inl q
  set_level-Fits max_tokens (some ThinkingLevel.off) body h q =
      inr (inl (laws.read-set_same "thinking" _ body))
  set_level-Fits max_tokens (some ThinkingLevel.low) body h q = set_budget-Fits max_tokens _ body h
  set_level-Fits max_tokens (some ThinkingLevel.high) body h q = set_budget-Fits max_tokens _ body h
  set_level-Fits max_tokens (some ThinkingLevel.max) body h q = set_budget-Fits max_tokens _ body h

  -- Whatever a request asks for, its body has no thinking block, or one that disables thinking, or one
  -- whose budget is less than the body's limit of tokens; a provider that does not accept the parameter
  -- is sent none.
  pub build_body-Fits :
      (accepts : Bool) (req : CompletionRequest w.Value w.Double)
      → Fits (build_body w accepts req) × (w.read "thinking" (build_body w false req) ≡ none)
  unfolding build_body
  build_body-Fits false req = (inl (read-thinking req), read-thinking req)
  build_body-Fits true req = (asked req.thinking_level, read-thinking req)
    where
      asked :
          (raw : Option String)
          → Fits (set_asked w (unwrap_or req.max_tokens 4096) raw (fixed_part w req))
      asked none = inl (read-thinking req)
      asked (some raw) =
          set_level-Fits _ (parse_thinking_level raw) (fixed_part w req) (read-max_tokens req)
            (read-thinking req)
