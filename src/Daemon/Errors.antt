-- ===== src/Daemon/Errors.antt =====
-- lib.rs: the errors of a call of a provider. `to_lowercase` of Unicode is a parameter.
use auto_ai.Common.{
  ℕ, String, List, [], ◌∷◌, Bool, true, false, ◌&&◌, nat_beq, leb, any, if◌then◌else◌,
}
use auto_ai.Common.Format.{format, show}
use auto_ai.Agent.Compaction.Files.{contains}

pub data LlmError : Type 0 where
  http : String → LlmError
  rate_limited : LlmError
  timeout : String → LlmError
  upstream : (status : ℕ) → (message : String) → (retryable : Bool) → LlmError
  api : String → LlmError
  no_provider : LlmError
  no_api_key : String → LlmError

abbrev quota_markers : List String
quota_markers =
    "insufficient_quota" ∷ "quota_exceeded" ∷ "billing" ∷ "exceeded your current quota" ∷ []

unfoldable pub is_quota_exhausted : (String → String) → LlmError → Bool
is_quota_exhausted to_lowercase (http _) = false
is_quota_exhausted to_lowercase rate_limited = false
is_quota_exhausted to_lowercase (timeout _) = false
is_quota_exhausted to_lowercase (upstream status message _) =
    if nat_beq status 402 then true else any (contains (to_lowercase message)) quota_markers
is_quota_exhausted to_lowercase (api _) = false
is_quota_exhausted to_lowercase no_provider = false
is_quota_exhausted to_lowercase (no_api_key _) = false

abbrev rate_markers : List String
rate_markers = "rate limit" ∷ "too many requests" ∷ "throttling" ∷ []

abbrev overflow_markers : List String
overflow_markers =
    "prompt is too long" ∷ "request_too_large" ∷ "exceeds the context window"
    ∷ "maximum context length" ∷ "context_length_exceeded" ∷ "exceeds the available context size"
    ∷ "exceeded max context length" ∷ "greater than the context length" ∷ []

abbrev overflow_text : String → Bool
overflow_text lower =
    if any (contains lower) rate_markers then false else any (contains lower) overflow_markers

unfoldable pub is_context_overflow : (String → String) → LlmError → Bool
is_context_overflow to_lowercase (http m) = overflow_text (to_lowercase m)
is_context_overflow to_lowercase rate_limited = false
is_context_overflow to_lowercase (timeout m) = overflow_text (to_lowercase m)
is_context_overflow to_lowercase (upstream _ m _) = overflow_text (to_lowercase m)
is_context_overflow to_lowercase (api m) = overflow_text (to_lowercase m)
is_context_overflow to_lowercase no_provider = false
is_context_overflow to_lowercase (no_api_key _) = false

unfoldable pub is_retryable : LlmError → Bool
is_retryable (http _) = true
is_retryable rate_limited = true
is_retryable (timeout _) = true
is_retryable (upstream _ _ retryable) = retryable
is_retryable (api _) = false
is_retryable no_provider = false
is_retryable (no_api_key _) = false

-- A status that is no success; a server error is 500 to 599.
unfoldable pub from_upstream_status : ℕ → String → LlmError
from_upstream_status code body =
    if nat_beq code 429 then rate_limited else upstream code body (leb 500 code && leb code 599)

abbrev pub show_llm_error : LlmError → String
show_llm_error (http e) = format ("HTTP error: " ∷ e ∷ [])
show_llm_error rate_limited = "rate limited (HTTP 429)"
show_llm_error (timeout e) = format ("timeout: " ∷ e ∷ [])
show_llm_error (upstream status message _) =
    format ("upstream error (" ∷ show status ∷ "): " ∷ message ∷ [])
show_llm_error (api e) = format ("API error: " ∷ e ∷ [])
show_llm_error no_provider = "no provider configured"
show_llm_error (no_api_key p) = format ("no API key for provider '" ∷ p ∷ "'" ∷ [])
