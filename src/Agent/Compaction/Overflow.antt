-- ===== src/Agent/Compaction/Overflow.antt =====
-- compaction.rs: the error messages that mean that the context overflowed. `to_lowercase` of Unicode
-- is a parameter.
use auto_ai.Common.{[], ◌∷◌, false, String, List, Bool, any, if◌then◌else◌}
use auto_ai.Agent.Compaction.Files.{contains}

abbrev overflow_markers : List String
overflow_markers =
    "prompt is too long" ∷ "request_too_large" ∷ "exceeds the context window"
    ∷ "exceeds the model's maximum context length" ∷ "exceeds model's maximum context length"
    ∷ "maximum context length" ∷ "context_length_exceeded" ∷ "exceeds the available context size"
    ∷ "exceeded max context length" ∷ "exceeds the context length"
    ∷ "greater than the context length" ∷ []

abbrev non_overflow_markers : List String
non_overflow_markers = "rate limit" ∷ "too many requests" ∷ "throttling" ∷ []

abbrev pub is_context_overflow : (String → String) → String → Bool
is_context_overflow to_lowercase message =
    let lower = to_lowercase message in
    if any (contains lower) non_overflow_markers
    then false
    else any (contains lower) overflow_markers
