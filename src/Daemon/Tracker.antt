-- ===== src/Daemon/Tracker.antt =====
-- tracker.rs: the tokens that every application used. The lock makes each call one step.
mod Examples
pub mod Isolated
use auto_ai.Common.{[], ◌∷◌, String, List, ℕ, string_eq, add64}
use auto_ai.Common.HashMap
use auto_ai.Common.HashMap.{HashMap}

pub record AppUsage : Type 0 where
  pub total_input_tokens : ℕ
  pub total_output_tokens : ℕ
  pub request_count : ℕ
  pub total_cache_read_tokens : ℕ
  pub total_cache_write_tokens : ℕ

abbrev pub no_usage : AppUsage
no_usage = record {
  total_input_tokens = 0;
  total_output_tokens = 0;
  request_count = 0;
  total_cache_read_tokens = 0;
  total_cache_write_tokens = 0;
}

abbrev pub total_tokens : AppUsage → ℕ
total_tokens u = add64 u.total_input_tokens u.total_output_tokens

pub record UsageTracker : Type 0 where
  pub apps : HashMap String AppUsage

abbrev pub new_usage : UsageTracker
new_usage = record { apps = [] }

-- What a request reports.
pub record Charge : Type 0 where
  pub app : String
  pub input : ℕ
  pub output : ℕ
  pub cache_read : ℕ
  pub cache_write : ℕ

abbrev pub charge : Charge → AppUsage → AppUsage
charge c u = record {
  total_input_tokens = add64 u.total_input_tokens c.input;
  total_output_tokens = add64 u.total_output_tokens c.output;
  request_count = add64 u.request_count 1;
  total_cache_read_tokens = add64 u.total_cache_read_tokens c.cache_read;
  total_cache_write_tokens = add64 u.total_cache_write_tokens c.cache_write;
}

unfoldable pub record_full : Charge → UsageTracker → UsageTracker
record_full c t = record t { apps = HashMap.modify c.app no_usage (charge c) t.apps }

abbrev pub record_short : String → ℕ → ℕ → UsageTracker → UsageTracker
record_short app input output t =
    record_full
      (record { app = app; input = input; output = output; cache_read = 0; cache_write = 0 }) t

unfoldable pub usage_of : String → UsageTracker → AppUsage
usage_of app t = HashMap.get_or app no_usage t.apps

abbrev pub all_usage : UsageTracker → List (String × AppUsage)
all_usage t = t.apps
