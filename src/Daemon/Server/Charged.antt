-- ===== src/Daemon/Server/Charged.antt =====
-- What a request charges to the usage of its application.
use auto_ai.Common.HashMap
use auto_ai.Common.{none, some, string_eq, String, Option, ◌≡◌}
use auto_ai.Daemon.Server.Attempts.{passed, responded, Attempt}
use auto_ai.Daemon.Server.{ok, stream, refused, Server, Response}
use auto_ai.Config.Wire.{Usage}
use auto_ai.Daemon.Tracker.{record_full, UsageTracker}

-- A report of usage, as the tracker takes it.
abbrev pub charged : String → Option Usage → UsageTracker → UsageTracker
charged app none t = t
charged app (some u) t =
    record_full
      (record {
        app = app;
        input = u.input_tokens;
        output = u.output_tokens;
        cache_read = u.cache_read_tokens;
        cache_write = u.cache_write_tokens;
      })
      t

module _ (sv : Server) where
  -- The usage that a response charges: an answer's own.
  abbrev pub usage_after : Response sv.J sv.F → String → UsageTracker → UsageTracker
  usage_after (ok resp) app t = charged app resp.usage t
  usage_after (stream provider req meta) app t = t
  usage_after (refused r) app t = t

  abbrev Charges : String → UsageTracker → Attempt sv → Type 0
  Charges app t (passed e, s') = s'.tracker ≡ t
  Charges app t (responded r, s') = s'.tracker ≡ usage_after r app t
