-- ===== src/Daemon/Tracker/Examples.antt =====
-- The theorem about the tracker at three requests.
use auto_ai.Common.{[], ◌∷◌, List, string_eq}
use auto_ai.Daemon.Tracker.{Charge, no_usage, new_usage, usage_of}
use auto_ai.Daemon.Tracker.Isolated.{Sums, own, record_all, usage_of-Sums}

abbrev charges : List Charge
charges =
    record { app = "ash"; input = 100; output = 50; cache_read = 0; cache_write = 0 }
    ∷ record { app = "musk"; input = 7; output = 7; cache_read = 0; cache_write = 0 }
    ∷ record { app = "ash"; input = 200; output = 80; cache_read = 5; cache_write = 0 }
    ∷ []

usage_of-Sums_example :
    Sums (own "ash" charges) no_usage (usage_of "ash" (record_all charges new_usage))
usage_of-Sums_example = usage_of-Sums "ash" charges
