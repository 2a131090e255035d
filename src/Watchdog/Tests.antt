-- ===== src/Watchdog/Tests.antt =====
-- Runs of the monitor, and its theorems at concrete inputs.
use edge_omni.Common.{ℕ, ◌+◌, ◌<◌, ◌≡◌, ◌↔◌, refl, arith, true, false, List, [], ◌∷◌, replicate}
use edge_omni.Watchdog.{Beat, Published, start, round, loop, monitor_thread}
use edge_omni.Watchdog.Runs.{sensor_run, http_run}
use edge_omni.Watchdog.Detect.{test_mode_feeds, all_fed_iff, sensor_stall_stops, StopsAfter}
use edge_omni.Watchdog.Alive.{monitor_never_alive}

abbrev quiet : Published
quiet = record { dead_thread = 0; monitor_alive = 0 }

abbrev beat : ℕ → ℕ → Beat
beat s h = record { sensor_hb = s; http_hb = h }

-- The collector beats once and then hangs, the web thread goes on.
abbrev hang : List Beat
hang = beat 1 1 ∷ beat 1 2 ∷ beat 1 3 ∷ beat 1 4 ∷ beat 1 5 ∷ beat 1 6 ∷ beat 1 7 ∷ []

hang_found :
    monitor_thread true false quiet hang
    ≡ (record { dead_thread = 1; monitor_alive = 0 }, true ∷ true ∷ true ∷ true ∷ true ∷ false ∷ [])
unfolding monitor_thread round
hang_found = refl

test_mode_feeds_example : (loop true (start quiet) hang).1 ≡ replicate 7 true
test_mode_feeds_example = test_mode_feeds (start quiet) hang

all_fed_iff_example :
    ((loop false (start quiet) hang).1 ≡ replicate 7 true)
    ↔ ((sensor_run (start quiet) hang < 5) × (http_run (start quiet) hang < 5))
all_fed_iff_example = all_fed_iff (start quiet) hang (omega arith, omega arith)

abbrev silent : List Beat
silent = beat 0 1 ∷ beat 0 2 ∷ beat 0 3 ∷ beat 0 4 ∷ beat 0 5 ∷ beat 0 6 ∷ []

sensor_stall_stops_example : (k : ℕ) × (k + 0 < 5) × StopsAfter k (loop false (start quiet) silent)
sensor_stall_stops_example =
    sensor_stall_stops (start quiet) silent (omega arith, omega arith)
      (refl, (refl, (refl, (refl, (refl, (refl, tt)))))) (omega arith)

monitor_never_alive_example : (monitor_thread true false quiet hang).0.monitor_alive ≡ 0
monitor_never_alive_example = monitor_never_alive true false quiet hang refl
