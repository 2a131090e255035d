-- ===== src/Startup/Alive.antt =====
-- The collector, the web server and the watchdog together: what the monitor reads, once a second, of
-- the beats of the other two threads.
use edge_omni.Common.{
  ℕ, ◌+◌, ◌*◌, ◌^◌, ◌≤◌, ◌<◌, ◌≡◌, ◌≢◌, ◌∙◌, refl, ap, arith, true, false, List, [], ◌∷◌, ◌==◌,
  length, All, Bool-cases, inl, inr, replicate,
}
use edge_omni.Common.Word.{u64}
use edge_omni.Collector.{Round, Collector, collect_all}
use edge_omni.Collector.Beats.{collect_all_beat}
use edge_omni.Web.Thread.{Turn, no_client, visit, Web, is_answered, serve_visit, web_turn, web_loop}
use edge_omni.Watchdog.{Monitor, Beat, observe, loop}
use edge_omni.Watchdog.Detect.{loop_awake}

web_turn_beat :
    (t : Turn) (w : Web)
    → (n : ℕ) × (1 ≤ n) × (n ≤ 2) × ((web_turn t w).heartbeat ≡ u64 (w.heartbeat + n))
unfolding web_turn
web_turn_beat no_client w = (1, omega arith, omega arith, refl)
web_turn_beat (visit v) w = elim (Bool-cases (is_answered (serve_visit v))) [
  | inl again ↦ rw again (2, omega arith, omega arith, omega arith)
  | inr once ↦ rw once (1, omega arith, omega arith, refl)
]

-- Every round of the web server beats once or twice, over uint64_t.
web_loop_beat :
    (ts : List Turn) (w : Web)
    → w.heartbeat < 2 ^ 64
    → (n : ℕ) × (length ts ≤ n)
      × (n ≤ 2 * length ts)
      × ((web_loop ts w).heartbeat ≡ u64 (w.heartbeat + n))
unfolding web_loop
web_loop_beat [] w h = (0, omega arith, omega arith, omega arith)
web_loop_beat (t ∷ ts) w h =
    let (one, low, high, beat) = web_turn_beat t w in
    let (more, more_low, more_high, beats) =
      web_loop_beat ts (web_turn t w) (omega (arith, beat)) in
    (
      one + more,
      omega (arith, low, more_low),
      omega (arith, high, more_high),
      beats ∙ omega (arith, beat),
    )

-- What the two threads do between two readings of the monitor.
pub record Period : Type 0 where
  pub rounds : List Round
  pub turns : List Turn

-- Each makes a round at least, and not more than fit.
abbrev pub IsBusy : Period → Type 0
IsBusy p =
    (0 < length p.rounds)
    × (length p.rounds < 2 ^ 62)
    × (0 < length p.turns)
    × (length p.turns < 2 ^ 62)

-- The readings.
unfoldable pub beats : List Period → Collector → Web → List Beat
beats [] s w = []
beats (p ∷ ps) s w =
    let s' = collect_all p.rounds s in
    let w' = web_loop p.turns w in
    record { sensor_hb = s'.heartbeat; http_hb = w'.heartbeat } ∷ beats ps s' w'

-- The monitor has read the beats as they are now.
abbrev pub IsCurrent : Monitor → Collector → Web → Type 0
IsCurrent m s w =
    (m.last_sensor_hb ≡ s.heartbeat)
    × (m.last_http_hb ≡ w.heartbeat)
    × (s.heartbeat < 2 ^ 64)
    × (w.heartbeat < 2 ^ 64)

observe_moved :
    (m : Monitor) (b : Beat)
    → b.sensor_hb ≢ m.last_sensor_hb
    → b.http_hb ≢ m.last_http_hb
    → observe m b ≡ record m {
      sensor_dead_count = 0;
      last_sensor_hb = b.sensor_hb;
      http_dead_count = 0;
      last_http_hb = b.http_hb;
    }
unfolding observe
observe_moved m b sensor http =
    let sensor_moved : (b.sensor_hb == m.last_sensor_hb) ≡ false = ground arith in
    let http_moved : (b.http_hb == m.last_http_hb) ≡ false = ground arith in
    rw (sensor_moved, http_moved) refl

-- If the collector and the web server each make at least a round between two readings of the
-- monitor, however their rounds go, and fewer than 2^62, and the monitor has read the beats as
-- they are at the start, it feeds the device in every one of its rounds, and never publishes a
-- thread as dead.
pub busy_threads_feed :
    (ps : List Period) (s : Collector) (w : Web) (m : Monitor)
    → All IsBusy ps
    → IsCurrent m s w
    → ((loop false m (beats ps s w)).1 ≡ replicate (length ps) true)
      × ((loop false m (beats ps s w)).0.published ≡ m.published)
unfolding beats loop
busy_threads_feed [] s w m busy current = (refl, refl)
busy_threads_feed (p ∷ ps) s w m ((some_rounds, few_rounds, some_turns, few_turns), busy)
      (sensor, http, s_fits, w_fits) =
    let s' : Collector = collect_all p.rounds s in
    let w' : Web = web_loop p.turns w in
    let b : Beat = record { sensor_hb = s'.heartbeat; http_hb = w'.heartbeat } in
    let sensor_beats = collect_all_beat p.rounds s s_fits in
    let (n, low, high, http_beats) = web_loop_beat p.turns w w_fits in
    let moved = observe_moved m b (omega (arith, sensor_beats)) (omega (arith, http_beats)) in
    let awake = loop_awake m b (beats ps s' w') (rw moved (omega arith, omega arith)) in
    let later : Monitor = record m {
      sensor_dead_count = 0;
      last_sensor_hb = b.sensor_hb;
      http_dead_count = 0;
      last_http_hb = b.http_hb;
    } in
    let (feeds, quiet) =
      busy_threads_feed ps s' w' later busy
        (refl, refl, omega (arith, sensor_beats), omega (arith, http_beats)) in
    (
      ap (λ t. t.1) awake
          ∙ ap (λ o. true ∷ (loop false o (beats ps s' w')).1) moved
          ∙ ap (◌∷◌ true) feeds,
      ap (λ t. t.0.published) awake
          ∙ ap (λ o. (loop false o (beats ps s' w')).0.published) moved
          ∙ quiet,
    )
