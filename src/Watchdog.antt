-- ===== src/Watchdog.antt =====
-- app/core/watchdog.c: the thread that watches two heartbeats and feeds the hardware watchdog.
-- A round of its loop is a step on its variables and on the two numbers that it publishes; what the
-- other threads and the device do is the input of the round. What is printed is left out.
pub mod Runs
pub mod Detect
pub mod Alive
mod Tests
use edge_omni.Common.{
  ℕ, ◌+◌, Bool, true, false, not, ◌&&◌, ◌||◌, Option, none, some, List, [], ◌∷◌, leb, ◌==◌,
  if◌then◌else◌,
}

abbrev pub dead_threshold_sec : ℕ
dead_threshold_sec = 5

-- g_watchdog_dead_thread and g_watchdog_monitor_alive.
pub record Published : Type 0 where
  pub dead_thread : ℕ
  pub monitor_alive : ℕ

-- The local variables of the loop.
pub record Monitor : Type 0 where
  pub last_sensor_hb : ℕ  -- uint64_t
  pub last_http_hb : ℕ  -- uint64_t
  pub sensor_dead_count : ℕ
  pub http_dead_count : ℕ
  pub published : Published

-- The heartbeats as the round reads them.
pub record Beat : Type 0 where
  pub sensor_hb : ℕ
  pub http_hb : ℕ

abbrev pub start : Published → Monitor
start p = record {
  last_sensor_hb = 0;
  last_http_hb = 0;
  sensor_dead_count = 0;
  http_dead_count = 0;
  published = p;
}

-- The two comparisons at the head of the loop.
unfoldable pub observe : Monitor → Beat → Monitor
observe m b = record m {
  sensor_dead_count = if b.sensor_hb == m.last_sensor_hb then m.sensor_dead_count + 1 else 0;
  last_sensor_hb = if b.sensor_hb == m.last_sensor_hb then m.last_sensor_hb else b.sensor_hb;
  http_dead_count = if b.http_hb == m.last_http_hb then m.http_dead_count + 1 else 0;
  last_http_hb = if b.http_hb == m.last_http_hb then m.last_http_hb else b.http_hb;
}

abbrev pub sensor_dead : Monitor → Bool
sensor_dead m = leb dead_threshold_sec m.sensor_dead_count

abbrev pub http_dead : Monitor → Bool
http_dead m = leb dead_threshold_sec m.http_dead_count

-- What is stored when a thread is found dead: the second store overwrites the first.
unfoldable pub publish : Monitor → Published
publish m =
    let dead = if sensor_dead m then 1 else m.published.dead_thread in
    record { dead_thread = if http_dead m then 2 else dead; monitor_alive = 0 }

-- One round: the new variables, and whether the device is fed. The loop ends on a round that does
-- not feed. A failed `write` is only printed.
unfoldable pub round : Bool → Monitor → Beat → Monitor × Bool
unfolding observe publish
round test_mode m b =
    let m' = observe m b in
    if sensor_dead m' || http_dead m'
    then (record m' { published = publish m' }, test_mode)
    else (m', true)

-- The rounds of the loop: the variables at the end, and for each round that was begun whether the
-- device was fed.
unfoldable pub loop : Bool → Monitor → List Beat → Monitor × List Bool
loop test_mode m [] = (m, [])
loop test_mode m (b ∷ bs) =
    let (m', fed) = round test_mode m b in
    let (last, feeds) = loop test_mode m' bs in
    if fed then (last, true ∷ feeds) else (m', false ∷ [])

-- `watchdog_monitor_thread`: with no device (`open` fails) it returns at once.
unfoldable pub monitor_thread : Bool → Bool → Published → List Beat → Published × List Bool
unfolding loop
monitor_thread opened test_mode p bs =
    let (last, feeds) = loop test_mode (start p) bs in
    if opened then (last.published, feeds) else (p, [])
