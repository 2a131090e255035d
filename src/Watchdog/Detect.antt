-- ===== src/Watchdog/Detect.antt =====
-- When the loop feeds the device and when it stops.

use native.Mathlib.Decide.{dec_lt}
use mathlib.Core.List.{tail}
use edge_omni.Common.{
  ℕ, suc, ◌+◌, ◌≤◌, ◌<◌, ◌≡◌, ◌⊎◌, ◌↔◌, refl, ap, arith, Bool, true, false, List, [], ◌∷◌, ◌++◌,
  All, length, replicate, inl, inr,
}
use edge_omni.Watchdog.{Monitor, Beat, observe, round, loop, publish}
use edge_omni.Watchdog.Runs.{
  sensor_run, http_run, sensor_run-observe, http_run-observe, le-longest_run, sensor_readings,
  http_readings,
}

test_mode_round : (m : Monitor) (b : Beat) → (round true m b).1 ≡ true
unfolding round
test_mode_round m b = ground arith

-- In test mode the device is fed in every round, whatever the heartbeats do.
pub test_mode_feeds :
    (m : Monitor) (bs : List Beat) → (loop true m bs).1 ≡ replicate (length bs) true
unfolding loop
test_mode_feeds m [] = refl
test_mode_feeds m (b ∷ bs) =
    rw (test_mode_round m b) (ap (◌∷◌ true) (test_mode_feeds (round true m b).0 bs))

abbrev pub IsAwake : Monitor → Type 0
IsAwake m = (m.sensor_dead_count < 5) × (m.http_dead_count < 5)

abbrev pub IsDead : Monitor → Type 0
IsDead m = (5 ≤ m.sensor_dead_count) ⊎ (5 ≤ m.http_dead_count)

IsAwake-cases : (m : Monitor) → IsAwake m ⊎ IsDead m
IsAwake-cases m = elim (dec_lt m.sensor_dead_count 5) [
  | yes p ↦ elim (dec_lt m.http_dead_count 5) [ yes q ↦ inl (p, q) | no q ↦ inr (omega arith) ]
  | no p ↦ inr (inl (omega arith))
]

round_awake :
    (m : Monitor) (b : Beat) → IsAwake (observe m b) → round false m b ≡ (observe m b, true)
unfolding round
round_awake m b h = ground arith

round_dead :
    (m : Monitor) (b : Beat)
    → IsDead (observe m b)
    → round false m b ≡ (record (observe m b) { published = publish (observe m b) }, false)
unfolding round
round_dead m b h = ground arith

pub loop_awake :
    (m : Monitor) (b : Beat) (bs : List Beat)
    → IsAwake (observe m b)
    → loop false m (b ∷ bs)
      ≡ ((loop false (observe m b) bs).0, true ∷ (loop false (observe m b) bs).1)
unfolding loop
loop_awake m b bs h = rw (round_awake m b h)

loop_dead :
    (m : Monitor) (b : Beat) (bs : List Beat)
    → IsDead (observe m b)
    → loop false m (b ∷ bs)
      ≡ (record (observe m b) { published = publish (observe m b) }, false ∷ [])
unfolding loop
loop_dead m b bs h = rw (round_dead m b h)

dead_runs :
    (m : Monitor) (b : Beat) (bs : List Beat)
    → IsDead (observe m b)
    → (5 ≤ sensor_run m (b ∷ bs)) ⊎ (5 ≤ http_run m (b ∷ bs))
dead_runs m b bs (inl h) = inl (
    omega (
      arith,
      sensor_run-observe m b bs,
      le-longest_run (observe m b).last_sensor_hb (observe m b).sensor_dead_count
          (sensor_readings bs),
    ))
dead_runs m b bs (inr h) = inr (
    omega (
      arith,
      http_run-observe m b bs,
      le-longest_run (observe m b).last_http_hb (observe m b).http_dead_count (http_readings bs),
    ))

-- Out of test mode, from variables below the threshold, the device is fed in every round exactly
-- if neither heartbeat stands still for five checks in a row.
pub all_fed_iff :
    (m : Monitor) (bs : List Beat)
    → IsAwake m
    → ((loop false m bs).1 ≡ replicate (length bs) true)
      ↔ ((sensor_run m bs < 5) × (http_run m bs < 5))
unfolding loop
all_fed_iff m [] w = ((λ _. w), (λ _. refl))
all_fed_iff m (b ∷ bs) w = elim (IsAwake-cases (observe m b)) [
  | inl awake ↦
      let ih = all_fed_iff (observe m b) bs awake in
      rw (loop_awake m b bs awake, sensor_run-observe m b bs, http_run-observe m b bs)
        (
          (λ h. let q = ih.0 (ap tail h) in (omega arith, omega arith)),
          (λ h. ap (◌∷◌ true) (ih.1 (omega arith, omega arith))),
        )
  | inr dead ↦ (
    (λ h. absurd (cc (loop_dead m b bs dead))),
    (λ h. absurd (omega (arith, dead_runs m b bs dead))),
  )
]

-- How the loop ends: the rounds that fed the device, then one that does not; the monitor is
-- published as not alive and a thread as dead.
abbrev pub StopsAfter : ℕ → Monitor × List Bool → Type 0
StopsAfter k r =
    (r.1 ≡ replicate k true ++ false ∷ [])
    × (r.0.published.monitor_alive ≡ 0)
    × (0 < r.0.published.dead_thread)

published_dead :
    (m : Monitor) → IsDead m → ((publish m).monitor_alive ≡ 0) × (0 < (publish m).dead_thread)
unfolding publish
published_dead m h = ground arith

sensor_stall-observe :
    (m : Monitor) (b : Beat)
    → b.sensor_hb ≡ m.last_sensor_hb
    → ((observe m b).last_sensor_hb ≡ m.last_sensor_hb)
      × ((observe m b).sensor_dead_count ≡ m.sensor_dead_count + 1)
unfolding observe
sensor_stall-observe m b h = ground arith

-- From variables below the threshold, a collector that no longer beats is found out within five
-- checks: out of test mode the device is fed fewer than five times more, less the checks already
-- missed, and the loop ends.
pub sensor_stall_stops :
    (m : Monitor) (bs : List Beat)
    → IsAwake m
    → All (λ b. b.sensor_hb ≡ m.last_sensor_hb) bs
    → 5 ≤ m.sensor_dead_count + length bs
    → (k : ℕ) × (k + m.sensor_dead_count < 5) × StopsAfter k (loop false m bs)
sensor_stall_stops m [] w stall h = absurd (omega arith)
sensor_stall_stops m (b ∷ bs) w stall h = elim (IsAwake-cases (observe m b)) [
  | inl awake ↦
      let (same, counted) = sensor_stall-observe m b stall.0 in
      let (k, below, ends) =
        sensor_stall_stops (observe m b) bs awake (rw same stall.1) (omega arith) in
      (suc k, omega arith, rw (loop_awake m b bs awake) (ap (◌∷◌ true) ends.0, ends.1, ends.2))
  | inr dead ↦ (
    0,
    omega arith,
    rw (loop_dead m b bs dead)
        (refl, (published_dead (observe m b) dead).0, (published_dead (observe m b) dead).1),
  )
]
