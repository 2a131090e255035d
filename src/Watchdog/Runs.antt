-- ===== src/Watchdog/Runs.antt =====
-- Runs of equal readings: a description of a stalled thread that knows nothing of the loop.
use Prim.Native.Nat.{max}
use edge_omni.Common.{
  ℕ, ◌+◌, ◌≤◌, ◌≡◌, arith, List, [], ◌∷◌, map, ◌==◌, if◌then◌else◌, Bool-cases, inl, inr,
}
use edge_omni.Watchdog.{Monitor, Beat, observe}

-- The longest run of readings that equal the reading before them, where `n` such readings precede
-- the list and `last` is the latest of them.
abbrev pub longest_run : ℕ → ℕ → List ℕ → ℕ
longest_run last n [] = n
longest_run last n (h ∷ hs) = max n (longest_run h (if h == last then n + 1 else 0) hs)

abbrev pub sensor_readings : List Beat → List ℕ
sensor_readings = map (λ b. b.sensor_hb)

abbrev pub http_readings : List Beat → List ℕ
http_readings = map (λ b. b.http_hb)

abbrev pub sensor_run : Monitor → List Beat → ℕ
sensor_run m bs = longest_run m.last_sensor_hb m.sensor_dead_count (sensor_readings bs)

abbrev pub http_run : Monitor → List Beat → ℕ
http_run m bs = longest_run m.last_http_hb m.http_dead_count (http_readings bs)

pub le-longest_run : (last n : ℕ) (hs : List ℕ) → n ≤ longest_run last n hs
le-longest_run last n [] = omega arith
le-longest_run last n (h ∷ hs) = omega arith

pub sensor_run-observe :
    (m : Monitor) (b : Beat) (bs : List Beat)
    → sensor_run m (b ∷ bs) ≡ max m.sensor_dead_count (sensor_run (observe m b) bs)
unfolding observe
sensor_run-observe m b bs = elim (Bool-cases (b.sensor_hb == m.last_sensor_hb)) [
  | inl e ↦ let q : b.sensor_hb ≡ m.last_sensor_hb = ground arith in rw (e, q)
  | inr e ↦ rw e
]

pub http_run-observe :
    (m : Monitor) (b : Beat) (bs : List Beat)
    → http_run m (b ∷ bs) ≡ max m.http_dead_count (http_run (observe m b) bs)
unfolding observe
http_run-observe m b bs = elim (Bool-cases (b.http_hb == m.last_http_hb)) [
  | inl e ↦ let q : b.http_hb ≡ m.last_http_hb = ground arith in rw (e, q)
  | inr e ↦ rw e
]
