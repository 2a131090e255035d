-- ===== src/Watchdog/Alive.antt =====
-- What the monitor publishes about itself and about the other threads.
use edge_omni.Common.{◌≡◌, arith, Bool, true, false, List, [], ◌∷◌, Bool-cases, inl, inr}
use edge_omni.Watchdog.{Monitor, Beat, Published, start, round, loop, monitor_thread}

-- A round publishes nothing new, or that the monitor is not alive.
alive-round :
    (test_mode : Bool) (m : Monitor) (b : Beat)
    → m.published.monitor_alive ≡ 0
    → (round test_mode m b).0.published.monitor_alive ≡ 0
unfolding round
alive-round test_mode m b h = ground arith

alive-loop :
    (test_mode : Bool) (m : Monitor) (bs : List Beat)
    → m.published.monitor_alive ≡ 0
    → (loop test_mode m bs).0.published.monitor_alive ≡ 0
unfolding loop
alive-loop test_mode m [] h = h
alive-loop test_mode m (b ∷ bs) h = elim (Bool-cases (round test_mode m b).1) [
  | inl e ↦ rw e (alive-loop test_mode (round test_mode m b).0 bs (alive-round test_mode m b h))
  | inr e ↦ rw e (alive-round test_mode m b h)
]

-- g_watchdog_monitor_alive starts at 0 and stays there: in no run of the monitor, however long,
-- does it show a monitor that is running.
pub monitor_never_alive :
    (opened test_mode : Bool) (p : Published) (bs : List Beat)
    → p.monitor_alive ≡ 0
    → (monitor_thread opened test_mode p bs).0.monitor_alive ≡ 0
unfolding monitor_thread
monitor_never_alive true test_mode p bs h = alive-loop test_mode (start p) bs h
monitor_never_alive false test_mode p bs h = h
