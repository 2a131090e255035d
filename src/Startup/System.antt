-- ===== src/Startup/System.antt =====
-- app/main.c: the collector that `main` has started, over the rounds of its loop.
use edge_omni.Common.{ℕ, ◌≡◌, ap, ◌∙◌, arith, Bool, true, some, List}
use edge_omni.Sensor.{SensorData}
use edge_omni.Fsm.{State, running, Context}
use edge_omni.Modbus.Server.{RegData}
use edge_omni.Collector.{Round, Collector, collect_all}
use edge_omni.Collector.Refine.{view}
use edge_omni.Collector.Health.{IsSound, collect_all-IsSound}
use edge_omni.Collector.Start.{Candidate, Shared, collector_start, collector_start_handle}
use edge_omni.Startup.{Answers, Boot, main}
use edge_omni.Startup.Ready.{IsInitial, main_iff}

-- The variables that the collector shares when the state machine is the one that `main` leaves.
abbrev pub shared_with : Context → State → ℕ → RegData → Shared
shared_with ctx system_state heartbeat reg_data = record {
  fsm = ctx;
  system_state = system_state;
  heartbeat = heartbeat;
  reg_data = reg_data;
}

running-IsSound :
    (s : Collector) → s.fsm.current ≡ running → s.mpu_fail_streak ≡ 0 → IsSound (view s)
running-IsSound s there none_counted = record {
  started = λ e. absurd (cc (there, e));
  no_fault = λ e. absurd (cc (there, e));
  degraded_counts = λ e. absurd (cc (there, e));
  three_show = λ e. absurd (omega (arith, none_counted));
}

-- After a start-up that succeeds, a collector that can be placed starts on a state machine in
-- RUNNING, and however its rounds go, the system stays in RUNNING, DEGRADED or RECOVERING, with a
-- failure of the MPU6050 counted in DEGRADED, and not in RUNNING after three in a row.
pub main-collect_all :
    (a : Answers) (b : Boot)
    → IsInitial b
    → (main a b).0 ≡ true
    → (candidates : List Candidate) (sht_opens : Bool) (sht_buf : List SensorData)
    → (system_state : State) (heartbeat : ℕ) (reg_data : RegData) (is : List Round)
    → (ctx : Context) × (s : Collector) × ((main a b).1.fsm ≡ some ctx)
      × (collector_start true true candidates sht_opens sht_buf
            (shared_with ctx system_state heartbeat reg_data)
          ≡ some s)
      × (s.fsm.current ≡ running)
      × IsSound (view (collect_all is s))
main-collect_all a b initial goes candidates sht_opens sht_buf system_state heartbeat reg_data is =
    let (ctx, there, runs) = ((main_iff a b initial).1 goes).0 in
    let (s, starts, handle, few, none_counted, same) =
      collector_start_handle candidates sht_opens sht_buf
        (shared_with ctx system_state heartbeat reg_data) in
    let starts_running : s.fsm.current ≡ running = ap (λ (c : Context). c.current) same ∙ runs in
    let sound = running-IsSound s starts_running none_counted in
    (ctx, s, there, starts, starts_running, collect_all-IsSound is s sound)
