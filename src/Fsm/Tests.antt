-- ===== src/Fsm/Tests.antt =====
-- Runs of the state machine, and its theorems at concrete inputs.
use edge_omni.Common.{
  ◌≡◌, ◌↔◌, ◌⊎◌, inl, inr, refl, arith, true, false, some, List, [], ◌∷◌, Any, ◌<◌, ◌*◌, ◌+◌,
}
use edge_omni.Common.Int.{ℤ, pos, negsuc}
use edge_omni.Fsm.{
  State, init, running, degraded, fault, Event, init_ok, mpu_fail, i2c_deadlock, bus_recover_fail,
  mpu_restored, Context, transition, run,
}
use edge_omni.Fsm.Wait.{
  Round, Timespec, deadline, nanoseconds, deadline_exact, wait_loop, wait_forever_iff,
  wait_timed_result, Hit, TimedOut, etimedout,
}
use edge_omni.Fsm.Graph.{Edge, accepted_iff, refused_iff, Reach, run-Reach}
use edge_omni.Fsm.Laws.{fault_stays, fault_needs_Fatal, Fatal}

abbrev ctx_in : State → Context
ctx_in s = record {
  current = s;
  lock = true;
  cond = true;
  mpu_fail_count = 0;
  i2c_retry_count = 0;
  temp_raw = pos 0;
  hum_raw = pos 0;
}

-- The sequence that scripts/test_fsm_integration.sh drives: RUNNING, DEGRADED, RUNNING.
integration : run (ctx_in init) (init_ok ∷ mpu_fail ∷ mpu_restored ∷ []) ≡ ctx_in running
unfolding run transition
integration = refl

accepted_iff_example :
    (transition (ctx_in init) init_ok ≡ (pos 0, true, ctx_in running)) ↔ Edge init init_ok running
accepted_iff_example = accepted_iff (ctx_in init) init_ok running

refused_iff_example :
    (transition (ctx_in fault) init_ok ≡ (negsuc 0, false, ctx_in fault))
    ↔ ((t : State) → ¬ Edge fault init_ok t)
refused_iff_example = refused_iff (ctx_in fault) init_ok

abbrev outage : List Event
outage = init_ok ∷ i2c_deadlock ∷ bus_recover_fail ∷ []

run-Reach_example : Reach init (run (ctx_in init) outage).current
run-Reach_example = run-Reach (ctx_in init) outage

fault_stays_example : run (ctx_in fault) (init_ok ∷ mpu_fail ∷ []) ≡ ctx_in fault
fault_stays_example =
    fault_stays (ctx_in fault) (init_ok ∷ mpu_fail ∷ []) refl ((λ e. cc), ((λ e. cc), tt))

outage_faults : (run (ctx_in init) outage).current ≡ fault
unfolding run transition
outage_faults = refl

fault_needs_Fatal_example : Any Fatal outage
fault_needs_Fatal_example = fault_needs_Fatal (ctx_in init) outage (λ e. cc) outage_faults

abbrev start_time : Timespec
start_time = record { tv_sec = 5; tv_nsec = 900_000_000 }

deadline_exact_example :
    ((deadline start_time 1500).tv_nsec < 1_000_000_000)
    × (nanoseconds (deadline start_time 1500) ≡ nanoseconds start_time + 1500 * 1_000_000)
deadline_exact_example = deadline_exact start_time 1500 (omega arith)

abbrev woken_then_late : List Round
woken_then_late =
    record { now = start_time; timed_wait = λ _. 0; seen = degraded }
    ∷ record { now = start_time; timed_wait = λ _. etimedout; seen = degraded }
    ∷ []

wait_forever_iff_example :
    (wait_loop degraded (negsuc 0) (pos 0) running woken_then_late ≡ some (pos 0))
    ↔ Hit degraded running woken_then_late
wait_forever_iff_example = wait_forever_iff degraded 0 running woken_then_late

wait_times_out : wait_loop fault (pos 10) (pos 0) running woken_then_late ≡ some (negsuc 0)
unfolding wait_loop
wait_times_out = refl

wait_timed_result_example :
    ((◌≡◌ {A = ℤ} (negsuc 0) (pos 0)) × Hit fault running woken_then_late)
    ⊎ ((◌≡◌ {A = ℤ} (negsuc 0) (negsuc 0)) × TimedOut 10 woken_then_late)
wait_timed_result_example =
    wait_timed_result fault 10 running woken_then_late (inl refl, (inr refl, tt)) (negsuc 0)
      wait_times_out
