-- ===== src/Collector/Tests.antt =====
-- Rounds of the collector, and its theorems at concrete inputs.
use edge_omni.Common.{
  ℕ, ◌≤◌, ◌≡◌, ◌↔◌, ◌⊎◌, refl, arith, true, some, List, [], ◌∷◌, length, take, Any, ltb,
  if◌then◌else◌,
}
use edge_omni.Common.Int.{ℤ, pos, negsuc}
use edge_omni.Common.Word.{signed16}
use edge_omni.Sensor.{SensorData, sensor_mpu6050, sensor_sht30}
use edge_omni.Hal.{ReadResult, got, failed}
use edge_omni.Fsm.{State, running, degraded, recovering, Context}
use edge_omni.Collector.{Round, Collector, collect, collect_all}
use edge_omni.Collector.Refine.{view, collect-view}
use edge_omni.Collector.Health.{
  IsSound, collect_all-IsSound, one_delivery_restores, three_losses_show, all_sensors_lost,
  recovering_stays,
}
use edge_omni.Collector.Start.{Candidate, IsGood, Shared, collector_start, collector_start_handle}
use edge_omni.Collector.Published.{registers_read_back}

abbrev context_in : State → Context
context_in st = record {
  current = st;
  lock = true;
  cond = true;
  mpu_fail_count = 0;
  i2c_retry_count = 0;
  temp_raw = pos 0;
  hum_raw = pos 0;
}

abbrev collector_in : State → ℕ → ℕ → Collector
collector_in st m h = record {
  mpu_ops = true;
  mpu_handle = true;
  sht_open = true;
  sht_buf = [];
  mpu_fail_streak = m;
  mpu_no_data_streak = 0;
  sht_fail_streak = h;
  latest_ax = pos 0;
  latest_ay = pos 0;
  fsm = context_in st;
  system_state = st;
  heartbeat = 0;
  reg_data = record { temperature = 0; humidity = 0; accel_x = 0; accel_y = 0 };
  latencies = [];
  rows = [];
}

abbrev sample : ℕ → ℕ → ℤ → SensorData
sample sensor channel value = record {
  timestamp_ns = 5;
  sensor_type = sensor;
  channel = channel;
  value = value;
}

abbrev cold : SensorData
cold = sample sensor_sht30 0 (negsuc 10122)

abbrev damp : SensorData
damp = sample sensor_sht30 1 (pos 48123)

abbrev round_of : ReadResult → ReadResult → Round
round_of mpu sht = record {
  probes = [];
  probes_again = record { exists = true; opens = true } ∷ [];
  mpu = mpu;
  sht = sht;
  latency_sht = pos 900;
  now = 1000;
}

abbrev good : Round
good = round_of (got (sample sensor_mpu6050 1 (negsuc 4) ∷ [])) (got (cold ∷ damp ∷ []))

abbrev mpu_error : Round
mpu_error = round_of (failed (negsuc 18)) (got (cold ∷ damp ∷ []))

abbrev both_error : Round
both_error = round_of (failed (negsuc 18)) (failed (negsuc 4))

-- -10.123 degrees and 48.123 percent, and -5 on the second axis.
published :
    (collect good (collector_in running 0 0)).reg_data
    ≡ record { temperature = 64524; humidity = 4812; accel_x = 0; accel_y = 65531 }
unfolding collect
published = refl

two_beats : (collect good (collector_in running 0 0)).heartbeat ≡ 2
unfolding collect
two_beats = refl

running-IsSound : IsSound (view (collector_in running 0 0))
running-IsSound = record {
  started = λ e. absurd (cc);
  no_fault = λ e. absurd (cc);
  degraded_counts = λ e. absurd (cc);
  three_show = λ e. absurd (omega arith);
}

degraded-IsSound : IsSound (view (collector_in degraded 4 2))
degraded-IsSound = record {
  started = λ e. absurd (cc);
  no_fault = λ e. absurd (cc);
  degraded_counts = λ e. omega arith;
  three_show = λ h e. absurd (cc);
}

abbrev three_errors : List Round
three_errors = mpu_error ∷ mpu_error ∷ mpu_error ∷ []

collect_all-IsSound_example : IsSound (view (collect_all three_errors (collector_in running 0 0)))
collect_all-IsSound_example =
    collect_all-IsSound three_errors (collector_in running 0 0) running-IsSound

one_delivery_restores_example : (collect good (collector_in degraded 4 2)).system_state ≡ running
one_delivery_restores_example =
    one_delivery_restores good (collector_in degraded 4 2) degraded-IsSound refl refl

three_losses_show_example :
    ((collect_all three_errors (collector_in running 0 0)).fsm.current ≡ degraded)
    ⊎ ((collect_all three_errors (collector_in running 0 0)).fsm.current ≡ recovering)
unfolding collect
three_losses_show_example =
    three_losses_show three_errors (collector_in running 0 0) running-IsSound
      (refl, (refl, (refl, tt))) (omega arith)

all_sensors_lost_example :
    (collect both_error (collector_in degraded 4 2)).system_state ≡ recovering
all_sensors_lost_example =
    all_sensors_lost both_error (collector_in degraded 4 2) degraded-IsSound (omega arith)
      (omega arith) refl refl

recovering_stays_example :
    (collect_all (good ∷ good ∷ []) (collector_in recovering 3 3)).fsm.current ≡ recovering
recovering_stays_example = recovering_stays (good ∷ good ∷ []) (collector_in recovering 3 3) refl

registers_read_back_example :
    (signed16 (collect good (collector_in running 0 0)).reg_data.temperature ≡ negsuc 1011)
    × (signed16 (collect good (collector_in running 0 0)).reg_data.humidity ≡ pos 4812)
registers_read_back_example =
    registers_read_back good (collector_in running 0 0) cold damp refl refl (omega arith)
      (omega arith) (omega arith) (omega arith)

collect-view_example :
    (view (collect both_error (collector_in degraded 4 2))
      ≡ record { state = recovering; mpu = 5; sht = 3 })
    × ((collect both_error (collector_in degraded 4 2)).system_state
        ≡ (view (collect both_error (collector_in degraded 4 2))).state)
collect-view_example = collect-view both_error (collector_in degraded 4 2)

-- The first device stays silent, the second delivers in its third read.
abbrev devices : List Candidate
devices =
    record { exists = true; opens = true; reads = λ k. (got [], pos 100) }
    ∷ record {
      exists = true;
      opens = true;
      reads = λ k. if ltb k 2 then (got [], pos 90) else (got (cold ∷ []), pos 95);
    }
    ∷ []

abbrev nothing_yet : Shared
nothing_yet = record {
  fsm = context_in running;
  system_state = running;
  heartbeat = 0;
  reg_data = record { temperature = 0; humidity = 0; accel_x = 0; accel_y = 0 };
}

collector_start_handle_example :
    (s : Collector) × (collector_start true true devices true [] nothing_yet ≡ some s)
    × ((s.mpu_handle ≡ true) ↔ Any IsGood (take 4 devices))
    × (length s.latencies ≤ 200)
    × (s.mpu_fail_streak ≡ 0)
    × (s.fsm ≡ nothing_yet.fsm)
collector_start_handle_example = collector_start_handle devices true [] nothing_yet
