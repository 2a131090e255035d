-- ===== src/Collector.antt =====
-- app/main.c, collector_thread: a round of the loop that reads the two sensors, drives the state
-- machine and passes the samples on. What the sensors deliver is given for each round. The calls of
-- record_latency and db_insert_sensor are logged, the newest first. The three streaks are natural
-- numbers: an `int` would need years of rounds of 100 ms to overflow.
mod Spec
pub mod Refine
pub mod Health
pub mod Published
pub mod Start
pub mod Beats
mod Tests
use Prim.Native.String.{String}
use edge_omni.Common.{
  ℕ, zero, suc, ◌+◌, ◌-◌, ◌*◌, ◌/◌, ◌%◌, ◌^◌, Bool, true, false, not, ◌&&◌, Option, none, some,
  List, [], ◌∷◌, ◌++◌, ltb, leb, ◌==◌, if◌then◌else◌, get_or, get_elem?, take, drop, length,
}
use edge_omni.Common.Int.{ℤ, pos, negsuc, sub_ℕ}
use edge_omni.Common.Word.{u16, u32, u64}
use edge_omni.Sensor.{SensorData}
use edge_omni.Hal.{ReadResult, got, failed}
use edge_omni.Fsm.{
  State, degraded, Event, mpu_fail, mpu_restored, i2c_deadlock, Context, transition, fsm_get_state,
}
use edge_omni.Modbus.Server.{RegData}

-- A row as db_insert_sensor gets it; the name of a channel past the table is `none`.
pub record Row : Type 0 where
  pub timestamp : ℕ
  pub sensor : String
  pub channel : Option String
  pub value : ℤ

-- One of the four event devices: whether its file exists, and whether `open` succeeds on it.
pub record Probe : Type 0 where
  pub exists : Bool
  pub opens : Bool

-- What a round meets: the devices, when they are scanned at its start and after a failure, the two
-- reads, the latency that is measured, and the clock.
pub record Round : Type 0 where
  pub probes : List Probe
  pub probes_again : List Probe
  pub mpu : ReadResult
  pub sht : ReadResult
  pub latency_sht : ℤ
  pub now : ℕ

-- The variables of the thread, and those that it shares. `sht_open` is the test of `sht_ops` and
-- `sht_handle`, which no round changes.
pub record Collector : Type 0 where
  pub mpu_ops : Bool
  pub mpu_handle : Bool
  pub sht_open : Bool
  pub sht_buf : List SensorData
  pub mpu_fail_streak : ℕ
  pub mpu_no_data_streak : ℕ
  pub sht_fail_streak : ℕ
  pub latest_ax : ℤ
  pub latest_ay : ℤ
  pub fsm : Context
  pub system_state : State
  pub heartbeat : ℕ  -- uint64_t
  pub reg_data : RegData
  pub latencies : List ℤ
  pub rows : List Row

-- The loop over /dev/input/event0 to event3.
unfoldable pub scan : List Probe → Bool
scan [] = false
scan (p ∷ ps) = let rest = scan ps in if p.exists && p.opens then true else rest

abbrev pub axis_names : List String
axis_names = "AX" ∷ "AY" ∷ "AZ" ∷ "GX" ∷ "GY" ∷ "GZ" ∷ []

abbrev pub counted : Collector → Collector
counted s = record s {
  mpu_fail_streak = s.mpu_fail_streak + 1;
  fsm = record s.fsm { mpu_fail_count = u32 (s.fsm.mpu_fail_count + 1) };
}

abbrev pub degrade_if_due : Collector → Collector
degrade_if_due s =
    if leb 3 s.mpu_fail_streak then record s { fsm = (transition s.fsm mpu_fail).2 } else s

-- A failure with an open handle, which is closed; the devices are scanned again.
abbrev pub mpu_failed : Round → Collector → Collector
mpu_failed i s = degrade_if_due (record (counted s) { mpu_handle = scan (take 4 i.probes_again) })

-- The samples go to the database, and the newest of channels 0 and 1 are kept.
pub store_mpu : ℕ → List SensorData → Collector → Collector
store_mpu now [] s = s
store_mpu now (x ∷ xs) s = store_mpu now xs (record s {
  rows =
      record {
        timestamp = now;
        sensor = "mpu6050";
        channel = get_elem? axis_names x.channel;
        value = x.value;
      }
      ∷ s.rows;
  latest_ax = if x.channel == 0 then x.value else s.latest_ax;
  latest_ay = if x.channel == 1 then x.value else s.latest_ay;
})

abbrev pub is_degraded : State → Bool
is_degraded degraded = true
is_degraded _ = false

unfoldable pub mpu_result : ReadResult → Round → Collector → Collector
unfolding store_mpu fsm_get_state
mpu_result (failed e) i s = mpu_failed i (record s { mpu_no_data_streak = 0 })
mpu_result (got []) i s =
    let waited = record s { mpu_no_data_streak = s.mpu_no_data_streak + 1 } in
    if leb 10 waited.mpu_no_data_streak
    then mpu_failed i (record waited { mpu_no_data_streak = 0 })
    else waited
mpu_result (got (x ∷ xs)) i s =
    let restored =
      if ltb 0 s.mpu_fail_streak && is_degraded (fsm_get_state s.fsm)
      then record s { fsm = (transition s.fsm mpu_restored).2 }
      else s in
    store_mpu i.now (x ∷ xs) (record restored { mpu_fail_streak = 0; mpu_no_data_streak = 0 })

-- The part of the round up to `mpu_done`.
unfoldable pub mpu_part : Round → Collector → Collector
unfolding mpu_result scan
mpu_part i s =
    let probed = if s.mpu_handle then s else record s { mpu_handle = scan (take 4 i.probes) } in
    if not s.mpu_ops
    then s
    else if probed.mpu_handle
    then mpu_result i.mpu i probed
    else degrade_if_due (counted probed)

-- `v / 10` of C, which rounds towards zero, and the conversion to uint16_t.
abbrev pub tenth : ℤ → ℤ
tenth (pos n) = pos (n / 10)
tenth (negsuc n) = sub_ℕ 0 ((n + 1) / 10)

abbrev pub u16_of : ℤ → ℕ
u16_of (pos n) = u16 n
u16_of (negsuc n) = 2 ^ 16 - 1 - u16 n

abbrev no_sample : SensorData
no_sample = record { timestamp_ns = 0; sensor_type = 0; channel = 0; value = pos 0 }

-- The value of an element of `sht_buf`, which has two.
abbrev pub value_at : List SensorData → ℕ → ℤ
value_at buf k = (get_or buf k no_sample).value

abbrev sht_row : ℕ → SensorData → Row
sht_row now x = record {
  timestamp = now;
  sensor = "sht30";
  channel = some (if x.channel == 0 then "temperature" else "humidity");
  value = x.value;
}

pub store_sht : ℕ → List SensorData → List Row → List Row
store_sht now [] rows = rows
store_sht now (x ∷ xs) rows = store_sht now xs (sht_row now x ∷ rows)

unfoldable pub sht_result : ReadResult → Round → Collector → Collector
unfolding store_sht
sht_result (failed e) i s =
    let lost = record s {
      sht_fail_streak = s.sht_fail_streak + 1;
      fsm = record s.fsm { i2c_retry_count = u32 (s.fsm.i2c_retry_count + 1) };
    } in
    if leb 3 lost.mpu_fail_streak && leb 3 lost.sht_fail_streak
    then record lost { fsm = (transition lost.fsm i2c_deadlock).2 }
    else lost
sht_result (got []) i s = s
sht_result (got (x ∷ xs)) i s =
    let buf = (x ∷ xs) ++ drop (length (x ∷ xs)) s.sht_buf in
    record s {
      sht_buf = buf;
      sht_fail_streak = 0;
      fsm = record s.fsm { temp_raw = value_at buf 0; hum_raw = value_at buf 1 };
      rows = store_sht i.now (x ∷ xs) s.rows;
      reg_data = record {
        temperature = u16_of (tenth (value_at buf 0));
        humidity = u16_of (tenth (value_at buf 1));
        accel_x = u16_of s.latest_ax;
        accel_y = u16_of s.latest_ay;
      };
    }

unfoldable pub sht_part : Round → Collector → Collector
unfolding sht_result
sht_part i s =
    if s.sht_open
    then sht_result i.sht i (record s { latencies = i.latency_sht ∷ s.latencies })
    else s

abbrev beat : Collector → Collector
beat s = record s { heartbeat = u64 (s.heartbeat + 1) }

-- A round, up to the sleep.
unfoldable pub collect : Round → Collector → Collector
unfolding mpu_part sht_part fsm_get_state
collect i s =
    let read = sht_part i (mpu_part i (beat s)) in
    beat (record read { system_state = fsm_get_state read.fsm })

unfoldable pub collect_all : List Round → Collector → Collector
unfolding collect
collect_all [] s = s
collect_all (i ∷ is) s = collect_all is (collect i s)
