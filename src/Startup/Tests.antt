-- ===== src/Startup/Tests.antt =====
-- A start with good answers, and the theorems there.
use edge_omni.Common.{
  ℕ, List, ◌≡◌, ◌↔◌, refl, sym, ap, arith, true, false, none, some, [], ◌∷◌, replicate,
}
use edge_omni.Common.Int.{pos, negsuc}
use edge_omni.Fsm.{init, running, Context, fsm_init}
use edge_omni.Database.{SensorRecord}
use edge_omni.Database.Open.{opens, db_init}
use edge_omni.Database.Repair.{row, db_check_and_repair}
use edge_omni.Modbus.{cleared}
use edge_omni.Modbus.Server.{Turn, reply, turn, modbus_server_update_data, modbus_server_start}
use edge_omni.Hal.{failed}
use edge_omni.Collector.{Round, Collector, tenth, collect, collect_all}
use edge_omni.Collector.Refine.{view}
use edge_omni.Collector.Health.{IsSound}
use edge_omni.Collector.Start.{collector_start}
use edge_omni.Startup.{
  Answers, Boot, read_args, init_fsm, init_db, repair_db, go_running, create_collector, create_web,
  create_watchdog, start_modbus, write_flag, main,
}
use edge_omni.Startup.Ready.{AllAnswer, IsReady, main_iff}
use edge_omni.Web.Thread.{no_client, Web}
use edge_omni.Watchdog.{Monitor, start, loop}
use edge_omni.Startup.Alive.{Period, beats, busy_threads_feed}
use edge_omni.Common.Bits.{be16}
use edge_omni.Common.Word.{signed16}
use edge_omni.Sht30.{Reading, temp_of, humidity_of, work_handler}
use edge_omni.Sht30.Work.{frame, intact_frame-measured}
use edge_omni.Sht30.Device.{temp1_input_show, humidity1_input_show}
use edge_omni.Hal.Sysfs.{File}
use edge_omni.Hal.Sht.{Gauges, sht30_hal_read}
use edge_omni.Hal.EndToEnd.{delivered}
use edge_omni.Startup.EndToEnd.{frame_to_reply}
use edge_omni.Startup.System.{shared_with, main-collect_all}

abbrev blank_record : SensorRecord
blank_record = record { timestamp = pos 0; sensor_type = []; channel = []; value = pos 0 }

abbrev memory : Context
memory = record {
  current = init;
  lock = false;
  cond = false;
  mpu_fail_count = 0;
  i2c_retry_count = 0;
  temp_raw = pos 0;
  hum_raw = pos 0;
}

abbrev before : Boot
before = record {
  test_mode = false;
  fsm = none;
  db = record {
    opened = false;
    batch_buffer = replicate 10 blank_record;
    batch_count = 0;
    last_flush_time = record { tv_sec = 0; tv_nsec = 0 };
    calls = [];
  };
  files = record { usable = false; data_file = 1 ∷ []; backup = some (7 ∷ []) };
  collector = false;
  web = false;
  watchdog = false;
  modbus = record {
    ctx = false;
    mapping = false;
    running = false;
    thread = false;
    reg_data = record { temperature = 0; humidity = 0; accel_x = 0; accel_y = 0 };
    server = record { blacklist = cleared; tab_registers = []; banned = []; replies = [] };
  };
  ota_flag = false;
}

-- The check of the file does not pass, and the backup is put in its place.
abbrev answers : Answers
answers = record {
  args = "edge-omni" ∷ "--test-watchdog" ∷ [];
  memory = memory;
  mutex_ok = true;
  cond_ok = true;
  opening = opens;
  runs = λ q. true;
  now = record { tv_sec = 100; tv_nsec = 0 };
  integrity = row false;
  renames = true;
  reopening = opens;
  collector_ok = true;
  web_ok = true;
  watchdog_ok = true;
  modbus_ctx_ok = true;
  modbus_mapping_ok = true;
  modbus_thread_ok = true;
  flag_opens = true;
}

starts : (main answers before).0 ≡ true
unfolding main read_args init_fsm fsm_init init_db db_init repair_db db_check_and_repair go_running
    create_collector create_web create_watchdog start_modbus modbus_server_start write_flag
starts = refl

repaired :
    (main answers before).1.files ≡ record { usable = true; data_file = 7 ∷ []; backup = none }
unfolding main read_args init_fsm fsm_init init_db db_init repair_db db_check_and_repair go_running
    create_collector create_web create_watchdog start_modbus modbus_server_start write_flag
repaired = refl

test_mode_on : (main answers before).1.test_mode ≡ true
unfolding main read_args init_fsm fsm_init init_db db_init repair_db db_check_and_repair go_running
    create_collector create_web create_watchdog start_modbus modbus_server_start write_flag
test_mode_on = refl

-- Without a backup `main` exits before the state machine has left INIT.
abbrev no_backup : Boot
no_backup = record before { files = record { usable = false; data_file = 1 ∷ []; backup = none } }

gives_up :
    ((main answers no_backup).0 ≡ false)
    × ((main answers no_backup).1.fsm ≡ some record memory { lock = true; cond = true })
unfolding main read_args init_fsm fsm_init init_db db_init repair_db db_check_and_repair go_running
    create_collector create_web create_watchdog start_modbus modbus_server_start write_flag
gives_up = (refl, refl)

main_iff_example :
    (((main answers before).0 ≡ true) ↔ AllAnswer answers before)
    × ((main answers before).0 ≡ true → IsReady (main answers before).1)
main_iff_example = main_iff answers before (refl, refl)

abbrev shut : Round
shut = record {
  probes = [];
  probes_again = [];
  mpu = failed (negsuc 18);
  sht = failed (negsuc 4);
  latency_sht = pos 900;
  now = 1000;
}

main-collect_all_example :
    (ctx : Context) × (s : Collector) × ((main answers before).1.fsm ≡ some ctx)
    × (collector_start true true [] true [] (
          shared_with ctx init 0
            (record { temperature = 0; humidity = 0; accel_x = 0; accel_y = 0 }))
        ≡ some s)
    × (s.fsm.current ≡ running)
    × IsSound (view (collect_all (shut ∷ []) s))
main-collect_all_example =
    main-collect_all answers before (refl, refl) starts [] true [] init 0
      (record { temperature = 0; humidity = 0; accel_x = 0; accel_y = 0 }) (shut ∷ [])

abbrev quiet_period : Period
quiet_period = record { rounds = shut ∷ []; turns = no_client ∷ [] }

abbrev idle_collector : Collector
idle_collector = record {
  mpu_ops = true;
  mpu_handle = false;
  sht_open = false;
  sht_buf = [];
  mpu_fail_streak = 0;
  mpu_no_data_streak = 0;
  sht_fail_streak = 0;
  latest_ax = pos 0;
  latest_ay = pos 0;
  fsm = record memory { current = running };
  system_state = running;
  heartbeat = 0;
  reg_data = record { temperature = 0; humidity = 0; accel_x = 0; accel_y = 0 };
  latencies = [];
  rows = [];
}

abbrev idle_web : Web
idle_web = record { heartbeat = 0; served = [] }

abbrev monitor : Monitor
monitor = start (record { dead_thread = 0; monitor_alive = 0 })

busy_threads_feed_example :
    ((loop false monitor (beats (quiet_period ∷ quiet_period ∷ []) idle_collector idle_web)).1
      ≡ true ∷ true ∷ [])
    × ((loop false monitor
          (beats (quiet_period ∷ quiet_period ∷ []) idle_collector idle_web)).0.published
        ≡ record { dead_thread = 0; monitor_alive = 0 })
busy_threads_feed_example =
    busy_threads_feed (quiet_period ∷ quiet_period ∷ []) idle_collector idle_web monitor
      (
        (omega arith, omega arith, omega arith, omega arith),
        ((omega arith, omega arith, omega arith, omega arith), tt),
      )
      (refl, refl, omega arith, omega arith)

-- The driver has measured 0x6666 and 0x8000; both files are read at once.
abbrev before_frame : Reading
before_frame = record { temp = pos 0; humidity = pos 0; valid = false }

abbrev measured_frame : Reading
measured_frame = record {
  temp = temp_of (be16 0x66 0x66);
  humidity = humidity_of (be16 0x80 0x00);
  valid = true;
}

abbrev temp_file : File
temp_file i = delivered (temp1_input_show measured_frame)

abbrev hum_file : File
hum_file i = delivered (humidity1_input_show measured_frame)

abbrev gauges : Gauges
gauges = record { i2c_retry_total = 0; temperature_milli = pos 0; humidity_milli = pos 0 }

abbrev reading_round : Round
reading_round = record shut { sht = (sht30_hal_read 32 1 2 temp_file hum_file gauges).0 }

abbrev reading_collector : Collector
reading_collector = record idle_collector { sht_open = true }

abbrev read_query : List ℕ
read_query = 0 ∷ 1 ∷ 0 ∷ 0 ∷ 0 ∷ 6 ∷ 1 ∷ 3 ∷ 0 ∷ 0 ∷ 0 ∷ 4 ∷ []

abbrev asking : Turn
asking = record {
  running = true;
  query = some read_query;
  now = 10;
  reg_data = (collect reading_round reading_collector).reg_data;
  reply_ok = true;
}

frame_to_reply_example :
    (temperature humidity accel_x accel_y : ℕ) × ((turn 7 asking before.modbus.server).0.replies
      ≡ reply read_query (temperature ∷ humidity ∷ accel_x ∷ accel_y ∷ []) ∷ [])
    × (signed16 temperature ≡ tenth (temp_of (be16 0x66 0x66)))
    × (signed16 humidity ≡ tenth (humidity_of (be16 0x80 0x00)))
unfolding modbus_server_update_data
frame_to_reply_example =
    frame_to_reply before_frame 0x66 0x66 0x80 0x00 (omega arith) (omega arith) (omega arith)
      (omega arith) temp_file hum_file 0 0 1 2 gauges
      (record {
        temp_few = omega arith;
        temp_fails = λ i h. elim h [ ];
        temp_shown = ap (λ r. delivered (temp1_input_show r)) (sym holds);
        hum_few = omega arith;
        hum_fails = λ i h. elim h [ ];
        hum_shown = ap (λ r. delivered (humidity1_input_show r)) (sym holds);
      })
      (omega arith) reading_round reading_collector refl refl before.modbus 7 asking read_query
      before.modbus.server
      (record { still_running = refl; came = refl; reads = refl; inside = omega arith }) refl
  where
    holds :
        (work_handler before_frame (pos 2) (pos 6) (frame 0x66 0x66 0x80 0x00)).1 ≡ measured_frame
    holds = ap (λ w. w.1) (intact_frame-measured before_frame 0x66 0x66 0x80 0x00)
