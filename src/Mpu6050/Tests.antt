-- ===== src/Mpu6050/Tests.antt =====
-- The driver at concrete inputs.
use edge_omni.Common.{ℕ, ◌≤◌, ◌<◌, ◌≡◌, ◌↔◌, refl, arith, true, false, List, [], ◌∷◌, map}
use edge_omni.Common.Int.{pos, negsuc}
use edge_omni.Sensor.{SensorData}
use edge_omni.Hal.Mpu.{mpu6050_hal_read}
use edge_omni.Hal.Frames.{cache_of}
use edge_omni.Mpu6050.Teardown.{
  Move, expire, run_work, remove_call, freed, probed, live_run, remove_any_time,
}
use edge_omni.Mpu6050.{
  Mpu, Answers, mpu6050_i2c_bus_recovery, mpu6050_probe, mpu6050_remove, mpu6050_work_handler,
}
use edge_omni.Mpu6050.Recovery.{act_all, stuck, recovery_frees_iff}
use edge_omni.Mpu6050.Frame.{event_of, channel_and_value, frame_of, frame_to_samples}

abbrev with_pins : Mpu
with_pins = record { scl_gpio = true; sda_gpio = true; recovery_count = 41 }

-- -EIO is followed by a recovery, -EINVAL is not.
io_error_recovers : (mpu6050_work_handler (negsuc 4) [] with_pins).0.recovery_count ≡ 42
unfolding mpu6050_work_handler
io_error_recovers = refl

other_error_does_not : (mpu6050_work_handler (negsuc 21) [] with_pins).0.recovery_count ≡ 41
unfolding mpu6050_work_handler
other_error_does_not = refl

recovery_frees_iff_example :
    ((0 < (act_all (mpu6050_i2c_bus_recovery with_pins).1 (stuck 9)).stops)
      ↔ ((true ≡ true) × (true ≡ true) × (9 ≤ 9)))
    × ((mpu6050_i2c_bus_recovery with_pins).0.recovery_count ≡ 42)
recovery_frees_iff_example = recovery_frees_iff 9 with_pins

abbrev all_well : Answers
all_well = record {
  memory_ok = true;
  regmap = pos 0;
  scl_ok = true;
  sda_ok = false;
  wakeup = pos 0;
  accel_config = pos 0;
  input_ok = true;
  input_registered = pos 0;
  debugfs_ok = true;
}

probe_then_remove : (mpu6050_remove (mpu6050_probe all_well).1).memory ≡ false
unfolding mpu6050_remove
probe_then_remove = refl

abbrev old : SensorData
old = record { timestamp_ns = 0; sensor_type = 0; channel = 0; value = pos 0 }

abbrev bytes : List ℕ
bytes = 0 ∷ 5 ∷ 255 ∷ 254 ∷ 64 ∷ 0 ∷ 12 ∷ 34 ∷ 128 ∷ 0 ∷ 127 ∷ 255 ∷ 0 ∷ 0 ∷ []

frame_to_samples_example :
    map channel_and_value
      (mpu6050_hal_read 96
        (frame_of (map (event_of 10 20)) 0 bytes with_pins)
        (record { cache = cache_of old old old old old old; cache_count = 0 })
        7).0.out
    ≡ (0, pos 5)
      ∷ (1, negsuc 1)
      ∷ (2, pos 16384)
      ∷ (3, negsuc 32767)
      ∷ (4, pos 32767)
      ∷ (5, pos 0)
      ∷ []
frame_to_samples_example =
    frame_to_samples (map (event_of 10 20)) 0 10 20 7 with_pins bytes old old old old old old
      (
        omega arith,
        (
          omega arith,
          (
            omega arith,
            (
              omega arith,
              (
                omega arith,
                (
                  omega arith,
                  (
                    omega arith,
                    (
                      omega arith,
                      (
                        omega arith,
                        (
                          omega arith,
                          (omega arith, (omega arith, (omega arith, (omega arith, tt)))),
                        ),
                      ),
                    ),
                  ),
                ),
              ),
            ),
          ),
        ),
      )
      (λ rs. refl)

-- The timer expires while the removal is under way, and the work runs late.
abbrev unlucky : List Move
unlucky =
    remove_call ∷ expire ∷ remove_call ∷ run_work ∷ expire ∷ remove_call ∷ remove_call ∷ run_work
    ∷ []

remove_any_time_example :
    ((live_run unlucky probed).touched_freed ≡ false)
    × ((live_run unlucky probed).removal ≡ freed
        → ((live_run unlucky probed).timer ≡ false) × ((live_run unlucky probed).scheduled ≡ false))
remove_any_time_example = remove_any_time unlucky
