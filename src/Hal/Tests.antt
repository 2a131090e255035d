-- ===== src/Hal/Tests.antt =====
-- Runs of the HAL, and its theorems at concrete inputs.
use edge_omni.Common.{
  false, true, ◌++◌, ℕ, zero, suc, ◌+◌, ◌*◌, ◌/◌, ◌<◌, ◌≡◌, refl, arith, none, some, [], ◌∷◌,
}
use edge_omni.Common.Int.{pos, negsuc}
use edge_omni.Common.Word.{u64}
use edge_omni.Sht30.{Reading}
use edge_omni.Sht30.Device.{temp1_input_show, humidity1_input_show}
use edge_omni.Hal.Evdev.{
  mpu6050_hal_open, mpu6050_hal_close, files, devices, blocks, mpu6050_open_close,
}
use edge_omni.Hal.{hal_get_ops, mpu6050_hal_ops, sht30_hal_ops, got}
use edge_omni.Hal.Sysfs.{File}
use edge_omni.Hal.Sht.{
  sht30_hal_read, samples, sht30_hal_open, sht30_hal_close, balance, open_close_balance,
}
use edge_omni.Hal.EndToEnd.{delivered, driver_to_hal}
use edge_omni.Hal.Mpu.{fresh, blank, event, point, mpu6050_hal_read}
use edge_omni.Hal.Frames.{axis, Kept, mpu6050_hal_read_bounds, full_frame, lone_axis_lost}

finds_both :
    (hal_get_ops "mpu6050" ≡ some mpu6050_hal_ops) × (hal_get_ops "sht30" ≡ some sht30_hal_ops)
unfolding hal_get_ops
finds_both = (refl, refl)

finds_no_other : hal_get_ops "bme280" ≡ none
unfolding hal_get_ops
finds_no_other = refl

abbrev frosty : Reading
frosty = record { temp = negsuc 4499; humidity = pos 98765; valid = true }

-- The first read fails, then the file of the driver is read.
flaky : File
flaky zero = []
flaky (suc i) = delivered (temp1_input_show frosty)

steady : File
steady i = delivered (humidity1_input_show frosty)

driver_to_hal_example :
    sht30_hal_read 32 1 2 flaky steady
      (record { i2c_retry_total = 5; temperature_milli = pos 0; humidity_milli = pos 0 })
    ≡ (
      got (samples (u64 (1 * 1_000_000_000 + 2)) (negsuc 4499) (pos 98765)),
      record {
        i2c_retry_total = 5 + 1 + 0;
        temperature_milli = negsuc 4499;
        humidity_milli = pos 98765;
      },
    )
unfolding flaky steady
driver_to_hal_example =
    driver_to_hal frosty 32 1 2 1 0 flaky steady
      (record { i2c_retry_total = 5; temperature_milli = pos 0; humidity_milli = pos 0 }) refl
      (omega arith) (omega arith) (omega arith) (omega arith) first_fails refl (omega arith)
      (λ i h. elim h [ ]) refl (omega arith)
  where
    first_fails : (i : ℕ) → i < 1 → flaky i ≡ []
    first_fails zero h = refl
    first_fails (suc i) h = absurd (omega arith)

open_close_balance_example :
    let (ret, handle, calls) = sht30_hal_open true (pos 4) (negsuc 1) in
    let (ret', handle', calls') = sht30_hal_close handle in
    (balance (calls ++ calls') ≡ pos 0) × (handle' ≡ none)
open_close_balance_example = open_close_balance true (pos 4) (negsuc 1)

mpu6050_hal_read_bounds_example :
    Kept (96 / 16) (mpu6050_hal_read 96 (event (axis 1 2 0 (pos 7)) ∷ []) fresh 0).0
mpu6050_hal_read_bounds_example =
    mpu6050_hal_read_bounds 96 (event (axis 1 2 0 (pos 7)) ∷ []) fresh 0 (omega arith) refl

full_frame_example :
    let frame =
      event (axis 1 2 0 (pos 1))
      ∷ event (axis 1 2 1 (pos 2))
      ∷ event (axis 1 2 2 (pos 3))
      ∷ event (axis 1 2 3 (pos 4))
      ∷ event (axis 1 2 4 (pos 5))
      ∷ event (axis 1 2 5 (pos 6))
      ∷ [] in
    let samples =
      point (axis 1 2 0 (pos 1)) 0
      ∷ point (axis 1 2 1 (pos 2)) 1
      ∷ point (axis 1 2 2 (pos 3)) 2
      ∷ point (axis 1 2 3 (pos 4)) 3
      ∷ point (axis 1 2 4 (pos 5)) 4
      ∷ point (axis 1 2 5 (pos 6)) 5
      ∷ [] in
    mpu6050_hal_read 96 frame fresh 0 ≡ (
      record {
        error = none;
        left = record { cache = samples; cache_count = 0 };
        out = samples;
        unread = [];
      },
      0,
    )
full_frame_example =
    full_frame blank blank blank blank blank blank 1 2 (pos 1) (pos 2) (pos 3) (pos 4) (pos 5)
      (pos 6) [] 0

lone_axis_lost_example :
    let (first, total') = mpu6050_hal_read 96 (event (axis 1 2 0 (pos 9)) ∷ []) fresh 0 in
    let (second, total'') = mpu6050_hal_read 96 [] first.left total' in
    (first.error ≡ none)
    × (first.out ≡ [])
    × (second.error ≡ none)
    × (second.out ≡ blank ∷ [])
    × (second.left.cache_count ≡ 0)
lone_axis_lost_example =
    lone_axis_lost blank blank blank blank blank blank 1 2 0 (pos 9) 0 (omega arith)

mpu6050_open_close_example :
    let (ret, handle, calls) = mpu6050_hal_open (pos 5) true (pos 0) false in
    let (ret', handle', calls') = mpu6050_hal_close handle in
    (files (calls ++ calls') ≡ pos 0)
    × (devices (calls ++ calls') ≡ pos 0)
    × (blocks (calls ++ calls') ≡ pos 0)
    × (handle' ≡ none)
mpu6050_open_close_example = mpu6050_open_close (pos 5) (pos 0) true false
