-- ===== src/Hal/Sht.antt =====
-- app/hal/sht30_hal.c: the sensor whose two files the kernel driver fills.
use edge_omni.Common.{
  ℕ, ◌+◌, ◌*◌, ◌≡◌, refl, Bool, true, false, Option, none, some, List, [], ◌∷◌, ◌++◌, ltb,
  if◌then◌else◌,
}
use edge_omni.Common.Int.{ℤ, pos, negsuc, ◌+ℤ◌, ◌-ℤ◌}
use edge_omni.Common.Word.{u64}
use edge_omni.Sensor.{SensorData, sensor_sht30, sizeof_sensor_data}
use edge_omni.Hal.{ReadResult, got, failed}
use edge_omni.Hal.Sysfs.{File, read_sysfs_int}

-- The variables of app/core/metrics.c that the two sensors write.
pub record Gauges : Type 0 where
  pub i2c_retry_total : ℕ
  pub temperature_milli : ℤ
  pub humidity_milli : ℤ

-- EIO, ENOMEM, EINVAL and ENOTSUP of Linux, negated.
abbrev pub minus_eio : ℤ
minus_eio = negsuc 4

abbrev pub minus_enomem : ℤ
minus_enomem = negsuc 11

abbrev pub minus_einval : ℤ
minus_einval = negsuc 21

abbrev pub minus_enotsup : ℤ
minus_enotsup = negsuc 94

-- `sht30_hal_t`, less the two paths.
pub record Handle : Type 0 where
  pub temp_fd : ℕ
  pub hum_fd : ℕ

-- The calls of the system that take or give back something.
pub data Call : Type 0 where
  opened closed : ℕ → Call
  allocated freed : Call

-- Whether memory is there is given, and what `open` returns for each file: a descriptor, or an
-- error with the number in `errno`. The result, the handle that is handed out, and the calls made.
unfoldable pub sht30_hal_open : Bool → ℤ → ℤ → ℤ × Option Handle × List Call
sht30_hal_open false temp_fd hum_fd = (minus_enomem, none, [])
sht30_hal_open true (negsuc e) hum_fd = (negsuc e, none, allocated ∷ freed ∷ [])
sht30_hal_open true (pos t) (negsuc e) =
    (negsuc e, none, allocated ∷ opened t ∷ closed t ∷ freed ∷ [])
sht30_hal_open true (pos t) (pos h) =
    (pos 0, some (record { temp_fd = t; hum_fd = h }), allocated ∷ opened t ∷ opened h ∷ [])

-- The samples, from one moment and two numbers.
abbrev pub samples : ℕ → ℤ → ℤ → List SensorData
samples now t h =
    record { timestamp_ns = now; sensor_type = sensor_sht30; channel = 0; value = t }
    ∷ record { timestamp_ns = now; sensor_type = sensor_sht30; channel = 1; value = h }
    ∷ []

-- After the second file has been read: the stores, and the samples.
publish : ℕ → ℤ → Gauges → Option ℤ × ℕ → ReadResult × Gauges
publish now t g (none, total) = (failed minus_eio, record g { i2c_retry_total = total })
publish now t g (some h, total) = (
  got (samples now t h),
  record { i2c_retry_total = total; temperature_milli = t; humidity_milli = h },
)

-- After the first file has been read.
second_read : ℕ → File → Gauges → Option ℤ × ℕ → ReadResult × Gauges
second_read now hum g (none, total) = (failed minus_eio, record g { i2c_retry_total = total })
second_read now hum g (some t, total) = publish now t g (read_sysfs_int hum total)

-- `sht30_hal_read`: the length of the buffer in bytes, the moment (seconds and nanoseconds), and
-- the two files.
unfoldable pub sht30_hal_read : ℕ → ℕ → ℕ → File → File → Gauges → ReadResult × Gauges
unfolding second_read publish
sht30_hal_read len tv_sec tv_nsec temp hum g =
    let now = u64 (tv_sec * 1_000_000_000 + tv_nsec) in
    if ltb len (2 * sizeof_sensor_data)
    then (failed minus_einval, g)
    else second_read now hum g (read_sysfs_int temp g.i2c_retry_total)

unfoldable pub sht30_hal_ioctl : Option Handle → ℤ
sht30_hal_ioctl handle = minus_enotsup

-- `none` is a handle that is null. The calls made stand beside the result and the handle.
unfoldable pub sht30_hal_close : Option Handle → ℤ × Option Handle × List Call
sht30_hal_close none = (minus_einval, none, [])
sht30_hal_close (some h) = (pos 0, none, closed h.temp_fd ∷ closed h.hum_fd ∷ freed ∷ [])

-- What a list of calls takes, less what it gives back.
abbrev pub balance : List Call → ℤ
balance [] = pos 0
balance (opened _ ∷ cs) = balance cs +ℤ pos 1
balance (allocated ∷ cs) = balance cs +ℤ pos 1
balance (closed _ ∷ cs) = balance cs -ℤ pos 1
balance (freed ∷ cs) = balance cs -ℤ pos 1

-- Opening the sensor and closing what was handed out gives back all that was taken; so does an
-- open that fails by itself.
pub open_close_balance :
    (memory : Bool) (temp_fd hum_fd : ℤ)
    → let (ret, handle, calls) = sht30_hal_open memory temp_fd hum_fd in
      let (ret', handle', calls') = sht30_hal_close handle in
      (balance (calls ++ calls') ≡ pos 0) × (handle' ≡ none)
unfolding sht30_hal_open sht30_hal_close ◌+ℤ◌ ◌-ℤ◌
open_close_balance false temp_fd hum_fd = (refl, refl)
open_close_balance true (negsuc e) hum_fd = (refl, refl)
open_close_balance true (pos t) (negsuc e) = (refl, refl)
open_close_balance true (pos t) (pos h) = (refl, refl)
