-- ===== src/Hal/EndToEnd.antt =====
-- The kernel driver and the HAL together: the number that the driver has measured is the number
-- that the application gets.
use edge_omni.Common.{
  ℕ, ◌+◌, ◌*◌, ◌^◌, ◌≤◌, ◌<◌, ◌≡◌, ◌∙◌, arith, true, false, List, [], ◌∷◌, ◌++◌, ltb,
}
use edge_omni.Common.Decimal.{print, magnitude}
use edge_omni.Common.Word.{u64}
use edge_omni.Sensor.{sizeof_sensor_data}
use edge_omni.Sht30.{Reading}
use edge_omni.Sht30.Device.{temp1_input_show, humidity1_input_show, Shown, failed, text}
use edge_omni.Hal.{got}
use edge_omni.Hal.Sysfs.{File, FailsFor, read_sysfs_int_number}
use edge_omni.Hal.Sht.{Gauges, sht30_hal_read, samples}

-- What a read of a file delivers whose `show` returns this.
abbrev pub delivered : Shown → List ℕ
delivered (failed e) = []
delivered (text t) = t

shown_temp :
    (r : Reading) → r.valid ≡ true → delivered (temp1_input_show r) ≡ print r.temp ++ 10 ∷ []
unfolding temp1_input_show
shown_temp r h = rw h

shown_humidity :
    (r : Reading)
    → r.valid ≡ true
    → delivered (humidity1_input_show r) ≡ print r.humidity ++ 10 ∷ []
unfolding humidity1_input_show
shown_humidity r h = rw h

-- With a valid reading in the driver, a buffer for two samples, fewer than three failed reads of
-- each file and no overflow of the counter, sht30_hal_read returns the two numbers of the driver,
-- publishes them, and counts the failed reads.
pub driver_to_hal :
    (r : Reading) (len tv_sec tv_nsec n m : ℕ) (temp hum : File) (g : Gauges)
    → r.valid ≡ true
    → magnitude r.temp < 10 ^ 10
    → magnitude r.humidity < 10 ^ 10
    → 2 * sizeof_sensor_data ≤ len
    → n < 3
    → FailsFor n temp
    → temp n ≡ delivered (temp1_input_show r)
    → m < 3
    → FailsFor m hum
    → hum m ≡ delivered (humidity1_input_show r)
    → g.i2c_retry_total + n + m < 2 ^ 32
    → sht30_hal_read len tv_sec tv_nsec temp hum g ≡ (
      got (samples (u64 (tv_sec * 1_000_000_000 + tv_nsec)) r.temp r.humidity),
      record {
        i2c_retry_total = g.i2c_retry_total + n + m;
        temperature_milli = r.temp;
        humidity_milli = r.humidity;
      },
    )
unfolding sht30_hal_read
driver_to_hal r len s ns n m temp hum g valid ts hs big n_few t_bad t_good m_few h_bad h_good room =
    let enough : ltb len (2 * sizeof_sensor_data) ≡ false = ground arith in
    rw (
      enough,
      read_sysfs_int_number n r.temp temp g.i2c_retry_total n_few t_bad
          (t_good ∙ shown_temp r valid) ts (omega arith),
      read_sysfs_int_number m r.humidity hum (g.i2c_retry_total + n) m_few h_bad
          (h_good ∙ shown_humidity r valid) hs room,
    )
