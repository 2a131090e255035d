-- ===== src/Sht30/Device.antt =====
-- The life of the device: `sht30_probe`, `sht30_remove`, and the two files of sysfs.
use edge_omni.Common.{
  ℕ, ◌≡◌, ◌≢◌, ◌⊎◌, arith, Bool, true, false, not, List, [], ◌∷◌, ◌++◌, if◌then◌else◌,
}
use edge_omni.Common.Decimal.{print}
use edge_omni.Common.Int.{ℤ, pos, is_neg}
use edge_omni.Sht30.{Reading, minus_enomem, minus_enodata, is_error, transferred}

-- What the kernel holds for a client of the driver.
pub record Device : Type 0 where
  pub reading : Reading
  pub work_scheduled : Bool
  pub hwmon_registered : Bool
  pub client_data : Bool

abbrev pub cleared : Device
cleared = record {
  reading = record { temp = pos 0; humidity = pos 0; valid = false };
  work_scheduled = false;
  hwmon_registered = false;
  client_data = false;
}

-- Whether memory is there, what the bus answers to the command 0x30A2, and what the registration
-- of the hwmon device returns (0, or an error) are given. Memory is freed by the device manager.
pub probe : Bool → ℤ → ℤ → ℤ × Device
probe memory sent registered =
    let ret = transferred 2 sent in
    let scheduled = record cleared { work_scheduled = true } in
    if not memory
    then (minus_enomem, cleared)
    else if is_error ret
    then (ret, cleared)
    else if is_neg registered
    then (registered, record scheduled { work_scheduled = false })
    else (pos 0, record scheduled { hwmon_registered = true; client_data = true })

-- `hwmon_device_unregister`, then `cancel_delayed_work_sync`.
pub remove : Device → Device
remove d =
    let unregistered = record d { hwmon_registered = false } in
    record unregistered { work_scheduled = false }

-- What `show` returns: an error, or the text that it has written.
pub data Shown : Type 0 where
  failed : ℤ → Shown
  text : List ℕ → Shown

abbrev newline : ℕ
newline = 10

unfoldable pub temp1_input_show : Reading → Shown
temp1_input_show r =
    if not r.valid then failed minus_enodata else text (print r.temp ++ newline ∷ [])

unfoldable pub humidity1_input_show : Reading → Shown
humidity1_input_show r =
    if not r.valid then failed minus_enodata else text (print r.humidity ++ newline ∷ [])

-- sht30_probe returns 0 only with the work scheduled, the files registered and the client data
-- set; on an error it leaves neither work nor files behind.
pub probe_result :
    (memory : Bool) (sent registered : ℤ)
    → let (ret, d) = probe memory sent registered in
      ((ret ≡ pos 0)
        × (d.work_scheduled ≡ true)
        × (d.hwmon_registered ≡ true)
        × (d.client_data ≡ true))
      ⊎ ((ret ≢ pos 0) × (d.work_scheduled ≡ false) × (d.hwmon_registered ≡ false))
unfolding probe transferred
probe_result memory sent registered = ground arith
