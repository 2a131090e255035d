-- ===== src/Mpu6050.antt =====
-- kernel-drivers/mpu6050/mpu6050.c: the driver of the accelerometer and gyroscope. What the I2C bus
-- and the kernel answer is given; what the driver does to the pins and what it reports are logs, the
-- oldest entry first.
pub mod Recovery
pub mod Frame
pub mod Teardown
mod Tests
use edge_omni.Common.{
  ℕ, zero, suc, ◌+◌, ◌-◌, Bool, true, false, not, ◌&&◌, ◌||◌, Option, none, some, List, [], ◌∷◌,
  ◌++◌, ◌==◌, if◌then◌else◌, get_or,
}
use edge_omni.Common.Bits.{be16}
use edge_omni.Common.Int.{ℤ, pos, negsuc, is_neg}
use edge_omni.Common.Word.{u32, signed16}

-- The two pins of the bus.
pub data Pin : Type 0 where
  scl sda : Pin

-- gpiod_direction_output and gpiod_set_value with a level, gpiod_direction_input.
pub data Action : Type 0 where
  direction_output set_value : Pin → Bool → Action
  direction_input : Pin → Action

-- `struct mpu6050_data`: whether the two pins are there, and the counter.
pub record Mpu : Type 0 where
  pub scl_gpio : Bool
  pub sda_gpio : Bool
  pub recovery_count : ℕ  -- u32

-- The loop over the clock pulses.
unfoldable pub pulses : ℕ → List Action
pulses zero = []
pulses (suc n) = set_value scl false ∷ set_value scl true ∷ pulses n

-- What `mpu6050_i2c_bus_recovery` does to the pins, when both are there.
unfoldable pub recovery_actions : List Action
unfolding pulses
recovery_actions =
    direction_output scl true
    ∷ direction_output sda true
    ∷ set_value scl true
    ∷ set_value sda true
    ∷ (pulses 9
        ++ (set_value sda false
            ∷ set_value scl true
            ∷ set_value sda true
            ∷ direction_input scl
            ∷ direction_input sda
            ∷ []))

-- The call is counted before the pins are looked for.
unfoldable pub mpu6050_i2c_bus_recovery : Mpu → Mpu × List Action
unfolding recovery_actions
mpu6050_i2c_bus_recovery d =
    let counted = record d { recovery_count = u32 (d.recovery_count + 1) } in
    if not d.scl_gpio || not d.sda_gpio then (counted, []) else (counted, recovery_actions)

-- EIO, ENXIO, EAGAIN, EBUSY, ETIMEDOUT and EREMOTEIO of Linux.
abbrev pub is_bus_error : ℕ → Bool
is_bus_error e = e == 11 || e == 110 || e == 5 || e == 121 || e == 6 || e == 16

-- `mpu6050_check_bus_error`; the error `-(e + 1)` has the number e + 1.
unfoldable pub mpu6050_check_bus_error : Mpu → ℤ → ℤ × Mpu × List Action
unfolding mpu6050_i2c_bus_recovery
mpu6050_check_bus_error d (pos n) = (pos 0, d, [])
mpu6050_check_bus_error d (negsuc e) =
    let (recovered, actions) = mpu6050_i2c_bus_recovery d in
    if is_bus_error (e + 1) then (negsuc e, recovered, actions) else (negsuc e, d, [])

-- input_report_abs with the code of the axis, and input_sync.
pub data Report : Type 0 where
  report_abs : (code : ℕ) (value : ℤ) → Report
  sync : Report

abbrev byte_at : List ℕ → ℕ → ℕ
byte_at buf i = get_or buf i 0

-- `(s16)((buf[i] << 8) | buf[i + 1])`
abbrev pub axis_at : List ℕ → ℕ → ℤ
axis_at buf i = signed16 (be16 (byte_at buf i) (byte_at buf (i + 1)))

-- The six axes, with the codes ABS_X to ABS_RZ; bytes 6 and 7 are the sensor's temperature.
unfoldable pub reports_of : List ℕ → List Report
reports_of buf =
    report_abs 0 (axis_at buf 0)
    ∷ report_abs 1 (axis_at buf 2)
    ∷ report_abs 2 (axis_at buf 4)
    ∷ report_abs 3 (axis_at buf 8)
    ∷ report_abs 4 (axis_at buf 10)
    ∷ report_abs 5 (axis_at buf 12)
    ∷ sync
    ∷ []

abbrev is_error : ℤ → Bool
is_error (pos zero) = false
is_error _ = true

-- `mpu6050_work_handler`: what the bulk read returns, and the bytes that it delivers.
unfoldable pub mpu6050_work_handler : ℤ → List ℕ → Mpu → Mpu × List Action × List Report
unfolding mpu6050_check_bus_error reports_of
mpu6050_work_handler ret buf d =
    let (checked, d', actions) = mpu6050_check_bus_error d ret in
    if is_error checked then (d', actions, []) else (d', actions, reports_of buf)

-- What the kernel holds for a client of the driver: the memory, the input device, the timer with
-- its work, and the directory of debugfs.
pub record Device : Type 0 where
  pub memory : Bool
  pub input : Bool
  pub timer : Bool
  pub debugfs_dir : Bool
  pub data' : Mpu

abbrev pub absent : Device
absent = record {
  memory = false;
  input = false;
  timer = false;
  debugfs_dir = false;
  data' = record { scl_gpio = false; sda_gpio = false; recovery_count = 0 };
}

-- The answers to the steps of `mpu6050_probe`, in its order.
pub record Answers : Type 0 where
  pub memory_ok : Bool
  pub regmap : ℤ
  pub scl_ok : Bool
  pub sda_ok : Bool
  pub wakeup : ℤ
  pub accel_config : ℤ
  pub input_ok : Bool
  pub input_registered : ℤ
  pub debugfs_ok : Bool

abbrev minus_enomem : ℤ
minus_enomem = negsuc 11

-- `mpu6050_probe`: an error frees the memory, and the device manager takes the input device back.
unfoldable pub mpu6050_probe : Answers → ℤ × Device
mpu6050_probe a =
    if not a.memory_ok
    then (minus_enomem, absent)
    else if is_neg a.regmap
    then (a.regmap, absent)
    else if is_error a.wakeup
    then (a.wakeup, absent)
    else if is_error a.accel_config
    then (a.accel_config, absent)
    else if not a.input_ok
    then (minus_enomem, absent)
    else if is_error a.input_registered
    then (a.input_registered, absent)
    else (
      pos 0,
      record {
        memory = true;
        input = true;
        timer = true;
        debugfs_dir = a.debugfs_ok;
        data' = record { scl_gpio = a.scl_ok; sda_gpio = a.sda_ok; recovery_count = 0 };
      },
    )

-- `mpu6050_remove`; the device manager then takes the input device back.
unfoldable pub mpu6050_remove : Device → Device
mpu6050_remove d =
    let no_dir = if d.debugfs_dir then record d { debugfs_dir = false } else d in
    record (record no_dir { timer = false }) { memory = false; input = false }
