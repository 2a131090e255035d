-- ===== src/Hal.antt =====
-- app/hal: the two sensors behind the interface `sensor_hal_ops_t`. The files and the event device
-- are given: a file by what each read of it delivers, the device by the list of its answers.
pub mod Sysfs
pub mod Sht
pub mod EndToEnd
pub mod Mpu
pub mod Frames
pub mod Evdev
mod Tests
use Prim.Native.String.{String}
use text.Mathlib.Text.{◌==◌ as str_eq}
use edge_omni.Common.{Bool, Option, none, some, List, [], ◌∷◌, if◌then◌else◌}
use edge_omni.Sensor.{SensorData}

-- What a `read` of the interface returns: the samples that it has put into the buffer (their size
-- is the number that the C function returns), or an error.
pub data ReadResult : Type 0 where
  got : List SensorData → ReadResult
  failed : edge_omni.Common.Int.ℤ → ReadResult

-- The two implementations, by the names of their tables of functions.
pub data Ops : Type 0 where
  mpu6050_hal_ops sht30_hal_ops : Ops

-- hal_registry, up to the entry with a null name.
abbrev hal_registry : List (String × Ops)
hal_registry = ("mpu6050", mpu6050_hal_ops) ∷ ("sht30", sht30_hal_ops) ∷ []

search_registry : String → List (String × Ops) → Option Ops
search_registry name [] = none
search_registry name ((n, ops) ∷ rest) =
    if str_eq name n then some ops else search_registry name rest

unfoldable pub hal_get_ops : String → Option Ops
unfolding search_registry
hal_get_ops name = search_registry name hal_registry
