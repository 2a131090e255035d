-- ===== src/Sensor.antt =====
-- app/include/sensor_hal.h: the record that every part of the application passes on.
use edge_omni.Common.{ℕ}
use edge_omni.Common.Int.{ℤ}

-- `sensor_data_t`
pub record SensorData : Type 0 where
  pub timestamp_ns : ℕ  -- uint64_t
  pub sensor_type : ℕ  -- uint8_t
  pub channel : ℕ  -- uint8_t
  pub value : ℤ  -- int32_t

abbrev pub sensor_mpu6050 : ℕ
sensor_mpu6050 = 0

abbrev pub sensor_sht30 : ℕ
sensor_sht30 = 1

-- `sizeof(sensor_data_t)`: 8 + 1 + 1, two bytes of padding, 4.
abbrev pub sizeof_sensor_data : ℕ
sizeof_sensor_data = 16
