-- ===== src/Hal/Mpu.antt =====
-- app/hal/mpu6050_hal.c: the six axes, read as events of the input device.
use edge_omni.Common.{
  ℕ, zero, suc, ◌+◌, ◌-◌, ◌*◌, ◌/◌, not, Option, none, some, List, [], ◌∷◌, ◌++◌, leb, ◌==◌,
  if◌then◌else◌, get_or, set, take, replicate, length,
}
use edge_omni.Common.Int.{ℤ, pos}
use edge_omni.Common.Word.{u32, u64}
use edge_omni.Sensor.{SensorData, sensor_mpu6050, sizeof_sensor_data}

-- `struct input_event`
pub record InputEvent : Type 0 where
  pub tv_sec : ℕ
  pub tv_usec : ℕ
  pub type : ℕ
  pub code : ℕ
  pub value : ℤ

-- An answer of `libevdev_next_event`: an event, or an error other than -EAGAIN, negated. When the
-- answers given are used up, the device answers -EAGAIN.
pub data Answer : Type 0 where
  event : InputEvent → Answer
  broken : ℕ → Answer

abbrev pub ev_abs : ℕ
ev_abs = 3

-- `axis_map`, at the codes ABS_X, ABS_Y, ABS_Z, ABS_RX, ABS_RY and ABS_RZ.
abbrev pub axis_map : List ℕ
axis_map = 0 ∷ 1 ∷ 2 ∷ 3 ∷ 4 ∷ 5 ∷ []

-- `mpu6050_hal_t`, less the descriptor and the device.
pub record Private : Type 0 where
  pub cache : List SensorData
  pub cache_count : ℕ

-- A sample of which every byte is 0.
abbrev pub blank : SensorData
blank = record { timestamp_ns = 0; sensor_type = 0; channel = 0; value = pos 0 }

-- What `calloc` leaves.
abbrev pub fresh : Private
fresh = record { cache = replicate 6 blank; cache_count = 0 }

-- The first loop: the samples that are still in the cache, and the count that is left.
unfoldable pub drain : List SensorData → ℕ → ℕ → List SensorData × ℕ
drain cache zero room = ([], 0)
drain cache (suc n) zero = ([], suc n)
drain cache (suc n) (suc room) =
    let (out, left) = drain cache n room in (get_or cache (6 - suc n) blank ∷ out, left)

abbrev pub point : InputEvent → ℕ → SensorData
point ev channel = record {
  timestamp_ns = u64 (ev.tv_sec * 1_000_000_000 + ev.tv_usec * 1000);
  sensor_type = sensor_mpu6050;
  channel = channel;
  value = ev.value;
}

-- The three `continue`s: an event that is passed over has no channel.
unfoldable pub channel_of : InputEvent → Option ℕ
channel_of ev =
    if not (ev.type == ev_abs)
    then none
    else if leb (length axis_map) ev.code
    then none
    else some (get_or axis_map ev.code 0)

-- What a run of the second loop leaves: the error, or `none`; the handle; the samples returned; the
-- answers that have not been asked for.
pub record Filled : Type 0 where
  pub error : Option ℕ
  pub left : Private
  pub out : List SensorData
  pub unread : List Answer

-- The second loop, with the room that is left in the buffer. A frame of six events empties the
-- cache into the buffer, as far as there is room.
unfoldable pub fill : List Answer → ℕ → Private → Filled
unfolding channel_of
fill answers zero p = record { error = none; left = p; out = []; unread = answers }
fill [] (suc room) p = record { error = none; left = p; out = []; unread = [] }
fill (broken e ∷ answers) (suc room) p = record {
  error = some e;
  left = p;
  out = [];
  unread = answers;
}
fill (event ev ∷ answers) (suc room) p = elim (channel_of ev) [
  | none ↦ fill answers (suc room) p
  | some channel ↦
      let cache = set p.cache channel (point ev channel) in
      let emitted = take (suc room) (take 6 cache) in
      let full =
        fill answers (suc room - length emitted) (record { cache = cache; cache_count = 0 }) in
      let more =
        fill answers (suc room) (record { cache = cache; cache_count = p.cache_count + 1 }) in
      if leb 6 (p.cache_count + 1) then record full { out = emitted ++ full.out } else more
]

-- `mpu6050_hal_read`: on an error the samples already put into the buffer are not returned, and
-- g_i2c_retry_total is raised. The buffer's length is in bytes.
unfoldable pub mpu6050_hal_read : ℕ → List Answer → Private → ℕ → Filled × ℕ
unfolding fill drain
mpu6050_hal_read len answers p total =
    let max_count = len / sizeof_sensor_data in
    let (first, left) = drain p.cache p.cache_count max_count in
    let r = fill answers (max_count - length first) (record p { cache_count = left }) in
    elim r.error [
      | none ↦ (record r { out = first ++ r.out }, total)
      | some e ↦ (record r { out = [] }, u32 (total + 1))
    ]
