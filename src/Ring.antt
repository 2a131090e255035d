-- ===== src/Ring.antt =====
-- app/core/ring_buffer.c, with whole calls one after the other; Ring.Threads takes them apart. A
-- function that changes `*rb` returns the new ring beside its result. Both indices run freely over
-- uint32_t and are masked only where the buffer is accessed.
pub mod Bounds
pub mod Queue
pub mod Calls
pub mod Refine
pub mod Overrun
pub mod Laps
pub mod StressTest
pub mod Threads
pub mod Interleave
pub mod Fifo
mod Tests
use Prim.Native.Nat.{bit_and}
use edge_omni.Common.{
  ℕ, ◌+◌, ◌-◌, ◌^◌, Bool, true, false, not, ◌||◌, Option, none, some, List, [], ◌∷◌, ◌==◌,
  if◌then◌else◌, get_elem?, set,
}
use edge_omni.Common.Word.{u32}
use edge_omni.Sensor.{SensorData}

-- `struct ring_buffer`
pub record Ring : Type 0 where
  pub write_idx : ℕ  -- _Atomic uint32_t
  pub read_idx : ℕ  -- _Atomic uint32_t
  pub mask : ℕ  -- uint32_t
  pub buffer : List SensorData

-- What `malloc` returns is given: whether the ring itself was allocated, and the memory of the
-- buffer, whose contents are whatever was there. `capacity - 1` is computed at `capacity != 0`.
pub create : ℕ → Bool → Option (List SensorData) → Option Ring
create capacity allocated memory =
    if capacity == 0 || not (bit_and capacity (capacity - 1) == 0)
    then none
    else if not allocated
    then none
    else elim memory [
      | none ↦ none
      | some buffer ↦
          some (record { write_idx = 0; read_idx = 0; mask = capacity - 1; buffer = buffer })
    ]

pub write : Ring → SensorData → Bool × Ring
write rb d = if bit_and (u32 (rb.write_idx + 1)) rb.mask == rb.read_idx then (false, rb) else (
  true,
  record rb {
    buffer = set rb.buffer (bit_and rb.write_idx rb.mask) d;
    write_idx = u32 (rb.write_idx + 1);
  },
)

-- The result, what goes through `data` (`none` if nothing does), and the ring.
pub read : Ring → Bool × Option SensorData × Ring
read rb = if rb.read_idx == rb.write_idx then (false, none, rb) else (
  true,
  get_elem? rb.buffer (bit_and rb.read_idx rb.mask),
  record rb { read_idx = u32 (rb.read_idx + 1) },
)

pub count : Ring → ℕ
count rb = bit_and (u32 (rb.write_idx + 2 ^ 32 - rb.read_idx)) rb.mask

pub capacity : Ring → ℕ
capacity rb = u32 (rb.mask + 1)

-- A client's calls in order, with the results that it sees.
pub data Op : Type 0 where
  put : SensorData → Op
  get : Op

pub run : Ring → List Op → List (Bool × Option SensorData)
run rb [] = []
run rb (put d ∷ ops) = let (done, rb') = write rb d in (done, none) ∷ run rb' ops
run rb (get ∷ ops) = let (done, out, rb') = read rb in (done, out) ∷ run rb' ops
