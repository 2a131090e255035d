-- ===== src/Ring/Threads.antt =====
-- One producer and one consumer at the same ring: the accesses of their calls, interleaved in any
-- order. A thread loads the index that only it writes together with the other one, which is the
-- access that the other thread can come before or after.
use Prim.Native.Nat.{bit_and}
use edge_omni.Common.{ℕ, ◌+◌, Option, List, [], ◌∷◌, ◌==◌, if◌then◌else◌, get_elem?, set}
use edge_omni.Common.Word.{u32}
use edge_omni.Sensor.{SensorData}
use edge_omni.Ring.{Ring}

-- Where the producer stands in `ring_buffer_write`: between calls, after the two loads, and after
-- the store into the buffer.
pub data Producer : Type 0 where
  outside : Producer
  loaded : (x : SensorData) (w r : ℕ) → Producer
  stored : (x : SensorData) (w : ℕ) → Producer

-- Where the consumer stands in `ring_buffer_read`: the same, with the copy out of the buffer.
pub data Consumer : Type 0 where
  between : Consumer
  seen : (r w : ℕ) → Consumer
  copied : (r : ℕ) (out : Option SensorData) → Consumer

pub record System : Type 0 where
  pub ring : Ring
  pub producer : Producer
  pub consumer : Consumer

-- Which thread moves; a producer that begins a call has a sample for it.
pub data Move : Type 0 where
  produce : SensorData → Move
  consume : Move

-- What a call that ends with the move has returned.
pub data Ended : Type 0 where
  still nothing_there no_room : Ended
  accepted : SensorData → Ended
  taken : Option SensorData → Ended

-- The next access of `ring_buffer_write`.
unfoldable pub produce_step : SensorData → Ring → Producer → Ring × Producer × Ended
produce_step x rb outside = (rb, loaded x rb.write_idx rb.read_idx, still)
produce_step _ rb (loaded x w r) =
    if bit_and (u32 (w + 1)) rb.mask == r
    then (rb, outside, no_room)
    else (record rb { buffer = set rb.buffer (bit_and w rb.mask) x }, stored x w, still)
produce_step _ rb (stored x w) = (record rb { write_idx = u32 (w + 1) }, outside, accepted x)

-- The next access of `ring_buffer_read`.
unfoldable pub consume_step : Ring → Consumer → Ring × Consumer × Ended
consume_step rb between = (rb, seen rb.read_idx rb.write_idx, still)
consume_step rb (seen r w) =
    if r == w
    then (rb, between, nothing_there)
    else (rb, copied r (get_elem? rb.buffer (bit_and r rb.mask)), still)
consume_step rb (copied r out) = (record rb { read_idx = u32 (r + 1) }, between, taken out)

unfoldable pub step : Move → System → System × Ended
unfolding produce_step consume_step
step (produce x) s =
    let (rb, p, ended) = produce_step x s.ring s.producer in
    (record s { ring = rb; producer = p }, ended)
step consume s =
    let (rb, k, ended) = consume_step s.ring s.consumer in
    (record s { ring = rb; consumer = k }, ended)

-- A schedule, with what the calls have returned.
unfoldable pub schedule : List Move → System → System × List Ended
unfolding step
schedule [] s = (s, [])
schedule (m ∷ ms) s =
    let (s', ended) = step m s in let (last, rest) = schedule ms s' in (last, ended ∷ rest)
