-- ===== src/Ring/StressTest.antt =====
-- app/core/ring_buffer_test.c: its producer and its consumer, with whole calls of the ring in any
-- order.
pub mod Passes
use edge_omni.Common.{
  ℕ, zero, suc, ◌+◌, ◌-◌, ◌%◌, ◌^◌, ◌≤◌, ◌<◌, ◌≡◌, refl, sym, ◌∙◌, ap, ap₂, arith, Bool, not, true,
  false, Option, none, some, List, [], ◌∷◌, ◌++◌, ltb, ◌==◌, ==_iff, if◌then◌else◌, length,
  Bool-cases, ◌⊎◌, inl, inr,
}
use edge_omni.Common.Int.{ℤ, pos, negsuc}
use edge_omni.Common.Word.{u32, signed32}
use edge_omni.Sensor.{SensorData}
use edge_omni.Ring.{Ring, create, write, read}
use edge_omni.Ring.Queue
use edge_omni.Ring.Bounds.{IsValid, contents}
use edge_omni.Ring.Calls.{pushed, pushed-IsValid, contents-pushed, read-IsValid, read-eq-pop}
use edge_omni.Ring.Laps.{write_room, read_count}

abbrev pub test_count : ℕ
test_count = 1000000

abbrev pub ring_capacity : ℕ
ring_capacity = 2048

-- The sample with number `i`.
abbrev pub sample : ℕ → SensorData
sample i = record { timestamp_ns = i; sensor_type = 0; channel = i % 6; value = signed32 (u32 i) }

-- The ring, the counter of each loop (`expected` is that of the consumer's too), and what is counted.
pub record Test : Type 0 where
  pub ring : Ring
  pub next : ℕ
  pub expected : ℕ
  pub write_ok : ℕ
  pub write_fail : ℕ
  pub read_ok : ℕ
  pub read_fail : ℕ
  pub error_count : ℕ

-- A turn of `producer_thread`: a call of ring_buffer_write, which is tried again after a failure.
unfoldable pub producer_turn : Test → Test
producer_turn t =
    let (done, rb) = write t.ring (sample t.next) in
    if ltb t.next test_count
    then if done
      then record t { ring = rb; next = t.next + 1; write_ok = t.write_ok + 1 }
      else record t { write_fail = t.write_fail + 1 }
    else t

abbrev pub same_ℤ : ℤ → ℤ → Bool
same_ℤ (pos m) (pos n) = m == n
same_ℤ (negsuc m) (negsuc n) = m == n
same_ℤ _ _ = false

-- The two comparisons; a sample from outside the buffer would not be the expected one.
abbrev pub errors_of : Option SensorData → ℕ → ℕ
errors_of none expected = 2
errors_of (some d) expected =
    (if d.timestamp_ns == expected then 0 else 1)
    + (if same_ℤ d.value (signed32 (u32 expected)) then 0 else 1)

-- A turn of `consumer_thread`.
unfoldable pub consumer_turn : Test → Test
consumer_turn t =
    let (done, out, rb) = read t.ring in
    if ltb t.expected test_count
    then if done
      then record t {
        ring = rb;
        expected = t.expected + 1;
        read_ok = t.read_ok + 1;
        error_count = t.error_count + errors_of out t.expected;
      }
      else record t { read_fail = t.read_fail + 1 }
    else t

pub data Turn : Type 0 where
  producer consumer : Turn

unfoldable pub test_turn : Turn → Test → Test
test_turn producer t = producer_turn t
test_turn consumer t = consumer_turn t

unfoldable pub test_run : List Turn → Test → Test
test_run [] t = t
test_run (u ∷ us) t = test_run us (test_turn u t)

-- What `main` returns.
abbrev pub result : Test → ℕ
result t = if t.error_count == 0 then 0 else 1

-- The counters before the threads start.
abbrev pub fresh_test : Ring → Test
fresh_test rb = record {
  ring = rb;
  next = 0;
  expected = 0;
  write_ok = 0;
  write_fail = 0;
  read_ok = 0;
  read_fail = 0;
  error_count = 0;
}

-- `main`: what malloc returns for the ring, whether each of the two threads can be created, and the
-- turns of their calls; the counters start at 0.
unfoldable pub test_main :
    Bool → Option (List SensorData) → (consumer_ok producer_ok : Bool) → List Turn → ℕ
test_main allocated memory consumer_ok producer_ok us =
    elim (create ring_capacity allocated memory) [
      | none ↦ 1
      | some rb ↦
          let ended = result (test_run us (fresh_test rb)) in
          if not consumer_ok then 1 else if not producer_ok then 1 else ended
    ]
