-- ===== src/Ring/Tests.antt =====
-- Runs of the ring, and its theorems at concrete inputs.
use edge_omni.Common.{
  replicate, ◌++◌, map, ℕ, ◌≡◌, ◌≢◌, ◌↔◌, refl, arith, true, false, none, some, List, [], ◌∷◌,
}
use edge_omni.Common.Int.{pos}
use edge_omni.Common.Bits.{IsPowerOfTwo}
use edge_omni.Sensor.{SensorData}
use edge_omni.Ring.{Ring, create, write, read, count, run, put, get}
use edge_omni.Ring.Queue
use edge_omni.Ring.Bounds.{IsValid, contents}
use edge_omni.Ring.Calls.{FirstLap, write-eq-push, read-eq-pop}
use edge_omni.Ring.Refine.{create_iff, create-FirstLap, run-eq-run}
use edge_omni.Ring.Threads.{System, Move, produce, consume, outside, between, schedule}
use edge_omni.Ring.Interleave.{Consistent}
use edge_omni.Ring.Fifo.{accepted_of, taken_of, schedule-fifo}
use edge_omni.Ring.Laps.{run-eq-run_laps}
use edge_omni.Ring.StressTest.{
  test_main, Test, producer, consumer, producer_turn, consumer_turn, test_turn, test_run, result,
}
use edge_omni.Ring.StressTest.Passes.{test_main_passes}
use edge_omni.Ring.Overrun.{overrun_loses_oldest}

abbrev sample : ℕ → SensorData
sample n = record { timestamp_ns = n; sensor_type = 0; channel = 0; value = pos n }

abbrev memory : List SensorData
memory = sample 0 ∷ sample 0 ∷ sample 0 ∷ sample 0 ∷ []

abbrev fresh : Ring
fresh = record { write_idx = 0; read_idx = 0; mask = 3; buffer = memory }

abbrev late : Ring
late = record { write_idx = 7; read_idx = 4; mask = 3; buffer = memory }

create-fresh : create 4 true (some memory) ≡ some fresh
unfolding create
create-fresh = refl

create_six : create 6 true (some memory) ≡ none
unfolding create
create_six = refl

-- Four elements do not fit into four slots.
fourth_refused :
    run fresh (put (sample 1) ∷ put (sample 2) ∷ put (sample 3) ∷ put (sample 4) ∷ get ∷ [])
    ≡ (true, none) ∷ (true, none) ∷ (true, none) ∷ (false, none) ∷ (true, some (sample 1)) ∷ []
unfolding run write read
fourth_refused = refl

create_iff_example : (create 4 true (some memory) ≢ none) ↔ IsPowerOfTwo 4
create_iff_example = create_iff 4 memory

create-FirstLap_example : FirstLap 4 fresh × (contents 4 (sample 9) fresh ≡ [])
create-FirstLap_example = create-FirstLap 4 memory (sample 9) (omega arith) refl create-fresh

fresh-FirstLap : FirstLap 4 fresh
fresh-FirstLap = (create-FirstLap 4 memory (sample 9) (omega arith) refl create-fresh).0

write-eq-push_example :
    let (done, rb') = write fresh (sample 5) in
    (done, contents 4 (sample 9) rb') ≡ Queue.push 4 [] (sample 5)
write-eq-push_example = write-eq-push fresh-FirstLap (sample 9) (sample 5)

late-IsValid : IsValid 4 late
late-IsValid = record {
  power = (2, refl);
  small = omega arith;
  masked = refl;
  sized = refl;
  ordered = omega arith;
  fits = omega arith;
  in_word = omega arith;
}

read-eq-pop_example :
    let (done, out, rb') = read late in
    (done, out, contents 4 (sample 9) rb') ≡ Queue.pop (contents 4 (sample 9) late)
read-eq-pop_example = read-eq-pop late-IsValid (sample 9)

run-eq-run_example :
    run fresh (put (sample 1) ∷ get ∷ get ∷ []) ≡ Queue.run 4 [] (put (sample 1) ∷ get ∷ get ∷ [])
run-eq-run_example =
    run-eq-run (sample 9) (put (sample 1) ∷ get ∷ get ∷ []) fresh-FirstLap (omega arith)

overrun_loses_oldest_example :
    let (first, one) = write late (sample 1) in
    let (second, two) = write one (sample 2) in
    let (taken, out, rest) = read two in
    (first ≡ true) × (count one ≡ 0) × (second ≡ true) × (taken ≡ true) × (out ≡ some (sample 2))
overrun_loses_oldest_example =
    overrun_loses_oldest late-IsValid (omega arith) refl (omega arith) (sample 1) (sample 2)

abbrev quiet : System
quiet = record { ring = fresh; producer = outside; consumer = between }

-- The consumer looks twice into the empty ring, and reads the first sample while the producer writes
-- the second.
abbrev overlapping : List Move
overlapping =
    consume
    ∷ consume
    ∷ consume
    ∷ consume
    ∷ produce (sample 1)
    ∷ produce (sample 1)
    ∷ produce (sample 1)
    ∷ consume
    ∷ produce (sample 2)
    ∷ consume
    ∷ produce (sample 2)
    ∷ consume
    ∷ produce (sample 2)
    ∷ []

one_taken : taken_of (schedule overlapping quiet).1 ≡ some (sample 1) ∷ []
unfolding schedule
one_taken = refl

quiet-Consistent : Consistent 4 (sample 9) quiet
quiet-Consistent = record { lap = fresh-FirstLap; producer_knows = tt; consumer_knows = tt }

schedule-fifo_example :
    let (last, es) = schedule overlapping quiet in
    (map some (accepted_of es) ≡ taken_of es ++ map some (contents 4 (sample 9) last.ring))
    × Consistent 4 (sample 9) last
unfolding schedule
schedule-fifo_example = schedule-fifo (sample 9) overlapping quiet quiet-Consistent (omega arith)

-- In the second lap, as long as there is room.
abbrev emptied : Ring
emptied = record { write_idx = 5; read_idx = 5; mask = 3; buffer = memory }

emptied-IsValid : IsValid 4 emptied
emptied-IsValid = record {
  power = (2, refl);
  small = omega arith;
  masked = refl;
  sized = refl;
  ordered = omega arith;
  fits = omega arith;
  in_word = omega arith;
}

run-eq-run_laps_example :
    run emptied (put (sample 1) ∷ put (sample 2) ∷ get ∷ get ∷ get ∷ [])
    ≡ Queue.run 4 [] (put (sample 1) ∷ put (sample 2) ∷ get ∷ get ∷ get ∷ [])
run-eq-run_laps_example =
    run-eq-run_laps (sample 9) (put (sample 1) ∷ put (sample 2) ∷ get ∷ get ∷ get ∷ [])
      emptied-IsValid (omega arith, (omega arith, tt)) (omega arith)

-- The test of the ring with four slots, five samples in.
abbrev under_test : Test
under_test = record {
  ring = emptied;
  next = 5;
  expected = 5;
  write_ok = 5;
  write_fail = 0;
  read_ok = 5;
  read_fail = 0;
  error_count = 0;
}

test_main_passes_example :
    test_main true
      (some (replicate 2048 (sample 0)))
      true
      true
      (producer ∷ producer ∷ consumer ∷ consumer ∷ consumer ∷ [])
    ≡ 0
unfolding producer_turn consumer_turn write read
test_main_passes_example =
    test_main_passes (replicate 2048 (sample 0))
      (producer ∷ producer ∷ consumer ∷ consumer ∷ consumer ∷ []) refl
      (omega arith, (omega arith, tt))

-- Five samples with no read between them: the first one is gone, and the consumer reports errors.
overrun_found :
    result
      (test_run (producer ∷ producer ∷ producer ∷ producer ∷ producer ∷ consumer ∷ []) under_test)
    ≡ 1
unfolding test_run test_turn producer_turn consumer_turn write read
overrun_found = refl
