-- ===== src/Ring/StressTest/Passes.antt =====
-- When the test of the ring passes.
use edge_omni.Common.{
  length, ℕ, zero, suc, ◌+◌, ◌-◌, ◌^◌, ◌≤◌, ◌<◌, ◌≡◌, refl, ◌∙◌, ap, ap₂, arith, true, false, some,
  List, [], ◌∷◌, ◌++◌, ltb, ==_iff, Bool-cases, ◌⊎◌, inl, inr,
}
use edge_omni.Common.Int.{ℤ, pos, negsuc}
use edge_omni.Common.Word.{u32, signed32}
use edge_omni.Sensor.{SensorData}
use edge_omni.Ring.Refine.{create-FirstLap}
use edge_omni.Ring.{Ring, create, read}
use edge_omni.Ring.Queue
use edge_omni.Ring.Bounds.{IsValid, contents}
use edge_omni.Ring.Calls.{pushed-IsValid, contents-pushed, read-IsValid, read-eq-pop}
use edge_omni.Ring.Laps.{write_room, read_count}
use edge_omni.Ring.StressTest.{
  ring_capacity, fresh_test, test_main, test_count, sample, Test, same_ℤ, errors_of, producer_turn,
  consumer_turn, Turn, producer, consumer, test_turn, test_run,
}

abbrev pub samples : ℕ → ℕ → List SensorData
samples i zero = []
samples i (suc n) = sample i ∷ samples (i + 1) n

samples_snoc : (i n : ℕ) → samples i n ++ sample (i + n) ∷ [] ≡ samples i (suc n)
samples_snoc i zero = ap (λ j. sample j ∷ []) (omega arith)
samples_snoc i (suc n) =
    ap (◌∷◌ (sample i))
      (ap (λ j. samples (i + 1) n ++ sample j ∷ []) (omega arith) ∙ samples_snoc (i + 1) n)

-- The ring holds the samples from the one that is expected next, in order.
pub record InOrder (c : ℕ) (d : SensorData) (t : Test) : Type 0 where
  pub valid : IsValid c t.ring
  pub writer : t.ring.write_idx ≡ t.next
  pub reader : t.ring.read_idx ≡ t.expected
  pub bounded : t.next ≤ test_count
  pub held : contents c d t.ring ≡ samples t.expected (t.next - t.expected)

-- The producer never finds the ring full.
abbrev pub KeepsRoom : ℕ → List Turn → Test → Type 0
KeepsRoom c [] t = Unit
KeepsRoom c (producer ∷ us) t = (t.next + 1 < t.expected + c) × KeepsRoom c us (producer_turn t)
KeepsRoom c (consumer ∷ us) t = KeepsRoom c us (consumer_turn t)

same_ℤ_refl : (v : ℤ) → same_ℤ v v ≡ true
same_ℤ_refl (pos n) = (==_iff n n).1 refl
same_ℤ_refl (negsuc n) = (==_iff n n).1 refl

no_errors : (i : ℕ) → errors_of (some (sample i)) i ≡ 0
no_errors i = rw ((==_iff i i).1 refl, same_ℤ_refl (signed32 (u32 i))) refl

read_none :
    {c : ℕ} (d : SensorData) (rb : Ring) → IsValid c rb → contents c d rb ≡ [] → (read rb).0 ≡ false
unfolding Queue.pop
read_none d rb v nothing = ap (λ t. t.0) (read-eq-pop v d ∙ ap Queue.pop nothing)

read_first :
    {c : ℕ} (d : SensorData) (rb : Ring) (i n : ℕ)
    → IsValid c rb
    → contents c d rb ≡ samples i (suc n)
    → ((read rb).0 ≡ true)
      × ((read rb).1 ≡ some (sample i))
      × (contents c d (read rb).2 ≡ samples (i + 1) n)
unfolding Queue.pop
read_first d rb i n v held =
    let popped = read-eq-pop v d ∙ ap Queue.pop held in
    (ap (λ t. t.0) popped, ap (λ t. t.1) popped, ap (λ t. t.2) popped)

module _ {c : ℕ} {d : SensorData} where
  producer-InOrder :
      (t : Test)
      → InOrder c d t
      → t.next + 1 < t.expected + c
      → InOrder c d (producer_turn t) × ((producer_turn t).error_count ≡ t.error_count)
  unfolding producer_turn
  producer-InOrder t h room = elim (Bool-cases (ltb t.next test_count)) [
    | inr ended ↦ rw ended (h, refl)
    | inl goes_on ↦
        let space : t.ring.write_idx + 1 < t.ring.read_idx + c =
          omega (arith, h.writer, h.reader) in
        let word : t.ring.write_idx + 1 < 2 ^ 32 = omega (arith, h.writer, h.bounded) in
        let before : t.next ≡ t.expected + (t.next - t.expected) =
          omega (arith, h.writer, h.reader, h.valid.ordered) in
        let grown : suc (t.next - t.expected) ≡ t.next + 1 - t.expected = omega (arith, before) in
        rw (goes_on, write_room h.valid space word (sample t.next))
          (
            record {
              valid = pushed-IsValid h.valid (omega arith) word (sample t.next);
              writer = omega (arith, h.writer);
              reader = h.reader;
              bounded = ground arith;
              held =
                  contents-pushed h.valid space word d (sample t.next)
                  ∙ ap₂ (λ ys i. ys ++ sample i ∷ []) h.held before
                  ∙ samples_snoc t.expected (t.next - t.expected)
                  ∙ ap (samples t.expected) grown;
            },
            refl,
          )
  ]

  counted_only : (t : Test) → InOrder c d t → InOrder c d (record t { read_fail = t.read_fail + 1 })
  counted_only t h = record {
    valid = h.valid;
    writer = h.writer;
    reader = h.reader;
    bounded = h.bounded;
    held = h.held;
  }

  consumer-InOrder :
      (t : Test) (n : ℕ)
      → n ≡ t.next - t.expected
      → InOrder c d t
      → InOrder c d (consumer_turn t) × ((consumer_turn t).error_count ≡ t.error_count)
  unfolding consumer_turn
  consumer-InOrder t n few h = elim (Bool-cases (ltb t.expected test_count)) [
    | inr ended ↦ rw ended (h, refl)
    | inl goes_on ↦ elim (number_cases n) [
      | inl none_left ↦
          let zero_left : t.next - t.expected ≡ 0 = omega (arith, few, none_left) in
          let nothing : contents c d t.ring ≡ [] = h.held ∙ ap (samples t.expected) zero_left in
          rw (goes_on, read_none d t.ring h.valid nothing) (counted_only t h, refl)
      | inr (m, more) ↦
          let more_left : t.next - t.expected ≡ suc m = omega (arith, few, more) in
          let some_left : contents c d t.ring ≡ samples t.expected (suc m) =
            h.held ∙ ap (samples t.expected) more_left in
          let (done, out, rest) = read_first d t.ring t.expected m h.valid some_left in
          let (same, fewer) = read_count h.valid in
          let fewer_left : m ≡ t.next - (t.expected + 1) = omega (arith, few, more) in
          let valid' = read-IsValid h.valid in
          rw (goes_on, done, out, no_errors t.expected)
            (
              record {
                valid = valid';
                writer = same ∙ h.writer;
                reader = omega (
                  arith, same, fewer, h.writer, h.reader, few, more, h.valid.ordered,
                  valid'.ordered,
                );
                bounded = h.bounded;
                held = rest ∙ ap (samples (t.expected + 1)) fewer_left;
              },
              omega arith,
            )
    ]
  ]
    where
      number_cases : (k : ℕ) → (k ≡ 0) ⊎ ((m : ℕ) × (k ≡ suc m))
      number_cases zero = inl refl
      number_cases (suc m) = inr (m, refl)

  -- With the samples in the ring in order at the start, as long as the producer never finds the
  -- ring full, the two loops of the test, in whatever order their calls come, find no error, in
  -- the first lap of the ring and in every later one.
  stress_test_passes :
      (us : List Turn) (t : Test)
      → InOrder c d t
      → KeepsRoom c us t
      → ((test_run us t).error_count ≡ t.error_count) × InOrder c d (test_run us t)
  unfolding test_run test_turn
  stress_test_passes [] t h room = (refl, h)
  stress_test_passes (producer ∷ us) t h (now, room) =
      let (h', same) = producer-InOrder t h now in
      let (none_found, last) = stress_test_passes us (producer_turn t) h' room in
      (none_found ∙ same, last)
  stress_test_passes (consumer ∷ us) t h room =
      let (h', same) = consumer-InOrder t (t.next - t.expected) refl h in
      let (none_found, last) = stress_test_passes us (consumer_turn t) h' room in
      (none_found ∙ same, last)

-- What ring_buffer_create leaves of the memory for the buffer.
abbrev pub started : List SensorData → Ring
started memory = record { write_idx = 0; read_idx = 0; mask = 2047; buffer = memory }

-- With memory for the ring and both threads, the test returns 0, in whatever order the calls of
-- the two threads come, as long as the producer never finds the ring full.
pub test_main_passes :
    (memory : List SensorData) (us : List Turn)
    → length memory ≡ ring_capacity
    → KeepsRoom ring_capacity us (fresh_test (started memory))
    → test_main true (some memory) true true us ≡ 0
unfolding test_main create
test_main_passes memory us sized room =
    let made : create ring_capacity true (some memory) ≡ some (started memory) = refl in
    let (lap, empty) = create-FirstLap ring_capacity memory (sample 0) (omega arith) sized made in
    let in_order : InOrder ring_capacity (sample 0) (fresh_test (started memory)) = record {
      valid = lap.valid;
      writer = refl;
      reader = refl;
      bounded = omega arith;
      held = empty;
    } in
    let none_found = (stress_test_passes us (fresh_test (started memory)) in_order room).0 in
    rw none_found refl
