-- ===== src/Ring/Interleave.antt =====
-- No interleaving of one producer and one consumer loses, repeats or reorders a sample.
use Prim.Native.Nat.{bit_and}
use native.Mathlib.Nat.{mod-lt}
use native.Mathlib.Decide.{dec_lt}
use edge_omni.Common.{
  inl, inr, Bool-cases, ℕ, suc, ◌+◌, ◌-◌, ◌%◌, ◌≤◌, ◌<◌, ◌≡◌, refl, sym, ◌∙◌, ap, arith, false,
  some, List, [], ◌∷◌, ◌++◌, ◌==◌, set, length-set, get_elem?, get_or, get_or-set_self,
  get_or-set_ne, get_elem?-eq-get_or,
}
use edge_omni.Common.Word.{u32}
use edge_omni.Sensor.{SensorData}
use edge_omni.Ring.{Ring}
use edge_omni.Ring.Bounds.{
  IsValid, bit_and_masked, capacity_pos, contents, window, mod-ne, window-set_outside, window_snoc,
}
use edge_omni.Ring.Calls.{FirstLap, full_iff}
use edge_omni.Ring.Threads.{
  Producer, outside, loaded, stored, Consumer, between, seen, copied, System, Ended, still,
  nothing_there, no_room, accepted, taken, produce_step, consume_step,
}

-- What the producer knows, whatever the consumer has done since.
abbrev ProducerKnows : ℕ → SensorData → Ring → Producer → Type 0
ProducerKnows c d rb outside = Unit
ProducerKnows c d rb (loaded x w r) = (w ≡ rb.write_idx) × (r ≤ rb.read_idx) × (w < r + c)
ProducerKnows c d rb (stored x w) =
    (w ≡ rb.write_idx) × (w + 1 < rb.read_idx + c) × (get_or rb.buffer (w % c) d ≡ x)

-- What the consumer knows, whatever the producer has done since.
abbrev ConsumerKnows : ℕ → SensorData → Ring → Consumer → Type 0
ConsumerKnows c d rb between = Unit
ConsumerKnows c d rb (seen r w) = (r ≡ rb.read_idx) × (r ≤ w) × (w ≤ rb.write_idx)
ConsumerKnows c d rb (copied r out) =
    (r ≡ rb.read_idx) × (r < rb.write_idx) × (out ≡ some (get_or rb.buffer (r % c) d))

pub record Consistent (c : ℕ) (d : SensorData) (s : System) : Type 0 where
  pub lap : FirstLap c s.ring
  pub producer_knows : ProducerKnows c d s.ring s.producer
  pub consumer_knows : ConsumerKnows c d s.ring s.consumer

-- What a move does to the contents of the ring.
abbrev pub Effect : Ended → List SensorData → List SensorData → Type 0
Effect still q q' = q' ≡ q
Effect nothing_there q q' = q' ≡ q
Effect no_room q q' = q' ≡ q
Effect (accepted x) q q' = q' ≡ q ++ (x ∷ [])
Effect (taken out) q q' = (x : SensorData) × (out ≡ some x) × (q ≡ x ∷ q')

-- A move with which a read returns a sample.
abbrev pub reads : Ended → ℕ
reads still = 0
reads nothing_there = 0
reads no_room = 0
reads (accepted x) = 0
reads (taken out) = 1

module _ {c : ℕ} (d : SensorData) {rb : Ring} (l : FirstLap c rb) where
  open l use {valid, reader, writer}
  open valid use {ordered, small}

  -- A producer that has found room has room.
  room_found :
      (w r : ℕ)
      → w ≡ rb.write_idx
      → r ≤ rb.read_idx
      → w < r + c
      → (bit_and (u32 (w + 1)) rb.mask == r) ≡ false
      → w + 1 < r + c
  room_found w r own old room test = elim (dec_lt (w + 1) (r + c)) [
    | yes p ↦ p
    | no p ↦
        let back : Ring = record rb { write_idx = w; read_idx = r } in
        let v : IsValid c back = record {
          power = valid.power;
          small = valid.small;
          masked = valid.masked;
          sized = valid.sized;
          ordered = omega arith;
          fits = omega arith;
          in_word = omega arith;
        } in
        absurd (cc ((full_iff v (omega arith) room).1 (omega arith)))
  ]

  -- A store at an index that is not in the window is not seen.
  store_outside :
      (x : SensorData) (w : ℕ)
      → w ≡ rb.write_idx
      → contents c d (record rb { buffer = set rb.buffer (bit_and w rb.mask) x }) ≡ contents c d rb
  store_outside x w own = rw (bit_and_masked valid w) (
      window-set_outside rb.buffer c d x rb.read_idx (rb.write_idx - rb.read_idx) w (omega arith)
        (omega arith))

  publish_grows :
      (x : SensorData) (w : ℕ)
      → w ≡ rb.write_idx
      → w + 1 < rb.read_idx + c
      → get_or rb.buffer (w % c) d ≡ x
      → contents c d (record rb { write_idx = u32 (w + 1) }) ≡ contents c d rb ++ (x ∷ [])
  publish_grows x w own room there =
      let n : ℕ = rb.write_idx - rb.read_idx in
      let more : u32 (w + 1) - rb.read_idx ≡ suc n = omega arith in
      let here : rb.read_idx + n ≡ w = omega arith in
      ap (window rb.buffer c d rb.read_idx) more
      ∙ window_snoc rb.buffer c d rb.read_idx n
      ∙ ap (λ y. window rb.buffer c d rb.read_idx n ++ (y ∷ []))
          (ap (λ i. get_or rb.buffer (i % c) d) here ∙ there)

  advance_shrinks :
      rb.read_idx < rb.write_idx
      → contents c d rb
        ≡ get_or rb.buffer (rb.read_idx % c) d
          ∷ contents c d (record rb { read_idx = u32 (rb.read_idx + 1) })
  advance_shrinks some_left =
      let next : u32 (rb.read_idx + 1) ≡ rb.read_idx + 1 = omega arith in
      let more : rb.write_idx - rb.read_idx ≡ suc (rb.write_idx - (rb.read_idx + 1)) =
        omega arith in
      rw (next, more) refl

  -- A move of the producer keeps the ring in order, what both threads know, and its promise.
  pub produced :
      (y : SensorData) (p : Producer)
      → ProducerKnows c d rb p
      → let (rb', p', ended) = produce_step y rb p in
        FirstLap c rb'
        × ProducerKnows c d rb' p'
        × ((k : Consumer) → ConsumerKnows c d rb k → ConsumerKnows c d rb' k)
        × Effect ended (contents c d rb) (contents c d rb')
        × (rb'.read_idx ≡ rb.read_idx + reads ended)
  unfolding produce_step
  produced y outside h = (l, (refl, omega arith, writer), (λ k known. known), refl, omega arith)
  produced y (loaded x w r) (own, old, room) =
      elim (Bool-cases (bit_and (u32 (w + 1)) rb.mask == r)) [
        | inl full ↦ rw full (l, tt, (λ k known. known), refl, omega arith)
        | inr free ↦
            let found = room_found w r own old room free in
            let slot : bit_and w rb.mask ≡ w % c = bit_and_masked valid w in
            let rb' : Ring = record rb { buffer = set rb.buffer (bit_and w rb.mask) x } in
            let lap : FirstLap c rb' = record {
              valid = record {
                power = valid.power;
                small = valid.small;
                masked = valid.masked;
                sized = length-set rb.buffer (bit_and w rb.mask) x ∙ valid.sized;
                ordered = valid.ordered;
                fits = valid.fits;
                in_word = valid.in_word;
              };
              reader = reader;
              writer = writer;
            } in
            let there : get_or rb'.buffer (w % c) d ≡ x = rw slot (
              get_or-set_self rb.buffer (w % c) x d
                (rw valid.sized (mod-lt w (capacity_pos valid)))) in
            rw free
              (lap, (own, omega arith, there), kept x w own, store_outside x w own, omega arith)
      ]
    where
      kept :
          (x : SensorData) (w : ℕ)
          → w ≡ rb.write_idx
          → (k : Consumer) → ConsumerKnows c d rb k
          → ConsumerKnows c d (record rb { buffer = set rb.buffer (bit_and w rb.mask) x }) k
      kept x w own between known = tt
      kept x w own (seen r w') known = known
      kept x w own (copied r out) (same, some_left, value) =
          let other : get_or (set rb.buffer (w % c) x) (r % c) d ≡ get_or rb.buffer (r % c) d =
            get_or-set_ne rb.buffer (w % c) (r % c) x d
              (mod-ne c r w (omega arith) (omega arith)) in
          rw (bit_and_masked valid w) (same, some_left, value ∙ ap some (sym other))
  produced y (stored x w) (own, room, there) =
      let next : u32 (w + 1) ≡ w + 1 = omega arith in
      let rb' : Ring = record rb { write_idx = u32 (w + 1) } in
      let lap : FirstLap c rb' = record {
        valid = record {
          power = valid.power;
          small = valid.small;
          masked = valid.masked;
          sized = valid.sized;
          ordered = omega (arith, next);
          fits = omega (arith, next);
          in_word = omega (arith, next);
        };
        reader = reader;
        writer = omega (arith, next);
      } in
      (lap, tt, kept, publish_grows x w own room there, omega arith)
    where
      kept :
          (k : Consumer)
          → ConsumerKnows c d rb k
          → ConsumerKnows c d (record rb { write_idx = u32 (w + 1) }) k
      kept between known = tt
      kept (seen r w') (same, below, old) = (same, below, omega (arith, old, own))
      kept (copied r out) (same, some_left, value) = (same, omega (arith, some_left, own), value)

  -- So does a move of the consumer that stays in the first lap.
  pub consumed :
      (k : Consumer)
      → ConsumerKnows c d rb k
      → rb.read_idx + reads (consume_step rb k).2 < c
      → let (rb', k', ended) = consume_step rb k in
        FirstLap c rb'
        × ConsumerKnows c d rb' k'
        × ((p : Producer) → ProducerKnows c d rb p → ProducerKnows c d rb' p)
        × Effect ended (contents c d rb) (contents c d rb')
        × (rb'.read_idx ≡ rb.read_idx + reads ended)
  unfolding consume_step
  consumed between h bound =
      (l, (refl, ordered, omega arith), (λ p known. known), refl, omega arith)
  consumed (seen r w) (same, below, old) bound = elim (Bool-cases (r == w)) [
    | inl equal ↦ rw equal (l, tt, (λ p known. known), refl, omega arith)
    | inr more ↦
        let value : get_elem? rb.buffer (bit_and r rb.mask) ≡ some (get_or rb.buffer (r % c) d) =
          rw (bit_and_masked valid r) (
            get_elem?-eq-get_or rb.buffer (r % c) d
              (rw valid.sized (mod-lt r (capacity_pos valid)))) in
        rw more (l, (same, ground arith, value), (λ p known. known), refl, omega arith)
  ]
  consumed (copied r out) (same, some_left, value) bound =
      let next : u32 (r + 1) ≡ r + 1 = omega arith in
      let rb' : Ring = record rb { read_idx = u32 (r + 1) } in
      let lap : FirstLap c rb' = record {
        valid = record {
          power = valid.power;
          small = valid.small;
          masked = valid.masked;
          sized = valid.sized;
          ordered = omega (arith, next);
          fits = omega (arith, next);
          in_word = valid.in_word;
        };
        reader = omega (arith, next);
        writer = omega (arith, next);
      } in
      let shrunk : contents c d rb ≡ get_or rb.buffer (r % c) d ∷ contents c d rb' =
        advance_shrinks (omega arith)
        ∙ ap (λ i. get_or rb.buffer (i % c) d ∷ contents c d (record rb { read_idx = u32 (i + 1) }))
            (sym same) in
      (lap, tt, kept, (get_or rb.buffer (r % c) d, value, shrunk), omega (arith, next))
    where
      kept :
          (p : Producer)
          → ProducerKnows c d rb p
          → ProducerKnows c d (record rb { read_idx = u32 (r + 1) }) p
      kept outside known = tt
      kept (loaded x w r') (own, old, room) = (own, omega arith, room)
      kept (stored x w) (own, room, there) = (own, omega arith, there)
