-- ===== src/Ring/Refine.antt =====
-- Sequences of calls: in the reader's first lap the ring is the bounded queue.
use Prim.Native.Nat.{bit_and}
use native.Mathlib.Nat.{one-le-pow}
use edge_omni.Common.{
  ℕ, suc, ◌+◌, ◌-◌, ◌^◌, ◌≤◌, ◌<◌, ◌≡◌, ◌≢◌, ◌↔◌, refl, ◌∙◌, ap, arith, true, none, some, List, [],
  ◌∷◌, ◌==◌, ==_iff, length, Bool-cases, inl, inr,
}
use edge_omni.Common.Bits.{IsPowerOfTwo, IsPowerOfTwo-of_and, and-pred_two_pow}
use edge_omni.Sensor.{SensorData}
use edge_omni.Ring.{Ring, create, write, read, run, Op, put, get}
use edge_omni.Ring.Queue
use edge_omni.Ring.Bounds.{contents}
use edge_omni.Ring.Calls.{FirstLap, write-FirstLap, read-IsValid, read-eq-pop, write-eq-push}

-- When memory is there, ring_buffer_create accepts exactly the powers of two.
pub create_iff :
    (capacity : ℕ) (memory : List SensorData)
    → (create capacity true (some memory) ≢ none) ↔ IsPowerOfTwo capacity
unfolding create
create_iff capacity memory = (accepted, accepts)
  where
    accepted : create capacity true (some memory) ≢ none → IsPowerOfTwo capacity
    accepted h = elim (Bool-cases (bit_and capacity (capacity - 1) == 0)) [
      | inl e ↦ elim (Bool-cases (capacity == 0)) [
        | inl z ↦ absurd (h (rw z))
        | inr nz ↦ IsPowerOfTwo-of_and capacity (ground arith) ((==_iff _ _).0 e)
      ]
      | inr e ↦ absurd (h (ground arith))
    ]

    accepts : IsPowerOfTwo capacity → create capacity true (some memory) ≢ none
    accepts (k, e) = rw e (ground (arith, and-pred_two_pow k, one-le-pow k 2 (omega arith)))

create_value :
    (capacity : ℕ) (memory : List SensorData) {rb : Ring}
    → create capacity true (some memory) ≡ some rb
    → rb ≡ record { write_idx = 0; read_idx = 0; mask = capacity - 1; buffer = memory }
unfolding create
create_value capacity memory h = ground arith

-- What ring_buffer_create returns, for a capacity of at most 2^31, is an empty ring in its
-- reader's first lap.
pub create-FirstLap :
    (capacity : ℕ) (memory : List SensorData) (d : SensorData) {rb : Ring}
    → capacity ≤ 2 ^ 31
    → length memory ≡ capacity
    → create capacity true (some memory) ≡ some rb
    → FirstLap capacity rb × (contents capacity d rb ≡ [])
create-FirstLap capacity memory d {rb} small sized h =
    let power : IsPowerOfTwo capacity = (create_iff capacity memory).0 (λ e. cc) in
    let (k, e) = power in
    let positive : 0 < capacity = rw e (one-le-pow k 2 (omega arith)) in
    rw (create_value capacity memory h) (
      record {
        valid = record {
          power = power;
          small = small;
          masked = refl;
          sized = sized;
          ordered = omega arith;
          fits = omega arith;
          in_word = omega arith;
        };
        reader = positive;
        writer = omega (arith, positive);
      },
      refl,
    )

-- The number of reads that a client asks for.
abbrev pub gets : List Op → ℕ
gets [] = 0
gets (put d ∷ ops) = gets ops
gets (get ∷ ops) = suc (gets ops)

-- A read moves the reader by one index at most, and not backwards.
indices-read :
    (rb : Ring)
    → rb.read_idx + 1 < 2 ^ 32
    → (rb.read_idx ≤ (read rb).2.read_idx)
      × ((read rb).2.read_idx ≤ rb.read_idx + 1)
      × ((read rb).2.write_idx ≡ rb.write_idx)
unfolding read
indices-read rb h = ground arith

read_idx-write : (rb : Ring) (x : SensorData) → (write rb x).1.read_idx ≡ rb.read_idx
unfolding write
read_idx-write rb x = ground arith

read-FirstLap : {c : ℕ} {rb : Ring} → FirstLap c rb → rb.read_idx + 1 < c → FirstLap c (read rb).2
read-FirstLap {c} {rb} l h =
    let moved = indices-read rb (omega (arith, l.valid.small)) in
    record {
      valid = read-IsValid l.valid;
      reader = omega (arith, moved);
      writer = omega (arith, moved);
    }

-- As long as the reads asked for do not carry the reader past its first lap, every sequence of
-- ring_buffer_write and ring_buffer_read calls returns what the bounded first-in-first-out queue
-- of the ring's contents returns.
pub run-eq-run :
    {c : ℕ} (d : SensorData) (ops : List Op) {rb : Ring}
    → FirstLap c rb
    → rb.read_idx + gets ops < c
    → run rb ops ≡ Queue.run c (contents c d rb) ops
unfolding run Queue.run
run-eq-run d [] l h = refl
run-eq-run {c} d (put x ∷ ops) {rb} l h =
    ap (◌∷◌ ((write rb x).0, none))
      (run-eq-run d ops (write-FirstLap l x) (omega (arith, read_idx-write rb x)))
    ∙ ap (λ t. (t.0, none) ∷ Queue.run c t.1 ops) (write-eq-push l d x)
run-eq-run {c} d (get ∷ ops) {rb} l h =
    ap (◌∷◌ ((read rb).0, (read rb).1)) (
      run-eq-run d ops (read-FirstLap l (omega arith))
        (omega (arith, indices-read rb (omega (arith, l.valid.small)))))
    ∙ ap (λ t. (t.0, t.1) ∷ Queue.run c t.2 ops) (read-eq-pop l.valid d)
