-- ===== src/Ring/Calls.antt =====
-- Each call of the ring on its own: what it does to a well-formed ring.
use Prim.Native.Nat.{bit_and}
use native.Mathlib.Nat.{mod-lt, mod-eq_of_lt, add-mod_right}
use native.Mathlib.Decide.{dec_lt}
use edge_omni.Ring.Queue
use edge_omni.Common.{
  inl, inr, Bool-cases, ℕ, suc, ◌+◌, ◌-◌, ◌%◌, ◌^◌, ◌<◌, ◌≡◌, ◌↔◌, sym, ◌∙◌, ap, arith, Bool, true,
  false, ◌==◌, ==_iff, length, set, length-set, get_elem?-eq-get_or, [], ◌∷◌, ◌++◌,
}
use edge_omni.Common.Word.{u32}
use edge_omni.Sensor.{SensorData}
use edge_omni.Ring.{Ring, write, read, count, capacity}
use edge_omni.Ring.Bounds.{
  IsValid, bit_and_masked, capacity_pos, contents, window, mod-ne, length-window, window-set_end,
}

-- Before any slot is used twice by the reader: the reader is in its first lap and the writer is
-- less than a lap ahead.
pub record FirstLap (c : ℕ) (rb : Ring) : Type 0 where
  pub valid : IsValid c rb
  pub reader : rb.read_idx < c
  pub writer : rb.write_idx < rb.read_idx + c

-- The ring after a sample has been taken.
abbrev pub pushed : Ring → SensorData → Ring
pushed rb x = record rb {
  buffer = set rb.buffer (bit_and rb.write_idx rb.mask) x;
  write_idx = u32 (rb.write_idx + 1);
}

module _ {c : ℕ} {rb : Ring} (v : IsValid c rb) where
  open v use {ordered, fits, small, in_word}

  masked_index : (x : ℕ) → bit_and x rb.mask ≡ x % c
  masked_index = bit_and_masked v

  -- The test of `ring_buffer_write` is true exactly when `c - 1` elements are in the ring, as long
  -- as the reader is in its first lap.
  pub full_iff :
      rb.read_idx < c
      → rb.write_idx < rb.read_idx + c
      → ((bit_and (u32 (rb.write_idx + 1)) rb.mask == rb.read_idx) ≡ true)
        ↔ (rb.write_idx + 1 ≡ rb.read_idx + c)
  full_iff lap room = (
    λ h. elim (dec_lt (rb.write_idx + 1) (rb.read_idx + c)) [
      | yes p ↦ absurd (
          mod-ne c rb.read_idx (rb.write_idx + 1) (omega arith) p (same h ∙ sym (mod-eq_of_lt lap)))
      | no p ↦ omega arith
    ],
    λ e. (==_iff _ _).1 (
        rw (masked_index (u32 (rb.write_idx + 1)), no_wrap, e)
          (add-mod_right rb.read_idx c ∙ mod-eq_of_lt lap)),
  )
    where
      no_wrap : u32 (rb.write_idx + 1) ≡ rb.write_idx + 1
      no_wrap = omega arith

      same :
          (bit_and (u32 (rb.write_idx + 1)) rb.mask == rb.read_idx) ≡ true
          → (rb.write_idx + 1) % c ≡ rb.read_idx
      same h =
          ap (λ x. x % c) (sym no_wrap)
          ∙ sym (masked_index (u32 (rb.write_idx + 1)))
          ∙ (==_iff _ _).0 h

  -- The next slot is free, if only the last one.
  pub pushed-IsValid :
      rb.write_idx < rb.read_idx + c
      → rb.write_idx + 1 < 2 ^ 32
      → (x : SensorData) → IsValid c (pushed rb x)
  pushed-IsValid room word x = record {
    power = v.power;
    small = v.small;
    masked = v.masked;
    sized = length-set rb.buffer (bit_and rb.write_idx rb.mask) x ∙ v.sized;
    ordered = omega arith;
    fits = omega arith;
    in_word = omega arith;
  }

  module _ (room : rb.write_idx + 1 < rb.read_idx + c) (word : rb.write_idx + 1 < 2 ^ 32) where
    pub contents-pushed :
        (d x : SensorData) → contents c d (pushed rb x) ≡ contents c d rb ++ x ∷ []
    contents-pushed d x =
        rw (next, masked_index rb.write_idx, grown)
          (ap (λ j. window (set rb.buffer (j % c) x) c d rb.read_idx (suc n)) here
            ∙ window-set_end rb.buffer c d x rb.read_idx n v.sized (omega arith))
      where
        n : ℕ
        n = rb.write_idx - rb.read_idx

        next : u32 (rb.write_idx + 1) ≡ rb.write_idx + 1
        next = omega arith

        grown : rb.write_idx + 1 - rb.read_idx ≡ suc n
        grown = omega arith

        here : rb.write_idx ≡ rb.read_idx + n
        here = omega arith

  no_wrap_count : u32 (rb.write_idx + 2 ^ 32 - rb.read_idx) ≡ rb.write_idx - rb.read_idx
  no_wrap_count = omega (arith)

  -- `ring_buffer_count` is the distance of the indices, up to a full lap.
  pub count-eq-mod : count rb ≡ (rb.write_idx - rb.read_idx) % c
  unfolding count
  count-eq-mod =
      masked_index (u32 (rb.write_idx + 2 ^ 32 - rb.read_idx)) ∙ ap (λ n. n % c) no_wrap_count

  pub capacity-eq : capacity rb ≡ c
  unfolding capacity
  capacity-eq = omega (arith, v.masked, v.small, capacity_pos v)

  -- `ring_buffer_read` keeps the ring well formed.
  pub read-IsValid : IsValid c (read rb).2
  unfolding read
  read-IsValid = elim (Bool-cases (rb.read_idx == rb.write_idx)) [
    | inl e ↦ rw e v
    | inr e ↦ rw e (record {
      power = v.power;
      small = v.small;
      masked = v.masked;
      sized = v.sized;
      ordered = ground arith;
      fits = ground arith;
      in_word = v.in_word;
    })
  ]

  -- On a valid ring, ring_buffer_read takes the oldest element out, and fails on an empty ring
  -- only.
  pub read-eq-pop :
      (d : SensorData)
      → let (done, out, rb') = read rb in
        (done, out, contents c d rb') ≡ Queue.pop (contents c d rb)
  unfolding read Queue.pop
  read-eq-pop d = elim (Bool-cases (rb.read_idx == rb.write_idx)) [
    | inl e ↦ let empty : rb.write_idx - rb.read_idx ≡ 0 = ground arith in rw (e, empty)
    | inr e ↦
        let more : rb.write_idx - rb.read_idx ≡ suc (rb.write_idx - (rb.read_idx + 1)) =
          ground arith in
        let next : u32 (rb.read_idx + 1) ≡ rb.read_idx + 1 = ground arith in
        rw (
          e,
          more,
          next,
          masked_index rb.read_idx,
          get_elem?-eq-get_or rb.buffer (rb.read_idx % c) d
              (rw v.sized (mod-lt rb.read_idx (capacity_pos v))),
        )
  ]

module _ {c : ℕ} {rb : Ring} (l : FirstLap c rb) where
  open l use {valid, reader, writer}
  open valid use {ordered, small}

  full : Bool
  full = bit_and (u32 (rb.write_idx + 1)) rb.mask == rb.read_idx

  next_write : u32 (rb.write_idx + 1) ≡ rb.write_idx + 1
  next_write = omega arith

  room_left : full ≡ false → rb.write_idx + 1 < rb.read_idx + c
  unfolding full
  room_left e = elim (dec_lt (rb.write_idx + 1) (rb.read_idx + c)) [
    | yes p ↦ p
    | no p ↦ absurd (cc ((full_iff valid reader writer).1 (omega arith)))
  ]

  -- `ring_buffer_write` keeps the ring well formed in the reader's first lap.
  pub write-FirstLap : (x : SensorData) → FirstLap c (write rb x).1
  unfolding write full
  write-FirstLap x = elim (Bool-cases full) [
    | inl e ↦ rw e l
    | inr e ↦ rw e (record {
      valid = pushed-IsValid valid writer (omega arith) x;
      reader = reader;
      writer = omega (arith, next_write, room_left e);
    })
  ]

  -- In the reader's first lap, ring_buffer_write appends the element, and fails on a ring with one
  -- element less than its capacity only.
  pub write-eq-push :
      (d x : SensorData)
      → let (done, rb') = write rb x in (done, contents c d rb') ≡ Queue.push c (contents c d rb) x
  unfolding write Queue.push full
  write-eq-push d x = elim (Bool-cases full) [
    | inl e ↦
        let q : (length (contents c d rb) + 1 == c) ≡ true =
          ground (arith, held, (full_iff valid reader writer).0 e) in
        rw (e, q)
    | inr e ↦
        let q : (length (contents c d rb) + 1 == c) ≡ false = ground (arith, held, room_left e) in
        rw (e, q) (ap (λ ys. (true, ys)) (contents-pushed valid (room_left e) (omega arith) d x))
  ]
    where
      held : length (contents c d rb) ≡ rb.write_idx - rb.read_idx
      held = length-window rb.buffer c d rb.read_idx (rb.write_idx - rb.read_idx)
