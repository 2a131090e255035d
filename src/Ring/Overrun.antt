-- ===== src/Ring/Overrun.antt =====
-- After the reader's first lap. `ring_buffer_write` compares a masked index with `read_idx` as it
-- stands, so that its test for a full ring no longer fires once `read_idx` has reached `capacity`.
use Prim.Native.Nat.{bit_and}
use native.Mathlib.Nat.{mod-lt, mod_self, add-mod_right}
use edge_omni.Common.{
  ℕ, ◌+◌, ◌-◌, ◌%◌, ◌^◌, ◌≤◌, ◌<◌, ◌≡◌, ◌≢◌, refl, sym, ◌∙◌, ap, arith, true, false, some, List,
  ◌==◌, ==_ne, length, get_elem?, set, get_elem?-eq-get_or, get_or-set_self, length-set,
}
use edge_omni.Common.Word.{u32}
use edge_omni.Sensor.{SensorData}
use edge_omni.Ring.{Ring, write, read, count}
use edge_omni.Ring.Bounds.{IsValid, bit_and_masked, capacity_pos}
use edge_omni.Ring.Calls.{pushed, pushed-IsValid, count-eq-mod}

module _ {c : ℕ} {rb : Ring} (v : IsValid c rb) (late : c ≤ rb.read_idx) where
  never_full : (bit_and (u32 (rb.write_idx + 1)) rb.mask == rb.read_idx) ≡ false
  never_full = ==_ne _ _ (
      omega (
        arith,
        bit_and_masked v (u32 (rb.write_idx + 1)),
        mod-lt (u32 (rb.write_idx + 1)) (capacity_pos v),
      ))

  -- Past the reader's first lap `ring_buffer_write` never refuses, whatever the ring holds.
  pub write_past_first_lap : (x : SensorData) → write rb x ≡ (true, pushed rb x)
  unfolding write
  write_past_first_lap x = rw never_full

read_value :
    (rb : Ring)
    → rb.read_idx ≢ rb.write_idx
    → ((read rb).0 ≡ true) × ((read rb).1 ≡ get_elem? rb.buffer (bit_and rb.read_idx rb.mask))
unfolding read
read_value rb h = rw (==_ne _ _ h) (refl, refl)

get_elem?-set_self :
    (b : List SensorData) (i j : ℕ) (y : SensorData)
    → i ≡ j
    → j < length b
    → get_elem? (set b i y) j ≡ some y
get_elem?-set_self b i j y e h = rw e (
    get_elem?-eq-get_or (set b j y) j y (rw (length-set b j y) h)
    ∙ ap some (get_or-set_self b j y y h))

-- A valid ring that holds one element less than its capacity past the reader's first lap, with an
-- index that does not wrap in the next two writes: a further write is accepted and the ring then
-- reports that it is empty; one more puts its element in the place of the oldest one, and the next
-- read returns the newest.
pub overrun_loses_oldest :
    {c : ℕ} {rb : Ring}
    → IsValid c rb
    → c ≤ rb.read_idx
    → rb.write_idx + 1 ≡ rb.read_idx + c
    → rb.write_idx + 2 < 2 ^ 32
    → (x y : SensorData)
    → let (first, one) = write rb x in
      let (second, two) = write one y in
      let (taken, out, rest) = read two in
      (first ≡ true) × (count one ≡ 0) × (second ≡ true) × (taken ≡ true) × (out ≡ some y)
overrun_loses_oldest {c} {rb} v late full fits x y =
    let room : rb.write_idx < rb.read_idx + c = omega arith in
    let v' : IsValid c (pushed rb x) = pushed-IsValid v room (omega arith) x in
    rw (write_past_first_lap v late x, write_past_first_lap v' late y)
      (
        refl,
        count-eq-mod v' ∙ ap (λ n. n % c) lap ∙ mod_self c,
        refl,
        (read_value (pushed (pushed rb x) y) apart).0,
        (read_value (pushed (pushed rb x) y) apart).1
            ∙ get_elem?-set_self (pushed rb x).buffer (bit_and (u32 (rb.write_idx + 1)) rb.mask)
                (bit_and rb.read_idx rb.mask) y same
                (rw (v'.sized, bit_and_masked v rb.read_idx) (mod-lt rb.read_idx (capacity_pos v))),
      )
  where
    lap : u32 (rb.write_idx + 1) - rb.read_idx ≡ c
    lap = omega arith

    apart : rb.read_idx ≢ u32 (u32 (rb.write_idx + 1) + 1)
    apart = omega (arith, v.ordered)

    same : bit_and (u32 (rb.write_idx + 1)) rb.mask ≡ bit_and rb.read_idx rb.mask
    same =
        bit_and_masked v (u32 (rb.write_idx + 1))
        ∙ ap (λ n. n % c) next
        ∙ add-mod_right rb.read_idx c
        ∙ sym (bit_and_masked v rb.read_idx)
      where
        next : u32 (rb.write_idx + 1) ≡ rb.read_idx + c
        next = omega arith
