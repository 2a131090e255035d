-- ===== src/Ring/Laps.antt =====
-- The ring in any lap, as long as it is never written when it is full.
use Prim.Native.Nat.{bit_and}
use native.Mathlib.Nat.{mod-lt}
use native.Mathlib.Decide.{dec_lt}
use edge_omni.Common.{
  ℕ, ◌+◌, ◌-◌, ◌^◌, ◌<◌, ◌≡◌, refl, ◌∙◌, ap, arith, true, false, none, List, [], ◌∷◌, ◌==◌, ==_ne,
  length, Bool-cases, inl, inr,
}
use edge_omni.Common.Word.{u32}
use edge_omni.Sensor.{SensorData}
use edge_omni.Ring.{Ring, write, read, run, Op, put, get}
use edge_omni.Ring.Queue
use edge_omni.Ring.Bounds.{IsValid, bit_and_masked, capacity_pos, contents, length-window}
use edge_omni.Ring.Calls.{
  pushed, pushed-IsValid, contents-pushed, full_iff, read-IsValid, read-eq-pop,
}

module _ {c : ℕ} {rb : Ring} (v : IsValid c rb) (room : rb.write_idx + 1 < rb.read_idx + c)
    (word : rb.write_idx + 1 < 2 ^ 32) where
  not_full : (bit_and (u32 (rb.write_idx + 1)) rb.mask == rb.read_idx) ≡ false
  not_full = elim (dec_lt rb.read_idx c) [
    | yes lap ↦ elim (Bool-cases (bit_and (u32 (rb.write_idx + 1)) rb.mask == rb.read_idx)) [
      | inl e ↦ absurd (omega (arith, (full_iff v lap (omega arith)).0 e))
      | inr e ↦ e
    ]
    | no late ↦ ==_ne _ _ (
        omega (
          arith,
          bit_and_masked v (u32 (rb.write_idx + 1)),
          mod-lt (u32 (rb.write_idx + 1)) (capacity_pos v),
        ))
  ]

  pub write_room : (x : SensorData) → write rb x ≡ (true, pushed rb x)
  unfolding write
  write_room x = rw not_full

  push_room :
      (d x : SensorData) → Queue.push c (contents c d rb) x ≡ (true, contents c d (pushed rb x))
  unfolding Queue.push
  push_room d x =
      let held = length-window rb.buffer c d rb.read_idx (rb.write_idx - rb.read_idx) in
      let q : (length (contents c d rb) + 1 == c) ≡ false =
        ==_ne _ _ (omega (arith, held, v.ordered)) in
      rw (q, contents-pushed v room word d x) refl

-- From `n` elements on, every write finds room.
abbrev pub HasRoom : ℕ → ℕ → List Op → Type 0
HasRoom c n [] = Unit {0}
HasRoom c n (put x ∷ ops) = (n + 1 < c) × HasRoom c (n + 1) ops
HasRoom c n (get ∷ ops) = HasRoom c (n - 1) ops

abbrev pub puts : List Op → ℕ
puts [] = 0
puts (put x ∷ ops) = puts ops + 1
puts (get ∷ ops) = puts ops

pub read_count :
    {c : ℕ} {rb : Ring}
    → IsValid c rb
    → ((read rb).2.write_idx ≡ rb.write_idx)
      × ((read rb).2.write_idx - (read rb).2.read_idx ≡ rb.write_idx - rb.read_idx - 1)
unfolding read
read_count {c} {rb} v = elim (Bool-cases (rb.read_idx == rb.write_idx)) [
  | inl e ↦ let same : rb.read_idx ≡ rb.write_idx = ground arith in rw e (refl, omega arith)
  | inr e ↦
      let next : u32 (rb.read_idx + 1) ≡ rb.read_idx + 1 = ground (arith, v.ordered, v.in_word) in
      rw (e, next) (refl, omega arith)
]

-- In whatever lap, as long as no write comes when the ring holds one element less than its
-- capacity, and the write index does not wrap, every sequence of calls returns what the bounded
-- first-in-first-out queue of the ring's contents returns.
pub run-eq-run_laps :
    {c : ℕ} (d : SensorData) (ops : List Op) {rb : Ring}
    → IsValid c rb
    → HasRoom c (rb.write_idx - rb.read_idx) ops
    → rb.write_idx + puts ops < 2 ^ 32
    → run rb ops ≡ Queue.run c (contents c d rb) ops
unfolding run Queue.run
run-eq-run_laps d [] v h word = refl
run-eq-run_laps {c} d (put x ∷ ops) {rb} v (room, h) word =
    let v_room : rb.write_idx + 1 < rb.read_idx + c = omega (arith, v.ordered) in
    let one : rb.write_idx + 1 < 2 ^ 32 = omega arith in
    let v' = pushed-IsValid v (omega arith) one x in
    let grown : u32 (rb.write_idx + 1) - rb.read_idx ≡ rb.write_idx - rb.read_idx + 1 =
      omega (arith, v.ordered) in
    let rest = run-eq-run_laps d ops v' (rw grown h) (omega arith) in
    rw (write_room v v_room one x, push_room v v_room one d x) (ap (◌∷◌ (true, none)) rest)
run-eq-run_laps {c} d (get ∷ ops) {rb} v h word =
    let (same, fewer) = read_count v in
    ap (◌∷◌ ((read rb).0, (read rb).1))
      (run-eq-run_laps d ops (read-IsValid v) (rw fewer h) (omega (arith, same)))
    ∙ ap (λ t. (t.0, t.1) ∷ Queue.run c t.2 ops) (read-eq-pop v d)
