-- ===== src/Hal/Frames.antt =====
-- What `mpu6050_hal_read` keeps to, and what comes out of whole and of broken frames.
use edge_omni.Common.{
  ℕ, zero, suc, ◌+◌, ◌-◌, ◌/◌, ◌≤◌, ◌<◌, ◌≡◌, ◌∙◌, refl, arith, true, false, none, some, List, [],
  ◌∷◌, ◌++◌, ltb, leb, set, take, length, length-take, length-append, length-set, inl, inr,
  Bool-cases, Option-cases,
}
use edge_omni.Common.Int.{ℤ}
use edge_omni.Sensor.{SensorData, sizeof_sensor_data}
use edge_omni.Hal.Mpu.{
  InputEvent, Answer, event, broken, ev_abs, Private, drain, point, channel_of, Filled, fill,
  mpu6050_hal_read,
}

fill_skip :
    (ev : InputEvent) (answers : List Answer) (room : ℕ) (p : Private)
    → channel_of ev ≡ none
    → fill (event ev ∷ answers) (suc room) p ≡ fill answers (suc room) p
unfolding fill
fill_skip ev answers room p h = rw (h, fill)

stored : Private → ℕ → InputEvent → List SensorData
stored p c ev = set p.cache c (point ev c)

fill_more :
    (ev : InputEvent) (answers : List Answer) (room c : ℕ) (p : Private)
    → channel_of ev ≡ some c
    → p.cache_count + 1 < 6
    → fill (event ev ∷ answers) (suc room) p
      ≡ fill answers (suc room) (record { cache = stored p c ev; cache_count = p.cache_count + 1 })
unfolding fill stored
fill_more ev answers room c p h k =
    let small : leb 6 (p.cache_count + 1) ≡ false = ground arith in rw (h, fill, small)

fill_full :
    (ev : InputEvent) (answers : List Answer) (room c : ℕ) (p : Private)
    → channel_of ev ≡ some c
    → 6 ≤ p.cache_count + 1
    → let emitted = take (suc room) (take 6 (stored p c ev)) in
      let rest =
        fill answers
          (suc room - length emitted)
          (record { cache = stored p c ev; cache_count = 0 }) in
      fill (event ev ∷ answers) (suc room) p ≡ record rest { out = emitted ++ rest.out }
unfolding fill stored
fill_full ev answers room c p h k =
    let large : leb 6 (p.cache_count + 1) ≡ true = ground arith in rw (h, fill, large)

-- What the loop keeps to: the room of the buffer, and a cache of six cells that is never full.
abbrev pub Kept : ℕ → Filled → Type 0
Kept room r = (length r.out ≤ room) × (r.left.cache_count < 6) × (length r.left.cache ≡ 6)

fill-Kept :
    (answers : List Answer) (room : ℕ) (p : Private)
    → p.cache_count < 6
    → length p.cache ≡ 6
    → Kept room (fill answers room p)
fill-Kept answers zero p h six = unfold fill in (omega arith, h, six)
fill-Kept [] (suc room) p h six = unfold fill in (omega arith, h, six)
fill-Kept (broken e ∷ answers) (suc room) p h six = unfold fill in (omega arith, h, six)
fill-Kept (event ev ∷ answers) (suc room) p h six = elim (Option-cases (channel_of ev)) [
  | inl skipped ↦ rw (fill_skip ev answers room p skipped) (fill-Kept answers (suc room) p h six)
  | inr (c, found) ↦
      let still : length (stored p c ev) ≡ 6 =
        unfold stored in length-set p.cache c (point ev c) ∙ six in
      elim (Bool-cases (ltb (p.cache_count + 1) 6)) [
        | inl few ↦ rw (fill_more ev answers room c p found (ground arith)) (
            fill-Kept answers (suc room)
              (record { cache = stored p c ev; cache_count = p.cache_count + 1 }) (ground arith)
              still)
        | inr many ↦
            let emitted : List SensorData = take (suc room) (take 6 (stored p c ev)) in
            let ih =
              fill-Kept answers (suc room - length emitted)
                (record { cache = stored p c ev; cache_count = 0 }) (omega arith) still in
            rw (fill_full ev answers room c p found (ground arith)) (
              omega (
                arith,
                ih,
                length-take (suc room) (take 6 (stored p c ev)),
                length-append emitted
                    (fill answers (suc room - length emitted)
                      (record { cache = stored p c ev; cache_count = 0 })).out,
              ),
              ih.1,
              ih.2,
            )
      ]
]

drain-Kept :
    (cache : List SensorData) (n room : ℕ)
    → (length (drain cache n room).0 ≤ room) × ((drain cache n room).1 ≤ n)
unfolding drain
drain-Kept cache zero room = (omega arith, omega arith)
drain-Kept cache (suc n) zero = (omega arith, omega arith)
drain-Kept cache (suc n) (suc room) =
    let ih = drain-Kept cache n room in (omega (arith, ih), omega (arith, ih))

-- From a cache of six cells that is not full, and whatever the device answers, mpu6050_hal_read
-- writes no more samples than the buffer holds, and leaves a cache that is not full, so that its
-- index 6 - cache_count stays in the cache.
pub mpu6050_hal_read_bounds :
    (len : ℕ) (answers : List Answer) (p : Private) (total : ℕ)
    → p.cache_count < 6
    → length p.cache ≡ 6
    → Kept (len / sizeof_sensor_data) (mpu6050_hal_read len answers p total).0
unfolding mpu6050_hal_read
mpu6050_hal_read_bounds len answers p total h six =
    let room = len / sizeof_sensor_data in
    let d = drain p.cache p.cache_count room in
    let kept = drain-Kept p.cache p.cache_count room in
    let q : Private = record p { cache_count = d.1 } in
    let r : Filled = fill answers (room - length d.0) q in
    let k = fill-Kept answers (room - length d.0) q (omega (arith, kept)) six in
    elim (Option-cases r.error) [
      | inl fine ↦
          rw (fine, mpu6050_hal_read) (omega (arith, kept, k, length-append d.0 r.out), k.1, k.2)
      | inr (e, failed) ↦ rw (failed, mpu6050_hal_read) (omega arith, k.1, k.2)
    ]

-- An event of one axis.
abbrev pub axis : ℕ → ℕ → ℕ → ℤ → InputEvent
axis sec usec code value = record {
  tv_sec = sec;
  tv_usec = usec;
  type = ev_abs;
  code = code;
  value = value;
}

abbrev pub cache_of : (a b c d e f : SensorData) → List SensorData
cache_of a b c d e f = a ∷ b ∷ c ∷ d ∷ e ∷ f ∷ []

-- A whole frame, its six axes in order and with nothing in the cache, is returned as it is: six
-- samples with the channels 0 to 5, and the cache is empty again.
pub full_frame :
    (a b c d e f : SensorData) (sec usec : ℕ) (x y z rx ry rz : ℤ) (rest : List Answer) (total : ℕ)
    → let frame =
        event (axis sec usec 0 x)
        ∷ event (axis sec usec 1 y)
        ∷ event (axis sec usec 2 z)
        ∷ event (axis sec usec 3 rx)
        ∷ event (axis sec usec 4 ry)
        ∷ event (axis sec usec 5 rz)
        ∷ rest in
      let samples =
        point (axis sec usec 0 x) 0
        ∷ point (axis sec usec 1 y) 1
        ∷ point (axis sec usec 2 z) 2
        ∷ point (axis sec usec 3 rx) 3
        ∷ point (axis sec usec 4 ry) 4
        ∷ point (axis sec usec 5 rz) 5
        ∷ [] in
      mpu6050_hal_read 96 frame (record { cache = cache_of a b c d e f; cache_count = 0 }) total ≡ (
        record {
          error = none;
          left = record { cache = samples; cache_count = 0 };
          out = samples;
          unread = rest;
        },
        total,
      )
unfolding mpu6050_hal_read
full_frame a b c d e f sec usec x y z rx ry rz rest total = refl

-- A frame of one axis other than the last, and then a read that finds no event: the first read
-- returns nothing, and the next one returns not the new value but the sample of the last axis as
-- it was before, and forgets that there was an event.
pub lone_axis_lost :
    (a b c d e f : SensorData) (sec usec code : ℕ) (value : ℤ) (total : ℕ)
    → code < 5
    → let (first, total') =
        mpu6050_hal_read 96
          (event (axis sec usec code value) ∷ [])
          (record { cache = cache_of a b c d e f; cache_count = 0 })
          total in
      let (second, total'') = mpu6050_hal_read 96 [] first.left total' in
      (first.error ≡ none)
      × (first.out ≡ [])
      × (second.error ≡ none)
      × (second.out ≡ f ∷ [])
      × (second.left.cache_count ≡ 0)
unfolding mpu6050_hal_read
lone_axis_lost a b c d e f sec usec zero value total h = (refl, refl, refl, refl, refl)
lone_axis_lost a b c d e f sec usec (suc zero) value total h = (refl, refl, refl, refl, refl)
lone_axis_lost a b c d e f sec usec (suc (suc zero)) value total h = (refl, refl, refl, refl, refl)
lone_axis_lost a b c d e f sec usec (suc (suc (suc zero))) value total h =
    (refl, refl, refl, refl, refl)
lone_axis_lost a b c d e f sec usec (suc (suc (suc (suc zero)))) value total h =
    (refl, refl, refl, refl, refl)
lone_axis_lost a b c d e f sec usec (suc (suc (suc (suc (suc code))))) value total h =
    absurd (omega arith)
