-- ===== src/Mpu6050/Frame.antt =====
-- A frame of the sensor on its way through the input device to the samples.
use edge_omni.Common.{
  ℕ, zero, suc, ◌+◌, ◌-◌, ◌*◌, ◌<◌, ◌≡◌, ◌∙◌, refl, ap, arith, List, [], ◌∷◌, map, ltb,
  if◌then◌else◌, get_or, All,
}
use edge_omni.Common.Int.{ℤ, pos, negsuc}
use edge_omni.Sensor.{SensorData}
use edge_omni.Hal.Mpu.{Answer, event, Private, mpu6050_hal_read}
use edge_omni.Hal.Frames.{cache_of, full_frame}
use edge_omni.Sht30.Convert.{be16-eq}
use edge_omni.Mpu6050.{Mpu, Report, report_abs, sync, axis_at, reports_of, mpu6050_work_handler}

-- A report as an event, at a moment.
abbrev pub event_of : ℕ → ℕ → Report → Answer
event_of sec usec (report_abs code value) =
    event (record { tv_sec = sec; tv_usec = usec; type = 3; code = code; value = value })
event_of sec usec sync =
    event (record { tv_sec = sec; tv_usec = usec; type = 0; code = 0; value = pos 0 })

-- The value of a pair of bytes, most significant first, in two's complement.
abbrev pub value_of : List ℕ → ℕ → ℤ
value_of buf i =
    let word = get_or buf i 0 * 256 + get_or buf (i + 1) 0 in
    if ltb word 32768 then pos word else negsuc (65535 - word)

get_or-lt : (buf : List ℕ) (i : ℕ) → All (λ b. b < 256) buf → get_or buf i 0 < 256
get_or-lt [] i h = omega arith
get_or-lt (b ∷ buf) zero h = h.0
get_or-lt (b ∷ buf) (suc i) h = get_or-lt buf i h.1

axis_at-eq : (buf : List ℕ) (i : ℕ) → All (λ b. b < 256) buf → axis_at buf i ≡ value_of buf i
axis_at-eq buf i h =
    rw (be16-eq (get_or buf i 0) (get_or buf (i + 1) 0) (get_or-lt buf (i + 1) h)) (ground arith)

abbrev pub channel_and_value : SensorData → ℕ × ℤ
channel_and_value x = (x.channel, x.value)

-- The answers of the device to the reports of a run of the work handler.
abbrev pub frame_of : (List Report → List Answer) → ℕ → List ℕ → Mpu → List Answer
frame_of core n buf d = core (mpu6050_work_handler (pos n) buf d).2

reports-eq :
    (n : ℕ) (buf : List ℕ) (d : Mpu) → (mpu6050_work_handler (pos n) buf d).2 ≡ reports_of buf
unfolding mpu6050_work_handler
reports-eq n buf d = refl

samples_of_reports :
    (buf : List ℕ) (sec usec total : ℕ) (c₀ c₁ c₂ c₃ c₄ c₅ : SensorData)
    → map channel_and_value
        (mpu6050_hal_read 96
          (map (event_of sec usec) (reports_of buf))
          (record { cache = cache_of c₀ c₁ c₂ c₃ c₄ c₅; cache_count = 0 })
          total).0.out
      ≡ (0, axis_at buf 0)
        ∷ (1, axis_at buf 2)
        ∷ (2, axis_at buf 4)
        ∷ (3, axis_at buf 8)
        ∷ (4, axis_at buf 10)
        ∷ (5, axis_at buf 12)
        ∷ []
unfolding reports_of
samples_of_reports buf sec usec total c₀ c₁ c₂ c₃ c₄ c₅ =
    rw
      (full_frame c₀ c₁ c₂ c₃ c₄ c₅ sec usec (axis_at buf 0) (axis_at buf 2) (axis_at buf 4)
        (axis_at buf 8) (axis_at buf 10) (axis_at buf 12) (event_of sec usec sync ∷ []) total)
      refl

-- When the read of the bytes succeeds, and the input core passes all the reports on because each
-- axis has changed, the HAL with an empty cache returns six samples with the channels 0 to 5,
-- whose values are the pairs of bytes in two's complement; bytes 6 and 7, the temperature of the
-- sensor, are left out.
pub frame_to_samples :
    (core : List Report → List Answer) (n sec usec total : ℕ) (d : Mpu) (buf : List ℕ)
    → (c₀ c₁ c₂ c₃ c₄ c₅ : SensorData) → All (λ b. b < 256) buf
    → ((rs : List Report) → core rs ≡ map (event_of sec usec) rs)
    → map channel_and_value
        (mpu6050_hal_read 96
          (frame_of core n buf d)
          (record { cache = cache_of c₀ c₁ c₂ c₃ c₄ c₅; cache_count = 0 })
          total).0.out
      ≡ (0, value_of buf 0)
        ∷ (1, value_of buf 2)
        ∷ (2, value_of buf 4)
        ∷ (3, value_of buf 8)
        ∷ (4, value_of buf 10)
        ∷ (5, value_of buf 12)
        ∷ []
frame_to_samples core n sec usec total d buf c₀ c₁ c₂ c₃ c₄ c₅ bytes passes =
    let p : Private = record { cache = cache_of c₀ c₁ c₂ c₃ c₄ c₅; cache_count = 0 } in
    let delivered : frame_of core n buf d ≡ map (event_of sec usec) (reports_of buf) =
      ap core (reports-eq n buf d) ∙ passes (reports_of buf) in
    ap (λ answers. map channel_and_value (mpu6050_hal_read 96 answers p total).0.out) delivered
    ∙ samples_of_reports buf sec usec total c₀ c₁ c₂ c₃ c₄ c₅
    ∙ rw
        (
          axis_at-eq buf 0 bytes,
          axis_at-eq buf 2 bytes,
          axis_at-eq buf 4 bytes,
          axis_at-eq buf 8 bytes,
          axis_at-eq buf 10 bytes,
          axis_at-eq buf 12 bytes,
        )
        refl
