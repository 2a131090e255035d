-- ===== src/Collector/Start.antt =====
-- app/main.c, collector_thread before its loop: the placement of the thread, the search for a
-- MPU6050 that delivers, and the opening of the SHT30.
use native.Mathlib.Decide.{dec_lt}
use edge_omni.Common.{
  ℕ, zero, suc, ◌+◌, ◌*◌, ◌≤◌, ◌<◌, ◌≡◌, ◌↔◌, inl, inr, refl, sym, ap, ◌∙◌, arith, Bool, true,
  false, not, ◌&&◌, ◌||◌, Option, none, some, List, [], ◌∷◌, if◌then◌else◌, take, length,
  length-take, Any, Bool-cases,
}
use edge_omni.Common.Int.{ℤ, pos}
use edge_omni.Sensor.{SensorData}
use edge_omni.Hal.{ReadResult, got, failed, hal_get_ops}
use edge_omni.Fsm.{State, Context}
use edge_omni.Modbus.Server.{RegData}
use edge_omni.Collector.{Collector}

-- An event device: whether its file exists and opens, and what each read of it brings, with the
-- latency that is measured.
pub record Candidate : Type 0 where
  pub exists : Bool
  pub opens : Bool
  pub reads : ℕ → ReadResult × ℤ

abbrev pub delivers : ReadResult → Bool
delivers (failed e) = false
delivers (got []) = false
delivers (got (x ∷ xs)) = true

-- The warm-up, with the reads that are left and the number of those made: whether one delivers, and
-- the latencies recorded, the newest first.
unfoldable pub warm_up : ℕ → ℕ → (ℕ → ReadResult × ℤ) → List ℤ → Bool × List ℤ
warm_up zero made reads latencies = (false, latencies)
warm_up (suc left) made reads latencies =
    let (result, latency) = reads made in
    let rest = warm_up left (made + 1) reads (latency ∷ latencies) in
    if delivers result then (true, latency ∷ latencies) else rest

abbrev pub warm_up_reads : ℕ
warm_up_reads = 50

-- The loop over the devices: whether a handle is left open.
unfoldable pub find_mpu : List Candidate → List ℤ → Bool × List ℤ
unfolding warm_up
find_mpu [] latencies = (false, latencies)
find_mpu (c ∷ cs) latencies =
    let (warm, after) = warm_up warm_up_reads 0 c.reads latencies in
    let next = find_mpu cs latencies in
    let next_after = find_mpu cs after in
    if c.exists && c.opens then (if warm then (true, after) else next_after) else next

-- The variables that other threads share with the collector.
pub record Shared : Type 0 where
  pub fsm : Context
  pub system_state : State
  pub heartbeat : ℕ
  pub reg_data : RegData

abbrev is_some {ℓ} : {A : Type ℓ} → Option A → Bool
is_some none = false
is_some (some a) = true

-- `none` is a thread that returns because it cannot be placed. What stands in `sht_buf` before the
-- first read is given.
unfoldable pub collector_start :
    (affinity_ok sched_ok : Bool)
    → List Candidate
    → (sht_opens : Bool) → List SensorData
    → Shared
    → Option Collector
unfolding find_mpu hal_get_ops
collector_start affinity_ok sched_ok candidates sht_opens sht_buf shared =
    let mpu_ops = is_some (hal_get_ops "mpu6050") in
    let sht_ops = is_some (hal_get_ops "sht30") in
    let (found, latencies) = find_mpu (take 4 candidates) [] in
    if not affinity_ok || not sched_ok
    then none
    else some (record {
      mpu_ops = mpu_ops;
      mpu_handle = mpu_ops && found;
      sht_open = sht_ops && sht_opens;
      sht_buf = sht_buf;
      mpu_fail_streak = 0;
      mpu_no_data_streak = 0;
      sht_fail_streak = 0;
      latest_ax = pos 0;
      latest_ay = pos 0;
      fsm = shared.fsm;
      system_state = shared.system_state;
      heartbeat = shared.heartbeat;
      reg_data = shared.reg_data;
      latencies = if mpu_ops then latencies else [];
      rows = [];
    })

-- A read among `left` from number `made` on brings samples.
abbrev Delivers : ℕ → ℕ → (ℕ → ReadResult × ℤ) → Type 0
Delivers left made reads = (k : ℕ) × (made ≤ k) × (k < made + left) × (delivers (reads k).0 ≡ true)

skip_first :
    (left made : ℕ) (reads : ℕ → ReadResult × ℤ)
    → delivers (reads made).0 ≡ false
    → Delivers (suc left) made reads
    → Delivers left (made + 1) reads
skip_first left made reads later (k, low, high, good) = elim (dec_lt made k) [
  | yes p ↦ (k, omega arith, omega arith, good)
  | no p ↦
      let same : k ≡ made = omega arith in
      absurd (cc (sym (ap (λ i. delivers (reads i).0) same) ∙ good, later))
]

warm_up_iff :
    (left made : ℕ) (reads : ℕ → ReadResult × ℤ) (latencies : List ℤ)
    → (((warm_up left made reads latencies).0 ≡ true) ↔ Delivers left made reads)
      × (length (warm_up left made reads latencies).1 ≤ length latencies + left)
unfolding warm_up
warm_up_iff zero made reads latencies =
    (((λ h. absurd (cc)), (λ h. absurd (omega (arith, h.1, h.2)))), omega arith)
warm_up_iff (suc left) made reads latencies =
    let (found, count) = warm_up_iff left (made + 1) reads ((reads made).1 ∷ latencies) in
    elim (Bool-cases (delivers (reads made).0)) [
      | inl now ↦ rw now (((λ h. (made, omega arith, omega arith, now)), (λ h. refl)), omega arith)
      | inr later ↦ rw later (
        (
          (λ h. let (k, low, high, good) = found.0 h in (k, omega arith, omega arith, good)),
          (λ h. found.1 (skip_first left made reads later h)),
        ),
        omega (arith, count),
      )
    ]

-- A device that the search can take.
abbrev pub IsGood : Candidate → Type 0
IsGood c = (c.exists ≡ true) × (c.opens ≡ true) × Delivers warm_up_reads 0 c.reads

find_mpu_iff :
    (cs : List Candidate) (latencies : List ℤ)
    → (((find_mpu cs latencies).0 ≡ true) ↔ Any IsGood cs)
      × (length (find_mpu cs latencies).1 ≤ length latencies + length cs * warm_up_reads)
unfolding find_mpu
find_mpu_iff [] latencies = (((λ h. absurd (cc)), (λ h. absurd h)), omega arith)
find_mpu_iff (c ∷ cs) latencies =
    let (warm, count) = warm_up_iff warm_up_reads 0 c.reads latencies in
    let after = warm_up warm_up_reads 0 c.reads latencies in
    let (next, next_count) = find_mpu_iff cs latencies in
    let (later, later_count) = find_mpu_iff cs after.1 in
    elim (Bool-cases (c.exists && c.opens)) [
      | inr shut ↦ rw shut (
        (
          (λ h. inr (next.0 h)),
          (λ h. elim h [ inl good ↦ absurd (ground arith) | inr there ↦ next.1 there ]),
        ),
        omega (arith, next_count),
      )
      | inl opened ↦ elim (Bool-cases after.0) [
        | inl delivered ↦
            rw (opened, delivered)
              (
                ((λ h. inl (ground arith, ground arith, warm.0 delivered)), (λ h. refl)),
                omega (arith, count),
              )
        | inr silent ↦
            rw (opened, silent)
              (
                (
                  (λ h. inr (later.0 h)),
                  (λ h. elim h [
                    | inl good ↦ absurd (cc (warm.1 good.2, silent))
                    | inr there ↦ later.1 there
                  ]),
                ),
                omega (arith, count, later_count),
              )
      ]
    ]

-- A collector that can be placed starts with a handle of the MPU6050 exactly if one of the first
-- four event devices exists, opens, and delivers in one of its first 50 reads; no more than 200
-- latencies are recorded on the way, no failure is counted, and the state machine is the one it
-- finds.
pub collector_start_handle :
    (candidates : List Candidate) (sht_opens : Bool) (sht_buf : List SensorData) (shared : Shared)
    → (s : Collector) × (collector_start true true candidates sht_opens sht_buf shared ≡ some s)
      × ((s.mpu_handle ≡ true) ↔ Any IsGood (take 4 candidates))
      × (length s.latencies ≤ 200)
      × (s.mpu_fail_streak ≡ 0)
      × (s.fsm ≡ shared.fsm)
unfolding collector_start hal_get_ops
collector_start_handle candidates sht_opens sht_buf shared =
    let (found, count) = find_mpu_iff (take 4 candidates) [] in
    (_, refl, found, omega (arith, count, length-take 4 candidates), refl, refl)
