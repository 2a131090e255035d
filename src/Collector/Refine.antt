-- ===== src/Collector/Refine.antt =====
-- A round of the collector is a step of its specification.
use edge_omni.Common.{
  ℕ, ◌+◌, ◌≡◌, ◌∙◌, refl, sym, ap, ap₂, arith, Bool, true, false, not, ◌&&◌, List, [], ◌∷◌, ltb,
  leb, take, if◌then◌else◌, Bool-cases, inl, inr,
}
use edge_omni.Common.Word.{u32, u64}
use edge_omni.Sensor.{SensorData}
use edge_omni.Hal.{ReadResult, got, failed}
use edge_omni.Fsm.{
  State, init, running, degraded, recovering, fault, mpu_fail, mpu_restored, i2c_deadlock, Context,
  transition, fsm_get_state,
}
use edge_omni.Fsm.Laws.{fsm_get_state-eq}
use edge_omni.Collector.{
  Round, Collector, scan, counted, degrade_if_due, is_degraded, store_mpu, mpu_result, mpu_part,
  sht_result, sht_part, collect,
}
use edge_omni.Collector.Spec.{
  View, Outcome, idle, lost, fine, after_loss, after_return, after_deadlock, mpu_view, sht_view,
}

abbrev pub view : Collector → View
view s = record { state = s.fsm.current; mpu = s.mpu_fail_streak; sht = s.sht_fail_streak }

-- How a round goes for the MPU6050: it fails when it cannot be opened, when the read fails, and
-- when ten reads in a row bring nothing.
abbrev outcome_of : ReadResult → ℕ → Outcome
outcome_of (failed e) no_data = lost
outcome_of (got []) no_data = if leb 10 (no_data + 1) then lost else idle
outcome_of (got (x ∷ xs)) no_data = fine

abbrev pub mpu_outcome : Round → Collector → Outcome
mpu_outcome i s =
    if not s.mpu_ops
    then idle
    else if (if s.mpu_handle then true else scan (take 4 i.probes))
    then outcome_of i.mpu s.mpu_no_data_streak
    else lost

abbrev sht_read_outcome : ReadResult → Outcome
sht_read_outcome (failed e) = lost
sht_read_outcome (got []) = idle
sht_read_outcome (got (x ∷ xs)) = fine

abbrev pub sht_outcome : Round → Collector → Outcome
sht_outcome i s = if s.sht_open then sht_read_outcome i.sht else idle

loss-current : (ctx : Context) → (transition ctx mpu_fail).2.current ≡ after_loss ctx.current
unfolding transition
loss-current ctx = ground arith

return-current :
    (ctx : Context) → (transition ctx mpu_restored).2.current ≡ after_return ctx.current
unfolding transition
return-current ctx = ground arith

deadlock-current :
    (ctx : Context) → (transition ctx i2c_deadlock).2.current ≡ after_deadlock ctx.current
unfolding transition
deadlock-current ctx = ground arith

store_mpu-view :
    (now : ℕ) (xs : List SensorData) (s : Collector)
    → (view (store_mpu now xs s) ≡ view s) × ((store_mpu now xs s).sht_open ≡ s.sht_open)
unfolding store_mpu
store_mpu-view now [] s = (refl, refl)
store_mpu-view now (x ∷ xs) s = store_mpu-view now xs _

abbrev with_state : State → ℕ → ℕ → View
with_state st m h = record { state = st; mpu = m; sht = h }

degrade-view :
    (s : Collector)
    → view (degrade_if_due s)
      ≡ with_state
          (if leb 3 s.mpu_fail_streak then after_loss s.fsm.current else s.fsm.current)
          s.mpu_fail_streak
          s.sht_fail_streak
degrade-view s = elim (Bool-cases (leb 3 s.mpu_fail_streak)) [
  | inl due ↦
      rw due (ap (λ st. with_state st s.mpu_fail_streak s.sht_fail_streak) (loss-current s.fsm))
  | inr early ↦ rw early refl
]

degrade-sht_open : (s : Collector) → (degrade_if_due s).sht_open ≡ s.sht_open
degrade-sht_open s = elim (Bool-cases (leb 3 s.mpu_fail_streak)) [
  | inl due ↦ rw due refl
  | inr early ↦ rw early refl
]

-- A failure, whatever becomes of the handle and of the other streak.
lost-view :
    (s : Collector) (handle : Bool) (no_data : ℕ)
    → let after =
        degrade_if_due (record (counted s) { mpu_handle = handle; mpu_no_data_streak = no_data }) in
      (view after ≡ mpu_view lost (view s)) × (after.sht_open ≡ s.sht_open)
lost-view s handle no_data =
    let after : Collector = record (counted s) {
      mpu_handle = handle;
      mpu_no_data_streak = no_data;
    } in
    (degrade-view after, degrade-sht_open after)

not_degraded : (st : State) → is_degraded st ≡ false → after_return st ≡ st
not_degraded init h = refl
not_degraded running h = refl
not_degraded degraded h = absurd (cc)
not_degraded recovering h = refl
not_degraded fault h = refl

abbrev restore : Collector → Collector
restore s =
    if ltb 0 s.mpu_fail_streak && is_degraded (fsm_get_state s.fsm)
    then record s { fsm = (transition s.fsm mpu_restored).2 }
    else s

restore-current :
    (s : Collector)
    → (restore s).fsm.current
      ≡ (if ltb 0 s.mpu_fail_streak then after_return s.fsm.current else s.fsm.current)
restore-current s = elim (Bool-cases (ltb 0 s.mpu_fail_streak)) [
  | inr none_lost ↦ rw none_lost refl
  | inl some_lost ↦ elim (Bool-cases (is_degraded (fsm_get_state s.fsm))) [
    | inl there ↦ rw (some_lost, there) (return-current s.fsm)
    | inr elsewhere ↦
        rw (some_lost, elsewhere)
          (sym (
            not_degraded s.fsm.current (ap is_degraded (sym (fsm_get_state-eq s.fsm)) ∙ elsewhere)))
  ]
]

restore-rest :
    (s : Collector)
    → ((restore s).sht_open ≡ s.sht_open) × ((restore s).sht_fail_streak ≡ s.sht_fail_streak)
restore-rest s = elim (Bool-cases (ltb 0 s.mpu_fail_streak && is_degraded (fsm_get_state s.fsm))) [
  | inl due ↦ rw due (refl, refl)
  | inr not_due ↦ rw not_due (refl, refl)
]

mpu_result-view :
    (r : ReadResult) (i : Round) (s : Collector)
    → (view (mpu_result r i s) ≡ mpu_view (outcome_of r s.mpu_no_data_streak) (view s))
      × ((mpu_result r i s).sht_open ≡ s.sht_open)
unfolding mpu_result
mpu_result-view (failed e) i s = lost-view s (scan (take 4 i.probes_again)) 0
mpu_result-view (got []) i s = elim (Bool-cases (leb 10 (s.mpu_no_data_streak + 1))) [
  | inl long ↦ rw long (lost-view s (scan (take 4 i.probes_again)) 0)
  | inr short ↦ rw short (refl, refl)
]
mpu_result-view (got (x ∷ xs)) i s =
    let cleared : Collector = record (restore s) { mpu_fail_streak = 0; mpu_no_data_streak = 0 } in
    let (same, opened) = store_mpu-view i.now (x ∷ xs) cleared in
    let (still_open, other) = restore-rest s in
    (same ∙ ap₂ (λ st h. with_state st 0 h) (restore-current s) other, opened ∙ still_open)

mpu_part_of :
    (i : Round) (s : Collector) (ops handle : Bool)
    → let s' : Collector = record s { mpu_ops = ops; mpu_handle = handle } in
      (view (mpu_part i s') ≡ mpu_view (mpu_outcome i s') (view s'))
      × ((mpu_part i s').sht_open ≡ s'.sht_open)
unfolding mpu_part
mpu_part_of i s false handle = (refl, refl)
mpu_part_of i s true true = mpu_result-view i.mpu i (record s { mpu_ops = true; mpu_handle = true })
mpu_part_of i s true false = elim (Bool-cases (scan (take 4 i.probes))) [
  | inl found ↦ rw found (mpu_result-view i.mpu i (record s { mpu_ops = true; mpu_handle = true }))
  | inr missing ↦ rw missing (lost-view (record s { mpu_ops = true }) false s.mpu_no_data_streak)
]

pub mpu_part-view :
    (i : Round) (s : Collector)
    → (view (mpu_part i s) ≡ mpu_view (mpu_outcome i s) (view s))
      × ((mpu_part i s).sht_open ≡ s.sht_open)
mpu_part-view i s = mpu_part_of i s s.mpu_ops s.mpu_handle

sht_result-view :
    (r : ReadResult) (i : Round) (s : Collector)
    → view (sht_result r i s) ≡ sht_view (sht_read_outcome r) (view s)
unfolding sht_result
sht_result-view (failed e) i s =
    elim (Bool-cases (leb 3 s.mpu_fail_streak && leb 3 (s.sht_fail_streak + 1))) [
      | inl due ↦ rw due (
          ap (λ st. with_state st s.mpu_fail_streak (s.sht_fail_streak + 1))
            (deadlock-current (record s.fsm { i2c_retry_count = u32 (s.fsm.i2c_retry_count + 1) })))
      | inr not_due ↦ rw not_due refl
    ]
sht_result-view (got []) i s = refl
sht_result-view (got (x ∷ xs)) i s = refl

sht_part_of :
    (i : Round) (s : Collector) (ready : Bool)
    → let s' : Collector = record s { sht_open = ready } in
      view (sht_part i s') ≡ sht_view (sht_outcome i s') (view s')
unfolding sht_part
sht_part_of i s false = refl
sht_part_of i s true =
    sht_result-view i.sht i (record s { sht_open = true; latencies = i.latency_sht ∷ s.latencies })

sht_part-view :
    (i : Round) (s : Collector) → view (sht_part i s) ≡ sht_view (sht_outcome i s) (view s)
sht_part-view i s = sht_part_of i s s.sht_open

-- A round of the collector steps the abstract machine on the state and the two failure streaks, by
-- how the two reads go, and publishes the state that it ends in.
pub collect-view :
    (i : Round) (s : Collector)
    → (view (collect i s) ≡ sht_view (sht_outcome i s) (mpu_view (mpu_outcome i s) (view s)))
      × ((collect i s).system_state ≡ (view (collect i s)).state)
unfolding collect
collect-view i s =
    let beaten : Collector = record s { heartbeat = u64 (s.heartbeat + 1) } in
    let (mpu, opened) = mpu_part-view i beaten in
    let read : Collector = mpu_part i beaten in
    (
      sht_part-view i read
          ∙ ap₂ sht_view (ap (λ b. if b then sht_read_outcome i.sht else idle) opened) mpu,
      fsm_get_state-eq (sht_part i read).fsm,
    )
