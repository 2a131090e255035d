-- ===== src/Collector/Beats.antt =====
-- How often the collector beats for the watchdog.
use edge_omni.Common.{
  ℕ, ◌+◌, ◌*◌, ◌^◌, ◌<◌, ◌≡◌, ◌∙◌, refl, ap, arith, Bool, true, false, List, [], ◌∷◌, length,
  if◌then◌else◌, leb, ltb, not, ◌&&◌, take,
}
use edge_omni.Common.Word.{u64}
use edge_omni.Sensor.{SensorData}
use edge_omni.Hal.{ReadResult, got, failed}
use edge_omni.Fsm.{fsm_get_state}
use edge_omni.Collector.{
  Round, Collector, scan, is_degraded, degrade_if_due, store_mpu, mpu_result, mpu_part, sht_result,
  sht_part, collect, collect_all,
}

store_mpu_beat :
    (now : ℕ) (xs : List SensorData) (s : Collector) → (store_mpu now xs s).heartbeat ≡ s.heartbeat
unfolding store_mpu
store_mpu_beat now [] s = refl
store_mpu_beat now (x ∷ xs) s = store_mpu_beat now xs _

-- Both branches of a test keep the count.
if_beat :
    {h : ℕ} (b : Bool) (x y : Collector)
    → x.heartbeat ≡ h
    → y.heartbeat ≡ h
    → (if b then x else y).heartbeat ≡ h
if_beat true x y p q = p
if_beat false x y p q = q

degrade_if_due_beat : (s : Collector) → (degrade_if_due s).heartbeat ≡ s.heartbeat
degrade_if_due_beat s = if_beat (leb 3 s.mpu_fail_streak) _ s refl refl

mpu_result_beat :
    (result : ReadResult) (i : Round) (s : Collector)
    → (mpu_result result i s).heartbeat ≡ s.heartbeat
unfolding mpu_result
mpu_result_beat (failed e) i s = degrade_if_due_beat _
mpu_result_beat (got []) i s =
    if_beat (leb 10 (s.mpu_no_data_streak + 1)) _ _ (degrade_if_due_beat _) refl
mpu_result_beat (got (x ∷ xs)) i s =
    store_mpu_beat i.now (x ∷ xs) _
    ∙ if_beat (ltb 0 s.mpu_fail_streak && is_degraded (fsm_get_state s.fsm)) _ s refl refl

mpu_part_beat : (i : Round) (s : Collector) → (mpu_part i s).heartbeat ≡ s.heartbeat
unfolding mpu_part
mpu_part_beat i s =
    let probed : Collector =
      if s.mpu_handle then s else record s { mpu_handle = scan (take 4 i.probes) } in
    let same : probed.heartbeat ≡ s.heartbeat = if_beat s.mpu_handle s _ refl refl in
    if_beat (not s.mpu_ops) s _ refl (
      if_beat probed.mpu_handle _ _ (mpu_result_beat i.mpu i probed ∙ same)
        (degrade_if_due_beat _ ∙ same))

sht_result_beat :
    (result : ReadResult) (i : Round) (s : Collector)
    → (sht_result result i s).heartbeat ≡ s.heartbeat
unfolding sht_result
sht_result_beat (failed e) i s =
    if_beat (leb 3 s.mpu_fail_streak && leb 3 (s.sht_fail_streak + 1)) _ _ refl refl
sht_result_beat (got []) i s = refl
sht_result_beat (got (x ∷ xs)) i s = refl

sht_part_beat : (i : Round) (s : Collector) → (sht_part i s).heartbeat ≡ s.heartbeat
unfolding sht_part
sht_part_beat i s = if_beat s.sht_open _ s (sht_result_beat i.sht i _) refl

collect_beat : (i : Round) (s : Collector) → (collect i s).heartbeat ≡ u64 (s.heartbeat + 2)
unfolding collect
collect_beat i s =
    let beaten : Collector = record s { heartbeat = u64 (s.heartbeat + 1) } in
    ap (λ h. u64 (h + 1)) (sht_part_beat i (mpu_part i beaten) ∙ mpu_part_beat i beaten)
    ∙ omega arith

-- Every round beats twice, over uint64_t.
pub collect_all_beat :
    (is : List Round) (s : Collector)
    → s.heartbeat < 2 ^ 64
    → (collect_all is s).heartbeat ≡ u64 (s.heartbeat + 2 * length is)
unfolding collect_all
collect_all_beat [] s h = omega arith
collect_all_beat (i ∷ is) s h =
    let one = collect_beat i s in
    collect_all_beat is (collect i s) (omega (arith, one)) ∙ omega (arith, one)
