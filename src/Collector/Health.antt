-- ===== src/Collector/Health.antt =====
-- The state of the system over the rounds of the collector.
use edge_omni.Common.{◌+◌, ◌≤◌, ◌<◌, ◌≡◌, ◌≢◌, ◌⊎◌, ◌∙◌, refl, ap, arith, List, [], ◌∷◌, length}
use edge_omni.Fsm.{init, running, degraded, recovering, fault}
use edge_omni.Collector.{Round, Collector, collect, collect_all}
use edge_omni.Collector.Spec.{View, Outcome, idle, lost, fine, mpu_view, sht_view}
use edge_omni.Collector.Refine.{view, mpu_outcome, sht_outcome, collect-view}

-- What the rounds keep: the system is at work, in DEGRADED some failure of the MPU6050 is still
-- counted, and with three counted it is not in RUNNING.
pub record IsSound (v : View) : Type 0 where
  pub started : v.state ≢ init
  pub no_fault : v.state ≢ fault
  pub degraded_counts : v.state ≡ degraded → 0 < v.mpu
  pub three_show : 3 ≤ v.mpu → v.state ≢ running

mpu_view-IsSound : (o : Outcome) (v : View) → IsSound v → IsSound (mpu_view o v)
mpu_view-IsSound idle v h = h
mpu_view-IsSound lost v h = record {
  started = ground (arith, h.started);
  no_fault = ground (arith, h.no_fault);
  degraded_counts = λ e. omega arith;
  three_show = ground arith;
}
mpu_view-IsSound fine v h = record {
  started = ground (arith, h.started);
  no_fault = ground (arith, h.no_fault);
  degraded_counts = ground (arith, h.degraded_counts);
  three_show = λ e. absurd (omega arith);
}

sht_view-IsSound : (o : Outcome) (v : View) → IsSound v → IsSound (sht_view o v)
sht_view-IsSound idle v h = h
sht_view-IsSound lost v h = record {
  started = ground (arith, h.started);
  no_fault = ground (arith, h.no_fault);
  degraded_counts = ground (arith, h.degraded_counts);
  three_show = ground (arith, h.three_show);
}
sht_view-IsSound fine v h = record {
  started = h.started;
  no_fault = h.no_fault;
  degraded_counts = h.degraded_counts;
  three_show = h.three_show;
}

collect-IsSound : (i : Round) (s : Collector) → IsSound (view s) → IsSound (view (collect i s))
collect-IsSound i s h = rw (collect-view i s).0 (
    sht_view-IsSound (sht_outcome i s) (mpu_view (mpu_outcome i s) (view s))
      (mpu_view-IsSound (mpu_outcome i s) (view s) h))

-- However the reads go, the rounds keep the system in RUNNING, DEGRADED or RECOVERING, keep a
-- failure of the MPU6050 counted in DEGRADED, and are not in RUNNING after three in a row.
pub collect_all-IsSound :
    (is : List Round) (s : Collector) → IsSound (view s) → IsSound (view (collect_all is s))
unfolding collect_all
collect_all-IsSound [] s h = h
collect_all-IsSound (i ∷ is) s h = collect_all-IsSound is (collect i s) (collect-IsSound i s h)

restored :
    (o : Outcome) (v : View)
    → IsSound v
    → v.state ≡ degraded
    → (sht_view o (mpu_view fine v)).state ≡ running
restored idle v h e = ground (arith, h.degraded_counts)
restored lost v h e = ground (arith, h.degraded_counts)
restored fine v h e = ground (arith, h.degraded_counts)

-- From DEGRADED, in a sound state, one round in which the MPU6050 delivers leads back to RUNNING,
-- however the SHT30 does, and that is what g_system_state shows.
pub one_delivery_restores :
    (i : Round) (s : Collector)
    → IsSound (view s)
    → s.fsm.current ≡ degraded
    → mpu_outcome i s ≡ fine
    → (collect i s).system_state ≡ running
one_delivery_restores i s h there delivered =
    let (stepped, shown) = collect-view i s in
    shown
    ∙ ap (λ (v : View). v.state) stepped
    ∙ ap (λ o. (sht_view (sht_outcome i s) (mpu_view o (view s))).state) delivered
    ∙ restored (sht_outcome i s) (view s) h there

-- Every round of the run fails for the MPU6050.
abbrev pub AllLost : List Round → Collector → Type 0
AllLost [] s = Unit
AllLost (i ∷ is) s = (mpu_outcome i s ≡ lost) × AllLost is (collect i s)

sht_view-mpu : (o : Outcome) (v : View) → (sht_view o v).mpu ≡ v.mpu
sht_view-mpu idle v = refl
sht_view-mpu lost v = refl
sht_view-mpu fine v = refl

lost-counts :
    (i : Round) (s : Collector)
    → mpu_outcome i s ≡ lost
    → (view (collect i s)).mpu ≡ s.mpu_fail_streak + 1
lost-counts i s failed_now =
    ap (λ (v : View). v.mpu) (collect-view i s).0
    ∙ sht_view-mpu (sht_outcome i s) (mpu_view (mpu_outcome i s) (view s))
    ∙ ap (λ o. (mpu_view o (view s)).mpu) failed_now

AllLost-counts :
    (is : List Round) (s : Collector)
    → AllLost is s
    → (collect_all is s).mpu_fail_streak ≡ s.mpu_fail_streak + length is
unfolding collect_all
AllLost-counts [] s h = omega arith
AllLost-counts (i ∷ is) s h =
    let one = lost-counts i s h.0 in
    let later = AllLost-counts is (collect i s) h.1 in omega (arith, one, later)

-- From a sound state, after three or more rounds in a row in which the MPU6050 fails, by a device
-- that is not there, a read error or ten reads without data, the system is in DEGRADED or
-- RECOVERING.
pub three_losses_show :
    (is : List Round) (s : Collector)
    → IsSound (view s)
    → AllLost is s
    → 3 ≤ length is
    → ((collect_all is s).fsm.current ≡ degraded) ⊎ ((collect_all is s).fsm.current ≡ recovering)
three_losses_show is s h all three =
    let sound = collect_all-IsSound is s h in
    let counts = AllLost-counts is s all in
    let shows = sound.three_show (omega (arith, counts)) in
    ground (arith, sound.started, sound.no_fault, shows)

both_lost :
    (v : View)
    → IsSound v
    → 2 ≤ v.mpu
    → 2 ≤ v.sht
    → (sht_view lost (mpu_view lost v)).state ≡ recovering
both_lost v h m n = ground (arith, h.started, h.no_fault)

-- In a sound state, a round in which both sensors fail, after two failures of each, leads to
-- RECOVERING.
pub all_sensors_lost :
    (i : Round) (s : Collector)
    → IsSound (view s)
    → 2 ≤ s.mpu_fail_streak
    → 2 ≤ s.sht_fail_streak
    → mpu_outcome i s ≡ lost
    → sht_outcome i s ≡ lost
    → (collect i s).system_state ≡ recovering
all_sensors_lost i s h m n lost_mpu lost_sht =
    let (stepped, shown) = collect-view i s in
    shown
    ∙ ap (λ (v : View). v.state) stepped
    ∙ ap (λ o. (sht_view (sht_outcome i s) (mpu_view o (view s))).state) lost_mpu
    ∙ ap (λ o. (sht_view o (mpu_view lost (view s))).state) lost_sht
    ∙ both_lost (view s) h m n

stuck :
    (o p : Outcome) (v : View)
    → v.state ≡ recovering
    → (sht_view p (mpu_view o v)).state ≡ recovering
stuck idle idle v e = e
stuck idle lost v e = ground arith
stuck idle fine v e = e
stuck lost idle v e = ground arith
stuck lost lost v e = ground arith
stuck lost fine v e = ground arith
stuck fine idle v e = ground arith
stuck fine lost v e = ground arith
stuck fine fine v e = ground arith

-- The collector never leaves RECOVERING: whatever the sensors deliver in the rounds that follow,
-- the state stays.
pub recovering_stays :
    (is : List Round) (s : Collector)
    → s.fsm.current ≡ recovering
    → (collect_all is s).fsm.current ≡ recovering
unfolding collect_all
recovering_stays [] s h = h
recovering_stays (i ∷ is) s h = recovering_stays is (collect i s) (
    ap (λ (v : View). v.state) (collect-view i s).0
    ∙ stuck (mpu_outcome i s) (sht_outcome i s) (view s) h)
