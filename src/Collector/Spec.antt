-- ===== src/Collector/Spec.antt =====
-- What the rounds of the collector promise, as a machine on the state of the system and the numbers
-- of failures in a row.
use edge_omni.Common.{ℕ, ◌+◌, ◌&&◌, ltb, leb, if◌then◌else◌}
use edge_omni.Fsm.{State, running, degraded, recovering}

pub record View : Type 0 where
  pub state : State
  pub mpu : ℕ
  pub sht : ℕ

-- How a round goes for a sensor: nothing counts for or against it, it fails, or it delivers.
pub data Outcome : Type 0 where
  idle lost fine : Outcome

abbrev pub after_loss : State → State
after_loss running = degraded
after_loss s = s

abbrev pub after_return : State → State
after_return degraded = running
after_return s = s

abbrev pub after_deadlock : State → State
after_deadlock running = recovering
after_deadlock degraded = recovering
after_deadlock s = s

abbrev pub mpu_view : Outcome → View → View
mpu_view idle v = v
mpu_view lost v = record {
  state = if leb 3 (v.mpu + 1) then after_loss v.state else v.state;
  mpu = v.mpu + 1;
  sht = v.sht;
}
mpu_view fine v = record {
  state = if ltb 0 v.mpu then after_return v.state else v.state;
  mpu = 0;
  sht = v.sht;
}

abbrev pub sht_view : Outcome → View → View
sht_view idle v = v
sht_view lost v = record {
  state = if leb 3 v.mpu && leb 3 (v.sht + 1) then after_deadlock v.state else v.state;
  mpu = v.mpu;
  sht = v.sht + 1;
}
sht_view fine v = record v { sht = 0 }
