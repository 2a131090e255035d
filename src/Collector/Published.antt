-- ===== src/Collector/Published.antt =====
-- What a round of the collector publishes in the registers of the Modbus server.
use edge_omni.Common.{◌+◌, ◌≡◌, ◌∙◌, refl, ap, arith, true, [], ◌∷◌}
use edge_omni.Common.Int.{ℤ, pos, negsuc, ◌≤ℤ◌}
use edge_omni.Common.Word.{signed16, u64}
use edge_omni.Sensor.{SensorData}
use edge_omni.Hal.{got}
use edge_omni.Collector.{Round, Collector, mpu_part, sht_part, sht_result, collect, tenth, u16_of}
use edge_omni.Collector.Refine.{mpu_part-view}

-- A register holds a number that fits as its two's complement.
register_holds :
    (v : ℤ) → negsuc 327678 ≤ℤ v → v ≤ℤ pos 327679 → signed16 (u16_of (tenth v)) ≡ tenth v
register_holds (pos n) low high = ground arith
register_holds (negsuc n) low high = ground arith

sht_part-registers :
    (i : Round) (s : Collector) (x y : SensorData)
    → s.sht_open ≡ true
    → i.sht ≡ got (x ∷ y ∷ [])
    → ((sht_part i s).reg_data.temperature ≡ u16_of (tenth x.value))
      × ((sht_part i s).reg_data.humidity ≡ u16_of (tenth y.value))
unfolding sht_part sht_result
sht_part-registers i s x y ready read = rw (read, ready) (refl, refl)

-- After a round in which the SHT30 delivers a temperature and a humidity within 327.679 degrees or
-- percent of zero, the two registers taken as signed 16-bit numbers are the values divided by 10,
-- rounded towards zero.
pub registers_read_back :
    (i : Round) (s : Collector) (x y : SensorData)
    → s.sht_open ≡ true
    → i.sht ≡ got (x ∷ y ∷ [])
    → negsuc 327678 ≤ℤ x.value
    → x.value ≤ℤ pos 327679
    → negsuc 327678 ≤ℤ y.value
    → y.value ≤ℤ pos 327679
    → (signed16 (collect i s).reg_data.temperature ≡ tenth x.value)
      × (signed16 (collect i s).reg_data.humidity ≡ tenth y.value)
unfolding collect
registers_read_back i s x y ready read xl xh yl yh =
    let beaten : Collector = record s { heartbeat = u64 (s.heartbeat + 1) } in
    let (t, h) =
      sht_part-registers i (mpu_part i beaten) x y ((mpu_part-view i beaten).1 ∙ ready) read in
    (ap signed16 t ∙ register_holds x.value xl xh, ap signed16 h ∙ register_holds y.value yl yh)
