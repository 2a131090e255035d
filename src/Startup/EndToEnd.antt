-- ===== src/Startup/EndToEnd.antt =====
-- From the sensor to the client: the driver of the SHT30, the hardware abstraction, a round of the
-- collector, and a reply of the Modbus server.
use edge_omni.Common.{
  ℕ, ◌+◌, ◌*◌, ◌^◌, ◌≤◌, ◌<◌, ◌≡◌, refl, ◌∙◌, ap, arith, true, false, some, List, [], ◌∷◌, ltb,
  ◌==◌, ==_iff,
}
use edge_omni.Common.Int.{ℤ, pos, negsuc, ◌≤ℤ◌, ≤ℤ_trans}
use edge_omni.Common.Bits.{be16}
use edge_omni.Common.Decimal.{magnitude}
use edge_omni.Common.Word.{signed16, u64}
use edge_omni.Sht30.{Reading, temp_of, humidity_of, work_handler}
use edge_omni.Sht30.Convert.{be16-eq, conversion_bounds}
use edge_omni.Sht30.Work.{frame, intact_frame-measured}
use edge_omni.Sht30.Device.{temp1_input_show, humidity1_input_show}
use edge_omni.Hal.{got}
use edge_omni.Hal.Sysfs.{File, FailsFor}
use edge_omni.Hal.Sht.{Gauges, sht30_hal_read, samples}
use edge_omni.Hal.EndToEnd.{delivered, driver_to_hal}
use edge_omni.Collector.{Round, Collector, collect, tenth}
use edge_omni.Collector.Published.{registers_read_back}
use edge_omni.Modbus.{modbus_max_regs}
use edge_omni.Modbus.Server.{
  RegData, Turn, reply, Server, Globals, function_of, addr_of, count_of, handle_query, turn,
  fc_read_holding_registers, modbus_server_update_data,
}

-- The two files show what the driver holds after at most two failed reads each.
pub record Shows (r : Reading) (temp hum : File) (n m : ℕ) : Type 0 where
  pub temp_few : n < 3
  pub temp_fails : FailsFor n temp
  pub temp_shown : temp n ≡ delivered (temp1_input_show r)
  pub hum_few : m < 3
  pub hum_fails : FailsFor m hum
  pub hum_shown : hum m ≡ delivered (humidity1_input_show r)

-- A query that the server answers, while it runs.
pub record IsAnswered (t : Turn) (query : List ℕ) : Type 0 where
  pub still_running : t.running ≡ true
  pub came : t.query ≡ some query
  pub reads : function_of query ≡ fc_read_holding_registers
  pub inside : addr_of query + count_of query ≤ modbus_max_regs

turn_answered :
    (ip : ℕ) (t : Turn) (query : List ℕ) (s : Server)
    → IsAnswered t query
    → (turn ip t s).0.replies
      ≡ reply query (
          t.reg_data.temperature ∷ t.reg_data.humidity ∷ t.reg_data.accel_x ∷ t.reg_data.accel_y
          ∷ [])
        ∷ s.replies
unfolding turn handle_query
turn_answered ip t query s h =
    let read : (function_of query == fc_read_holding_registers) ≡ true = (==_iff _ _).1 h.reads in
    let legal : ltb modbus_max_regs (addr_of query + count_of query) ≡ false =
      ground (arith, h.inside) in
    rw (h.still_running, h.came, read, legal) refl

magnitude_small : (v : ℤ) → negsuc 327678 ≤ℤ v → v ≤ℤ pos 327679 → magnitude v < 10 ^ 10
magnitude_small (pos n) low high = ground arith
magnitude_small (negsuc n) low high = ground arith

word_bound : (high low : ℕ) → high < 256 → low < 256 → be16 high low < 2 ^ 16
word_bound high low h l = omega (arith, be16-eq high low l)

-- An intact frame of the SHT30, read by the driver, shown by its files after fewer than three
-- failed reads each, read by the hardware abstraction with no overflow of its counter, and
-- published by a round of the collector, is what a client reads: the reply to a legal query that
-- finds those registers holds, as signed 16-bit numbers, the hundredths of a degree and of a
-- percent that the driver's conversion gives, rounded towards zero.
pub frame_to_reply :
    (before : Reading) (t₀ t₁ h₀ h₁ : ℕ)
    → t₀ < 256
    → t₁ < 256
    → h₀ < 256
    → h₁ < 256
    → (temp hum : File) (n m tv_sec tv_nsec : ℕ) (g : Gauges)
    → let r = (work_handler before (pos 2) (pos 6) (frame t₀ t₁ h₀ h₁)).1 in
      Shows r temp hum n m
      → g.i2c_retry_total + n + m < 2 ^ 32
      → (i : Round) (s : Collector) → s.sht_open ≡ true
      → i.sht ≡ (sht30_hal_read 32 tv_sec tv_nsec temp hum g).0
      → (globals : Globals) (ip : ℕ) (t : Turn) (query : List ℕ) (server : Server)
      → IsAnswered t query
      → t.reg_data ≡ (modbus_server_update_data (collect i s).reg_data globals).reg_data
      → (temperature humidity accel_x accel_y : ℕ) × ((turn ip t server).0.replies
          ≡ reply query (temperature ∷ humidity ∷ accel_x ∷ accel_y ∷ []) ∷ server.replies)
        × (signed16 temperature ≡ tenth (temp_of (be16 t₀ t₁)))
        × (signed16 humidity ≡ tenth (humidity_of (be16 h₀ h₁)))
unfolding modbus_server_update_data
frame_to_reply before t₀ t₁ h₀ h₁ t₀_byte t₁_byte h₀_byte h₁_byte temp hum n m tv_sec tv_nsec g
      shows room i s is_open read globals ip t query server answered registers =
    let x : ℤ = temp_of (be16 t₀ t₁) in
    let y : ℤ = humidity_of (be16 h₀ h₁) in
    let r : Reading = record { temp = x; humidity = y; valid = true } in
    let holds : (work_handler before (pos 2) (pos 6) (frame t₀ t₁ h₀ h₁)).1 ≡ r =
      ap (λ w. w.1) (intact_frame-measured before t₀ t₁ h₀ h₁) in
    let (fits, fits', x_low, x_high, _, _) =
      conversion_bounds (be16 t₀ t₁) (word_bound t₀ t₁ t₀_byte t₁_byte) in
    let (fits, fits', _, _, y_low, y_high) =
      conversion_bounds (be16 h₀ h₁) (word_bound h₀ h₁ h₀_byte h₁_byte) in
    let xl : negsuc 327678 ≤ℤ x = ≤ℤ_trans (negsuc 327678) (negsuc 44999) x (omega arith) x_low in
    let xh : x ≤ℤ pos 327679 = ≤ℤ_trans x (pos 130717) (pos 327679) x_high (omega arith) in
    let yl : negsuc 327678 ≤ℤ y = ≤ℤ_trans (negsuc 327678) (pos 0) y (omega arith) y_low in
    let yh : y ≤ℤ pos 327679 = ≤ℤ_trans y (pos 99998) (pos 327679) y_high (omega arith) in
    let now : ℕ = u64 (tv_sec * 1_000_000_000 + tv_nsec) in
    let delivers : i.sht ≡ got (samples now x y) =
      read
      ∙ ap (λ w. w.0)
          (driver_to_hal r 32 tv_sec tv_nsec n m temp hum g refl (magnitude_small x xl xh)
            (magnitude_small y yl yh) (omega arith) shows.temp_few shows.temp_fails
            (shows.temp_shown ∙ ap (λ q. delivered (temp1_input_show q)) holds) shows.hum_few
            shows.hum_fails (shows.hum_shown ∙ ap (λ q. delivered (humidity1_input_show q)) holds)
            room) in
    let (t_back, h_back) = registers_read_back i s _ _ is_open delivers xl xh yl yh in
    (
      t.reg_data.temperature,
      t.reg_data.humidity,
      t.reg_data.accel_x,
      t.reg_data.accel_y,
      turn_answered ip t query server answered,
      ap (λ (d : RegData). signed16 d.temperature) registers ∙ t_back,
      ap (λ (d : RegData). signed16 d.humidity) registers ∙ h_back,
    )
