-- ===== src/Metrics/Report.antt =====
-- app/core/metrics.c, metrics_generate: the report of the gauges.
use edge_omni.Common.{ℕ, ◌≤◌, ◌<◌, ◌≡◌, arith, List, [], ◌∷◌, if◌then◌else◌, ◌==◌, length}
use edge_omni.Common.Int.{ℤ, pos}
use edge_omni.Common.Text.{bytes}
use edge_omni.Common.Format.{
  Piece, text, number, thousandths, render, snprintf, length-render, snprintf_fits,
}
use edge_omni.Metrics.{Window, calc_latency_percentile}

-- g_i2c_retry_total, g_temperature_milli, g_humidity_milli, g_system_state and the latencies.
pub record Totals : Type 0 where
  pub retry : ℤ
  pub temp : ℤ
  pub humi : ℤ
  pub state : ℕ
  pub window : Window

-- `(state == n) ? 1 : 0`
abbrev pub flag : ℕ → ℕ → ℤ
flag n state = if state == n then pos 1 else pos 0

unfoldable pub report_format : Totals → List Piece
report_format g =
    text "# HELP i2c_retry_total Total I2C retry count\n"
    ∷ text "# TYPE i2c_retry_total counter\ni2c_retry_total{driver=\"mpu6050\"} "
    ∷ number g.retry
    ∷ text "\n\n# HELP sensor_temperature_celsius Current temperature\n"
    ∷ text "# TYPE sensor_temperature_celsius gauge\n"
    ∷ text "sensor_temperature_celsius{id=\"sht30\"} "
    ∷ thousandths g.temp
    ∷ text "\n\n# HELP sensor_humidity_percent Current humidity\n"
    ∷ text "# TYPE sensor_humidity_percent gauge\n"
    ∷ text "sensor_humidity_percent{id=\"sht30\"} "
    ∷ thousandths g.humi
    ∷ text "\n\n# HELP task_latency_us Task latency in microseconds\n"
    ∷ text "# TYPE task_latency_us summary\ntask_latency_us{quantile=\"0.50\"} "
    ∷ number (calc_latency_percentile g.window).0
    ∷ text "\ntask_latency_us{quantile=\"0.99\"} "
    ∷ number (calc_latency_percentile g.window).1
    ∷ text "\n\n"
    ∷ text
        "# HELP system_state Current system state (0=INIT,1=RUNNING,2=DEGRADED,3=RECOVERING,4=FAULT)\n"
    ∷ text "# TYPE system_state gauge\nsystem_state{state=\"running\"} "
    ∷ number (flag 1 g.state)
    ∷ text "\nsystem_state{state=\"degraded\"} "
    ∷ number (flag 2 g.state)
    ∷ text "\nsystem_state{state=\"fault\"} "
    ∷ number (flag 4 g.state)
    ∷ text "\n"
    ∷ []

-- `metrics_generate`: what is in the buffer, and the result.
unfoldable pub metrics_generate : ℕ → Totals → List ℕ × ℕ
metrics_generate buf_size g = snprintf buf_size (report_format g)

report_short : (g : Totals) → length (render (report_format g)) < 1024
unfolding report_format bytes
report_short g = omega (arith, length-render (report_format g))

-- A buffer of 1024 bytes is enough for every report; it is then written whole, and the result is its
-- length.
pub metrics_generate_fits :
    (buf_size : ℕ) (g : Totals)
    → 1024 ≤ buf_size
    → metrics_generate buf_size g ≡ (render (report_format g), length (render (report_format g)))
unfolding metrics_generate
metrics_generate_fits buf_size g h =
    snprintf_fits buf_size (report_format g) (omega (arith, report_short g))
