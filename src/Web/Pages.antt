-- ===== src/Web/Pages.antt =====
-- app/main.c, web_thread: the two texts that it serves, and the header in front of each.
use Prim.Native.String.{String}
use edge_omni.Common.{
  ℕ, ◌≤◌, ◌<◌, ◌≡◌, refl, ap, arith, false, Option, none, some, List, [], ◌∷◌, leb, ◌==◌,
  if◌then◌else◌, length, take, Bool-cases, inl, inr, ◌-◌,
}
use edge_omni.Common.Int.{ℤ, pos}
use edge_omni.Common.Text.{bytes}
use edge_omni.Common.Format.{
  Piece, text, number, thousandths, string, render, snprintf, length-render, snprintf_fits,
  take-all,
}
use edge_omni.Fsm.{
  State, init, running, degraded, recovering, fault, code, Context, fsm_get_state,
  fsm_get_state_name, state_name,
}
use edge_omni.Metrics.{Window, calc_latency_percentile}

-- What the code reads for an answer. The state is read a second time for its name.
pub record Readings : Type 0 where
  pub first : Context
  pub second : Context
  pub mpu_fails : ℤ
  pub i2c_retries : ℤ
  pub window : Window
  pub temp_raw : ℤ
  pub hum_raw : ℤ
  pub dead_thread : ℤ
  pub monitor_alive : ℤ

-- Of `/metrics`.
unfoldable pub metrics_format : Readings → List Piece
metrics_format r =
    text
      "# HELP system_state Current system state (0=INIT,1=RUNNING,2=DEGRADED,3=RECOVERING,4=FAULT)\n"
    ∷ text "# TYPE system_state gauge\nsystem_state "
    ∷ number (pos (code (fsm_get_state r.first)))
    ∷ text "\n\n# HELP system_state_name Human readable state name\n"
    ∷ text "# TYPE system_state_name gauge\nsystem_state_name{state=\""
    ∷ string (bytes (fsm_get_state_name r.second))
    ∷ text "\"} 1\n\n# HELP mpu_fail_total Total MPU6050 read failures\n"
    ∷ text "# TYPE mpu_fail_total counter\nmpu_fail_total "
    ∷ number r.mpu_fails
    ∷ text "\n\n# HELP i2c_retry_total Total I2C retry attempts\n"
    ∷ text "# TYPE i2c_retry_total counter\ni2c_retry_total "
    ∷ number r.i2c_retries
    ∷ text "\n\n# HELP sensor_temperature_celsius Temperature in celsius\n"
    ∷ text "# TYPE sensor_temperature_celsius gauge\n"
    ∷ text "sensor_temperature_celsius{id=\"sht30\"} "
    ∷ thousandths r.temp_raw
    ∷ text "\n\n# HELP sensor_humidity_percent Relative humidity in percent\n"
    ∷ text "# TYPE sensor_humidity_percent gauge\n"
    ∷ text "sensor_humidity_percent{id=\"sht30\"} "
    ∷ thousandths r.hum_raw
    ∷ text "\n\n# HELP task_latency_us Task latency in microseconds\n"
    ∷ text "# TYPE task_latency_us summary\ntask_latency_us{quantile=\"0.50\"} "
    ∷ number (calc_latency_percentile r.window).0
    ∷ text "\ntask_latency_us{quantile=\"0.99\"} "
    ∷ number (calc_latency_percentile r.window).1
    ∷ text "\n\n"
    ∷ text "# HELP watchdog_dead_thread_id Which thread is dead (0=none,1=collect,2=http)\n"
    ∷ text "# TYPE watchdog_dead_thread_id gauge\nwatchdog_dead_thread_id "
    ∷ number r.dead_thread
    ∷ text "\n\n"
    ∷ text "# HELP watchdog_monitor_alive Is watchdog monitor thread running (1=yes,0=no)\n"
    ∷ text "# TYPE watchdog_monitor_alive gauge\nwatchdog_monitor_alive "
    ∷ number r.monitor_alive
    ∷ text "\n"
    ∷ []

abbrev color : State → String
color init = "gray"
color running = "green"
color degraded = "orange"
color recovering = "blue"
color fault = "red"

-- Of `/`.
unfoldable pub page_format : Readings → List Piece
page_format r =
    text "<!DOCTYPE html>\n<html>\n<head>\n  <meta charset=\"UTF-8\">\n"
    ∷ text "  <title>Edge-Omni 监控看板</title>\n  <style>\n"
    ∷ text "    body {font-family: monospace; margin: 40px; background: #1a1a2e; color: #eee; }\n"
    ∷ text
        "    .card { background: #16213e; padding: 20px; border-radius: 10px; margin: 20px 0; }\n"
    ∷ text "    .state { font-size: 48px; font-weight: bold; transition: color 0.5s; }\n"
    ∷ text "    .green { color: #00ff88; }\n    .orange { color: #ffaa00; }\n"
    ∷ text "    .blue { color: #00aaff; }\n    .red { color: #ff4444; }\n"
    ∷ text "    .gray { color: #888888; }\n"
    ∷ text "    .metric { font-size: 20px; margin: 8px 0; color: #aaa; }\n"
    ∷ text "    .value { color: #fff; font-weight: bold; }\n    a { color: #00aaff; }\n"
    ∷ text "    #timestamp { color: #666; font-size: 14px; margin-top: 10px; }\n"
    ∷ text "  </style>\n</head>\n<body>\n  <h1>Edge-Omni 系统状态看板</h1>\n"
    ∷ text "  <div class=\"card\">\n    <div>当前状态</div>\n"
    ∷ text "    <div id=\"state-display\" class=\"state "
    ∷ string (bytes (color (fsm_get_state r.first)))
    ∷ text "\">"
    ∷ string (bytes (state_name (fsm_get_state r.first)))
    ∷ text "</div>\n    <div id=\"timestamp\">最后更新: 刚刚</div>\n  </div>\n"
    ∷ text "  <div class=\"card\">\n"
    ∷ text
        "    <div class=\"sensor\" style=\"font-size:28px;color:#00ff88;margin:5px 0;\">温度: <span id=\"temp-val\">"
    ∷ thousandths r.temp_raw
    ∷ text "</span> C</div>\n"
    ∷ text
        "    <div class=\"sensor\" style=\"font-size:28px;color:#00aaff;margin:5px 0;\">湿度: <span id=\"hum-val\">"
    ∷ thousandths r.hum_raw
    ∷ text "</span> %</div>\n"
    ∷ text "    <div class=\"metric\">MPU6050 失败次数: <span id=\"mpu-fails\" class=\"value\">"
    ∷ number r.mpu_fails
    ∷ text "</span></div>\n"
    ∷ text "    <div class=\"metric\">I2C 重试次数: <span id=\"i2c-retries\" class=\"value\">"
    ∷ number r.i2c_retries
    ∷ text "</span></div>\n  </div>\n  <div class=\"card\">\n"
    ∷ text "    <a href=\"/metrics\">查看 Prometheus 原始数据 (/metrics)</a>\n  </div>\n\n"
    ∷ text "  <script>\n    \n    setInterval(async function() {\n      try {\n"
    ∷ text "        \n        const response = await fetch('/metrics');\n"
    ∷ text "        const text = await response.text();\n        \n        \n"
    ∷ text "        const stateMatch = text.match(/system_state (\\d)/);\n"
    ∷ text "        const nameMatch = text.match(/system_state_name\\{state=\"(\\w+)\"\\} 1/);\n"
    ∷ text "        const mpuMatch = text.match(/mpu_fail_total (\\d+)/);\n"
    ∷ text "        const i2cMatch = text.match(/i2c_retry_total (\\d+)/);\n"
    ∷ text
        "        const tempMatch = text.match(/sensor_temperature_celsius\\{id=\"sht30\"\\} ([\\d.]+)/);\n"
    ∷ text
        "        const humMatch  = text.match(/sensor_humidity_percent\\{id=\"sht30\"\\} ([\\d.]+)/);\n"
    ∷ text "        \n        if (stateMatch && nameMatch) {\n"
    ∷ text "          const stateNum = parseInt(stateMatch[1]);\n"
    ∷ text "          const stateName = nameMatch[1];\n          \n          \n"
    ∷ text "          const display = document.getElementById('state-display');\n"
    ∷ text "          display.textContent = stateName;\n          \n          \n"
    ∷ text "          display.className = 'state';\n"
    ∷ text "          const colors = ['gray', 'green', 'orange', 'blue', 'red'];\n"
    ∷ text "          if (colors[stateNum]) {\n"
    ∷ text "            display.classList.add(colors[stateNum]);\n          }\n"
    ∷ text "          \n          \n"
    ∷ text "          const now = new Date().toLocaleTimeString('zh-CN');\n"
    ∷ text "          document.getElementById('timestamp').textContent = '最后更新: ' + now;\n"
    ∷ text "        }\n        \n        \n"
    ∷ text "        if (mpuMatch) document.getElementById('mpu-fails').textContent = mpuMatch[1];\n"
    ∷ text
        "        if (tempMatch) document.getElementById('temp-val').textContent = tempMatch[1];\n"
    ∷ text "        if (humMatch)  document.getElementById('hum-val').textContent = humMatch[1];\n"
    ∷ text
        "        if (i2cMatch) document.getElementById('i2c-retries').textContent = i2cMatch[1];\n"
    ∷ text "        \n      } catch (e) {\n        console.error('刷新失败:', e);\n"
    ∷ text "      }\n    }, 1000);\n  </script>\n</body>\n</html>\n"
    ∷ []

-- The body that is sent, of the length that has been cut to the array.
unfoldable pub cut_body : ℕ → List Piece → List ℕ
unfolding snprintf
cut_body size ps =
    let (body, n) = snprintf size ps in
    let body_len = if leb size n then size - 1 else n in take body_len body

-- Where the length is not cut, `none` is a body that reaches past the array.
unfoldable pub uncut_body : ℕ → List Piece → Option (List ℕ)
unfolding snprintf
uncut_body size ps = let (body, n) = snprintf size ps in if leb size n then none else some body

unfoldable pub metrics_body : Readings → List ℕ
metrics_body r = cut_body 8192 (metrics_format r)

unfoldable pub page_body : Readings → Option (List ℕ)
page_body r = uncut_body 4096 (page_format r)

abbrev status_str : ℕ → String
status_str status_code = if status_code == 200 then "200 OK" else "404 Not Found"

-- The header of `send_http_response`.
unfoldable pub header_format : ℕ → String → ℕ → List Piece
header_format status_code content_type body_len =
    text "HTTP/1.1 "
    ∷ string (bytes (status_str status_code))
    ∷ text "\r\nContent-Type: "
    ∷ string (bytes content_type)
    ∷ text "\r\nContent-Length: "
    ∷ number (pos body_len)
    ∷ text "\r\nConnection: close\r\n\r\n"
    ∷ []

name_short : (s : State) → length (bytes (state_name s)) ≤ 10
unfolding bytes
name_short init = omega arith
name_short running = omega arith
name_short degraded = omega arith
name_short recovering = omega arith
name_short fault = omega arith

color_short : (s : State) → length (bytes (color s)) ≤ 6
unfolding bytes
color_short init = omega arith
color_short running = omega arith
color_short degraded = omega arith
color_short recovering = omega arith
color_short fault = omega arith

metrics_short : (r : Readings) → length (render (metrics_format r)) < 8192
unfolding metrics_format bytes fsm_get_state_name
metrics_short r =
    omega (arith, length-render (metrics_format r), name_short (fsm_get_state r.second))

page_short : (r : Readings) → length (render (page_format r)) < 4096
unfolding page_format bytes
page_short r = omega (
  arith,
  length-render (page_format r),
  name_short (fsm_get_state r.first),
  color_short (fsm_get_state r.first),
)

cut_body_fits :
    (size : ℕ) (ps : List Piece)
    → length (render ps) < size
    → (cut_body size ps ≡ render ps) × (uncut_body size ps ≡ some (render ps))
unfolding cut_body uncut_body snprintf
cut_body_fits size ps h =
    let small : leb size (length (render ps)) ≡ false = ground arith in
    let whole : take (size - 1) (render ps) ≡ render ps =
      take-all (size - 1) (render ps) (omega arith) in
    (
      rw (small, whole) (take-all (length (render ps)) (render ps) (omega arith)),
      rw (small, whole) refl,
    )

-- Whatever is read, both texts fit their arrays: neither is cut, and the page, whose length the
-- code does not check, does not reach past its array.
pub bodies_fit :
    (r : Readings)
    → (metrics_body r ≡ render (metrics_format r)) × (page_body r ≡ some (render (page_format r)))
unfolding metrics_body page_body
bodies_fit r = (
  (cut_body_fits 8192 (metrics_format r) (metrics_short r)).0,
  (cut_body_fits 4096 (page_format r) (page_short r)).1,
)

status_short : (status_code : ℕ) → length (bytes (status_str status_code)) ≤ 13
unfolding bytes
status_short status_code = elim (Bool-cases (status_code == 200)) [
  | inl e ↦ rw e (omega arith)
  | inr e ↦ rw e (omega arith)
]

-- The header fits its array too, for the types of contents that the code passes.
pub header_fits :
    (status_code : ℕ) (content_type : String) (body_len : ℕ)
    → length (bytes content_type) ≤ 100
    → (snprintf 512 (header_format status_code content_type body_len)).0
      ≡ render (header_format status_code content_type body_len)
unfolding header_format bytes
header_fits status_code content_type body_len h =
    let ps = header_format status_code content_type body_len in
    let short : length (render ps) < 512 =
      omega (arith, length-render ps, status_short status_code, h) in
    ap (λ t. t.0) (snprintf_fits 512 ps short)
