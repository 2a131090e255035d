-- ===== src/Web/Tests.antt =====
-- A response in three pieces, requests, and the theorems there.
use edge_omni.Common.{
  ℕ, zero, suc, ◌+◌, ◌*◌, ◌≤◌, ◌≡◌, refl, arith, true, none, some, List, [], ◌∷◌, ◌++◌, All,
  replicate,
}
use edge_omni.Common.Int.{pos, negsuc}
use edge_omni.Common.Decimal.{print}
use edge_omni.Common.Text.{bytes, same_text}
use edge_omni.Common.Format.{render}
use edge_omni.Fsm.{running, Context}
use edge_omni.Metrics.{empty}
use edge_omni.Web.{Sent, failed, send_http_response}
use edge_omni.Web.Transmit.{
  IsPrefix, IsProgress, send_http_response-IsPrefix, send_http_response_complete,
}
use edge_omni.Web.Request.{parse_request, request_line, parse_request-request_line}
use edge_omni.Web.Pages.{
  Readings, metrics_format, page_format, metrics_body, page_body, header_format, bodies_fit,
}
use edge_omni.Web.Thread.{Visit, answered, not_found, serve_visit}
use edge_omni.Web.Answers.{content_of, header_of, serve_visit_wire}
use edge_omni.Web.Shown.{shown, temperature_shown}

abbrev header : List ℕ
header = 72 ∷ 84 ∷ 84 ∷ 80 ∷ []

abbrev body : List ℕ
body = 111 ∷ 107 ∷ []

broken_off :
    (send_http_response (pos 3 ∷ pos 1 ∷ pos 1 ∷ negsuc 31 ∷ []) header body).outcome ≡ failed
unfolding send_http_response
broken_off = refl

send_http_response-IsPrefix_example :
    IsPrefix
      (send_http_response (pos 3 ∷ pos 1 ∷ pos 1 ∷ negsuc 31 ∷ []) header body)
      (header ++ body)
send_http_response-IsPrefix_example =
    send_http_response-IsPrefix (pos 3 ∷ pos 1 ∷ pos 1 ∷ negsuc 31 ∷ []) header body

send_http_response_complete_example :
    (send_http_response (pos 1 ∷ pos 2 ∷ pos 1 ∷ pos 1 ∷ pos 1 ∷ pos 9 ∷ []) header body).wire
    ≡ 72 ∷ 84 ∷ 84 ∷ 80 ∷ 111 ∷ 107 ∷ []
send_http_response_complete_example =
    send_http_response_complete (pos 1 ∷ pos 2 ∷ pos 1 ∷ pos 1 ∷ pos 1 ∷ pos 9 ∷ []) header body
      (omega arith, (omega arith, (omega arith, (omega arith, (omega arith, (omega arith, tt))))))
      (omega arith)

abbrev context : Context
context = record {
  current = running;
  lock = true;
  cond = true;
  mpu_fail_count = 0;
  i2c_retry_count = 0;
  temp_raw = negsuc 10122;
  hum_raw = pos 48123;
}

abbrev readings : Readings
readings = record {
  first = context;
  second = context;
  mpu_fails = pos 3;
  i2c_retries = pos 0;
  window = empty;
  temp_raw = negsuc 10122;
  hum_raw = pos 48123;
  dead_thread = pos 0;
  monitor_alive = pos 0;
}

bodies_fit_example :
    (metrics_body readings ≡ render (metrics_format readings))
    × (page_body readings ≡ some (render (page_format readings)))
bodies_fit_example = bodies_fit readings

temperature_shown_example :
    (before after : List ℕ) × (t : ℕ) × (render (metrics_format readings)
      ≡ before
        ++ (bytes "sensor_temperature_celsius{id=\"sht30\"} "
            ++ (shown (negsuc 10122) t ++ (b'\n' ∷ after))))
    × (100 * t ≤ 10123 + 50)
    × (10123 ≤ 100 * t + 50)
temperature_shown_example = temperature_shown readings (omega arith)

-- "GET", "/x", and what follows.
abbrev get : List ℕ
get = 71 ∷ 69 ∷ 84 ∷ []

abbrev slash_x : List ℕ
slash_x = 47 ∷ 120 ∷ []

abbrev version : List ℕ
version = 72 ∷ 84 ∷ 84 ∷ 80 ∷ 47 ∷ 49 ∷ 46 ∷ 49 ∷ 13 ∷ 10 ∷ []

parse_request-request_line_example :
    parse_request (request_line get slash_x version) ≡ some (get, slash_x)
parse_request-request_line_example =
    parse_request-request_line get slash_x version
      ((refl, omega arith), ((refl, omega arith), ((refl, omega arith), tt)))
      ((refl, omega arith), ((refl, omega arith), tt)) (λ e. cc) (λ e. cc) (omega arith)
      (omega arith)

-- A method of 17 bytes: its end is taken for the path.
long_method :
    parse_request (replicate 17 65 ++ b' ' ∷ b'/' ∷ []) ≡ some (replicate 15 65, 65 ∷ 65 ∷ [])
unfolding parse_request
long_method = refl

no_path : parse_request get ≡ none
unfolding parse_request
no_path = refl

abbrev asks : Visit
asks = record {
  received = request_line get slash_x version;
  readings = readings;
  answers = replicate 200 (pos 100);
}

progress : (n : ℕ) → All IsProgress (replicate n (pos 100))
progress zero = tt
progress (suc n) = (omega arith, progress n)

serve_visit_wire_example :
    (s : Sent) × (serve_visit asks ≡ answered s)
    × (s.wire ≡ header_of (content_of slash_x readings) ++ (content_of slash_x readings).2)
unfolding bytes render header_format same_text print not_found
serve_visit_wire_example =
    serve_visit_wire asks get slash_x version refl (omega arith)
      ((refl, omega arith), ((refl, omega arith), ((refl, omega arith), tt)))
      ((refl, omega arith), ((refl, omega arith), tt)) (λ e. cc) (λ e. cc) (omega arith)
      (omega arith) (progress 200) (omega arith)

-- What that client gets.
unknown_path :
    header_of (content_of slash_x readings)
    ≡ bytes
        "HTTP/1.1 404 Not Found\r\nContent-Type: text/plain\r\nContent-Length: 14\r\nConnection: close\r\n\r\n"
unfolding bytes render header_format same_text print not_found
unknown_path = refl
