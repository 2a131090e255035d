-- ===== src/Web/Answers.antt =====
-- What a client of the web server gets, and what the watchdog sees of the rounds.
use Prim.Native.String.{String}
use edge_omni.Common.{
  ℕ, ◌+◌, ◌≤◌, ◌≡◌, ◌≢◌, refl, ◌∙◌, ap, arith, some, List, [], ◌∷◌, ◌++◌, if◌then◌else◌, length,
  take, All, Bool-cases, inl, inr,
}
use edge_omni.Common.Int.{ℤ}
use edge_omni.Common.Text.{bytes, same_text}
use edge_omni.Common.Format.{render, take-all}
use edge_omni.Web.{Sent, send_http_response}
use edge_omni.Web.Transmit.{IsProgress, send_http_response_complete}
use edge_omni.Web.Pages.{
  Readings, metrics_format, page_format, header_format, bodies_fit, header_fits,
}
use edge_omni.Web.Request.{parse_request, InWord, request_line, parse_request-request_line}
use edge_omni.Web.Thread.{
  Visit, answered, respond, not_found, route, serve_parsed, serve_request, serve_visit,
}

-- The status, the type and the body that a path is answered with.
abbrev pub content_of : List ℕ → Readings → ℕ × String × List ℕ
content_of path r =
    if same_text path (bytes "/metrics")
    then (200, "text/plain; charset=utf-8", render (metrics_format r))
    else if same_text path (bytes "/")
    then (200, "text/html; charset=utf-8", render (page_format r))
    else (404, "text/plain", not_found)

-- The header in front of it, with the length of the body.
abbrev pub header_of : ℕ × String × List ℕ → List ℕ
header_of (status_code, content_type, body) =
    render (header_format status_code content_type (length body))

respond_lem :
    (answers : List ℤ) (status_code : ℕ) (content_type : String) (body : List ℕ)
    → length (bytes content_type) ≤ 100
    → respond answers status_code content_type body
      ≡ answered (send_http_response answers (header_of (status_code, content_type, body)) body)
unfolding respond
respond_lem answers status_code content_type body h =
    ap (λ header. answered (send_http_response answers header body))
      (header_fits status_code content_type (length body) h)

types_short :
    (length (bytes "text/plain; charset=utf-8") ≤ 100)
    × (length (bytes "text/html; charset=utf-8") ≤ 100)
    × (length (bytes "text/plain") ≤ 100)
unfolding bytes
types_short = (omega arith, omega arith, omega arith)

route_lem :
    (path : List ℕ) (v : Visit)
    → let content = content_of path v.readings in
      route path v ≡ answered (send_http_response v.answers (header_of content) content.2)
unfolding route
route_lem path v =
    let (metrics_fit, page_fit) = bodies_fit v.readings in
    elim (Bool-cases (same_text path (bytes "/metrics"))) [
      | inl metrics ↦ rw metrics (
          ap (respond v.answers 200 "text/plain; charset=utf-8") metrics_fit
          ∙ respond_lem v.answers 200 "text/plain; charset=utf-8"
              (render (metrics_format v.readings)) types_short.0)
      | inr other ↦ elim (Bool-cases (same_text path (bytes "/"))) [
        | inl page ↦
            rw (other, page, page_fit)
              (respond_lem v.answers 200 "text/html; charset=utf-8"
                (render (page_format v.readings)) types_short.1)
        | inr unknown ↦
            rw (other, unknown) (respond_lem v.answers 404 "text/plain" not_found types_short.2)
      ]
    ]

serve_visit-route :
    (v : Visit) (req method path : List ℕ)
    → take 511 v.received ≡ req
    → req ≢ []
    → parse_request req ≡ some (method, path)
    → serve_visit v ≡ route path v
unfolding serve_visit serve_request serve_parsed
serve_visit-route v [] method path came some_byte parsed = absurd (some_byte refl)
serve_visit-route v (b ∷ bs) method path came some_byte parsed =
    ap (λ t. serve_request t v) came ∙ ap (λ o. serve_parsed o v) parsed

-- A client that sends a request line, with a method of at most 15 bytes and a path of at most 127,
-- no more than 511 bytes in all, and takes at least a byte with each send, gets, after as many of
-- them as the answer has bytes, the header with the length of the body and the whole body that its
-- path stands for, whatever the method and whatever the code reads.
pub serve_visit_wire :
    (v : Visit) (method path rest : List ℕ)
    → v.received ≡ request_line method path rest
    → length v.received ≤ 511
    → All InWord method
    → All InWord path
    → method ≢ []
    → path ≢ []
    → length method ≤ 15
    → length path ≤ 127
    → All IsProgress v.answers
    → let content = content_of path v.readings in
      length (header_of content) + length content.2 ≤ length v.answers
      → (s : Sent) × (serve_visit v ≡ answered s) × (s.wire ≡ header_of content ++ content.2)
serve_visit_wire v method path rest came short m p m_some p_some m_fits p_fits progress enough =
    let content : ℕ × String × List ℕ = content_of path v.readings in
    let req : List ℕ = request_line method path rest in
    let taken : take 511 v.received ≡ req = take-all 511 v.received short ∙ came in
    let parsed = parse_request-request_line method path rest m p m_some p_some m_fits p_fits in
    (
      send_http_response v.answers (header_of content) content.2,
      serve_visit-route v req method path taken
            (not_nil method (b' ' ∷ (path ++ b' ' ∷ rest)) m_some) parsed
          ∙ route_lem path v,
      send_http_response_complete v.answers (header_of content) content.2 progress enough,
    )
  where
    not_nil : (xs ys : List ℕ) → xs ≢ [] → (xs ++ ys) ≢ []
    not_nil [] ys h = absurd (h refl)
    not_nil (x ∷ xs) ys h = λ e. cc
