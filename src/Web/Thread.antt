-- ===== src/Web/Thread.antt =====
-- app/main.c, web_thread: the start of the thread, and the rounds of its loop.
use Prim.Native.String.{String}
use edge_omni.Common.{
  ℕ, ◌+◌, Bool, true, false, not, ◌||◌, Option, none, some, List, [], ◌∷◌, if◌then◌else◌, length,
  take,
}
use edge_omni.Common.Int.{ℤ}
use edge_omni.Common.Word.{u64}
use edge_omni.Common.Text.{bytes, same_text}
use edge_omni.Common.Format.{snprintf}
use edge_omni.Web.{Sent, send_http_response}
use edge_omni.Web.Pages.{Readings, metrics_body, page_body, header_format}
use edge_omni.Web.Request.{parse_request}

-- A client that has been accepted: what it sends, as far as recv takes it (nothing also stands for
-- an error or a time-out), what the code reads for the answer, and what `send` returns.
pub record Visit : Type 0 where
  pub received : List ℕ
  pub readings : Readings
  pub answers : List ℤ

-- A round: accept has no client, or one.
pub data Turn : Type 0 where
  no_client : Turn
  visit : Visit → Turn

-- A connection that is closed with no answer, one that is answered, and one whose body would reach
-- past its array.
pub data Served : Type 0 where
  closed overrun : Served
  answered : Sent → Served

unfoldable pub respond : List ℤ → ℕ → String → List ℕ → Served
respond answers status_code content_type body =
    let (header, n) = snprintf 512 (header_format status_code content_type (length body)) in
    answered (send_http_response answers header body)

unfoldable pub not_found : List ℕ
unfolding bytes
not_found = bytes "404 Not Found\n"

-- The branches on the path; the method is not looked at.
unfoldable pub route : List ℕ → Visit → Served
route path v =
    let metrics = respond v.answers 200 "text/plain; charset=utf-8" (metrics_body v.readings) in
    let page : Served = elim (page_body v.readings) [
      | none ↦ overrun
      | some body ↦ respond v.answers 200 "text/html; charset=utf-8" body
    ] in
    if same_text path (bytes "/metrics")
    then metrics
    else if same_text path (bytes "/")
    then page
    else respond v.answers 404 "text/plain" not_found

-- After `sscanf`.
unfoldable pub serve_parsed : Option (List ℕ × List ℕ) → Visit → Served
serve_parsed none v = closed
serve_parsed (some (method, path)) v = route path v

-- After `recv`.
unfoldable pub serve_request : List ℕ → Visit → Served
serve_request [] v = closed
serve_request (b ∷ bs) v = serve_parsed (parse_request (b ∷ bs)) v

-- What follows accept; recv takes 511 bytes at most.
unfoldable pub serve_visit : Visit → Served
serve_visit v = serve_request (take 511 v.received) v

abbrev pub is_answered : Served → Bool
is_answered closed = false
is_answered overrun = true
is_answered (answered s) = true

-- g_http_heartbeat, and the connections served, the newest first.
pub record Web : Type 0 where
  pub heartbeat : ℕ
  pub served : List Served

abbrev beat : Web → Web
beat w = record w { heartbeat = u64 (w.heartbeat + 1) }

-- A round of the loop: a beat, and another one after an answer.
unfoldable pub web_turn : Turn → Web → Web
web_turn no_client w = beat w
web_turn (visit v) w =
    let s = serve_visit v in
    let fed = record (beat w) { served = s ∷ w.served } in if is_answered s then beat fed else fed

unfoldable pub web_loop : List Turn → Web → Web
unfolding web_turn
web_loop [] w = w
web_loop (t ∷ ts) w = web_loop ts (web_turn t w)

-- What the kernel answers before the loop: the placement of the thread, and the calls for the socket.
pub record Start : Type 0 where
  pub affinity_ok : Bool
  pub sched_ok : Bool
  pub socket_ok : Bool
  pub bind_ok : Bool
  pub getfl_ok : Bool
  pub setfl_ok : Bool
  pub listen_ok : Bool

-- The rounds run only if every call succeeds; else the thread returns.
unfoldable pub web_thread : Start → List Turn → Web → Web
unfolding web_loop
web_thread a ts w =
    let looped = web_loop ts w in
    if not a.affinity_ok
      || not a.sched_ok
      || not a.socket_ok
      || not a.bind_ok
      || not a.getfl_ok
      || not a.setfl_ok
      || not a.listen_ok
    then w
    else looped
