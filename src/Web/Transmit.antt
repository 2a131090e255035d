-- ===== src/Web/Transmit.antt =====
-- What reaches the client of a response that is sent in pieces.
use mathlib.Core.List.{append_assoc, append-nil}
use edge_omni.Common.{
  ℕ, zero, suc, ◌+◌, ◌-◌, ◌≤◌, ◌<◌, ◌≡◌, refl, sym, ◌∙◌, ap, arith, List, [], ◌∷◌, ◌++◌, length,
  take, drop, take-append-drop, All,
}
use edge_omni.Common.Int.{ℤ, pos, negsuc}
use edge_omni.Web.{
  Sent, Outcome, complete, failed, waiting, send_loop, then_body, send_http_response,
}

-- The bytes on the wire are a prefix of the text, and all of it if the loop is complete.
abbrev pub IsPrefix : Sent → List ℕ → Type 0
IsPrefix s text =
    (unsent : List ℕ) × (s.wire ++ unsent ≡ text) × (s.outcome ≡ complete → unsent ≡ [])

send_loop-IsPrefix : (answers : List ℤ) (text : List ℕ) → IsPrefix (send_loop answers text) text
unfolding send_loop
send_loop-IsPrefix answers [] = ([], refl, λ e. refl)
send_loop-IsPrefix [] (b ∷ bs) = (b ∷ bs, refl, λ e. absurd (cc))
send_loop-IsPrefix (negsuc e ∷ answers) (b ∷ bs) = (b ∷ bs, refl, λ e. absurd (cc))
send_loop-IsPrefix (pos n ∷ answers) (b ∷ bs) =
    let (unsent, whole, all) = send_loop-IsPrefix answers (drop n (b ∷ bs)) in
    (
      unsent,
      append_assoc (take n (b ∷ bs)) (send_loop answers (drop n (b ∷ bs))).wire unsent
          ∙ ap (◌++◌ (take n (b ∷ bs))) whole
          ∙ take-append-drop n (b ∷ bs),
      all,
    )

then_body-IsPrefix :
    (header body : List ℕ) (s : Sent) (o : Outcome)
    → s.outcome ≡ o
    → IsPrefix s header
    → IsPrefix (then_body body s o) (header ++ body)
unfolding then_body
then_body-IsPrefix header body s complete e (unsent, whole, all) =
    let (left, rest, none_left) = send_loop-IsPrefix s.answers body in
    let all_sent : s.wire ≡ header =
      sym (append-nil s.wire) ∙ ap (◌++◌ s.wire) (sym (all e)) ∙ whole in
    (
      left,
      append_assoc s.wire (send_loop s.answers body).wire left
          ∙ ap (◌++◌ s.wire) rest
          ∙ ap (λ h. h ++ body) all_sent,
      none_left,
    )
then_body-IsPrefix header body s failed e (unsent, whole, all) = (
  unsent ++ body,
  sym (append_assoc s.wire unsent body) ∙ ap (λ h. h ++ body) whole,
  λ done. absurd (cc),
)
then_body-IsPrefix header body s waiting e (unsent, whole, all) = (
  unsent ++ body,
  sym (append_assoc s.wire unsent body) ∙ ap (λ h. h ++ body) whole,
  λ done. absurd (cc),
)

-- However send cuts the response into pieces, and wherever it fails, what the client gets is a
-- prefix of the header and the body, and all of it when both loops end without an error.
pub send_http_response-IsPrefix :
    (answers : List ℤ) (header body : List ℕ)
    → IsPrefix (send_http_response answers header body) (header ++ body)
unfolding send_http_response
send_http_response-IsPrefix answers header body =
    let sent : Sent = send_loop answers header in
    then_body-IsPrefix header body sent sent.outcome refl (send_loop-IsPrefix answers header)

-- `send` has taken at least a byte.
abbrev pub IsProgress : ℤ → Type 0
IsProgress (pos n) = 0 < n
IsProgress (negsuc e) = ⊥

length-drop : (n : ℕ) (bs : List ℕ) → 0 < n → length (drop n bs) ≤ length bs - 1
length-drop zero bs h = absurd (omega arith)
length-drop (suc n) [] h = omega arith
length-drop (suc zero) (b ∷ bs) h = omega arith
length-drop (suc (suc n)) (b ∷ bs) h = omega (arith, length-drop (suc n) bs (omega arith))

send_loop_complete :
    (answers : List ℤ) (text : List ℕ)
    → All IsProgress answers
    → length text ≤ length answers
    → let sent = send_loop answers text in
      (sent.outcome ≡ complete)
      × All IsProgress sent.answers
      × (length answers ≤ length sent.answers + length text)
unfolding send_loop
send_loop_complete answers [] h enough = (refl, h, omega arith)
send_loop_complete [] (b ∷ bs) h enough = absurd (omega arith)
send_loop_complete (negsuc e ∷ answers) (b ∷ bs) h enough = absurd h.0
send_loop_complete (pos n ∷ answers) (b ∷ bs) h enough =
    let less = length-drop n (b ∷ bs) h.0 in
    let (done, left, count) =
      send_loop_complete answers (drop n (b ∷ bs)) h.1 (omega (arith, less, enough)) in
    (done, left, omega (arith, less, count))

then_body_complete :
    (body : List ℕ) (s : Sent) (o : Outcome)
    → o ≡ complete
    → All IsProgress s.answers
    → length body ≤ length s.answers
    → (then_body body s o).outcome ≡ complete
unfolding then_body
then_body_complete body s complete e h enough = (send_loop_complete s.answers body h enough).0
then_body_complete body s failed e h enough = absurd (cc)
then_body_complete body s waiting e h enough = absurd (cc)

-- As long as each send takes at least a byte, as many of them as the response has bytes are
-- enough: send_http_response returns, and the client has the whole header and body.
pub send_http_response_complete :
    (answers : List ℤ) (header body : List ℕ)
    → All IsProgress answers
    → length header + length body ≤ length answers
    → (send_http_response answers header body).wire ≡ header ++ body
unfolding send_http_response
send_http_response_complete answers header body h enough =
    let sent : Sent = send_loop answers header in
    let (done, left, count) = send_loop_complete answers header h (omega arith) in
    let all_done = then_body_complete body sent sent.outcome done left (omega arith) in
    let (unsent, whole, all) = send_http_response-IsPrefix answers header body in
    let w : List ℕ = (send_http_response answers header body).wire in
    sym (append-nil w) ∙ ap (◌++◌ w) (sym (all all_done)) ∙ whole
