-- ===== src/Web.antt =====
-- app/main.c, send_http_response: the two loops that hand a response to the socket. The header that
-- snprintf has written is given, and what `send` returns each time: the number of bytes that it has
-- taken, or an error.
pub mod Transmit
pub mod Request
pub mod Pages
pub mod Thread
pub mod Answers
pub mod Shown
mod Tests
use edge_omni.Common.{ℕ, zero, suc, ◌+◌, List, [], ◌∷◌, ◌++◌, take, drop}
use edge_omni.Common.Int.{ℤ, pos, negsuc}

-- How a loop has ended: everything is sent, `send` has failed, or it waits for the next `send`.
pub data Outcome : Type 0 where
  complete failed waiting : Outcome

-- What has gone to the socket, how it ended, and the answers that are left.
pub record Sent : Type 0 where
  pub wire : List ℕ
  pub outcome : Outcome
  pub answers : List ℤ

-- A loop, from the bytes that are still to be sent.
unfoldable pub send_loop : List ℤ → List ℕ → Sent
send_loop answers [] = record { wire = []; outcome = complete; answers = answers }
send_loop [] (b ∷ bs) = record { wire = []; outcome = waiting; answers = [] }
send_loop (negsuc e ∷ answers) (b ∷ bs) = record { wire = []; outcome = failed; answers = answers }
send_loop (pos n ∷ answers) (b ∷ bs) =
    let rest = send_loop answers (drop n (b ∷ bs)) in
    record rest { wire = take n (b ∷ bs) ++ rest.wire }

-- After the header, the body, if there was no error.
unfoldable pub then_body : List ℕ → Sent → Outcome → Sent
unfolding send_loop
then_body body header complete =
    let rest = send_loop header.answers body in record rest { wire = header.wire ++ rest.wire }
then_body body header failed = header
then_body body header waiting = header

-- `send_http_response`
unfoldable pub send_http_response : List ℤ → (header body : List ℕ) → Sent
unfolding then_body
send_http_response answers header body =
    let sent = send_loop answers header in then_body body sent sent.outcome
