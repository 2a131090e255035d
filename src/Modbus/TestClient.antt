-- ===== src/Modbus/TestClient.antt =====
-- app/modbus/modbus_test_client.c: what it sends, and how the server takes it. libmodbus is given by
-- the messages that it makes.
use edge_omni.Common.{
  ℕ, zero, suc, ◌+◌, ◌/◌, ◌%◌, ◌<◌, ◌≡◌, refl, arith, Bool, true, false, not, some, List, [], ◌∷◌,
  ◌++◌, if◌then◌else◌, take,
}
use edge_omni.Modbus.{is_ip_banned}
use edge_omni.Modbus.Bans.{IsReady}
use edge_omni.Modbus.Server.{
  RegData, Turn, Server, function_of, addr_of, count_of, regs_of, reply, handle_query, turn, serve,
  handle_client, fc_read_holding_registers,
}
use edge_omni.Modbus.Connect.{connect-IsReady, is_illegal, IsIllegal}
use edge_omni.Modbus.Evasion.{serve_six, let_in_clean, banned_client}

-- The messages of modbus_read_registers, for an address and a count, and of
-- modbus_send_raw_request, for a slave, a function code and what follows: libmodbus puts a header of
-- the protocol before them.
pub record LibModbus : Type 0 where
  pub read_request : ℕ → ℕ → List ℕ
  pub raw_request : List ℕ → List ℕ
  pub read_function : (addr n : ℕ) → function_of (read_request addr n) ≡ fc_read_holding_registers
  pub read_addr : (addr n : ℕ) → addr < 65536 → addr_of (read_request addr n) ≡ addr
  pub read_count : (addr n : ℕ) → n < 65536 → count_of (read_request addr n) ≡ n
  pub raw_function :
      (slave function : ℕ) (rest : List ℕ)
      → function_of (raw_request (slave ∷ function ∷ rest)) ≡ function

-- What the client is answered: whether a context is made, a connection, what is sent in each round
-- of the third test, and the connection at the end.
pub record Answers : Type 0 where
  pub created : Bool
  pub connected : Bool
  pub sends : ℕ → Bool
  pub connects_again : Bool

pub data Verdict : Type 0 where
  no_context no_connection blacklisted still_open : Verdict

-- raw_req as far as it is written.
abbrev raw_req : ℕ → List ℕ
raw_req tid = tid / 256 % 256 ∷ tid % 256 ∷ 0 ∷ 0 ∷ 0 ∷ 2 ∷ 1 ∷ 8 ∷ []

abbrev past_header : List ℕ → List ℕ
past_header (b0 ∷ b1 ∷ b2 ∷ b3 ∷ b4 ∷ b5 ∷ rest) = rest
past_header bytes = []

module _ (lib : LibModbus) where
  -- The loop of the third test, with the rounds that are left, from `i` and `tid` on.
  unfoldable pub send_illegal : ℕ → ℕ → ℕ → (ℕ → Bool) → List (List ℕ)
  send_illegal zero i tid sends = []
  send_illegal (suc left) i tid sends =
      let rest = send_illegal left (i + 1) (tid + 1) sends in
      if sends i then lib.raw_request (take 2 (past_header (raw_req tid))) ∷ rest else rest

  -- `main`: the messages that go out, what it prints of the connection at the end, and its result.
  unfoldable pub client_main : Answers → List (List ℕ) × Verdict × ℕ
  unfolding send_illegal
  client_main a =
      let sent = lib.read_request 0 4 ∷ lib.read_request 10 1 ∷ send_illegal 5 0 1 a.sends in
      let verdict = if a.connects_again then still_open else blacklisted in
      if not a.created
      then ([], no_context, 1)
      else if not a.connected
      then ([], no_connection, 1)
      else (sent, verdict, 0)

-- The rounds in which a running server takes the messages, and can answer them.
abbrev pub turns_at : (ℕ → ℕ) → RegData → ℕ → List (List ℕ) → List Turn
turns_at times reg_data k [] = []
turns_at times reg_data k (q ∷ qs) =
    record { running = true; query = some q; now = times k; reg_data = reg_data; reply_ok = true }
    ∷ turns_at times reg_data (k + 1) qs

module _ (lib : LibModbus) where
  abbrev raw : List ℕ
  raw = lib.raw_request (1 ∷ 8 ∷ [])

  all_sent :
      (a : Answers)
      → a.created ≡ true
      → a.connected ≡ true
      → ((i : ℕ) → a.sends i ≡ true)
      → (client_main lib a).0
        ≡ lib.read_request 0 4 ∷ lib.read_request 10 1 ∷ raw ∷ raw ∷ raw ∷ raw ∷ raw ∷ []
  unfolding client_main send_illegal
  all_sent a created connected sends =
      rw (created, connected, sends 0, sends 1, sends 2, sends 3, sends 4) refl

  raw_illegal : is_illegal raw ≡ true
  raw_illegal = rw (lib.raw_function 1 8 []) refl

  address_illegal : is_illegal (lib.read_request 10 1) ≡ true
  address_illegal =
      rw
        (
          lib.read_function 10 1,
          lib.read_addr 10 1 (omega arith),
          lib.read_count 10 1 (omega arith),
        )
        refl

  first_answered :
      (ip now : ℕ) (reg_data : RegData) (ts : List Turn) (s : Server)
      → serve ip
          (record {
            running = true;
            query = some (lib.read_request 0 4);
            now = now;
            reg_data = reg_data;
            reply_ok = true;
          }
            ∷ ts)
          s
        ≡ serve ip ts (record s {
          tab_registers = regs_of reg_data;
          replies = reply (lib.read_request 0 4) (regs_of reg_data) ∷ s.replies;
        })
  unfolding serve turn handle_query
  first_answered ip now reg_data ts s =
      rw (lib.read_function 0 4, lib.read_addr 0 4 (omega arith), lib.read_count 0 4 (omega arith))
        refl

  -- On a server with its blacklist in order that lets the client in and can answer it, the test
  -- client, if all that it sends goes out, is banned at its fourth illegal function code, since
  -- the illegal address before has been counted too; the fifth bans it no second time, and when it
  -- connects again within 300 seconds of the ban, nothing is changed for it.
  pub test_client_banned :
      (a : Answers) (times : ℕ → ℕ) (reg_data : RegData) (ip since now : ℕ) (more : List Turn)
      (s : Server)
      → a.created ≡ true
      → a.connected ≡ true
      → ((i : ℕ) → a.sends i ≡ true)
      → IsReady ip s.blacklist
      → (is_ip_banned ip since s.blacklist).0 ≡ false
      → now < times 5 + 300
      → let after = handle_client ip since (turns_at times reg_data 0 (client_main lib a).0) s in
        (after.banned ≡ ip ∷ s.banned) × (handle_client ip now more after ≡ after)
  unfolding handle_client
  test_client_banned a times reg_data ip since now more s created connected sends r let_in soon =
      let connected_now : Server = record s { blacklist = (is_ip_banned ip since s.blacklist).1 } in
      let answered : Server = record connected_now {
        tab_registers = regs_of reg_data;
        replies = reply (lib.read_request 0 4) (regs_of reg_data) ∷ s.replies;
      } in
      let four : List Turn =
        turns_at times reg_data 1 (lib.read_request 10 1 ∷ raw ∷ raw ∷ raw ∷ []) in
      let fifth : Turn = record {
        running = true;
        query = some raw;
        now = times 5;
        reg_data = reg_data;
        reply_ok = true;
      } in
      let sixth : Turn = record {
        running = true;
        query = some raw;
        now = times 6;
        reg_data = reg_data;
        reply_ok = true;
      } in
      let code_eight : IsIllegal fifth = (refl, (_, (refl, raw_illegal))) in
      let code_eight' : IsIllegal sixth = (refl, (_, (refl, raw_illegal))) in
      let (bans, held, ready) =
        serve_six ip now four fifth sixth answered (connect-IsReady ip since s.blacklist r)
          (let_in_clean ip since s.blacklist r let_in)
          (
            (refl, (_, (refl, address_illegal))),
            (
              (refl, (_, (refl, raw_illegal))),
              ((refl, (_, (refl, raw_illegal))), ((refl, (_, (refl, raw_illegal))), tt)),
            ),
          )
          refl code_eight code_eight' soon in
      let served : handle_client ip since (turns_at times reg_data 0 (client_main lib a).0) s
          ≡ serve ip (four ++ (fifth ∷ sixth ∷ [])) answered =
        rw (all_sent a created connected sends, let_in)
          (first_answered ip (times 0) reg_data (four ++ (fifth ∷ sixth ∷ [])) connected_now) in
      rw served (bans, banned_client ip now more _ ready held)
