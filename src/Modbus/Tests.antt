-- ===== src/Modbus/Tests.antt =====
-- The server against concrete clients, and its theorems there.
mod Chain
use edge_omni.Common.{
  ◌∙◌, ◌↔◌, ◌⊎◌, Any, take, length, ◌/◌, ◌%◌, ℕ, zero, suc, ◌+◌, ◌≡◌, refl, arith, true, false,
  none, some, List, [], ◌∷◌, ◌++◌, ltb, All, replicate,
}
use edge_omni.Common.Bits.{be16, bit_or-shifted}
use edge_omni.Modbus.{blank, cleared, blacklist_max, is_ip_banned, record_illegal_request}
use edge_omni.Modbus.Entries.{IsTidy}
use edge_omni.Modbus.Bans.{IsReady, illegal_all, fifth_request_bans}
use edge_omni.Modbus.Server.{
  Turn, exception, reply, RegData, Server, Client, handle_client, server_thread,
}
use edge_omni.Modbus.Connect.{IsIllegal}
use edge_omni.Modbus.Thread.{
  interrupted, timed_out, lost, accepted, Pass, Stops, modbus_server_thread,
  modbus_server_thread_lem,
}
use edge_omni.Modbus.Tests.Chain.{has_rule, chain}
use edge_omni.Modbus.Firewall.{ban_rule, ban_all, delete_loop, bans_survive_stop}
use edge_omni.Modbus.TestClient.{LibModbus, Answers, client_main, turns_at, test_client_banned}
use edge_omni.Modbus.Torn.{call, store, load, Access, Shared, access_all, IsOf, loads_are_published}
use edge_omni.Modbus.Replies.{IsProper, handle_client-IsProper}
use edge_omni.Modbus.Evasion.{few_each_never_banned, five_illegal_banned}

abbrev query_of : ℕ → ℕ → ℕ → List ℕ
query_of function addr count = 0 ∷ 1 ∷ 0 ∷ 0 ∷ 0 ∷ 6 ∷ 1 ∷ function ∷ 0 ∷ addr ∷ 0 ∷ count ∷ []

abbrev measured : RegData
measured = record { temperature = 2534; humidity = 4810; accel_x = 12; accel_y = 65530 }

abbrev turn_at : ℕ → List ℕ → Turn
turn_at now query = record {
  running = true;
  query = some query;
  now = now;
  reg_data = measured;
  reply_ok = true;
}

abbrev fresh : Server
fresh = record { blacklist = cleared; tab_registers = []; banned = []; replies = [] }

abbrev reads : List Turn
reads = turn_at 10 (query_of 3 0 4) ∷ turn_at 11 (query_of 3 1 4) ∷ turn_at 12 (query_of 6 0 1) ∷ []

-- A read of all registers, one past the end, and a write.
three_queries :
    (handle_client 7 9 reads fresh).replies
    ≡ exception 1 ∷ exception 2 ∷ reply (query_of 3 0 4) (2534 ∷ 4810 ∷ 12 ∷ 65530 ∷ []) ∷ []
unfolding handle_client
three_queries = refl

handle_client-IsProper_example : All (IsProper reads) (handle_client 7 9 reads fresh).replies
handle_client-IsProper_example = handle_client-IsProper 7 9 reads fresh refl

cleared-IsReady : IsReady 7 cleared
cleared-IsReady = record {
  proper = λ e. absurd (omega arith);
  tidy = go blacklist_max;
  room = omega arith;
}
  where
    go : (n : ℕ) → All IsTidy (replicate n blank)
    go zero = tt
    go (suc n) = ((λ z. refl), go n)

abbrev write_query : List ℕ
write_query = query_of 6 0 1

abbrev four_writes : List Turn
four_writes =
    turn_at 20 write_query
    ∷ turn_at 21 write_query
    ∷ turn_at 22 write_query
    ∷ turn_at 23 write_query
    ∷ []

fifth_request_bans_example :
    let (before, bans) = illegal_all 7 (20 ∷ 21 ∷ 22 ∷ 23 ∷ []) cleared in
    let (after, ban) = record_illegal_request 7 24 before in
    All (λ b. b ≡ none) bans × (ban ≡ some 7) × ((is_ip_banned 7 100 after).0 ≡ ltb 100 (24 + 300))
fifth_request_bans_example =
    fifth_request_bans 7 (20 ∷ 21 ∷ 22 ∷ 23 ∷ []) 24 100 cleared cleared-IsReady refl refl

abbrev patient : List Client
patient =
    record { ip = 7; since = 19; turns = four_writes }
    ∷ record { ip = 7; since = 29; turns = four_writes }
    ∷ []

-- Eight illegal requests in two connections.
few_each_never_banned_example : (server_thread patient fresh).banned ≡ []
few_each_never_banned_example =
    few_each_never_banned 7 patient fresh cleared-IsReady
      ((refl, omega arith), ((refl, omega arith), tt))

write : (now : ℕ) → IsIllegal (turn_at now write_query)
write now = (refl, (write_query, (refl, refl)))

let_in : (is_ip_banned 7 19 cleared).0 ≡ false
unfolding is_ip_banned
let_in = refl

five_illegal_banned_example :
    let after = handle_client 7 19 (four_writes ++ (turn_at 24 write_query ∷ [])) fresh in
    (after.banned ≡ 7 ∷ []) × (handle_client 7 200 reads after ≡ after)
five_illegal_banned_example =
    five_illegal_banned 7 19 200 four_writes reads (turn_at 24 write_query) fresh cleared-IsReady
      let_in (write 20, (write 21, (write 22, (write 23, tt)))) refl (write 24) (omega arith)

-- An interruption, a timeout, a client, and g_running cleared.
abbrev passes : List Pass
passes =
    (true, interrupted)
    ∷ (true, timed_out)
    ∷ (true, accepted (record { ip = 7; since = 9; turns = reads }))
    ∷ (true, lost)
    ∷ (false, timed_out)
    ∷ []

modbus_server_thread_lem_example :
    ((modbus_server_thread true passes fresh).0
      ≡ server_thread (record { ip = 7; since = 9; turns = reads } ∷ []) fresh)
    × (((modbus_server_thread true passes fresh).1 ≡ true) ↔ ((true ≡ false) ⊎ Any Stops passes))
modbus_server_thread_lem_example = modbus_server_thread_lem true passes fresh

bytes_read_back : (n : ℕ) → be16 (n / 256) (n % 256) ≡ n
bytes_read_back n = bit_or-shifted 8 (n / 256) (n % 256) (omega arith) ∙ omega arith

abbrev framed : LibModbus
framed = record {
  read_request =
      λ addr n. 0 ∷ 1 ∷ 0 ∷ 0 ∷ 0 ∷ 6 ∷ 1 ∷ 3 ∷ addr / 256 ∷ addr % 256 ∷ n / 256 ∷ n % 256 ∷ [];
  raw_request = λ bytes. 0 ∷ 1 ∷ 0 ∷ 0 ∷ 0 ∷ length bytes ∷ bytes;
  read_function = λ addr n. refl;
  read_addr = λ addr n h. bytes_read_back addr;
  read_count = λ addr n h. bytes_read_back n;
  raw_function = λ slave function rest. refl;
}

abbrev all_answered : Answers
all_answered = record {
  created = true;
  connected = true;
  sends = λ i. true;
  connects_again = false;
}

test_client_banned_example :
    let after =
      handle_client 7 9
        (turns_at (λ k. 10 + k) measured 0 (client_main framed all_answered).0)
        fresh in
    (after.banned ≡ 7 ∷ []) × (handle_client 7 200 reads after ≡ after)
unfolding is_ip_banned
test_client_banned_example =
    test_client_banned framed all_answered (λ k. 10 + k) measured 7 9 200 reads fresh refl refl
      (λ i. refl) cleared-IsReady refl (omega arith)

bans_survive_stop_example :
    (delete_loop chain 10 (ban_all chain (7 ∷ 9 ∷ []) []) ≡ (ban_all chain (7 ∷ 9 ∷ []) [], true))
    × All (λ ip. has_rule (ban_rule ip) (ban_all chain (7 ∷ 9 ∷ []) []) ≡ true) (7 ∷ 9 ∷ [])
unfolding has_rule
bans_survive_stop_example = bans_survive_stop chain [] refl (7 ∷ 9 ∷ []) 9

abbrev later : RegData
later = record { temperature = 2610; humidity = 5120; accel_x = 14; accel_y = 3 }

abbrev idle : Shared
idle = record { reg_data = measured; updating = none; stored = 0; next_load = 0; loads = [] }

-- The server loads between the first and the second store of a call.
abbrev overlapped : List Access
overlapped =
    call later ∷ store ∷ load ∷ load ∷ load ∷ load ∷ store ∷ store ∷ store ∷ load ∷ load ∷ []

-- The new temperature with the old humidity and acceleration; then the new ones.
torn_read :
    (access_all overlapped idle).loads
    ≡ (1, 5120) ∷ (0, 2610) ∷ (3, 65530) ∷ (2, 12) ∷ (1, 4810) ∷ (0, 2610) ∷ []
unfolding access_all
torn_read = refl

loads_are_published_example :
    All (λ (l : ℕ × ℕ). IsOf (measured ∷ later ∷ []) l.0 l.1) (access_all overlapped idle).loads
loads_are_published_example = loads_are_published overlapped idle refl refl
