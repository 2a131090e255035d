-- ===== src/Modbus/Server.antt =====
-- app/modbus/modbus_server.c: a connection, the registers, start and stop. What libmodbus and the
-- kernel answer is given; what the server asks of them is logged, the newest call first.
use edge_omni.Common.{
  zero, suc, ℕ, ◌+◌, Bool, true, false, not, Option, none, some, List, [], ◌∷◌, ltb, ◌==◌,
  if◌then◌else◌, get_or, replicate,
}
use edge_omni.Common.Bits.{be16}
use edge_omni.Common.Int.{ℤ, pos, negsuc}
use edge_omni.Modbus.{Entry, cleared, is_ip_banned, record_illegal_request, modbus_max_regs}

-- Of libmodbus.
abbrev pub fc_read_holding_registers : ℕ
fc_read_holding_registers = 3

abbrev pub exception_illegal_function : ℕ
exception_illegal_function = 1

abbrev pub exception_illegal_data_address : ℕ
exception_illegal_data_address = 2

-- `modbus_reg_data_t`, of uint16_t.
pub record RegData : Type 0 where
  pub temperature : ℕ
  pub humidity : ℕ
  pub accel_x : ℕ
  pub accel_y : ℕ

-- A round of the loop of `handle_client`: g_running when it is read, the bytes of a query, or
-- nothing where modbus_receive has an error or the end, the clock and g_reg_data when they are
-- read, and whether modbus_reply succeeds.
pub record Turn : Type 0 where
  pub running : Bool
  pub query : Option (List ℕ)
  pub now : ℕ
  pub reg_data : RegData
  pub reply_ok : Bool

-- modbus_reply_exception with its code, and modbus_reply with the query and the registers.
pub data Reply : Type 0 where
  exception : ℕ → Reply
  reply : (query regs : List ℕ) → Reply

-- g_blacklist, tab_registers, the addresses that `iptables -A` has been run for, and the replies.
pub record Server : Type 0 where
  pub blacklist : List Entry
  pub tab_registers : List ℕ
  pub banned : List ℕ
  pub replies : List Reply

abbrev pub function_of : List ℕ → ℕ
function_of query = get_or query 7 0

abbrev pub addr_of : List ℕ → ℕ
addr_of query = be16 (get_or query 8 0) (get_or query 9 0)

abbrev pub count_of : List ℕ → ℕ
count_of query = be16 (get_or query 10 0) (get_or query 11 0)

abbrev pub regs_of : RegData → List ℕ
regs_of d = d.temperature ∷ d.humidity ∷ d.accel_x ∷ d.accel_y ∷ []

abbrev pub logged : Option ℕ → List ℕ → List ℕ
logged none banned = banned
logged (some ip) banned = ip ∷ banned

-- An illegal request is recorded, and then answered with an exception.
unfoldable pub refuse : ℕ → ℕ → ℕ → Server → Server
refuse code ip now s =
    let (blacklist', ban) = record_illegal_request ip now s.blacklist in
    record s {
      blacklist = blacklist';
      banned = logged ban s.banned;
      replies = exception code ∷ s.replies;
    }

-- What follows in the loop on a query, and whether the loop goes on.
unfoldable pub handle_query : ℕ → Turn → List ℕ → Server → Server × Bool
unfolding refuse
handle_query ip t query s =
    if not (function_of query == fc_read_holding_registers)
    then (refuse exception_illegal_function ip t.now s, true)
    else if ltb modbus_max_regs (addr_of query + count_of query)
    then (refuse exception_illegal_data_address ip t.now s, true)
    else (
      record s {
        tab_registers = regs_of t.reg_data;
        replies = reply query (regs_of t.reg_data) ∷ s.replies;
      },
      t.reply_ok,
    )

unfoldable pub turn : ℕ → Turn → Server → Server × Bool
unfolding handle_query
turn ip t s =
    if t.running
    then elim t.query [ none ↦ (s, false) | some query ↦ handle_query ip t query s ]
    else (s, false)

-- The loop, over the rounds that there can be.
unfoldable pub serve : ℕ → List Turn → Server → Server
unfolding turn
serve ip [] s = s
serve ip (t ∷ ts) s =
    let (s', go_on) = turn ip t s in let rest = serve ip ts s' in if go_on then rest else s'

-- `handle_client`, for the address of the client, at the time it connects.
unfoldable pub handle_client : ℕ → ℕ → List Turn → Server → Server
unfolding is_ip_banned serve
handle_client ip now ts s =
    let (banned, blacklist') = is_ip_banned ip now s.blacklist in
    let connected = record s { blacklist = blacklist' } in
    let served = serve ip ts connected in if banned then connected else served

-- A client that `modbus_server_thread` has accepted.
pub record Client : Type 0 where
  pub ip : ℕ
  pub since : ℕ
  pub turns : List Turn

-- The thread serves one client after the other.
unfoldable pub server_thread : List Client → Server → Server
unfolding handle_client
server_thread [] s = s
server_thread (c ∷ cs) s = server_thread cs (handle_client c.ip c.since c.turns s)

-- The life of the objects of libmodbus and of the thread. modbus_mapping_new returns cleared
-- registers.
pub record Globals : Type 0 where
  pub ctx : Bool
  pub mapping : Bool
  pub running : Bool
  pub thread : Bool
  pub reg_data : RegData
  pub server : Server

abbrev no_data : RegData
no_data = record { temperature = 0; humidity = 0; accel_x = 0; accel_y = 0 }

-- `modbus_server_start`: whether the context, the mapping and the thread can be made is given.
unfoldable pub modbus_server_start : Bool → Bool → Bool → Globals → ℤ × Globals
modbus_server_start ctx_ok mapping_ok thread_ok g =
    let fresh = record g { reg_data = no_data; server = record g.server { blacklist = cleared } } in
    if not ctx_ok
    then (negsuc 0, record fresh { ctx = false })
    else if not mapping_ok
    then (negsuc 0, record fresh { ctx = false; mapping = false })
    else if not thread_ok
    then (negsuc 0, record fresh { ctx = false; mapping = false; running = true })
    else (
      pos 0,
      record fresh {
        ctx = true;
        mapping = true;
        running = true;
        thread = true;
        server = record fresh.server { tab_registers = replicate modbus_max_regs 0 };
      },
    )

-- `clear_iptables_rules`: the command is run until it fails. How often it succeeds is given, the
-- result is how often it has been run.
unfoldable pub clear_iptables_rules : ℕ → ℕ
clear_iptables_rules zero = 1
clear_iptables_rules (suc n) = clear_iptables_rules n + 1

-- `modbus_server_stop`: pthread_join ends the thread, and each object that there is is freed.
unfoldable pub modbus_server_stop : ℕ → Globals → Globals × ℕ
unfolding clear_iptables_rules
modbus_server_stop deletions g =
    let joined = record g { running = false; thread = false } in
    let unmapped = if joined.mapping then record joined { mapping = false } else joined in
    let closed = if unmapped.ctx then record unmapped { ctx = false } else unmapped in
    (closed, clear_iptables_rules deletions)

unfoldable pub modbus_server_update_data : RegData → Globals → Globals
modbus_server_update_data data' g = record g {
  reg_data = record {
    temperature = data'.temperature;
    humidity = data'.humidity;
    accel_x = data'.accel_x;
    accel_y = data'.accel_y;
  };
}
