-- ===== src/Modbus.antt =====
-- app/modbus/modbus_server.c: the blacklist of client addresses. The mutex that the two operations
-- hold makes each of them one step. A command for iptables is part of the result.
pub mod Entries
pub mod Server
pub mod Connect
pub mod Bans
pub mod Evasion
pub mod Replies
pub mod Thread
pub mod TestClient
pub mod Firewall
pub mod Torn
mod Tests
use edge_omni.Common.{
  ℕ, zero, suc, ◌+◌, ◌-◌, ◌≤◌, ◌<◌, Bool, true, false, not, ◌&&◌, Option, none, some, List, [], ◌∷◌,
  ltb, leb, ◌==◌, if◌then◌else◌, replicate,
}

abbrev pub modbus_port : ℕ
modbus_port = 502

abbrev pub modbus_max_regs : ℕ
modbus_max_regs = 4

abbrev pub blacklist_threshold : ℕ
blacklist_threshold = 5

abbrev pub blacklist_ban_sec : ℕ
blacklist_ban_sec = 300

abbrev pub blacklist_max : ℕ
blacklist_max = 16

-- `blacklist_entry_t`; a free entry has the address 0.
pub record Entry : Type 0 where
  pub ip_addr : ℕ
  pub err_count : ℕ
  pub ban_until : ℕ

abbrev pub blank : Entry
blank = record { ip_addr = 0; err_count = 0; ban_until = 0 }

-- g_blacklist as modbus_server_start leaves it.
abbrev pub cleared : List Entry
cleared = replicate blacklist_max blank

-- `is_ip_banned`, from the entry that its loop has come to: the answer, and the entries after it.
unfoldable pub is_ip_banned : ℕ → ℕ → List Entry → Bool × List Entry
is_ip_banned ip now [] = (false, [])
is_ip_banned ip now (e ∷ es) =
    let (later, es') = is_ip_banned ip now es in
    if e.ip_addr == ip
    then if ltb now e.ban_until
      then (true, e ∷ es)
      else (false, record e { err_count = 0; ban_until = 0 } ∷ es)
    else (later, e ∷ es')

abbrev pub is_none {ℓ} : {A : Type ℓ} → Option A → Bool
is_none none = true
is_none (some a) = false

-- The loop of record_illegal_request: `slot` from the entry with number `i` on. The entry of the
-- address is taken before a free one, and the first free one before others; `none` is -1.
unfoldable pub find_slot : ℕ → ℕ → Option ℕ → List Entry → Option ℕ
find_slot ip i slot [] = slot
find_slot ip i slot (e ∷ es) =
    let found = find_slot ip (i + 1) (if is_none slot && e.ip_addr == 0 then some i else slot) es in
    if e.ip_addr == ip then some i else found

-- The entry after an illegal request, and the address to ban, if its errors have reached the
-- threshold.
unfoldable pub bump : ℕ → ℕ → Entry → Entry × Option ℕ
bump ip now e =
    let counted = record e { ip_addr = ip; err_count = e.err_count + 1 } in
    if leb blacklist_threshold counted.err_count
    then (record counted { ban_until = now + blacklist_ban_sec; err_count = 0 }, some ip)
    else (counted, none)

-- The entry with a number is changed; there is no entry past the end.
unfoldable pub change : (Entry → Entry × Option ℕ) → ℕ → List Entry → List Entry × Option ℕ
change f n [] = ([], none)
change f zero (e ∷ es) = let (e', banned) = f e in (e' ∷ es, banned)
change f (suc n) (e ∷ es) = let (es', banned) = change f n es in (e ∷ es', banned)

-- `record_illegal_request`: with no slot, the first entry is cleared and taken.
unfoldable pub record_illegal_request : ℕ → ℕ → List Entry → List Entry × Option ℕ
unfolding find_slot bump change
record_illegal_request ip now es = elim (find_slot ip 0 none es) [
  | none ↦ change (λ e. bump ip now blank) 0 es
  | some slot ↦ change (bump ip now) slot es
]
