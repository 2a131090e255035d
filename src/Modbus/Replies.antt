-- ===== src/Modbus/Replies.antt =====
-- What a client can get out of the server.
use edge_omni.Common.{
  ℕ, ◌+◌, ◌≤◌, ◌≡◌, ◌⊎◌, inl, inr, refl, arith, some, List, [], ◌∷◌, ltb, ◌==◌, All, Any,
  Bool-cases, Option-cases,
}
use edge_omni.Modbus.{modbus_max_regs, is_ip_banned}
use edge_omni.Modbus.Server.{
  Turn, Reply, exception, reply, Server, function_of, addr_of, count_of, regs_of, refuse,
  handle_query, turn, serve, handle_client, fc_read_holding_registers, exception_illegal_function,
  exception_illegal_data_address,
}

-- A reply is an exception of one of two codes, or the answer to a read of registers that there are,
-- received in one of the turns, with the values of that turn.
abbrev pub IsProper : List Turn → Reply → Type 0
IsProper ts (exception code) =
    (code ≡ exception_illegal_function) ⊎ (code ≡ exception_illegal_data_address)
IsProper ts (reply query regs) =
    (function_of query ≡ fc_read_holding_registers)
    × (addr_of query + count_of query ≤ modbus_max_regs)
    × Any (λ (t : Turn). (t.query ≡ some query) × (regs ≡ regs_of t.reg_data)) ts

-- What is asked in the turn is asked in one of `all`.
abbrev Seen : List Turn → Turn → Type 0
Seen all t =
    (query : List ℕ)
    → t.query ≡ some query
    → Any (λ (u : Turn). (u.query ≡ some query) × (regs_of t.reg_data ≡ regs_of u.reg_data)) all

later-Seen : (u : Turn) (all ts : List Turn) → All (Seen all) ts → All (Seen (u ∷ all)) ts
later-Seen u all [] h = tt
later-Seen u all (t ∷ ts) h = ((λ q came. inr (h.0 q came)), later-Seen u all ts h.1)

All-Seen : (ts : List Turn) → All (Seen ts) ts
All-Seen [] = tt
All-Seen (t ∷ ts) = ((λ q came. inl (came, refl)), later-Seen t ts ts (All-Seen ts))

turn-IsProper :
    (ip : ℕ) (all : List Turn) (t : Turn) (s : Server)
    → Seen all t
    → All (IsProper all) s.replies
    → All (IsProper all) (turn ip t s).0.replies
unfolding turn handle_query refuse
turn-IsProper ip all t s seen h = elim (Bool-cases t.running) [
  | inr stopped ↦ rw stopped h
  | inl running ↦ elim (Option-cases t.query) [
    | inl nothing ↦ rw (running, nothing) h
    | inr (query, came) ↦ elim (Bool-cases (function_of query == fc_read_holding_registers)) [
      | inr other ↦ rw (running, came, other) (inl refl, h)
      | inl read ↦ elim (Bool-cases (ltb modbus_max_regs (addr_of query + count_of query))) [
        | inl outside ↦ rw (running, came, read, outside) (inr refl, h)
        | inr inside ↦
            rw (running, came, read, inside) ((ground arith, ground arith, seen query came), h)
      ]
    ]
  ]
]

serve-IsProper :
    (ip : ℕ) (all ts : List Turn) (s : Server)
    → All (Seen all) ts
    → All (IsProper all) s.replies
    → All (IsProper all) (serve ip ts s).replies
unfolding serve
serve-IsProper ip all [] s seen h = h
serve-IsProper ip all (t ∷ ts) s seen h =
    let h' = turn-IsProper ip all t s seen.0 h in
    elim (Bool-cases (turn ip t s).1) [
      | inl goes_on ↦ rw goes_on (serve-IsProper ip all ts (turn ip t s).0 seen.1 h')
      | inr ends ↦ rw ends h'
    ]

-- On a connection that starts with no reply logged, the server answers with exceptions of codes 1
-- and 2, and otherwise only to queries for function 3 whose registers all lie among the four that
-- there are, each time with the values published when that query was handled.
pub handle_client-IsProper :
    (ip now : ℕ) (ts : List Turn) (s : Server)
    → s.replies ≡ []
    → All (IsProper ts) (handle_client ip now ts s).replies
unfolding handle_client
handle_client-IsProper ip now ts s none_yet =
    let connected : Server = record s { blacklist = (is_ip_banned ip now s.blacklist).1 } in
    let proper : All (IsProper ts) s.replies = rw none_yet tt in
    elim (Bool-cases (is_ip_banned ip now s.blacklist).0) [
      | inl banned ↦ rw banned proper
      | inr free ↦ rw free (serve-IsProper ip ts ts connected (All-Seen ts) proper)
    ]
