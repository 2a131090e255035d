-- ===== src/Modbus/Connect.antt =====
-- How a connection, a turn and an illegal request change the blacklist.
use edge_omni.Common.{
  ℕ, suc, ◌+◌, ◌≡◌, ◌≢◌, ◌⊎◌, ◌∙◌, inl, inr, refl, sym, ap, arith, Bool, true, false, not, ◌||◌,
  none, some, List, [], ◌∷◌, ltb, ◌==◌, ==_iff, if◌then◌else◌, length, All, Bool-cases,
  Option-cases,
}
use edge_omni.Modbus.{Entry, is_ip_banned, record_illegal_request, modbus_max_regs}
use edge_omni.Modbus.Entries.{IsTidy}
use edge_omni.Modbus.Bans.{IsReady, errors}
use edge_omni.Modbus.Server.{
  Turn, Server, logged, function_of, addr_of, count_of, refuse, handle_query, turn,
  fc_read_holding_registers,
}

errors_here :
    (ip : ℕ) (x : Entry) (es : List Entry)
    → (x.ip_addr == ip) ≡ true
    → errors ip (record x { err_count = 0; ban_until = 0 } ∷ es) ≡ 0
errors_here ip x es here = rw (here, errors) refl

errors_there :
    (ip : ℕ) (x : Entry) (es : List Entry)
    → (x.ip_addr == ip) ≡ false
    → errors ip (x ∷ es) ≡ errors ip es
errors_there ip x es there = rw (there, errors) refl

-- The check at the start of a connection keeps the table in order, and clears what was counted for
-- an address that it lets in; an address that it turns away changes nothing.
pub connect :
    (ip now : ℕ) (es : List Entry)
    → ip ≢ 0
    → All IsTidy es
    → (All IsTidy (is_ip_banned ip now es).1 × (length (is_ip_banned ip now es).1 ≡ length es))
      × (((is_ip_banned ip now es).0 ≡ true × ((is_ip_banned ip now es).1 ≡ es))
          ⊎ ((is_ip_banned ip now es).0 ≡ false × (errors ip (is_ip_banned ip now es).1 ≡ 0)))
unfolding is_ip_banned
connect ip now [] h t = ((tt, refl), inr (refl, refl))
connect ip now (x ∷ es) h t = elim (Bool-cases (x.ip_addr == ip)) [
  | inl here ↦ elim (Bool-cases (ltb now x.ban_until)) [
    | inl held ↦ rw (here, held) ((t, refl), inl (refl, refl))
    | inr over ↦
        rw (here, over)
          (
            (((λ z. absurd (h (sym ((==_iff _ _).0 here) ∙ z))), t.1), refl),
            inr (refl, errors_here ip x es here),
          )
  ]
  | inr there ↦
      let (kept, result) = connect ip now es h t.1 in
      elim result [
        | inl (held, same) ↦ rw there (((t.0, kept.0), ap suc kept.1), inl (held, ap (◌∷◌ x) same))
        | inr (over, none_left) ↦
            let none_there : errors ip (x ∷ (is_ip_banned ip now es).1) ≡ 0 =
              errors_there ip x (is_ip_banned ip now es).1 there ∙ none_left in
            rw there (((t.0, kept.0), ap suc kept.1), inr (over, none_there))
      ]
]

pub connect-IsReady :
    (ip now : ℕ) (es : List Entry) → IsReady ip es → IsReady ip (is_ip_banned ip now es).1
connect-IsReady ip now es r =
    let (kept, result) = connect ip now es r.proper r.tidy in
    record { proper = r.proper; tidy = kept.0; room = omega (arith, kept.1, r.room) }

-- A query that `handle_client` refuses.
abbrev pub is_illegal : List ℕ → Bool
is_illegal query =
    not (function_of query == fc_read_holding_registers)
    || ltb modbus_max_regs (addr_of query + count_of query)

abbrev pub illegal_in : Turn → ℕ
illegal_in t = elim t.query [ none ↦ 0 | some query ↦ if is_illegal query then 1 else 0 ]

-- The illegal queries of a connection.
abbrev pub illegal_count : List Turn → ℕ
illegal_count [] = 0
illegal_count (t ∷ ts) = illegal_in t + illegal_count ts

-- A turn in which an illegal query is received.
abbrev pub IsIllegal : Turn → Type 0
IsIllegal t =
    (t.running ≡ true) × ((query : List ℕ) × ((t.query ≡ some query) × (is_illegal query ≡ true)))

-- Either code changes the same in the blacklist.
pub turn_illegal :
    (ip : ℕ) (t : Turn) (s : Server)
    → IsIllegal t
    → ((turn ip t s).1 ≡ true)
      × ((turn ip t s).0.blacklist ≡ (record_illegal_request ip t.now s.blacklist).0)
      × ((turn ip t s).0.banned ≡ logged (record_illegal_request ip t.now s.blacklist).1 s.banned)
unfolding turn handle_query refuse
turn_illegal ip t s (running, (query, (came, illegal))) =
    elim (Bool-cases (function_of query == fc_read_holding_registers)) [
      | inr other ↦ rw (running, came, other) (refl, refl, refl)
      | inl read ↦ elim (Bool-cases (ltb modbus_max_regs (addr_of query + count_of query))) [
        | inl outside ↦ rw (running, came, read, outside) (refl, refl, refl)
        | inr inside ↦ absurd (ground arith)
      ]
    ]

-- A turn leaves the blacklist and the bans alone, or it is an illegal query.
pub turn-cases :
    (ip : ℕ) (t : Turn) (s : Server)
    → (((turn ip t s).0.blacklist ≡ s.blacklist) × ((turn ip t s).0.banned ≡ s.banned))
      ⊎ (IsIllegal t × (illegal_in t ≡ 1))
unfolding turn handle_query
turn-cases ip t s = elim (Bool-cases t.running) [
  | inr stopped ↦ inl (rw stopped (refl, refl))
  | inl running ↦ elim (Option-cases t.query) [
    | inl nothing ↦ inl (rw (running, nothing) (refl, refl))
    | inr (query, came) ↦ elim (Bool-cases (is_illegal query)) [
      | inl illegal ↦ inr ((running, (query, (came, illegal))), rw (came, illegal) refl)
      | inr legal ↦
          let read : (function_of query == fc_read_holding_registers) ≡ true = ground arith in
          let inside : ltb modbus_max_regs (addr_of query + count_of query) ≡ false =
            ground arith in
          inl (rw (running, came, read, inside) (refl, refl))
    ]
  ]
]
