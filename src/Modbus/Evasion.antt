-- ===== src/Modbus/Evasion.antt =====
-- What a client must do to be banned, and what it can do without.
use edge_omni.Common.{
  ℕ, suc, ◌+◌, ◌≤◌, ◌<◌, ◌≡◌, ◌∙◌, inl, inr, refl, ap, arith, true, false, none, List, [], ◌∷◌,
  ◌++◌, map, ltb, length, All, Bool-cases,
}
use edge_omni.Modbus.{Entry, is_ip_banned, record_illegal_request, blacklist_threshold}
use edge_omni.Modbus.Entries.{entry_or_blank}
use edge_omni.Modbus.Bans.{
  IsReady, errors, record_below, record-IsReady, illegal_all, illegal_below, record_fifth,
  record_while_banned, illegal_all-IsReady, fifth_request_bans,
}
use edge_omni.Modbus.Server.{
  Turn, Server, Client, logged, turn, serve, handle_client, server_thread,
}
use edge_omni.Modbus.Connect.{
  connect, connect-IsReady, illegal_in, illegal_count, IsIllegal, turn_illegal, turn-cases,
}

turn_below :
    (ip : ℕ) (t : Turn) (s : Server)
    → IsReady ip s.blacklist
    → errors ip s.blacklist + illegal_in t < blacklist_threshold
    → ((turn ip t s).0.banned ≡ s.banned)
      × (errors ip (turn ip t s).0.blacklist ≤ errors ip s.blacklist + illegal_in t)
      × IsReady ip (turn ip t s).0.blacklist
turn_below ip t s r h = elim (turn-cases ip t s) [
  | inl (table, bans) ↦ rw table (bans, omega arith, r)
  | inr (illegal, one) ↦
      let (goes_on, table, bans) = turn_illegal ip t s illegal in
      let (quiet, entry) = record_below ip t.now s.blacklist r (omega (arith, one, h)) in
      let counted = ap (λ (e : Entry). e.err_count) entry in
      rw table (
        bans ∙ ap (λ b. logged b s.banned) quiet,
        omega (arith, counted, one),
        record-IsReady ip t.now s.blacklist r,
      )
]

serve_below :
    (ip : ℕ) (ts : List Turn) (s : Server)
    → IsReady ip s.blacklist
    → errors ip s.blacklist + illegal_count ts < blacklist_threshold
    → ((serve ip ts s).banned ≡ s.banned) × IsReady ip (serve ip ts s).blacklist
unfolding serve
serve_below ip [] s r h = (refl, r)
serve_below ip (t ∷ ts) s r h =
    let (bans, more, r') = turn_below ip t s r (omega arith) in
    let (later, r'') = serve_below ip ts (turn ip t s).0 r' (omega (arith, more, h)) in
    elim (Bool-cases (turn ip t s).1) [
      | inl goes_on ↦ rw goes_on (later ∙ bans, r'')
      | inr ends ↦ rw ends (bans, r')
    ]

-- A connection with at most four illegal queries bans nobody.
client_below :
    (ip now : ℕ) (ts : List Turn) (s : Server)
    → IsReady ip s.blacklist
    → illegal_count ts < blacklist_threshold
    → ((handle_client ip now ts s).banned ≡ s.banned)
      × IsReady ip (handle_client ip now ts s).blacklist
unfolding handle_client
client_below ip now ts s r h =
    let r' = connect-IsReady ip now s.blacklist r in
    elim (connect ip now s.blacklist r.proper r.tidy).1 [
      | inl (held, same) ↦ rw held (refl, r')
      | inr (let_in, none_left) ↦ rw let_in (
          serve_below ip ts (record s { blacklist = (is_ip_banned ip now s.blacklist).1 }) r'
            (omega (arith, none_left, h)))
    ]

-- With a blacklist in order and an address other than 0, any number of connections of one client,
-- each with at most four illegal queries, never bans it, whatever the number of illegal queries in
-- all: each connection starts the count again.
pub few_each_never_banned :
    (ip : ℕ) (cs : List Client) (s : Server)
    → IsReady ip s.blacklist
    → All (λ (c : Client). (c.ip ≡ ip) × (illegal_count c.turns ≤ 4)) cs
    → (server_thread cs s).banned ≡ s.banned
unfolding server_thread
few_each_never_banned ip [] s r h = refl
few_each_never_banned ip (c ∷ cs) s r ((same, few), h) =
    let (bans, r') = client_below ip c.since c.turns s r (omega arith) in
    rw same (few_each_never_banned ip cs (handle_client ip c.since c.turns s) r' h ∙ bans)

serve_illegal :
    (ip : ℕ) (ts us : List Turn) (s : Server)
    → All IsIllegal ts
    → (before : Server) × (serve ip (ts ++ us) s ≡ serve ip us before)
      × (before.blacklist ≡ (illegal_all ip (map (λ (t : Turn). t.now) ts) s.blacklist).0)
      × (All (λ b. b ≡ none) (illegal_all ip (map (λ (t : Turn). t.now) ts) s.blacklist).1
          → before.banned ≡ s.banned)
unfolding serve illegal_all
serve_illegal ip [] us s h = (s, refl, refl, λ quiet. refl)
serve_illegal ip (t ∷ ts) us s h =
    let (goes_on, table, bans) = turn_illegal ip t s h.0 in
    let (before, runs, blacklist, kept) = serve_illegal ip ts us (turn ip t s).0 h.1 in
    (
      before,
      rw goes_on runs,
      blacklist ∙ ap (λ es. (illegal_all ip (map (λ (t : Turn). t.now) ts) es).0) table,
      λ quiet. kept (rw table quiet.1) ∙ bans ∙ ap (λ b. logged b s.banned) quiet.0,
    )

length-map_now : (ts : List Turn) → length (map (λ (t : Turn). t.now) ts) ≡ length ts
length-map_now [] = refl
length-map_now (t ∷ ts) = ap suc (length-map_now ts)

-- A client that is turned away changes nothing.
pub banned_client :
    (ip now : ℕ) (ts : List Turn) (s : Server)
    → IsReady ip s.blacklist
    → (is_ip_banned ip now s.blacklist).0 ≡ true
    → handle_client ip now ts s ≡ s
unfolding handle_client
banned_client ip now ts s r is_held = elim (connect ip now s.blacklist r.proper r.tidy).1 [
  | inl (held, same) ↦ rw held (ap (λ es. record s { blacklist = es }) same)
  | inr (free, none_left) ↦ absurd (cc)
]

-- Five illegal queries on a connection with no error counted.
pub serve_five :
    (ip now : ℕ) (ts : List Turn) (fifth : Turn) (s : Server)
    → IsReady ip s.blacklist
    → errors ip s.blacklist ≡ 0
    → All IsIllegal ts
    → length ts ≡ 4
    → IsIllegal fifth
    → now < fifth.now + 300
    → let after = serve ip (ts ++ (fifth ∷ [])) s in
      (after.banned ≡ ip ∷ s.banned)
      × ((is_ip_banned ip now after.blacklist).0 ≡ true)
      × IsReady ip after.blacklist
unfolding serve
serve_five ip now ts fifth s r clean illegal four last soon =
    let (before, runs, blacklist, kept) = serve_illegal ip ts (fifth ∷ []) s illegal in
    let times : List ℕ = map (λ (t : Turn). t.now) ts in
    let (quiet, ban, held) =
      fifth_request_bans ip times fifth.now now s.blacklist r clean (length-map_now ts ∙ four) in
    let (goes_on, table, bans) = turn_illegal ip fifth before last in
    let served : serve ip (ts ++ (fifth ∷ [])) s ≡ (turn ip fifth before).0 =
      runs ∙ rw goes_on refl in
    let same_table : (serve ip (ts ++ (fifth ∷ [])) s).blacklist
        ≡ (record_illegal_request ip fifth.now (illegal_all ip times s.blacklist).0).0 =
      ap (λ (v : Server). v.blacklist) served
      ∙ table
      ∙ ap (λ es. (record_illegal_request ip fifth.now es).0) blacklist in
    let until : ltb now (fifth.now + 300) ≡ true = ground arith in
    (
      ap (λ (v : Server). v.banned) served
          ∙ bans
          ∙ ap (λ es. logged (record_illegal_request ip fifth.now es).1 before.banned) blacklist
          ∙ ap (λ b. logged b before.banned) ban
          ∙ ap (◌∷◌ ip) (kept quiet),
      ap (λ es. (is_ip_banned ip now es).0) same_table ∙ held ∙ until,
      rw same_table (
          record-IsReady ip fifth.now (illegal_all ip times s.blacklist).0
            (illegal_all-IsReady ip times s.blacklist r)),
    )

-- A sixth illegal query, after the ban, changes nothing of it.
pub serve_six :
    (ip now : ℕ) (ts : List Turn) (fifth sixth : Turn) (s : Server)
    → IsReady ip s.blacklist
    → errors ip s.blacklist ≡ 0
    → All IsIllegal ts
    → length ts ≡ 4
    → IsIllegal fifth
    → IsIllegal sixth
    → now < fifth.now + 300
    → let after = serve ip (ts ++ (fifth ∷ sixth ∷ [])) s in
      (after.banned ≡ ip ∷ s.banned)
      × ((is_ip_banned ip now after.blacklist).0 ≡ true)
      × IsReady ip after.blacklist
unfolding serve
serve_six ip now ts fifth sixth s r clean illegal four last more soon =
    let (before, runs, blacklist, kept) = serve_illegal ip ts (fifth ∷ sixth ∷ []) s illegal in
    let times : List ℕ = map (λ (t : Turn). t.now) ts in
    let (bans, total, same, ready) =
      illegal_below ip times s.blacklist r (omega (arith, length-map_now ts)) in
    let counted : errors ip before.blacklist ≡ 4 =
      ap (errors ip) blacklist ∙ omega (arith, total, clean, length-map_now ts) in
    let ready_before : IsReady ip before.blacklist = rw blacklist ready in
    let mid : Server = (turn ip fifth before).0 in
    let (goes_on, table, logs) = turn_illegal ip fifth before last in
    let (ban, entry) = record_fifth ip fifth.now before.blacklist ready_before counted in
    let ready_mid : IsReady ip mid.blacklist =
      rw table (record-IsReady ip fifth.now before.blacklist ready_before) in
    let (goes_on', table', logs') = turn_illegal ip sixth mid more in
    let (quiet, held) =
      record_while_banned ip sixth.now now (fifth.now + 300) mid.blacklist ready_mid
        (ap (entry_or_blank ip) table ∙ entry) in
    let served : serve ip (ts ++ (fifth ∷ sixth ∷ [])) s ≡ (turn ip sixth mid).0 =
      runs ∙ rw (goes_on, goes_on') refl in
    let until : ltb now (fifth.now + 300) ≡ true = ground arith in
    rw served (
      logs'
          ∙ ap (λ b. logged b mid.banned) quiet
          ∙ logs
          ∙ ap (λ b. logged b before.banned) ban
          ∙ ap (◌∷◌ ip) (kept bans),
      ap (λ es. (is_ip_banned ip now es).0) table' ∙ held ∙ until,
      rw table' (record-IsReady ip sixth.now mid.blacklist ready_mid),
    )

-- The errors counted for a client that is let in are cleared.
pub let_in_clean :
    (ip since : ℕ) (es : List Entry)
    → IsReady ip es
    → (is_ip_banned ip since es).0 ≡ false
    → errors ip (is_ip_banned ip since es).1 ≡ 0
let_in_clean ip since es r let_in = elim (connect ip since es r.proper r.tidy).1 [
  | inl (held, same) ↦ absurd (cc)
  | inr (free, none_left) ↦ none_left
]

-- With a blacklist in order and an address other than 0, a client that is let in and sends five
-- illegal queries is banned by the fifth, and for 300 seconds from then a connection of it changes
-- nothing and gets no reply.
pub five_illegal_banned :
    (ip since now : ℕ) (ts more : List Turn) (fifth : Turn) (s : Server)
    → IsReady ip s.blacklist
    → (is_ip_banned ip since s.blacklist).0 ≡ false
    → All IsIllegal ts
    → length ts ≡ 4
    → IsIllegal fifth
    → now < fifth.now + 300
    → let after = handle_client ip since (ts ++ (fifth ∷ [])) s in
      (after.banned ≡ ip ∷ s.banned) × (handle_client ip now more after ≡ after)
unfolding handle_client
five_illegal_banned ip since now ts more fifth s r let_in illegal four last soon =
    let connected : Server = record s { blacklist = (is_ip_banned ip since s.blacklist).1 } in
    let (bans, held, ready) =
      serve_five ip now ts fifth connected (connect-IsReady ip since s.blacklist r)
        (let_in_clean ip since s.blacklist r let_in) illegal four last soon in
    let served : handle_client ip since (ts ++ (fifth ∷ [])) s
        ≡ serve ip (ts ++ (fifth ∷ [])) connected =
      rw let_in refl in
    rw served (bans, banned_client ip now more _ ready held)
