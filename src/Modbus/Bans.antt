-- ===== src/Modbus/Bans.antt =====
-- How errors add up to a ban.
use edge_omni.Common.{
  ℕ, ◌+◌, ◌≤◌, ◌<◌, ◌≡◌, ◌≢◌, ◌∙◌, refl, ap, arith, Option, none, some, List, [], ◌∷◌, ltb, length,
  All,
}
use edge_omni.Modbus.{
  Entry, is_ip_banned, bump, record_illegal_request, blacklist_threshold, blacklist_ban_sec,
}
use edge_omni.Modbus.Entries.{
  entry_of, entry_or_blank, IsTidy, record_entry, record-IsTidy, is_ip_banned_listed,
}

-- A table in which an address can be listed.
pub record IsReady (ip : ℕ) (es : List Entry) : Type 0 where
  pub proper : ip ≢ 0
  pub tidy : All IsTidy es
  pub room : 0 < length es

-- Illegal requests of one address, at the times given: the table afterwards, and what each of them
-- bans.
unfoldable pub illegal_all : ℕ → List ℕ → List Entry → List Entry × List (Option ℕ)
illegal_all ip [] es = (es, [])
illegal_all ip (now ∷ times) es =
    let (es', banned) = record_illegal_request ip now es in
    let (last, bans) = illegal_all ip times es' in (last, banned ∷ bans)

pub record-IsReady :
    (ip now : ℕ) (es : List Entry) → IsReady ip es → IsReady ip (record_illegal_request ip now es).0
record-IsReady ip now es r =
    let (tidy, long) = record-IsTidy ip now es r.proper r.tidy in
    record { proper = r.proper; tidy = tidy; room = omega (arith, long, r.room) }

pub illegal_all-IsReady :
    (ip : ℕ) (times : List ℕ) (es : List Entry)
    → IsReady ip es
    → IsReady ip (illegal_all ip times es).0
unfolding illegal_all
illegal_all-IsReady ip [] es r = r
illegal_all-IsReady ip (now ∷ times) es r =
    illegal_all-IsReady ip times (record_illegal_request ip now es).0 (record-IsReady ip now es r)

bump_below :
    (ip now : ℕ) (e : Entry)
    → e.err_count + 1 < blacklist_threshold
    → bump ip now e ≡ (record e { ip_addr = ip; err_count = e.err_count + 1 }, none)
unfolding bump
bump_below ip now e h = ground arith

bump_reached :
    (ip now : ℕ) (e : Entry)
    → blacklist_threshold ≤ e.err_count + 1
    → bump ip now e
      ≡ (record { ip_addr = ip; err_count = 0; ban_until = now + blacklist_ban_sec }, some ip)
unfolding bump
bump_reached ip now e h = ground arith

abbrev pub errors : ℕ → List Entry → ℕ
errors ip es = (entry_or_blank ip es).err_count

listed : (ip : ℕ) (es : List Entry) (e : Entry) → entry_of ip es ≡ some e → entry_or_blank ip es ≡ e
listed ip es e h = rw (h, entry_or_blank)

-- One more error below the threshold: it is counted, and nothing is banned.
pub record_below :
    (ip now : ℕ) (es : List Entry)
    → IsReady ip es
    → errors ip es + 1 < blacklist_threshold
    → ((record_illegal_request ip now es).1 ≡ none)
      × (entry_or_blank ip (record_illegal_request ip now es).0
          ≡ record (entry_or_blank ip es) { ip_addr = ip; err_count = errors ip es + 1 })
record_below ip now es r h =
    let (entry, banned) = record_entry ip now es r.tidy r.room in
    let below = bump_below ip now (entry_or_blank ip es) h in
    (
      banned ∙ ap (λ (b : Entry × Option ℕ). b.1) below,
      listed ip (record_illegal_request ip now es).0 (bump ip now (entry_or_blank ip es)).0 entry
          ∙ ap (λ (b : Entry × Option ℕ). b.0) below,
    )

-- As long as the threshold is not reached no request bans, and each is counted.
pub illegal_below :
    (ip : ℕ) (times : List ℕ) (es : List Entry)
    → IsReady ip es
    → errors ip es + length times < blacklist_threshold
    → let (last, bans) = illegal_all ip times es in
      All (λ b. b ≡ none) bans
      × (errors ip last ≡ errors ip es + length times)
      × ((entry_or_blank ip last).ban_until ≡ (entry_or_blank ip es).ban_until)
      × IsReady ip last
unfolding illegal_all
illegal_below ip [] es r h = (tt, omega arith, refl, r)
illegal_below ip (now ∷ times) es r h =
    let (quiet, entry) = record_below ip now es r (omega arith) in
    let es' : List Entry = (record_illegal_request ip now es).0 in
    let counted : errors ip es' ≡ errors ip es + 1 = ap (λ (e : Entry). e.err_count) entry in
    let until : (entry_or_blank ip es').ban_until ≡ (entry_or_blank ip es).ban_until =
      ap (λ (e : Entry). e.ban_until) entry in
    let (bans, total, kept, ready) =
      illegal_below ip times es' (record-IsReady ip now es r) (omega (arith, counted)) in
    ((quiet, bans), omega (arith, total, counted), kept ∙ until, ready)

-- A request that makes five: what the entry is then.
pub record_fifth :
    (ip now : ℕ) (es : List Entry)
    → IsReady ip es
    → errors ip es ≡ 4
    → ((record_illegal_request ip now es).1 ≡ some ip)
      × (entry_or_blank ip (record_illegal_request ip now es).0
          ≡ record { ip_addr = ip; err_count = 0; ban_until = now + 300 })
record_fifth ip now es r four =
    let (entry, banned) = record_entry ip now es r.tidy r.room in
    let reached = bump_reached ip now (entry_or_blank ip es) (omega (arith, four)) in
    (
      banned ∙ ap (λ (b : Entry × Option ℕ). b.1) reached,
      listed ip (record_illegal_request ip now es).0 (bump ip now (entry_or_blank ip es)).0 entry
          ∙ ap (λ (b : Entry × Option ℕ). b.0) reached,
    )

-- One more illegal request of an address that is banned: it bans nothing and keeps the ban.
pub record_while_banned :
    (ip t now until : ℕ) (es : List Entry)
    → IsReady ip es
    → entry_or_blank ip es ≡ record { ip_addr = ip; err_count = 0; ban_until = until }
    → ((record_illegal_request ip t es).1 ≡ none)
      × ((is_ip_banned ip now (record_illegal_request ip t es).0).0 ≡ ltb now until)
record_while_banned ip t now until es r e =
    let clean : errors ip es ≡ 0 = ap (λ (x : Entry). x.err_count) e in
    let (entry, banned) = record_entry ip t es r.tidy r.room in
    let below = bump_below ip t (entry_or_blank ip es) (omega (arith, clean)) in
    (
      banned ∙ ap (λ (b : Entry × Option ℕ). b.1) below,
      is_ip_banned_listed ip now (record_illegal_request ip t es).0
            (bump ip t (entry_or_blank ip es)).0 entry
          ∙ ap (λ (b : Entry × Option ℕ). ltb now b.0.ban_until) below
          ∙ ap (λ (x : Entry). ltb now x.ban_until) e,
    )

-- Five illegal requests of an address with no error counted: the fifth, and none before it, bans
-- the address, and from then on the address counts as banned for exactly 300 seconds.
pub fifth_request_bans :
    (ip : ℕ) (times : List ℕ) (t now : ℕ) (es : List Entry)
    → IsReady ip es
    → errors ip es ≡ 0
    → length times ≡ 4
    → let (before, bans) = illegal_all ip times es in
      let (after, ban) = record_illegal_request ip t before in
      All (λ b. b ≡ none) bans
      × (ban ≡ some ip)
      × ((is_ip_banned ip now after).0 ≡ ltb now (t + 300))
fifth_request_bans ip times t now es r clean four =
    let (bans, total, kept, ready) = illegal_below ip times es r (omega arith) in
    let before : List Entry = (illegal_all ip times es).0 in
    let (entry, banned) = record_entry ip t before ready.tidy ready.room in
    let reached = bump_reached ip t (entry_or_blank ip before) (omega (arith, total)) in
    (
      bans,
      banned ∙ ap (λ (b : Entry × Option ℕ). b.1) reached,
      is_ip_banned_listed ip now (record_illegal_request ip t before).0
            (bump ip t (entry_or_blank ip before)).0 entry
          ∙ ap (λ (b : Entry × Option ℕ). ltb now b.0.ban_until) reached,
    )
