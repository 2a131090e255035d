-- ===== src/Modbus/Entries.antt =====
-- The entry of an address in the blacklist, and what the two operations do to it.
use edge_omni.Common.{
  ℕ, zero, suc, ◌+◌, ◌<◌, ◌≡◌, ◌≢◌, ◌⊎◌, ◌∙◌, inl, inr, refl, sym, ap, arith, false, Option, none,
  some, List, [], ◌∷◌, ltb, ◌==◌, ==_iff, if◌then◌else◌, Bool-cases, Option-cases, length, All,
}
use edge_omni.Modbus.{Entry, blank, is_ip_banned, find_slot, change, bump, record_illegal_request}

-- The first entry with the address.
abbrev pub entry_of : ℕ → List Entry → Option Entry
entry_of ip [] = none
entry_of ip (e ∷ es) = let later = entry_of ip es in if e.ip_addr == ip then some e else later

-- A free entry has nothing counted.
abbrev pub IsTidy : Entry → Type 0
IsTidy e = e.ip_addr ≡ 0 → e ≡ blank

pub ip_addr-bump : (ip now : ℕ) (e : Entry) → (bump ip now e).0.ip_addr ≡ ip
unfolding bump
ip_addr-bump ip now e = ground arith

module _ (ip : ℕ) where
  -- A listed address is found, whatever slot the loop has in hand, and its entry is the one that
  -- changes.
  known_slot :
      (es : List Entry) (e : Entry)
      → entry_of ip es ≡ some e
      → (k : ℕ) × ((i : ℕ) (slot : Option ℕ) → find_slot ip i slot es ≡ some (i + k))
        × ((f : Entry → Entry × Option ℕ)
            → (f e).0.ip_addr ≡ ip
            → entry_of ip (change f k es).0 ≡ some (f e).0)
        × ((f : Entry → Entry × Option ℕ) → (change f k es).1 ≡ (f e).1)
  unfolding find_slot change
  known_slot [] e h = absurd (cc)
  known_slot (x ∷ es) e h = elim (Bool-cases (x.ip_addr == ip)) [
    | inl here ↦
        let same : x ≡ e = ground arith in
        (
          0,
          (λ i slot. rw here (ap some (omega arith))),
          (λ f keeps. rw (same, (==_iff _ _).1 keeps)),
          (λ f. rw same),
        )
    | inr there ↦
        let (k, found, changed, told) = known_slot es e (ground arith) in
        (
          suc k,
          (λ i slot. rw (there, found) (ap some (omega arith))),
          (λ f keeps. rw there (changed f keeps)),
          told,
        )
  ]

  -- What an illegal request does to the entry of an address that is listed.
  pub record_known :
      (now : ℕ) (es : List Entry) (e : Entry)
      → entry_of ip es ≡ some e
      → (entry_of ip (record_illegal_request ip now es).0 ≡ some (bump ip now e).0)
        × ((record_illegal_request ip now es).1 ≡ (bump ip now e).1)
  unfolding record_illegal_request
  record_known now es e h =
      let (k, found, changed, told) = known_slot es e h in
      let slot : find_slot ip 0 none es ≡ some k = found 0 none ∙ ap some (omega arith) in
      rw (slot, record_illegal_request)
        (changed (bump ip now) (ip_addr-bump ip now e), told (bump ip now))

  held_slot :
      (es : List Entry) (i s : ℕ) → entry_of ip es ≡ none → find_slot ip i (some s) es ≡ some s
  unfolding find_slot
  held_slot [] i s h = refl
  held_slot (x ∷ es) i s h = elim (Bool-cases (x.ip_addr == ip)) [
    | inl here ↦ absurd (ground arith)
    | inr there ↦ rw there (held_slot es (i + 1) s (ground arith))
  ]

  -- An address that is not listed gets the first free entry, if there is one.
  free_slot :
      (es : List Entry)
      → All IsTidy es
      → entry_of ip es ≡ none
      → (((i : ℕ) → find_slot ip i none es ≡ none))
        ⊎ ((k : ℕ) × ((i : ℕ) → find_slot ip i none es ≡ some (i + k))
            × ((f : Entry → Entry × Option ℕ)
                → (f blank).0.ip_addr ≡ ip
                → entry_of ip (change f k es).0 ≡ some (f blank).0)
            × ((f : Entry → Entry × Option ℕ) → (change f k es).1 ≡ (f blank).1))
  unfolding find_slot change
  free_slot [] t h = inl (λ i. refl)
  free_slot (x ∷ es) t h =
      let there : (x.ip_addr == ip) ≡ false = ground arith in
      let later : entry_of ip es ≡ none = ground arith in
      elim (Bool-cases (x.ip_addr == 0)) [
        | inl free ↦
            let is_blank : x ≡ blank = t.0 (ground arith) in
            inr (
              0,
              (λ i. rw (there, free) (held_slot es (i + 1) i later ∙ ap some (omega arith))),
              (λ f keeps. rw (is_blank, (==_iff _ _).1 keeps)),
              (λ f. rw is_blank),
            )
        | inr taken ↦ elim (free_slot es t.1 later) [
          | inl full ↦ inl (λ i. rw (there, taken) (full (i + 1)))
          | inr (k, found, changed, told) ↦ inr (
            suc k,
            (λ i. rw (there, taken) (found (i + 1) ∙ ap some (omega arith))),
            (λ f keeps. rw there (changed f keeps)),
            told,
          )
        ]
      ]

  -- What an illegal request does to an address that is not listed: with no free entry the first
  -- entry is lost.
  record_unlisted :
      (now : ℕ) (es : List Entry)
      → All IsTidy es
      → 0 < length es
      → entry_of ip es ≡ none
      → (entry_of ip (record_illegal_request ip now es).0 ≡ some (bump ip now blank).0)
        × ((record_illegal_request ip now es).1 ≡ (bump ip now blank).1)
  unfolding record_illegal_request
  record_unlisted now [] t some_entry h = absurd (omega arith)
  record_unlisted now (x ∷ es) t some_entry h = elim (free_slot (x ∷ es) t h) [
    | inl full ↦
        rw (full 0, record_illegal_request, change, (==_iff _ _).1 (ip_addr-bump ip now blank))
          (refl, refl)
    | inr (k, found, changed, told) ↦
        let slot : find_slot ip 0 none (x ∷ es) ≡ some k = found 0 ∙ ap some (omega arith) in
        rw (slot, record_illegal_request)
          (changed (bump ip now) (ip_addr-bump ip now blank), told (bump ip now))
  ]

abbrev pub entry_or_blank : ℕ → List Entry → Entry
entry_or_blank ip es = elim (entry_of ip es) [ none ↦ blank | some e ↦ e ]

-- In either case the address has an entry afterwards, with the errors counted from those before.
pub record_entry :
    (ip now : ℕ) (es : List Entry)
    → All IsTidy es
    → 0 < length es
    → (entry_of ip (record_illegal_request ip now es).0
        ≡ some (bump ip now (entry_or_blank ip es)).0)
      × ((record_illegal_request ip now es).1 ≡ (bump ip now (entry_or_blank ip es)).1)
record_entry ip now es t some_entry = elim (Option-cases (entry_of ip es)) [
  | inl none_there ↦
      rw (none_there, entry_or_blank) (record_unlisted ip now es t some_entry none_there)
  | inr (e, there) ↦ rw (there, entry_or_blank) (record_known ip now es e there)
]

change-IsTidy :
    (ip : ℕ) (f : Entry → Entry × Option ℕ) (k : ℕ) (es : List Entry)
    → ip ≢ 0
    → ((e : Entry) → (f e).0.ip_addr ≡ ip)
    → All IsTidy es
    → All IsTidy (change f k es).0 × (length (change f k es).0 ≡ length es)
unfolding change
change-IsTidy ip f k [] h keeps t = (tt, refl)
change-IsTidy ip f zero (x ∷ es) h keeps t = (((λ z. absurd (h (sym (keeps x) ∙ z))), t.1), refl)
change-IsTidy ip f (suc k) (x ∷ es) h keeps t =
    let (tidy, long) = change-IsTidy ip f k es h keeps t.1 in ((t.0, tidy), ap suc long)

-- A recorded request leaves free entries blank and the table as long as it is.
pub record-IsTidy :
    (ip now : ℕ) (es : List Entry)
    → ip ≢ 0
    → All IsTidy es
    → All IsTidy (record_illegal_request ip now es).0
      × (length (record_illegal_request ip now es).0 ≡ length es)
unfolding record_illegal_request
record-IsTidy ip now es h t = elim (Option-cases (find_slot ip 0 none es)) [
  | inl full ↦
      rw (full, record_illegal_request)
        (change-IsTidy ip (λ e. bump ip now blank) 0 es h (λ e. ip_addr-bump ip now blank) t)
  | inr (k, slot) ↦
      rw (slot, record_illegal_request)
        (change-IsTidy ip (bump ip now) k es h (λ e. ip_addr-bump ip now e) t)
]

-- The check of an address that is listed.
pub is_ip_banned_listed :
    (ip now : ℕ) (es : List Entry) (e : Entry)
    → entry_of ip es ≡ some e
    → (is_ip_banned ip now es).0 ≡ ltb now e.ban_until
unfolding is_ip_banned
is_ip_banned_listed ip now [] e h = absurd (cc)
is_ip_banned_listed ip now (x ∷ es) e h = ground (arith, is_ip_banned_listed ip now es e)
