-- ===== src/Modbus/Firewall.antt =====
-- app/modbus/modbus_server.c: the rules of iptables that bans add and that the stop deletes. iptables
-- is given by what its manual says of -A and -D.
use edge_omni.Common.{
  ℕ, zero, suc, ◌≡◌, ◌≢◌, ◌∙◌, refl, ap, Bool, true, false, Option, none, some, List, [], ◌∷◌, All,
}
use edge_omni.Modbus.{modbus_port}

-- A rule of the chain INPUT that drops packets of tcp: from a source, or from any, to a port.
pub record Rule : Type 0 where
  pub source : Option ℕ
  pub dport : ℕ

-- -A adds a rule at the end of the chain; -D deletes the first rule that is equal to the one given,
-- and fails where there is none.
pub record Iptables {ℓ} (Rules : Type ℓ) : Type ℓ where
  pub append : Rule → Rules → Rules
  pub delete : Rule → Rules → Option Rules
  pub has : Rule → Rules → Bool
  pub delete_absent : (r : Rule) (rules : Rules) → has r rules ≡ false → delete r rules ≡ none
  pub append_has : (r : Rule) (rules : Rules) → has r (append r rules) ≡ true
  pub append_keeps :
      (r q : Rule) (rules : Rules) → has r rules ≡ true → has r (append q rules) ≡ true
  pub append_other : (r q : Rule) (rules : Rules) → r ≢ q → has r (append q rules) ≡ has r rules

-- `iptables -A INPUT -s ADDRESS -p tcp --dport 502 -j DROP`
abbrev pub ban_rule : ℕ → Rule
ban_rule ip = record { source = some ip; dport = modbus_port }

-- `iptables -D INPUT -p tcp --dport 502 -j DROP`
abbrev pub cleared_rule : Rule
cleared_rule = record { source = none; dport = modbus_port }

module _ {ℓ} {Rules : Type ℓ} (ipt : Iptables Rules) where
  -- The rules after the bans of a log, its newest first.
  unfoldable pub ban_all : List ℕ → Rules → Rules
  ban_all [] rules = rules
  ban_all (ip ∷ ips) rules = ipt.append (ban_rule ip) (ban_all ips rules)

  -- `clear_iptables_rules`, for a number of runs of the command: the rules, and whether the loop has
  -- ended.
  unfoldable pub delete_loop : ℕ → Rules → Rules × Bool
  delete_loop zero rules = (rules, false)
  delete_loop (suc n) rules = elim (ipt.delete cleared_rule rules) [
    | none ↦ (rules, true)
    | some rules' ↦ delete_loop n rules'
  ]

  no_cleared_rule :
      (ips : List ℕ) (rules : Rules)
      → ipt.has cleared_rule rules ≡ false
      → ipt.has cleared_rule (ban_all ips rules) ≡ false
  unfolding ban_all
  no_cleared_rule [] rules h = h
  no_cleared_rule (ip ∷ ips) rules h =
      ipt.append_other cleared_rule (ban_rule ip) (ban_all ips rules) differs
      ∙ no_cleared_rule ips rules h
    where
      differs : cleared_rule ≢ ban_rule ip
      differs same =
          let e : ◌≡◌ {A = Option ℕ} none (some ip) = ap (λ (r : Rule). r.source) same in
          absurd (cc)

  every_ban_there :
      (ips : List ℕ) (rules : Rules)
      → All (λ ip. ipt.has (ban_rule ip) (ban_all ips rules) ≡ true) ips
  unfolding ban_all
  every_ban_there [] rules = tt
  every_ban_there (ip ∷ ips) rules =
      (ipt.append_has (ban_rule ip) (ban_all ips rules), later ips (every_ban_there ips rules))
    where
      later :
          (js : List ℕ)
          → All (λ j. ipt.has (ban_rule j) (ban_all ips rules) ≡ true) js
          → All (λ j. ipt.has (ban_rule j) (ipt.append (ban_rule ip) (ban_all ips rules)) ≡ true) js
      later [] h = tt
      later (j ∷ js) h =
          (ipt.append_keeps (ban_rule j) (ban_rule ip) (ban_all ips rules) h.0, later js h.1)

  -- If iptables has no rule for every source at first, the loop of the stop ends at its first run
  -- and deletes nothing, whatever has been banned: every banned address is still shut out.
  pub bans_survive_stop :
      (rules : Rules)
      → ipt.has cleared_rule rules ≡ false
      → (ips : List ℕ) (n : ℕ)
      → (delete_loop (suc n) (ban_all ips rules) ≡ (ban_all ips rules, true))
        × All (λ ip. ipt.has (ban_rule ip) (ban_all ips rules) ≡ true) ips
  unfolding delete_loop
  bans_survive_stop rules h ips n = (
    rw
        (
          ipt.delete_absent cleared_rule (ban_all ips rules) (no_cleared_rule ips rules h),
          delete_loop,
        )
        refl,
    every_ban_there ips rules,
  )
