-- ===== src/Modbus/Tests/Chain.antt =====
-- The rules of iptables as a list, with what -A and -D do to it.
use edge_omni.Common.{
  ℕ, ◌≡◌, ◌≢◌, refl, ap, arith, Bool, true, false, ◌&&◌, ◌||◌, Option, none, some, List, [], ◌∷◌,
  ◌++◌, ◌==◌, if◌then◌else◌, Bool-cases, inl, inr,
}
use edge_omni.Modbus.Firewall.{Rule, Iptables}

abbrev same_source : Option ℕ → Option ℕ → Bool
same_source none none = true
same_source none (some b) = false
same_source (some a) none = false
same_source (some a) (some b) = a == b

abbrev same_rule : Rule → Rule → Bool
same_rule r q = same_source r.source q.source && r.dport == q.dport

unfoldable pub has_rule : Rule → List Rule → Bool
has_rule r [] = false
has_rule r (q ∷ qs) = same_rule r q || has_rule r qs

unfoldable pub delete_rule : Rule → List Rule → Option (List Rule)
delete_rule r [] = none
delete_rule r (q ∷ qs) =
    let rest = delete_rule r qs in
    if same_rule r q then some qs else elim rest [ none ↦ none | some left ↦ some (q ∷ left) ]

pub delete_rule_absent :
    (r : Rule) (qs : List Rule) → has_rule r qs ≡ false → delete_rule r qs ≡ none
unfolding has_rule delete_rule
delete_rule_absent r [] h = refl
delete_rule_absent r (q ∷ qs) h =
    let differs : same_rule r q ≡ false = ground arith in
    let rest : has_rule r qs ≡ false = ground arith in
    rw (differs, delete_rule_absent r qs rest) refl

same_rule_refl :
    (source : Option ℕ) (dport : ℕ)
    → same_rule
        (record { source = source; dport = dport })
        (record { source = source; dport = dport })
      ≡ true
same_rule_refl none dport = ground arith
same_rule_refl (some a) dport = ground arith

same_rule_eq : (r q : Rule) → same_rule r q ≡ true → r ≡ q
same_rule_eq r q h = go r.source q.source r.dport q.dport h
  where
    go :
        (a b : Option ℕ) (m n : ℕ)
        → same_rule (record { source = a; dport = m }) (record { source = b; dport = n }) ≡ true
        → ◌≡◌ {A = Rule} (record { source = a; dport = m }) (record { source = b; dport = n })
    go none none m n h = ground arith
    go none (some b) m n h = absurd (cc)
    go (some a) none m n h = absurd (cc)
    go (some a) (some b) m n h = ground arith

pub has_rule-append_here : (r : Rule) (qs : List Rule) → has_rule r (qs ++ r ∷ []) ≡ true
unfolding has_rule
has_rule-append_here r [] = ground (arith, same_rule_refl r.source r.dport)
has_rule-append_here r (q ∷ qs) = ground (arith, has_rule-append_here r qs)

pub has_rule-append_keeps :
    (r q : Rule) (qs : List Rule) → has_rule r qs ≡ true → has_rule r (qs ++ q ∷ []) ≡ true
unfolding has_rule
has_rule-append_keeps r q [] h = absurd (cc)
has_rule-append_keeps r q (p ∷ qs) h = elim (Bool-cases (same_rule r p)) [
  | inl here ↦ rw here refl
  | inr other ↦
      let rest : has_rule r qs ≡ true = ground arith in
      rw (other, has_rule-append_keeps r q qs rest) refl
]

pub has_rule-append_other :
    (r q : Rule) (qs : List Rule) → r ≢ q → has_rule r (qs ++ q ∷ []) ≡ has_rule r qs
unfolding has_rule
has_rule-append_other r q [] h = elim (Bool-cases (same_rule r q)) [
  | inl same ↦ absurd (h (same_rule_eq r q same))
  | inr other ↦ rw other refl
]
has_rule-append_other r q (p ∷ qs) h = ap (λ b. same_rule r p || b) (has_rule-append_other r q qs h)

abbrev pub chain : Iptables (List Rule)
chain = record {
  append = λ r qs. qs ++ r ∷ [];
  delete = delete_rule;
  has = has_rule;
  delete_absent = delete_rule_absent;
  append_has = has_rule-append_here;
  append_keeps = has_rule-append_keeps;
  append_other = has_rule-append_other;
}
