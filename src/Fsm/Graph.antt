-- ===== src/Fsm/Graph.antt =====
-- The diagram of the states as a relation, for which transition_table stands.
use edge_omni.Common.{
  ◌≡◌, ◌≢◌, ◌↔◌, ◌⊎◌, inl, inr, refl, ap, ◌∙◌, sym, arith, Bool, true, false, List, [], ◌∷◌,
}
use edge_omni.Common.Int.{ℤ, pos, negsuc}
use edge_omni.Fsm.{
  State, init, running, degraded, recovering, fault, Event, init_ok, mpu_fail, i2c_deadlock,
  bus_recovered, bus_recover_fail, mpu_restored, all_offline, watchdog_reset, Context, transition,
  transition_table, of_code, code, run,
}

-- An arrow of the diagram: the state, the event, and the state that it leads to.
pub data Edge : State → Event → State → Type 0 where
  start : Edge init init_ok running
  lose_mpu : Edge running mpu_fail degraded
  regain_mpu : Edge degraded mpu_restored running
  deadlock : (s : State) → (s ≡ running) ⊎ (s ≡ degraded) → Edge s i2c_deadlock recovering
  recover : Edge recovering bus_recovered running
  give_up : Edge recovering bus_recover_fail fault
  offline : (s : State) → s ≢ fault → Edge s all_offline fault
  reset : Edge fault watchdog_reset init

-- `Path`s of the diagram.
pub data Reach (s : State) : State → Type 0 where
  here : Reach s s
  next : {t u : State} {e : Event} → Reach s t → Edge t e u → Reach s u

pub ruleset arrows = (start, lose_mpu, regain_mpu, deadlock, recover, give_up, offline, reset)

table_of : {s t : State} {e : Event} → Edge s e t → transition_table s e ≡ pos (code t)
unfolding transition_table
table_of start = refl
table_of lose_mpu = refl
table_of regain_mpu = refl
table_of (deadlock s h) = ground arith
table_of recover = refl
table_of give_up = refl
table_of (offline s h) = ground arith
table_of reset = refl

edge_of : (s : State) (e : Event) (t : State) → transition_table s e ≡ pos (code t) → Edge s e t
unfolding transition_table
edge_of init e t h = grind (arith, arrows)
edge_of running e t h = grind (arith, arrows)
edge_of degraded e t h = grind (arith, arrows)
edge_of recovering e t h = grind (arith, arrows)
edge_of fault e t h = grind (arith, arrows)

table_codes :
    (s : State) (e : Event)
    → (transition_table s e ≡ negsuc 0) ⊎ ((t : State) × (transition_table s e ≡ pos (code t)))
unfolding transition_table
table_codes init init_ok = inr (running, refl)
table_codes init all_offline = inr (fault, refl)
table_codes init _ = inl refl
table_codes running mpu_fail = inr (degraded, refl)
table_codes running i2c_deadlock = inr (recovering, refl)
table_codes running all_offline = inr (fault, refl)
table_codes running _ = inl refl
table_codes degraded i2c_deadlock = inr (recovering, refl)
table_codes degraded mpu_restored = inr (running, refl)
table_codes degraded all_offline = inr (fault, refl)
table_codes degraded _ = inl refl
table_codes recovering bus_recovered = inr (running, refl)
table_codes recovering bus_recover_fail = inr (fault, refl)
table_codes recovering all_offline = inr (fault, refl)
table_codes recovering _ = inl refl
table_codes fault watchdog_reset = inr (init, refl)
table_codes fault _ = inl refl

of_code-code : (t : State) → of_code (code t) ≡ t
of_code-code t = ground arith

abbrev pub moved : Context → State → Context
moved ctx t = record ctx { current = t }

taken :
    (ctx : Context) (e : Event) (t : State)
    → transition_table ctx.current e ≡ pos (code t)
    → transition ctx e ≡ (pos 0, true, moved ctx t)
unfolding transition
taken ctx e init h = rw h
taken ctx e running h = rw h
taken ctx e degraded h = rw h
taken ctx e recovering h = rw h
taken ctx e fault h = rw h

refused :
    (ctx : Context) (e : Event)
    → transition_table ctx.current e ≡ negsuc 0
    → transition ctx e ≡ (negsuc 0, false, ctx)
unfolding transition
refused ctx e h = rw h

-- An event is accepted exactly along an arrow of the diagram: the call returns 0, wakes the
-- waiters and changes the state to the arrow's end, and nothing else.
pub accepted_iff :
    (ctx : Context) (e : Event) (t : State)
    → (transition ctx e ≡ (pos 0, true, moved ctx t)) ↔ Edge ctx.current e t
accepted_iff ctx e t = (
  λ h. elim (table_codes ctx.current e) [
    | inl no_arrow ↦ absurd (cc (refused ctx e no_arrow))
    | inr (u, arrow) ↦
        let same : u ≡ t =
          ap (λ (r : ℤ × Bool × Context). r.2.current) (sym (taken ctx e u arrow) ∙ h) in
        edge_of ctx.current e t (rw (← same) arrow)
  ],
  λ arrow. taken ctx e t (table_of arrow),
)

-- An event with no arrow from the state is refused with -1, and nothing changes.
pub refused_iff :
    (ctx : Context) (e : Event)
    → (transition ctx e ≡ (negsuc 0, false, ctx)) ↔ ((t : State) → ¬ Edge ctx.current e t)
refused_iff ctx e = (
  λ h t arrow. cc (taken ctx e t (table_of arrow)),
  λ none_leads. elim (table_codes ctx.current e) [
    | inl no_arrow ↦ refused ctx e no_arrow
    | inr (u, arrow) ↦ absurd (none_leads u (edge_of ctx.current e u arrow))
  ],
)

-- Each call does one or the other.
pub transition-cases :
    (ctx : Context) (e : Event)
    → (transition ctx e ≡ (negsuc 0, false, ctx))
      ⊎ ((t : State) × Edge ctx.current e t × (transition ctx e ≡ (pos 0, true, moved ctx t)))
transition-cases ctx e = elim (table_codes ctx.current e) [
  | inl no_arrow ↦ inl (refused ctx e no_arrow)
  | inr (u, arrow) ↦ inr (u, edge_of ctx.current e u arrow, taken ctx e u arrow)
]

Reach-trans : {s t u : State} → Reach s t → Reach t u → Reach s u
Reach-trans r here = r
Reach-trans r (next q a) = next (Reach-trans r q) a

-- Any sequence of events leads along the diagram.
pub run-Reach : (ctx : Context) (es : List Event) → Reach ctx.current (run ctx es).current
unfolding run
run-Reach ctx [] = here
run-Reach ctx (e ∷ es) = elim (transition-cases ctx e) [
  | inl same ↦ rw (same, run) (run-Reach ctx es)
  | inr (t, arrow, went) ↦
      rw (went, run) (Reach-trans (next here arrow) (run-Reach (moved ctx t) es))
]

-- From every state there is a way back to RUNNING.
pub Reach-running : (s : State) → Reach s running
Reach-running init = next here start
Reach-running running = here
Reach-running degraded = next here regain_mpu
Reach-running recovering = next here recover
Reach-running fault = next (next here reset) start
