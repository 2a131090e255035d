-- ===== src/Startup/Steps.antt =====
-- What each step of the start-up leaves.
use edge_omni.Common.{
  ◌≡◌, ◌↔◌, ◌∙◌, inl, inr, refl, ap, arith, Bool, true, false, ◌&&◌, Option, some, List, [], ◌∷◌,
  if◌then◌else◌, length, All, Bool-cases,
}
use edge_omni.Common.Int.{ℤ, pos, negsuc}
use edge_omni.Fsm.{init, running, Context, init_ok, transition, fsm_transition}
use edge_omni.Fsm.Laws.{fsm_init_lem}
use edge_omni.Database.{batch_size}
use edge_omni.Database.Open.{opens, is_open, set_up, db_init_cases}
use edge_omni.Database.Batch.{IsOpen, in_transaction}
use edge_omni.Database.Repair.{db_check_and_repair_cases}
use edge_omni.Modbus.{cleared}
use edge_omni.Modbus.Server.{modbus_server_start}
use edge_omni.Startup.{
  Answers, Boot, Step, is_zero, init_fsm, init_db, repair_db, go_running, start_modbus, run_steps,
}

-- The steps one after the other, each from where the last has led.
abbrev pub AllGo : List Step → Boot → Type 0
AllGo [] b = Unit
AllGo (s ∷ ss) b = ((s b).0 ≡ true) × AllGo ss (s b).1

abbrev pub after_steps : List Step → Boot → Boot
after_steps [] b = b
after_steps (s ∷ ss) b = after_steps ss (s b).1

-- A run goes on exactly if each of its steps does, and then it ends where they lead.
pub run_steps_iff :
    (ss : List Step) (b : Boot)
    → (((run_steps ss b).0 ≡ true) ↔ AllGo ss b)
      × ((run_steps ss b).0 ≡ true → (run_steps ss b).1 ≡ after_steps ss b)
unfolding run_steps
run_steps_iff [] b = (((λ h. tt), (λ h. refl)), (λ h. refl))
run_steps_iff (s ∷ ss) b =
    let (there, same) = run_steps_iff ss (s b).1 in
    elim (Bool-cases (s b).0) [
      | inl on ↦ rw on (((λ h. (refl, there.0 h)), (λ h. there.1 h.1)), same)
      | inr stop ↦ rw stop (((λ h. absurd (cc)), (λ h. absurd (cc (h.0)))), (λ h. absurd (cc)))
    ]

pub is_zero_iff : (v : ℤ) → (is_zero v ≡ true) ↔ (v ≡ pos 0)
is_zero_iff v = ground arith

and_zero_iff :
    (x y : Bool) → (is_zero (if x && y then pos 0 else negsuc 0) ≡ true) ↔ ((x ≡ true) × (y ≡ true))
and_zero_iff x y = ground arith

-- The context after `fsm_init` is in INIT, whether or not it has succeeded.
pub init_fsm_lem :
    (a : Answers) (b : Boot)
    → (((init_fsm a b).0 ≡ true) ↔ ((a.mutex_ok ≡ true) × (a.cond_ok ≡ true)))
      × ((ctx : Context) × ((init_fsm a b).1.fsm ≡ some ctx) × (ctx.current ≡ init))
unfolding init_fsm
init_fsm_lem a b =
    let whole = fsm_init_lem a.memory a.mutex_ok a.cond_ok in
    rw whole (and_zero_iff a.mutex_ok a.cond_ok, (_, refl, refl))

pub init_db_lem :
    (a : Answers) (b : Boot)
    → length b.db.batch_buffer ≡ batch_size
    → in_transaction false b.db.calls ≡ some false
    → (((init_db a b).0 ≡ true) ↔ ((a.opening ≡ opens) × All (λ q. a.runs q ≡ true) set_up))
      × ((init_db a b).0 ≡ true → IsOpen (init_db a b).1.db × ((init_db a b).1.files.usable ≡ true))
unfolding init_db
init_db_lem a b places balanced = elim (db_init_cases a.opening a.runs a.now b.db places balanced) [
  | inl (ret, well, is_ready, same) ↦
      rw ret (((λ h. well), (λ h. refl)), (λ h. (is_ready, ap is_open well.0)))
  | inr (ret, not_well) ↦
      rw ret (((λ h. absurd (cc)), (λ h. absurd (not_well h))), (λ h. absurd (cc)))
]

pub repair_db_lem :
    (a : Answers) (b : Boot)
    → b.files.usable ≡ true
    → (repair_db a b).0 ≡ true
    → (repair_db a b).1.files.usable ≡ true
unfolding repair_db
repair_db_lem a b usable on =
    elim (db_check_and_repair_cases a.integrity a.renames a.reopening b.files usable) [
      | inl (ret, still, how) ↦ still
      | inr (ret, _, _) ↦ absurd (cc (on, ap is_zero ret))
    ]

init_ok_runs :
    (ctx : Context)
    → ctx.current ≡ init
    → (fsm_transition (some ctx) init_ok).2 ≡ some record ctx { current = running }
unfolding fsm_transition transition
init_ok_runs ctx first = rw first (refl)

pub go_running_lem :
    (b : Boot) (ctx : Context)
    → b.fsm ≡ some ctx
    → ctx.current ≡ init
    → (ctx' : Context) × ((go_running b).1.fsm ≡ some ctx') × (ctx'.current ≡ running)
unfolding go_running fsm_transition transition
go_running_lem b ctx there first = (
  record ctx { current = running },
  ap (λ (f : Option Context). (fsm_transition f init_ok).2) there ∙ init_ok_runs ctx first,
  refl,
)

-- The server starts with a cleared blacklist, or not at all.
pub start_modbus_lem :
    (a : Answers) (b : Boot)
    → (((start_modbus a b).0 ≡ true)
        ↔ ((a.modbus_ctx_ok ≡ true) × (a.modbus_mapping_ok ≡ true) × (a.modbus_thread_ok ≡ true)))
      × ((start_modbus a b).1.modbus.server.blacklist ≡ cleared)
unfolding start_modbus modbus_server_start
start_modbus_lem a b = elim (Bool-cases a.modbus_ctx_ok) [
  | inl c ↦ elim (Bool-cases a.modbus_mapping_ok) [
    | inl m ↦ elim (Bool-cases a.modbus_thread_ok) [
      | inl t ↦ rw (c, m, t) (((λ h. (refl, refl, refl)), (λ h. refl)), refl)
      | inr t ↦ rw (c, m, t) (((λ h. absurd (cc)), (λ h. absurd (cc (h.2)))), refl)
    ]
    | inr m ↦ rw (c, m) (((λ h. absurd (cc)), (λ h. absurd (cc (h.1)))), refl)
  ]
  | inr c ↦ rw c (((λ h. absurd (cc)), (λ h. absurd (cc (h.0)))), refl)
]
