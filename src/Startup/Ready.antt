-- ===== src/Startup/Ready.antt =====
-- app/main.c, main: what holds once all parts have been started.
use edge_omni.Common.{◌≡◌, ◌↔◌, refl, true, false, some, length, All}
use edge_omni.Common.Int.{pos}
use edge_omni.Fsm.{running, Context}
use edge_omni.Database.{batch_size}
use edge_omni.Database.Open.{opens, is_open, set_up}
use edge_omni.Database.Batch.{IsOpen, in_transaction}
use edge_omni.Database.Repair.{db_check_and_repair}
use edge_omni.Modbus.{cleared}
use edge_omni.Startup.{
  Answers, Boot, read_args, init_fsm, init_db, repair_db, go_running, create_collector, create_web,
  create_watchdog, start_modbus, write_flag, steps, main,
}
use edge_omni.Startup.Steps.{
  AllGo, after_steps, run_steps_iff, is_zero_iff, init_fsm_lem, init_db_lem, repair_db_lem,
  go_running_lem, start_modbus_lem,
}

-- The answers with which each step succeeds; the check of the file is of the one that is there.
abbrev pub AllAnswer : Answers → Boot → Type 0
AllAnswer a b =
    ((a.mutex_ok ≡ true) × (a.cond_ok ≡ true))
    × ((a.opening ≡ opens) × All (λ q. a.runs q ≡ true) set_up)
    × ((db_check_and_repair a.integrity a.renames a.reopening
          (record b.files { usable = is_open a.opening })).0
        ≡ pos 0)
    × (a.collector_ok ≡ true)
    × (a.web_ok ≡ true)
    × (a.watchdog_ok ≡ true)
    × ((a.modbus_ctx_ok ≡ true) × (a.modbus_mapping_ok ≡ true) × (a.modbus_thread_ok ≡ true))

abbrev pub IsReady : Boot → Type 0
IsReady b =
    ((ctx : Context) × (b.fsm ≡ some ctx) × (ctx.current ≡ running))
    × IsOpen b.db
    × (b.files.usable ≡ true)
    × (b.collector ≡ true)
    × (b.web ≡ true)
    × (b.watchdog ≡ true)
    × (b.modbus.server.blacklist ≡ cleared)

-- Before `main`, as the variables are initialised.
abbrev pub IsInitial : Boot → Type 0
IsInitial b =
    (length b.db.batch_buffer ≡ batch_size) × (in_transaction false b.db.calls ≡ some false)

AllGo-iff : (a : Answers) (b : Boot) → IsInitial b → AllGo (steps a) b ↔ AllAnswer a b
unfolding read_args init_fsm init_db repair_db go_running create_collector create_web
    create_watchdog write_flag
AllGo-iff a b initial =
    let b1 = (read_args a b).1 in
    let b2 = (init_fsm a b1).1 in
    let b3 = (init_db a b2).1 in
    let b8 =
      (create_watchdog a
        (create_web a (create_collector a (go_running (repair_db a b3).1).1).1).1).1 in
    let machine = (init_fsm_lem a b1).0 in
    let database = (init_db_lem a b2 initial.0 initial.1).0 in
    let repair = is_zero_iff (db_check_and_repair a.integrity a.renames a.reopening b3.files).0 in
    let modbus = (start_modbus_lem a b8).0 in
    (
      (λ (r, (f, (d, (p, (g, (c, (w, (m, (s, (o, end)))))))))).
          (machine.0 f, database.0 d, repair.0 p, c, w, m, modbus.0 s)),
      (λ (f, d, p, c, w, m, s). (
        refl,
        (
          machine.1 f,
          (database.1 d, (repair.1 p, (refl, (c, (w, (m, (modbus.1 s, (refl, tt)))))))),
        ),
      )),
    )

after_steps-IsReady :
    (a : Answers) (b : Boot) → IsInitial b → AllGo (steps a) b → IsReady (after_steps (steps a) b)
unfolding read_args init_fsm init_db repair_db go_running create_collector create_web
    create_watchdog start_modbus write_flag
after_steps-IsReady a b initial (r, (f, (d, (p, (g, (c, (w, (m, (s, (o, end)))))))))) =
    let b1 = (read_args a b).1 in
    let b2 = (init_fsm a b1).1 in
    let b3 = (init_db a b2).1 in
    let b4 = (repair_db a b3).1 in
    let b8 = (create_watchdog a (create_web a (create_collector a (go_running b4).1).1).1).1 in
    let (ctx, there, first) = (init_fsm_lem a b1).1 in
    let (is_open, usable) = (init_db_lem a b2 initial.0 initial.1).1 d in
    (
      go_running_lem b4 ctx there first,
      is_open,
      repair_db_lem a b3 usable p,
      c,
      w,
      m,
      (start_modbus_lem a b8).1,
    )

-- With the places of the batch there and no transaction begun, main comes to its end of the
-- start-up exactly if every part can be made: the mutex and the condition variable, the database
-- with its five statements, the check or repair of its file, the four threads and the objects of
-- libmodbus. It then has the state machine in RUNNING, a database that takes samples, and an empty
-- blacklist.
pub main_iff :
    (a : Answers) (b : Boot)
    → IsInitial b
    → (((main a b).0 ≡ true) ↔ AllAnswer a b) × ((main a b).0 ≡ true → IsReady (main a b).1)
unfolding main
main_iff a b initial =
    let (goes, ends) = run_steps_iff (steps a) b in
    let (all_there, all_back) = AllGo-iff a b initial in
    (
      ((λ h. all_there (goes.0 h)), (λ h. goes.1 (all_back h))),
      (λ h. rw (ends h) (after_steps-IsReady a b initial (goes.0 h))),
    )
