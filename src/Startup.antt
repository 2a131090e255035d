-- ===== src/Startup.antt =====
-- app/main.c, main: the order in which the parts are started, and where it gives up. What the system
-- answers to each step is given; the threads that have been created run on their own and are no part
-- of the state here.
pub mod Steps
pub mod Ready
pub mod System
pub mod Alive
pub mod EndToEnd
mod Tests
use Prim.Native.String.{String}
use text.Mathlib.Text.{◌==◌ as str_eq}
use edge_omni.Common.{
  ℕ, zero, suc, Bool, true, false, Option, none, some, List, [], ◌∷◌, if◌then◌else◌,
}
use edge_omni.Common.Int.{ℤ, pos, negsuc}
use edge_omni.Fsm.{Context, init_ok, fsm_init, fsm_transition}
use edge_omni.Database.{Timespec, Statement, Db}
use edge_omni.Database.Open.{Opening, is_open, db_init}
use edge_omni.Database.Repair.{Integrity, Files, db_check_and_repair}
use edge_omni.Modbus.Server.{Globals, modbus_server_start}

-- The answers, in the order of the steps.
pub record Answers : Type 0 where
  pub args : List String
  pub memory : Context
  pub mutex_ok : Bool
  pub cond_ok : Bool
  pub opening : Opening
  pub runs : Statement → Bool
  pub now : Timespec
  pub integrity : Integrity
  pub renames : Bool
  pub reopening : Opening
  pub collector_ok : Bool
  pub web_ok : Bool
  pub watchdog_ok : Bool
  pub modbus_ctx_ok : Bool
  pub modbus_mapping_ok : Bool
  pub modbus_thread_ok : Bool
  pub flag_opens : Bool

-- What has been started, and the variables of the parts. The contents of a file are its bytes.
pub record Boot : Type 0 where
  pub test_mode : Bool
  pub fsm : Option Context
  pub db : Db
  pub files : Files (List ℕ)
  pub collector : Bool
  pub web : Bool
  pub watchdog : Bool
  pub modbus : Globals
  pub ota_flag : Bool

-- A step goes on, or exits with EXIT_FAILURE.
abbrev pub Step : Type 0
Step = Boot → Bool × Boot

-- `ret == 0`
abbrev pub is_zero : ℤ → Bool
is_zero (pos zero) = true
is_zero (pos (suc n)) = false
is_zero (negsuc n) = false

-- `argc > 1 && strcmp(argv[1], "--test-watchdog") == 0`
abbrev pub asks_test_mode : List String → Bool
asks_test_mode [] = false
asks_test_mode (program ∷ []) = false
asks_test_mode (program ∷ arg ∷ args) = str_eq arg "--test-watchdog"

unfoldable pub read_args : Answers → Step
read_args a b = (true, record b { test_mode = if asks_test_mode a.args then true else b.test_mode })

unfoldable pub init_fsm : Answers → Step
init_fsm a b =
    let (ret, ctx) = fsm_init (some a.memory) a.mutex_ok a.cond_ok in
    (is_zero ret, record b { fsm = ctx })

unfoldable pub init_db : Answers → Step
init_db a b =
    let (ret, db') = db_init a.opening a.runs a.now b.db in
    (is_zero ret, record b { db = db'; files = record b.files { usable = is_open a.opening } })

unfoldable pub repair_db : Answers → Step
repair_db a b =
    let (ret, files') = db_check_and_repair a.integrity a.renames a.reopening b.files in
    (is_zero ret, record b { files = files' })

-- The result of the transition is not looked at.
unfoldable pub go_running : Step
go_running b =
    let (ret, woken, ctx) = fsm_transition b.fsm init_ok in (true, record b { fsm = ctx })

unfoldable pub create_collector : Answers → Step
create_collector a b = (a.collector_ok, record b { collector = a.collector_ok })

unfoldable pub create_web : Answers → Step
create_web a b = (a.web_ok, record b { web = a.web_ok })

unfoldable pub create_watchdog : Answers → Step
create_watchdog a b = (a.watchdog_ok, record b { watchdog = a.watchdog_ok })

unfoldable pub start_modbus : Answers → Step
start_modbus a b =
    let (ret, g) =
      modbus_server_start a.modbus_ctx_ok a.modbus_mapping_ok a.modbus_thread_ok b.modbus in
    (is_zero ret, record b { modbus = g })

-- A flag that cannot be written is only reported.
unfoldable pub write_flag : Answers → Step
write_flag a b = (true, record b { ota_flag = if a.flag_opens then true else b.ota_flag })

unfoldable pub run_steps : List Step → Step
run_steps [] b = (true, b)
run_steps (s ∷ ss) b =
    let (goes_on, b') = s b in let rest = run_steps ss b' in if goes_on then rest else (false, b')

abbrev pub steps : Answers → List Step
steps a =
    read_args a
    ∷ init_fsm a
    ∷ init_db a
    ∷ repair_db a
    ∷ go_running
    ∷ create_collector a
    ∷ create_web a
    ∷ create_watchdog a
    ∷ start_modbus a
    ∷ write_flag a
    ∷ []

-- `main` up to its first `pthread_join`.
unfoldable pub main : Answers → Step
unfolding run_steps
main a = run_steps (steps a)
