-- ===== src/Fsm.antt =====
-- app/core/fsm.c and app/include/fsm.h: the states of the system, the transition table and the
-- operations on the context. A function that changes `*ctx` returns the new context. The lines that
-- are printed are left out; a call with a null pointer is `none`.
pub mod Wait
pub mod Graph
pub mod Laws
mod Tests
use Prim.Native.String.{String}
use edge_omni.Common.{
  ℕ, zero, suc, Bool, true, false, not, ◌||◌, Option, none, some, List, [], ◌∷◌, leb, if◌then◌else◌,
}
use edge_omni.Common.Int.{ℤ, pos, negsuc, is_neg, pos_part}

-- `system_state_t`
pub data State : Type 0 where
  init running degraded recovering fault : State

-- `fsm_event_t`
pub data Event : Type 0 where
  init_ok mpu_fail i2c_deadlock bus_recovered bus_recover_fail : Event
  mpu_restored all_offline watchdog_reset : Event

-- The numbers of the states, and STATE_MAX.
abbrev pub code : State → ℕ
code init = 0
code running = 1
code degraded = 2
code recovering = 3
code fault = 4

abbrev pub state_max : ℕ
state_max = 5

pub State-discrete : Discrete State
State-discrete = hlevel

-- `fsm_context_t`. The counters are the bit patterns of `atomic_int`; `lock` and `cond` say whether
-- the mutex and the condition variable are initialised.
pub record Context : Type 0 where
  pub current : State
  pub lock : Bool
  pub cond : Bool
  pub mpu_fail_count : ℕ
  pub i2c_retry_count : ℕ
  pub temp_raw : ℤ
  pub hum_raw : ℤ

abbrev rejected : ℤ
rejected = negsuc 0

-- `transition_table`, a row to a state: the number of the next state, or -1.
transition_table : State → Event → ℤ
transition_table init init_ok = pos 1
transition_table init all_offline = pos 4
transition_table init _ = rejected
transition_table running mpu_fail = pos 2
transition_table running i2c_deadlock = pos 3
transition_table running all_offline = pos 4
transition_table running _ = rejected
transition_table degraded i2c_deadlock = pos 3
transition_table degraded mpu_restored = pos 1
transition_table degraded all_offline = pos 4
transition_table degraded _ = rejected
transition_table recovering bus_recovered = pos 1
transition_table recovering bus_recover_fail = pos 4
transition_table recovering all_offline = pos 4
transition_table recovering _ = rejected
transition_table fault watchdog_reset = pos 0
transition_table fault _ = rejected

-- The state with a number below STATE_MAX, as the assignment of `next_state` to the enum reads it.
abbrev pub of_code : ℕ → State
of_code zero = init
of_code (suc zero) = running
of_code (suc (suc zero)) = degraded
of_code (suc (suc (suc zero))) = recovering
of_code (suc (suc (suc (suc n)))) = fault

-- `fsm_init`: whether the pointer is not null, and whether the two objects can be initialised, is
-- given. What was in the memory before is cleared.
unfoldable pub fsm_init : Option Context → Bool → Bool → ℤ × Option Context
fsm_init none mutex_ok cond_ok = (negsuc 0, none)
fsm_init (some _) mutex_ok cond_ok =
    if not mutex_ok
    then (negsuc 0, some cleared)
    else if not cond_ok
    then (negsuc 0, some cleared)
    else (pos 0, some (record cleared { lock = true; cond = true }))
  where
    cleared : Context
    cleared = record {
      current = init;
      lock = false;
      cond = false;
      mpu_fail_count = 0;
      i2c_retry_count = 0;
      temp_raw = pos 0;
      hum_raw = pos 0;
    }

-- The result, whether the waiters are woken, and the context.
unfoldable pub transition : Context → Event → ℤ × Bool × Context
unfolding transition_table
transition ctx e =
    let next_state = transition_table ctx.current e in
    if is_neg next_state || leb state_max (pos_part next_state)
    then (negsuc 0, false, ctx)
    else (pos 0, true, record ctx { current = of_code (pos_part next_state) })

-- `fsm_transition`, with its test of the pointer.
unfoldable pub fsm_transition : Option Context → Event → ℤ × Bool × Option Context
fsm_transition none e = (negsuc 0, false, none)
fsm_transition (some ctx) e = let (ret, woken, ctx') = transition ctx e in (ret, woken, some ctx')

-- The guard against a number outside the enum is kept, though the type leaves none.
unfoldable pub fsm_get_state : Context → State
fsm_get_state ctx = if leb state_max (code ctx.current) then fault else ctx.current

-- `state_name`
abbrev pub state_name : State → String
state_name init = "INIT"
state_name running = "RUNNING"
state_name degraded = "DEGRADED"
state_name recovering = "RECOVERING"
state_name fault = "FAULT"

unfoldable pub fsm_get_state_name : Context → String
unfolding fsm_get_state
fsm_get_state_name ctx = state_name (fsm_get_state ctx)

-- The states after a sequence of events, each taken or rejected.
unfoldable pub run : Context → List Event → Context
run ctx [] = ctx
run ctx (e ∷ es) = run (transition ctx e).2 es
