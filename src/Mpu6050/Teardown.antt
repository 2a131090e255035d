-- ===== src/Mpu6050/Teardown.antt =====
-- mpu6050_timer_callback, the work and mpu6050_remove at the same time: the calls of remove one by
-- one, with expiries of the timer and runs of the work between them in any order.
use edge_omni.Common.{◌≡◌, refl, arith, Bool, true, false, not, ◌||◌, List, [], ◌∷◌, if◌then◌else◌}

-- How far `mpu6050_remove` has come: not called, and after each of its calls.
pub data Removal : Type 0 where
  not_called no_dir timer_cancelled work_cancelled freed : Removal

-- Whether the timer is armed, the work is scheduled, the memory is there, and whether anything has
-- touched memory that is not.
pub record Live : Type 0 where
  pub timer : Bool
  pub scheduled : Bool
  pub memory : Bool
  pub touched_freed : Bool
  pub removal : Removal

-- What `mpu6050_probe` leaves.
abbrev pub probed : Live
probed = record {
  timer = true;
  scheduled = false;
  memory = true;
  touched_freed = false;
  removal = not_called;
}

pub data Move : Type 0 where
  expire run_work remove_call : Move

abbrev touch : Live → Live
touch l = record l { touched_freed = l.touched_freed || not l.memory }

-- `mpu6050_timer_callback`: the work is scheduled, and the timer armed again.
unfoldable pub mpu6050_timer_callback : Live → Live
mpu6050_timer_callback l = record (touch l) { scheduled = true; timer = true }

-- The next call of `mpu6050_remove`: hrtimer_cancel, cancel_work_sync, kfree.
unfoldable pub remove_step : Removal → Live → Live
remove_step not_called l = record (touch l) { removal = no_dir }
remove_step no_dir l = record (touch l) { timer = false; removal = timer_cancelled }
remove_step timer_cancelled l = record (touch l) { scheduled = false; removal = work_cancelled }
remove_step work_cancelled l = record l { memory = false; removal = freed }
remove_step freed l = l

unfoldable pub live_step : Move → Live → Live
unfolding mpu6050_timer_callback remove_step
live_step expire l = if l.timer then mpu6050_timer_callback l else l
live_step run_work l = if l.scheduled then record (touch l) { scheduled = false } else l
live_step remove_call l = remove_step l.removal l

unfoldable pub live_run : List Move → Live → Live
unfolding live_step
live_run [] l = l
live_run (m ∷ ms) l = live_run ms (live_step m l)

-- What holds at each point of the removal.
abbrev Holds : Removal → (timer scheduled memory : Bool) → Type 0
Holds not_called timer scheduled memory = memory ≡ true
Holds no_dir timer scheduled memory = memory ≡ true
Holds timer_cancelled timer scheduled memory = (memory ≡ true) × (timer ≡ false)
Holds work_cancelled timer scheduled memory =
    (memory ≡ true) × (timer ≡ false) × (scheduled ≡ false)
Holds freed timer scheduled memory = (timer ≡ false) × (scheduled ≡ false)

abbrev pub IsSafe : Live → Type 0
IsSafe l = Holds l.removal l.timer l.scheduled l.memory × (l.touched_freed ≡ false)

step-IsSafe :
    (m : Move) (r : Removal) (t s y f : Bool)
    → let l : Live = record {
      timer = t;
      scheduled = s;
      memory = y;
      touched_freed = f;
      removal = r;
    } in
      IsSafe l → IsSafe (live_step m l)
unfolding live_step
step-IsSafe expire not_called t s y f h = ground arith
step-IsSafe expire no_dir t s y f h = ground arith
step-IsSafe expire timer_cancelled t s y f h = ground arith
step-IsSafe expire work_cancelled t s y f h = ground arith
step-IsSafe expire freed t s y f h = ground arith
step-IsSafe run_work not_called t s y f h = ground arith
step-IsSafe run_work no_dir t s y f h = ground arith
step-IsSafe run_work timer_cancelled t s y f h = ground arith
step-IsSafe run_work work_cancelled t s y f h = ground arith
step-IsSafe run_work freed t s y f h = ground arith
step-IsSafe remove_call not_called t s y f h = ground arith
step-IsSafe remove_call no_dir t s y f h = ground arith
step-IsSafe remove_call timer_cancelled t s y f h = ground arith
step-IsSafe remove_call work_cancelled t s y f h = ground arith
step-IsSafe remove_call freed t s y f h = ground arith

live_run-IsSafe : (ms : List Move) (l : Live) → IsSafe l → IsSafe (live_run ms l)
unfolding live_run
live_run-IsSafe [] l h = h
live_run-IsSafe (m ∷ ms) l h =
    live_run-IsSafe ms (live_step m l)
      (step-IsSafe m l.removal l.timer l.scheduled l.memory l.touched_freed h)

removal-Holds : (r : Removal) (t s y : Bool) → Holds r t s y → r ≡ freed → (t ≡ false) × (s ≡ false)
removal-Holds not_called t s y h e = absurd (cc)
removal-Holds no_dir t s y h e = absurd (cc)
removal-Holds timer_cancelled t s y h e = absurd (cc)
removal-Holds work_cancelled t s y h e = absurd (cc)
removal-Holds freed t s y h e = h

-- However the calls of mpu6050_remove, the expiries of the timer and the runs of the work are
-- interleaved after a probe, none of them touches the memory after it has been freed, and then
-- neither the timer is armed nor the work scheduled.
pub remove_any_time :
    (ms : List Move)
    → let l = live_run ms probed in
      (l.touched_freed ≡ false) × (l.removal ≡ freed → (l.timer ≡ false) × (l.scheduled ≡ false))
remove_any_time ms =
    let (holds, untouched) = live_run-IsSafe ms probed (refl, refl) in
    let l : Live = live_run ms probed in
    (untouched, removal-Holds l.removal l.timer l.scheduled l.memory holds)
