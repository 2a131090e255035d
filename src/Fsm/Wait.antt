-- ===== src/Fsm/Wait.antt =====
-- `fsm_wait_for_state`: the wait on the condition variable, with its time-out.
use edge_omni.Common.{
  ℕ, ◌+◌, ◌-◌, ◌*◌, ◌/◌, ◌%◌, ◌<◌, ◌≡◌, ◌↔◌, ◌⊎◌, inl, inr, refl, arith, Option, none, some, List,
  [], ◌∷◌, leb, ◌==◌, if◌then◌else◌, Bool-cases,
}
use edge_omni.Common.Int.{ℤ, pos, negsuc}
use edge_omni.Fsm.{State, code}

-- `struct timespec`
pub record Timespec : Type 0 where
  pub tv_sec : ℕ
  pub tv_nsec : ℕ

-- The moment `timeout_ms` after `now`, for a time-out that is not negative.
unfoldable pub deadline : Timespec → ℕ → Timespec
deadline now timeout_ms =
    let sec = now.tv_sec + timeout_ms / 1000 in
    let nsec = now.tv_nsec + timeout_ms % 1000 * 1_000_000 in
    if leb 1_000_000_000 nsec
    then record { tv_sec = sec + 1; tv_nsec = nsec - 1_000_000_000 }
    else record { tv_sec = sec; tv_nsec = nsec }

-- What the environment does in one round of the loop: the time that the clock shows, what the wait
-- until a moment returns (a number of <errno.h>, or 0), and the state that is found after it. A
-- wait with no time-out returns nothing that is looked at.
pub record Round : Type 0 where
  pub now : Timespec
  pub timed_wait : Timespec → ℕ
  pub seen : State

-- ETIMEDOUT of Linux.
abbrev pub etimedout : ℕ
etimedout = 110

-- The loop, from the state that is in the context and the value of `ret`: the value returned, or
-- `none` while the rounds that are given leave it waiting.
unfoldable pub wait_loop : State → ℤ → ℤ → State → List Round → Option ℤ
wait_loop target timeout_ms ret current [] = if code current == code target then some ret else none
wait_loop target (negsuc t) ret current (r ∷ rounds) =
    let rest = wait_loop target (negsuc t) ret r.seen rounds in
    if code current == code target then some ret else rest
wait_loop target (pos t) ret current (r ∷ rounds) =
    let result = r.timed_wait (deadline r.now t) in
    let rest = wait_loop target (pos t) (pos result) r.seen rounds in
    if code current == code target
    then some ret
    else if result == etimedout
    then some (negsuc 0)
    else rest

-- `ctx == NULL` is `none`.
pub fsm_wait_for_state : Option State → State → ℤ → List Round → Option ℤ
unfolding wait_loop
fsm_wait_for_state none target timeout_ms rounds = some (negsuc 0)
fsm_wait_for_state (some current) target timeout_ms rounds =
    wait_loop target timeout_ms (pos 0) current rounds

abbrev pub nanoseconds : Timespec → ℕ
nanoseconds t = t.tv_sec * 1_000_000_000 + t.tv_nsec

-- The deadline of a timed wait is the time-out after the moment read from the clock, and a proper
-- timespec if that moment is one.
pub deadline_exact :
    (now : Timespec) (timeout_ms : ℕ)
    → now.tv_nsec < 1_000_000_000
    → ((deadline now timeout_ms).tv_nsec < 1_000_000_000)
      × (nanoseconds (deadline now timeout_ms) ≡ nanoseconds now + timeout_ms * 1_000_000)
unfolding deadline
deadline_exact now timeout_ms h = ground arith

-- The state that the last of the rounds has found.
abbrev pub last_seen : State → List Round → State
last_seen current [] = current
last_seen current (r ∷ rounds) = last_seen r.seen rounds

abbrev pub Hit : State → State → List Round → Type 0
Hit target current [] = code current ≡ code target
Hit target current (r ∷ rounds) = (code current ≡ code target) ⊎ Hit target r.seen rounds

-- With no time-out fsm_wait_for_state's loop returns exactly if the target state is seen in some
-- round, and then it returns 0.
pub wait_forever_iff :
    (target : State) (t : ℕ) (current : State) (rounds : List Round)
    → (wait_loop target (negsuc t) (pos 0) current rounds ≡ some (pos 0))
      ↔ Hit target current rounds
unfolding wait_loop
wait_forever_iff target t current [] = ground arith
wait_forever_iff target t current (r ∷ rounds) =
    let ih = wait_forever_iff target t r.seen rounds in
    elim (Bool-cases (code current == code target)) [
      | inl e ↦ rw e ((λ _. inl (ground arith)), (λ _. refl))
      | inr e ↦ rw e ((λ h. inr (ih.0 h)), (λ h. ih.1 (ground arith)))
    ]

abbrev pub Prompt : ℕ → List Round → Type 0
Prompt t [] = Unit {0}
Prompt t (r ∷ rounds) =
    ((r.timed_wait (deadline r.now t) ≡ 0) ⊎ (r.timed_wait (deadline r.now t) ≡ etimedout))
    × Prompt t rounds

abbrev pub TimedOut : ℕ → List Round → Type 0
TimedOut t [] = ⊥
TimedOut t (r ∷ rounds) = (r.timed_wait (deadline r.now t) ≡ etimedout) ⊎ TimedOut t rounds

pub wait_timed_result :
    (target : State) (t : ℕ) (current : State) (rounds : List Round)
    → Prompt t rounds
    → (v : ℤ) → wait_loop target (pos t) (pos 0) current rounds ≡ some v
    → ((v ≡ pos 0) × Hit target current rounds) ⊎ ((v ≡ negsuc 0) × TimedOut t rounds)
unfolding wait_loop
wait_timed_result target t current [] p v h = ground arith
wait_timed_result target t current (r ∷ rounds) p v h =
    elim (Bool-cases (code current == code target)) [
      | inl e ↦ ground arith
      | inr e ↦ elim p.0 [
        | inl z ↦
            let ih = wait_timed_result target t r.seen rounds p.1 v in
            let rest : wait_loop target (pos t) (pos 0) r.seen rounds ≡ some v = rw (e, z) at h in
            elim (ih rest) [ inl a ↦ inl (a.0, inr a.1) | inr b ↦ inr (b.0, inr b.1) ]
        | inr z ↦ inr (ground arith, inl z)
      ]
    ]
