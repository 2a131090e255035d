-- ===== src/Fsm/Laws.antt =====
-- What the operations on the context keep, whatever the order of the events.
use edge_omni.Common.{
  ◌≡◌, ◌≢◌, ◌⊎◌, inl, inr, refl, ap, ◌∙◌, arith, Bool, true, false, ◌&&◌, some, List, [], ◌∷◌,
  if◌then◌else◌, All, Any,
}
use edge_omni.Common.Int.{pos, negsuc}
use edge_omni.Fsm.{
  init, fault, Event, bus_recover_fail, all_offline, watchdog_reset, Context, fsm_init, transition,
  fsm_get_state, run,
}

-- `fsm_init` returns 0 exactly if both objects can be initialised, with the context in INIT and
-- every counter at 0; if it fails, no object is left initialised.
pub fsm_init_lem :
    (before : Context) (mutex_ok cond_ok : Bool)
    → let done = mutex_ok && cond_ok in
      fsm_init (some before) mutex_ok cond_ok ≡ (
        (if done then pos 0 else negsuc 0),
        some (record {
          current = init;
          lock = done;
          cond = done;
          mpu_fail_count = 0;
          i2c_retry_count = 0;
          temp_raw = pos 0;
          hum_raw = pos 0;
        }),
      )
unfolding fsm_init
fsm_init_lem before true true = refl
fsm_init_lem before true false = refl
fsm_init_lem before false _ = refl

-- A number outside the enum does not occur: `fsm_get_state` returns the state of the context.
pub fsm_get_state-eq : (ctx : Context) → fsm_get_state ctx ≡ ctx.current
unfolding fsm_get_state
fsm_get_state-eq ctx = ground arith

fault_refuses :
    (ctx : Context) (e : Event)
    → ctx.current ≡ fault
    → e ≢ watchdog_reset
    → (transition ctx e).2 ≡ ctx
unfolding transition
fault_refuses ctx e h n = ground arith

-- FAULT is left by a watchdog reset only: without one no sequence of events changes the context.
pub fault_stays :
    (ctx : Context) (es : List Event)
    → ctx.current ≡ fault
    → All (λ e. e ≢ watchdog_reset) es
    → run ctx es ≡ ctx
unfolding run
fault_stays ctx [] h n = refl
fault_stays ctx (e ∷ es) h n =
    let same = fault_refuses ctx e h n.0 in ap (λ c. run c es) same ∙ fault_stays ctx es h n.1

abbrev pub Fatal : Event → Type 0
Fatal e = (e ≡ all_offline) ⊎ (e ≡ bus_recover_fail)

fault_needs_step :
    (ctx : Context) (e : Event)
    → ctx.current ≢ fault
    → Fatal e ⊎ ((transition ctx e).2.current ≢ fault)
unfolding transition
fault_needs_step ctx e h = ground arith

-- From a state other than FAULT, FAULT is entered by the loss of all sensors or by a failed bus
-- recovery only.
pub fault_needs_Fatal :
    (ctx : Context) (es : List Event)
    → ctx.current ≢ fault
    → (run ctx es).current ≡ fault
    → Any Fatal es
unfolding run
fault_needs_Fatal ctx [] h f = h f
fault_needs_Fatal ctx (e ∷ es) h f = elim (fault_needs_step ctx e h) [
  | inl now ↦ inl now
  | inr later ↦ inr (fault_needs_Fatal (transition ctx e).2 es later f)
]
