-- ===== src/Modbus/Thread.antt =====
-- app/modbus/modbus_server.c: the loop of modbus_server_thread. What select and accept answer is
-- given.
use edge_omni.Common.{
  ◌≡◌, ◌≢◌, ◌↔◌, ◌⊎◌, inl, inr, refl, Any, Bool, true, false, not, List, [], ◌∷◌, if◌then◌else◌,
}
use edge_omni.Modbus.Server.{Client, Server, handle_client, server_thread}

-- select: it is interrupted, has another error, times out, or reports a connection, which accept
-- does not take, or does.
pub data Poll : Type 0 where
  interrupted broken timed_out lost : Poll
  accepted : Client → Poll

-- What follows in the loop, and whether the loop goes on.
unfoldable pub poll : Poll → Server → Server × Bool
unfolding handle_client
poll interrupted s = (s, true)
poll broken s = (s, false)
poll timed_out s = (s, true)
poll lost s = (s, true)
poll (accepted c) s = (handle_client c.ip c.since c.turns s, true)

-- g_running when the loop reads it, and what it then finds.
abbrev pub Pass : Type 0
Pass = Bool × Poll

-- The state when the loop ends, or after the passes that there are, and whether it has ended.
unfoldable pub accept_loop : List Pass → Server → Server × Bool
unfolding poll
accept_loop [] s = (s, false)
accept_loop ((running, p) ∷ ps) s =
    let (s', goes_on) = poll p s in
    let rest = accept_loop ps s' in
    if not running then (s, true) else if goes_on then rest else (s', true)

-- `modbus_server_thread`, with whether it can listen.
unfoldable pub modbus_server_thread : Bool → List Pass → Server → Server × Bool
unfolding accept_loop
modbus_server_thread listens ps s =
    let looped = accept_loop ps s in if listens then looped else (s, true)

-- The clients that the loop comes to, in order.
abbrev pub clients_of : List Pass → List Client
clients_of [] = []
clients_of ((false, p) ∷ ps) = []
clients_of ((true, interrupted) ∷ ps) = clients_of ps
clients_of ((true, broken) ∷ ps) = []
clients_of ((true, timed_out) ∷ ps) = clients_of ps
clients_of ((true, lost) ∷ ps) = clients_of ps
clients_of ((true, accepted c) ∷ ps) = c ∷ clients_of ps

accept_loop_lem :
    (ps : List Pass) (s : Server) → (accept_loop ps s).0 ≡ server_thread (clients_of ps) s
unfolding accept_loop poll server_thread
accept_loop_lem [] s = refl
accept_loop_lem ((false, p) ∷ ps) s = refl
accept_loop_lem ((true, interrupted) ∷ ps) s = accept_loop_lem ps s
accept_loop_lem ((true, broken) ∷ ps) s = refl
accept_loop_lem ((true, timed_out) ∷ ps) s = accept_loop_lem ps s
accept_loop_lem ((true, lost) ∷ ps) s = accept_loop_lem ps s
accept_loop_lem ((true, accepted c) ∷ ps) s =
    accept_loop_lem ps (handle_client c.ip c.since c.turns s)

-- The loop ends at the first pass that sees g_running cleared or select broken.
abbrev pub Stops : Pass → Type 0
Stops (running, p) = (running ≡ false) ⊎ (p ≡ broken)

not_yet {ℓ} :
    {R : Type ℓ} (ps : List Pass) (p : Poll)
    → p ≢ broken
    → R ↔ Any Stops ps
    → R ↔ Any Stops ((true, p) ∷ ps)
not_yet ps p goes_on (there, back) = (
  (λ h. inr (there h)),
  (λ h. elim h [
    | inl now ↦ elim now [ inl e ↦ absurd (cc) | inr e ↦ absurd (goes_on e) ]
    | inr after ↦ back after
  ]),
)

accept_loop_ends : (ps : List Pass) (s : Server) → ((accept_loop ps s).1 ≡ true) ↔ Any Stops ps
unfolding accept_loop poll
accept_loop_ends [] s = ((λ h. absurd (cc)), (λ h. absurd h))
accept_loop_ends ((false, p) ∷ ps) s = ((λ h. inl (inl refl)), (λ h. refl))
accept_loop_ends ((true, broken) ∷ ps) s = ((λ h. inl (inr refl)), (λ h. refl))
accept_loop_ends ((true, interrupted) ∷ ps) s =
    not_yet ps interrupted (λ e. cc) (accept_loop_ends ps s)
accept_loop_ends ((true, timed_out) ∷ ps) s = not_yet ps timed_out (λ e. cc) (accept_loop_ends ps s)
accept_loop_ends ((true, lost) ∷ ps) s = not_yet ps lost (λ e. cc) (accept_loop_ends ps s)
accept_loop_ends ((true, accepted c) ∷ ps) s =
    not_yet ps (accepted c) (λ e. cc) (accept_loop_ends ps (handle_client c.ip c.since c.turns s))

-- The thread serves exactly the clients that its loop comes to, one after the other, and nobody if
-- it cannot listen; interruptions, timeouts and failed accepts change nothing. It ends exactly if
-- it cannot listen, finds g_running cleared, or select has another error.
pub modbus_server_thread_lem :
    (listens : Bool) (ps : List Pass) (s : Server)
    → ((modbus_server_thread listens ps s).0
        ≡ (if listens then server_thread (clients_of ps) s else s))
      × (((modbus_server_thread listens ps s).1 ≡ true) ↔ ((listens ≡ false) ⊎ Any Stops ps))
unfolding modbus_server_thread
modbus_server_thread_lem false ps s = (refl, ((λ h. inl refl), (λ h. refl)))
modbus_server_thread_lem true ps s =
    let ends = accept_loop_ends ps s in
    (
      accept_loop_lem ps s,
      ((λ h. inr (ends.0 h)), (λ h. elim h [ inl e ↦ absurd (cc) | inr there ↦ ends.1 there ])),
    )
