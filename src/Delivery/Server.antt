-- ===== src/Delivery/Server.antt =====
-- crates/sni_router/src/delivery/server.rs: the accept loop and the phases of a shutdown. The sockets, and
-- when the tokens fire, are up to the world.
pub mod Accept
pub mod Runs
use sni_router.Common.{
  ℕ, zero, suc, ◌+◌, ◌-◌, ◌%◌, Bool, true, false, List, [], ◌∷◌, Option, none, some, ltb, ◌==◌,
  if◌then◌else◌,
}
use sni_router.Delivery.Gate
use sni_router.Delivery.Gate.{ProxyGate, close}

-- The loop of `accept_any`, with so many offsets left: the listener that is ready, and where to start next.
unfoldable pub accept_from : ℕ → ℕ → (ℕ → Bool) → ℕ → ℕ → Option (ℕ × ℕ)
accept_from count next ready offset zero = none
accept_from count next ready offset (suc left) =
    let index = (next + offset) % count in
    let rest = accept_from count next ready (offset + 1) left in
    if ready index then some (index, (index + 1) % count) else rest

unfoldable pub accept_any : ℕ → ℕ → (ℕ → Bool) → Option (ℕ × ℕ)
unfolding accept_from
accept_any count next ready = accept_from count next ready 0 count

-- Where the accept loop waits: for a slot, with a slot for a connection, behind an error, or not at all.
pub data AcceptState : Type 0 where
  acquiring accepting backing_off returned : AcceptState

-- Where `serve` is: it waits for the token, for the tasks within the grace period, for the tasks after that,
-- or it has returned.
pub data ServePhase : Type 0 where
  serving draining forcing complete : ServePhase

-- The free slots of the semaphore, the start index, the tasks that are tracked, and the tokens.
pub record Server : Type 0 where
  pub loop : AcceptState
  pub phase : ServePhase
  pub slots : ℕ
  pub next : ℕ
  pub tasks : ℕ
  pub gate : ProxyGate
  pub shutdown : Bool
  pub force_cancelled : Bool

unfoldable pub serve : ℕ → Server
serve max_connections = record {
  loop = acquiring;
  phase = serving;
  slots = max_connections;
  next = 0;
  tasks = 0;
  gate = Gate.new;
  shutdown = false;
  force_cancelled = false;
}

-- The first `select!` of the loop: the token is looked at first, then the semaphore.
unfoldable pub acquire : Server → Server
acquire s =
    if s.shutdown
    then record s { loop = returned }
    else if s.slots == 0
    then s
    else record s { loop = accepting; slots = s.slots - 1 }

-- What comes of an accept: the slot goes to the task of the connection, or back.
unfoldable pub accepted : (ℕ → Bool) → Option (ℕ × ℕ) → Server → Server
accepted succeeds none s = s
accepted succeeds (some (index, next)) s =
    if succeeds index
    then record s { loop = acquiring; next = next; tasks = s.tasks + 1 }
    else record s { loop = backing_off; next = next; slots = s.slots + 1 }

-- The second: a connection, or an error, from the listener that `accept_any` picks.
unfoldable pub accept : ℕ → (ℕ → Bool) → (ℕ → Bool) → Server → Server
unfolding accepted accept_any
accept count ready succeeds s =
    if s.shutdown
    then record s { loop = returned; slots = s.slots + 1 }
    else accepted succeeds (accept_any count s.next ready) s

-- The third, behind an error: the token, or the end of the pause.
unfoldable pub back_off : Server → Server
back_off s = if s.shutdown then record s { loop = returned } else record s { loop = acquiring }

-- The task of a connection ends and drops its slot.
unfoldable pub end_task : Server → Server
end_task s = record s { tasks = s.tasks - 1; slots = s.slots + 1 }

-- `serve` behind the wait for the token and for the accept loop.
unfoldable pub close_gate : Server → Server
unfolding close
close_gate s = record s { gate = (close s.gate).0; phase = draining }

-- The end of the grace period: the wait for the tasks is looked at before the timeout.
unfoldable pub grace_over : Server → Server
grace_over s =
    if s.tasks == 0
    then record s { phase = complete }
    else record s { phase = forcing; force_cancelled = true }

-- The wait for the tasks.
unfoldable pub wait_tasks : Server → Server
wait_tasks s = if s.tasks == 0 then record s { phase = complete } else s
