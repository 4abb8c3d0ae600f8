-- ===== src/Delivery/Server/Runs.antt =====
-- crates/sni_router/src/delivery/server.rs: the accept loop, the tasks of the connections and `serve`, as
-- they interleave.
use sni_router.Common.{
  ℕ, ◌+◌, ◌-◌, ◌≡◌, ◌≢◌, refl, subst, ◌∙◌, Bool, true, false, Option, none, some, arith, ◌==◌,
  ==_iff, if_cases, if_ind,
}
use sni_router.Delivery.Gate.{close}
use sni_router.Delivery.Server.{
  Server, AcceptState, acquiring, accepting, backing_off, returned, ServePhase, serving, draining,
  forcing, complete, serve, accept_any, acquire, accept, accepted, back_off, end_task, close_gate,
  grace_over, wait_tasks,
}

-- Each move is one that its part makes in the state in which it stands; the token may fire at any time.
pub data Step (count : ℕ) (s : Server) : Server → Type 0 where
  acquires : s.loop ≡ acquiring → Step count s (acquire s)
  accepts :
      (ready succeeds : ℕ → Bool)
      → s.loop ≡ accepting
      → Step count s (accept count ready succeeds s)
  backs_off : s.loop ≡ backing_off → Step count s (back_off s)
  ends_task : (rest : ℕ) → s.tasks ≡ rest + 1 → Step count s (end_task s)
  cancels : Step count s record s { shutdown = true }
  closes : s.phase ≡ serving → s.loop ≡ returned → Step count s (close_gate s)
  grace_ends : s.phase ≡ draining → Step count s (grace_over s)
  waits_drain : s.phase ≡ draining → Step count s (wait_tasks s)
  waits_force : s.phase ≡ forcing → Step count s (wait_tasks s)

pub data Run (count : ℕ) (s : Server) : Server → Type 0 where
  halt : Run count s s
  extend : {t u : Server} → Run count s t → Step count t u → Run count s u

-- The slot that the accept loop itself holds.
abbrev pub held : AcceptState → ℕ
held accepting = 1
held _ = 0

-- What a phase says of the server.
abbrev pub Holds : Server → ServePhase → Type 0
Holds s serving = s.force_cancelled ≡ false
Holds s draining = (s.loop ≡ returned) × (s.gate.state.closed ≡ true) × (s.force_cancelled ≡ false)
Holds s forcing = (s.loop ≡ returned) × (s.gate.state.closed ≡ true)
Holds s complete = (s.loop ≡ returned) × (s.gate.state.closed ≡ true) × (s.tasks ≡ 0)

-- Every slot is free, held by the accept loop, or held by the task of a connection; and each phase finds
-- what it needs.
pub record IsAccounted (max_connections : ℕ) (s : Server) : Type 0 where
  pub slots : s.slots + held s.loop + s.tasks ≡ max_connections
  pub phase : Holds s s.phase

-- While the accept loop runs nothing is closed.
moved-Holds :
    (s t : Server) (p : ServePhase)
    → s.loop ≢ returned
    → t.force_cancelled ≡ s.force_cancelled
    → Holds s p
    → Holds t p
moved-Holds s t serving runs same h = same ∙ h
moved-Holds s t draining runs same h = absurd (runs h.0)
moved-Holds s t forcing runs same h = absurd (runs h.0)
moved-Holds s t complete runs same h = absurd (runs h.0)

cancelled-Holds : (s : Server) (p : ServePhase) → Holds s p → Holds (record s { shutdown = true }) p
cancelled-Holds s serving h = h
cancelled-Holds s draining h = h
cancelled-Holds s forcing h = h
cancelled-Holds s complete h = h

end_task-Holds :
    (s : Server) (p : ServePhase) (rest : ℕ) → s.tasks ≡ rest + 1 → Holds s p → Holds (end_task s) p
unfolding end_task
end_task-Holds s serving rest e h = h
end_task-Holds s draining rest e h = h
end_task-Holds s forcing rest e h = h
end_task-Holds s complete rest e (over, closed, none_left) = absurd (omega (arith, e, none_left))

-- A move of the accept loop that loses no slot.
moved-IsAccounted :
    (m : ℕ) (s : Server) (loop : AcceptState) (slots next tasks : ℕ)
    → s.loop ≢ returned
    → slots + held loop + tasks ≡ m
    → IsAccounted m s
    → IsAccounted m (record s { loop = loop; slots = slots; next = next; tasks = tasks })
moved-IsAccounted m s loop slots next tasks runs count i = record {
  slots = count;
  phase =
      moved-Holds s (record s { loop = loop; slots = slots; next = next; tasks = tasks }) s.phase
        runs refl i.phase;
}

acquire-IsAccounted :
    (max_connections : ℕ) (s : Server)
    → s.loop ≡ acquiring
    → IsAccounted max_connections s
    → IsAccounted max_connections (acquire s)
unfolding acquire
acquire-IsAccounted m s here i =
    let kept = rw here at i.slots in
    let runs : s.loop ≢ returned = λ over. cc (here, over) in
    if_ind (IsAccounted m) s.shutdown
      (moved-IsAccounted m s returned s.slots s.next s.tasks runs kept i)
      (if_cases (IsAccounted m) (s.slots == 0) (λ full. i)
        (λ free.
          moved-IsAccounted m s accepting (s.slots - 1) s.next s.tasks runs
            (ground (arith, kept, free)) i))

accepted-IsAccounted :
    (m : ℕ) (succeeds : ℕ → Bool) (s : Server) (picked : Option (ℕ × ℕ))
    → s.loop ≢ returned
    → s.slots + 1 + s.tasks ≡ m
    → IsAccounted m s
    → IsAccounted m (accepted succeeds picked s)
unfolding accepted
accepted-IsAccounted m succeeds s none runs kept i = i
accepted-IsAccounted m succeeds s (some (index, next)) runs kept i =
    if_ind (IsAccounted m) (succeeds index)
      (moved-IsAccounted m s acquiring s.slots next (s.tasks + 1) runs (omega (arith, kept)) i)
      (moved-IsAccounted m s backing_off (s.slots + 1) next s.tasks runs (omega (arith, kept)) i)

accept-IsAccounted :
    (count max_connections : ℕ) (ready succeeds : ℕ → Bool) (s : Server)
    → s.loop ≡ accepting
    → IsAccounted max_connections s
    → IsAccounted max_connections (accept count ready succeeds s)
unfolding accept
accept-IsAccounted count m ready succeeds s here i =
    let kept = rw here at i.slots in
    let runs : s.loop ≢ returned = λ over. cc (here, over) in
    if_ind (IsAccounted m) s.shutdown
      (moved-IsAccounted m s returned (s.slots + 1) s.next s.tasks runs (omega (arith, kept)) i)
      (accepted-IsAccounted m succeeds s (accept_any count s.next ready) runs kept i)

back_off-IsAccounted :
    (max_connections : ℕ) (s : Server)
    → s.loop ≡ backing_off
    → IsAccounted max_connections s
    → IsAccounted max_connections (back_off s)
unfolding back_off
back_off-IsAccounted m s here i =
    let kept = rw here at i.slots in
    let runs : s.loop ≢ returned = λ over. cc (here, over) in
    if_ind (IsAccounted m) s.shutdown
      (moved-IsAccounted m s returned s.slots s.next s.tasks runs kept i)
      (moved-IsAccounted m s acquiring s.slots s.next s.tasks runs kept i)

wait_tasks-IsAccounted :
    (max_connections : ℕ) (s : Server)
    → s.loop ≡ returned
    → s.gate.state.closed ≡ true
    → IsAccounted max_connections s
    → IsAccounted max_connections (wait_tasks s)
unfolding wait_tasks
wait_tasks-IsAccounted m s over closed i =
    if_cases (IsAccounted m) (s.tasks == 0)
      (λ empty. record { slots = i.slots; phase = (over, closed, (==_iff s.tasks 0).0 empty) })
      (λ left. i)

Step-IsAccounted :
    {count max_connections : ℕ} {s t : Server}
    → Step count s t
    → IsAccounted max_connections s
    → IsAccounted max_connections t
unfolding end_task close_gate grace_over close
Step-IsAccounted {s} (acquires here) i = acquire-IsAccounted _ s here i
Step-IsAccounted {s} (accepts ready succeeds here) i =
    accept-IsAccounted _ _ ready succeeds s here i
Step-IsAccounted {s} (backs_off here) i = back_off-IsAccounted _ s here i
Step-IsAccounted {s} (ends_task rest h) i = record {
  slots = omega (arith, i.slots, h);
  phase = end_task-Holds s s.phase rest h i.phase;
}
Step-IsAccounted {s} cancels i = record {
  slots = i.slots;
  phase = cancelled-Holds s s.phase i.phase;
}
Step-IsAccounted {s} (closes here over) i =
    let calm = subst (Holds s) here i.phase in
    record { slots = i.slots; phase = (over, refl, calm) }
Step-IsAccounted {max_connections} {s} (grace_ends here) i =
    let (over, closed, calm) = subst (Holds s) here i.phase in
    if_cases (IsAccounted max_connections) (s.tasks == 0)
      (λ empty. record { slots = i.slots; phase = (over, closed, (==_iff s.tasks 0).0 empty) })
      (λ left. record { slots = i.slots; phase = (over, closed) })
Step-IsAccounted {s} (waits_drain here) i =
    let (over, closed, calm) = subst (Holds s) here i.phase in
    wait_tasks-IsAccounted _ s over closed i
Step-IsAccounted {s} (waits_force here) i =
    let (over, closed) = subst (Holds s) here i.phase in wait_tasks-IsAccounted _ s over closed i

-- In every run of the accept loop, the tasks and `serve`, in any order, every slot is free, held by the
-- accept loop or held by the task of a connection, so that no more connections are open than the limit;
-- while the tasks drain the accept loop has returned, the gate is closed and nobody is forced; and when
-- `serve` returns there is no task left.
pub Run-IsAccounted :
    {count max_connections : ℕ} {s : Server}
    → Run count (serve max_connections) s
    → IsAccounted max_connections s
unfolding serve
Run-IsAccounted {max_connections} halt = record { slots = omega arith; phase = refl }
Run-IsAccounted (extend r s) = Step-IsAccounted s (Run-IsAccounted r)
