-- ===== src/Delivery/Gate.antt =====
-- crates/sni_router/src/delivery/gate.rs: the gate that shutdown closes.
pub mod Runs
use sni_router.Common.{ℕ, ◌+◌, ◌-◌, Bool, true, false, Option, none, some, if◌then◌else◌}

pub record GateState : Type 0 where
  pub closed : Bool
  pub proxying : ℕ

-- The state behind the mutex, and whether the token is cancelled.
pub record ProxyGate : Type 0 where
  pub state : GateState
  pub handshakes_cancelled : Bool

unfoldable pub new : ProxyGate
new = record { state = record { closed = false; proxying = 0 }; handshakes_cancelled = false }

-- The Boolean says whether a pass was handed out.
unfoldable pub enter : ProxyGate → ProxyGate × Bool
enter gate = if gate.state.closed then (gate, false) else (
  record {
    state = record { closed = gate.state.closed; proxying = gate.state.proxying + 1 };
    handshakes_cancelled = gate.handshakes_cancelled;
  },
  true,
)

unfoldable pub close : ProxyGate → ProxyGate × ℕ
close gate = (
  record {
    state = record { closed = true; proxying = gate.state.proxying };
    handshakes_cancelled = true;
  },
  gate.state.proxying,
)

-- `Drop` of a pass.
unfoldable pub drop_pass : ProxyGate → ProxyGate
drop_pass gate = record {
  state = record { closed = gate.state.closed; proxying = gate.state.proxying - 1 };
  handshakes_cancelled = gate.handshakes_cancelled;
}
