-- ===== src/Delivery/Gate/Runs.antt =====
-- Connections that race shutdown at the gate of crates/sni_router/src/delivery/gate.rs. Its two
-- operations and the drop of a pass run under one mutex, so a run is a sequence of them.
use sni_router.Common.{
  ℕ, ◌+◌, ◌≡◌, refl, ap, true, false, List, [], ◌∷◌, ◌++◌, arith, length, length-append,
}
use sni_router.Delivery.Gate
use sni_router.Delivery.Gate.{ProxyGate, enter, close, drop_pass}

-- The gate, the connections that hold a pass, those that gave it back, and those that got none.
pub record World : Type 0 where
  pub gate : ProxyGate
  pub proxied : List ℕ
  pub released : List ℕ
  pub refused : List ℕ

abbrev pub start : World
start = record { gate = Gate.new; proxied = []; released = []; refused = [] }

abbrev pub after_admit : World → ℕ → World
after_admit w c = record {
  gate = (enter w.gate).0;
  proxied = c ∷ w.proxied;
  released = w.released;
  refused = w.refused;
}

abbrev pub after_refuse : World → ℕ → World
after_refuse w c = record {
  gate = (enter w.gate).0;
  proxied = w.proxied;
  released = w.released;
  refused = c ∷ w.refused;
}

abbrev pub after_release : World → List ℕ → ℕ → List ℕ → World
after_release w before c after = record {
  gate = drop_pass w.gate;
  proxied = before ++ after;
  released = c ∷ w.released;
  refused = w.refused;
}

abbrev pub after_close : World → World
after_close w = record {
  gate = (close w.gate).0;
  proxied = w.proxied;
  released = w.released;
  refused = w.refused;
}

-- One critical section under the mutex.
pub data Step (w : World) : World → Type 0 where
  admit : (c : ℕ) → (enter w.gate).1 ≡ true → Step w (after_admit w c)
  refuse : (c : ℕ) → (enter w.gate).1 ≡ false → Step w (after_refuse w c)
  release :
      (before : List ℕ) (c : ℕ) (after : List ℕ)
      → w.proxied ≡ before ++ c ∷ after
      → Step w (after_release w before c after)
  shut : Step w (after_close w)

pub data Run (w : World) : World → Type 0 where
  halt : Run w w
  then : {v u : World} → Run w v → Step v u → Run w u

-- The counter is the number of live passes, and the token is cancelled once the gate is closed.
pub record IsCounted (w : World) : Type 0 where
  pub counter : w.gate.state.proxying ≡ length w.proxied
  pub token : w.gate.handshakes_cancelled ≡ w.gate.state.closed

pub Step-IsCounted : {w v : World} → Step w v → IsCounted w → IsCounted v
unfolding enter close drop_pass
Step-IsCounted {w} (admit c h) i = record {
  counter = ground (arith, i.counter);
  token = ground (arith, i.token);
}
Step-IsCounted {w} (refuse c h) i = record {
  counter = ground (arith, i.counter);
  token = ground (arith, i.token);
}
Step-IsCounted {w} (release before c after h) i = record {
  counter =
      ground (
        arith,
        i.counter,
        ap length h,
        length-append before (c ∷ after),
        length-append before after,
      );
  token = i.token;
}
Step-IsCounted shut i = record { counter = i.counter; token = refl }

start-IsCounted : IsCounted start
unfolding Gate.new
start-IsCounted = record { counter = refl; token = refl }

-- In every run the counter of the gate is the number of passes held, so that no drop takes it below
-- zero, and the handshakes are cancelled exactly when the gate is closed.
pub Run-IsCounted : {w : World} → Run start w → IsCounted w
Run-IsCounted halt = start-IsCounted
Run-IsCounted (then r s) = Step-IsCounted s (Run-IsCounted r)

-- What a closed gate keeps: it stays closed, and passes held and passes given back add up.
pub record IsDraining (total : ℕ) (w : World) : Type 0 where
  pub shut_still : w.gate.state.closed ≡ true
  pub balance : length w.proxied + length w.released ≡ total

Step-IsDraining : (total : ℕ) {w v : World} → Step w v → IsDraining total w → IsDraining total v
unfolding enter close drop_pass
Step-IsDraining total {w} (admit c h) i = record {
  shut_still = ground (arith, i.shut_still);
  balance = ground (arith, i.shut_still);
}
Step-IsDraining total {w} (refuse c h) i = record {
  shut_still = ground (arith, i.shut_still);
  balance = i.balance;
}
Step-IsDraining total {w} (release before c after h) i = record {
  shut_still = i.shut_still;
  balance =
      ground (
        arith,
        i.balance,
        ap length h,
        length-append before (c ∷ after),
        length-append before after,
      );
}
Step-IsDraining total shut i = record { shut_still = refl; balance = i.balance }

Run-IsDraining : (total : ℕ) {w v : World} → Run w v → IsDraining total w → IsDraining total v
Run-IsDraining total halt i = i
Run-IsDraining total (then r s) i = Step-IsDraining total s (Run-IsDraining total r i)

-- The count that `close` returns is the passes that are still held plus those given back since, at
-- every later moment of the run: nobody is admitted after the close, and the gate stays closed.
pub Run-close :
    {w v : World}
    → Run start w
    → Run (after_close w) v
    → (length v.proxied + length v.released ≡ (close w.gate).1 + length w.released)
      × (v.gate.state.closed ≡ true)
      × ((enter v.gate).1 ≡ false)
unfolding close enter
Run-close {w} {v} before after =
    let i : IsDraining (length w.proxied + length w.released) v =
      Run-IsDraining (length w.proxied + length w.released) after
        record { shut_still = refl; balance = refl } in
    (
      ground (arith, i.balance, (Run-IsCounted before).counter),
      i.shut_still,
      ground (arith, i.shut_still),
    )
