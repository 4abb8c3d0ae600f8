-- ===== src/Witnesses/Gate.antt =====
-- The theorems on the gate, applied to a run in which one connection is proxied when shutdown starts.
use sni_router.Common.{◌+◌, ◌≡◌, refl, true, false, [], length}
use sni_router.Delivery.Gate
use sni_router.Delivery.Gate.{enter, close, drop_pass}
use sni_router.Delivery.Gate.Runs.{
  World, start, Run, halt, then, admit, refuse, release, after_admit, after_refuse, after_release,
  after_close, Run-close,
}

abbrev admitted : World
admitted = after_admit start 7

abbrev closed : World
closed = after_close admitted

abbrev late : World
late = after_refuse closed 8

abbrev drained : World
drained = after_release late [] 7 []

to_admitted : Run start admitted
unfolding enter Gate.new
to_admitted = then halt (admit 7 refl)

to_drained : Run closed drained
unfolding enter close Gate.new
to_drained = then (then halt (refuse 8 refl)) (release [] 7 [] refl)

Run-close_example :
    (length drained.proxied + length drained.released
      ≡ (close admitted.gate).1 + length admitted.released)
    × (drained.gate.state.closed ≡ true)
    × ((enter drained.gate).1 ≡ false)
Run-close_example = Run-close to_admitted to_drained
