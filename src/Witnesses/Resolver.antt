-- ===== src/Witnesses/Resolver.antt =====
-- The theorems on the resolver, applied to a name with two addresses and to one that fails.
use sni_router.Common.{ℕ, ◌+◌, ◌*◌, ◌<◌, refl, ◌≡◌, [], ◌∷◌, ok, err, arith}
use sni_router.Lookup.Ip.{v4}
use sni_router.Cache.Map.{find, put}
use sni_router.Lookup.Text.{str_eq}
use sni_router.Lookup.Ip.{SocketAddr}
use sni_router.Delivery.Resolver.{
  Key, State, failed, cached, key_eq, begin_resolve, end_lookup, store, prune, store_failed,
  join_or_start, fresh,
}
use sni_router.Delivery.Resolver
use sni_router.Delivery.Resolver.Stale.{HasFound, Run-begin_resolve}
use sni_router.Delivery.Resolver.Lasting.{Until, stay, move, ended, begin_resolve-Until}
use sni_router.Delivery.Resolver.Flights.{
  World, calls, ends, Run, halt, extend, start, running_after, IsSingle, Run-IsSingle,
}

abbrev first : SocketAddr
first = record { ip = v4 (10 ∷ 0 ∷ 0 ∷ 1 ∷ []); port = 443 }

abbrev second : SocketAddr
second = record { ip = v4 (10 ∷ 0 ∷ 0 ∷ 2 ∷ []); port = 443 }

abbrev name : Key
name = record { name = b'a' ∷ []; port = 443 }

abbrev waiting : State
waiting = record { cache = []; inflight = name ∷ [] }

-- The world after a call for the name at the time.
abbrev called : World → World
called w = record {
  state = (begin_resolve 4 w.state name).0;
  running = running_after (begin_resolve 4 w.state name).1 name w.running;
}

-- The second call joins the lookup that the first one starts.
to_joined : Run 60 start (called (called start))
to_joined = extend (extend halt (calls 4 name)) (calls 4 name)

Run-IsSingle_example : IsSingle (called (called start))
Run-IsSingle_example = Run-IsSingle to_joined

abbrev other_name : Key
other_name = record { name = b'b' ∷ []; port = 443 }

abbrev found_two : World
found_two = ended 10 60 (called (called start)) [] name [] (ok (first ∷ second ∷ []))

-- A lookup of another name begins and fails in the meantime.
abbrev meanwhile : World
meanwhile = record {
  state = (begin_resolve 20 found_two.state other_name).0;
  running = running_after (begin_resolve 20 found_two.state other_name).1 other_name [];
}

to_meanwhile : Until 60 69 found_two (ended 30 60 meanwhile [] other_name [] (err (failed 3)))
unfolding begin_resolve end_lookup store fresh prune find put key_eq str_eq
to_meanwhile =
    move (move stay (calls 20 other_name) (omega arith))
      (ends 30 [] other_name [] (err (failed 3)) refl) (omega arith)

begin_resolve-Until_example :
    begin_resolve 69 (ended 30 60 meanwhile [] other_name [] (err (failed 3))).state name ≡ (
      (ended 30 60 meanwhile [] other_name [] (err (failed 3))).state,
      cached (ok (first ∷ second ∷ [])),
    )
unfolding begin_resolve find key_eq str_eq
begin_resolve-Until_example =
    begin_resolve-Until 10 69 [] name [] first (second ∷ []) to_joined refl (omega arith)
      to_meanwhile

-- The addresses are no longer fresh, and the lookup that follows fails just before they may not be used.
abbrev asked_again : World
asked_again = record {
  state = (begin_resolve 70 found_two.state name).0;
  running = running_after (begin_resolve 70 found_two.state name).1 name [];
}

abbrev failed_late : World
failed_late = ended 60000000069 60 asked_again [] name [] (err (failed 3))

to_failed_late : Run 60 start failed_late
unfolding begin_resolve join_or_start end_lookup store fresh prune find put key_eq str_eq
to_failed_late =
    extend
      (extend (extend to_joined (ends 10 [] name [] (ok (first ∷ second ∷ [])) refl))
        (calls 70 name))
      (ends 60000000069 [] name [] (err (failed 3)) refl)

answers_stale :
    (begin_resolve 61000000068 failed_late.state name).1 ≡ cached (ok (first ∷ second ∷ []))
unfolding begin_resolve join_or_start end_lookup store store_failed fresh prune find put key_eq
    str_eq
answers_stale = refl

Run-begin_resolve_example :
    (at : ℕ) × HasFound to_failed_late name at (first ∷ second ∷ [])
    × (61000000068 < at + 60 + 61 * Resolver.second)
Run-begin_resolve_example =
    Run-begin_resolve to_failed_late 61000000068 name (first ∷ second ∷ []) answers_stale
