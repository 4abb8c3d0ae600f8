-- ===== src/Witnesses/Cache.antt =====
-- The theorems on the cache, applied to a run with one load, and to a load whose key is invalidated.
use sni_router.Common.{ℕ, ◌≡◌, refl, true, false, List, [], ◌∷◌, none, some, ok, arith}
use sni_router.Lookup.Text.{str_eq}
use sni_router.Lookup.RouteKey.{RouteKey, key_eq}
use sni_router.Lookup.Routes
use sni_router.Lookup.Routes.{RouteCandidates, RouteHits, any_key, keys}
use sni_router.Cache.Map.{find, put, remove, retain}
use sni_router.Cache.State.{CacheConfig, CacheState, candidates_eq, empty}
use sni_router.Cache.Entries.{take_id, insert, remove_entries}
use sni_router.Cache.Loads.{
  LoadGuard, begin_lookup, load_or_join, start_load, invalidate, finish, owns_slot, release_slot,
}
use sni_router.Cache.Runs.{
  World, start, guards_after, look, end_load, Run, Step, halt, extend, anything,
}
use sni_router.Cache.Admission.{IsAdmitted, Run-IsAdmitted}
use sni_router.Cache.Capacity.{IsCapped, Run-IsCapped}
use sni_router.Cache.Freshness.{from_cache, brings_good, from_cache-invalidate}
use sni_router.Lookup.Backend.{dns}

abbrev config : CacheConfig
config = record {
  ttl = 30;
  negative_ttl = 5;
  max_entries = 2;
  stale_if_error = none;
  max_inflight_loads = 1;
}

abbrev key : RouteKey
key = record { text = b'a' ∷ []; wildcard = false }

abbrev candidates : RouteCandidates
candidates = record { exact = key; wildcard = none }

abbrev guard : LoadGuard
guard = record { candidates = candidates; id = 0 }

abbrev no_jitter : ℕ → ℕ → ℕ
no_jitter ttl id = ttl

abbrev loading : World
loading = record {
  state = (begin_lookup config 7 empty candidates).0;
  guards = guards_after (begin_lookup config 7 empty candidates).1 [];
}

abbrev loaded : World
loaded = record { state = finish no_jitter 9 config loading.state guard (ok []); guards = [] }

one_load : loading.guards ≡ guard ∷ []
unfolding begin_lookup load_or_join start_load take_id empty find
one_load = refl

to_loaded : Run no_jitter config anything start loaded
to_loaded = extend (extend halt (look 7 candidates)) (end_load 9 [] guard [] (ok []) one_load tt)

Run-IsAdmitted_example : IsAdmitted config loaded
Run-IsAdmitted_example = Run-IsAdmitted to_loaded

covered : Routes.contains candidates key ≡ true
unfolding Routes.contains any_key keys key_eq str_eq
covered = refl

Run-IsCapped_example : IsCapped config loaded.state
Run-IsCapped_example = Run-IsCapped to_loaded

-- The key is invalidated while its load runs, a second load is started, and both end: the first with a
-- route that the store has dropped.
abbrev two_loads : CacheConfig
two_loads = record {
  ttl = 30;
  negative_ttl = 5;
  max_entries = 2;
  stale_if_error = none;
  max_inflight_loads = 2;
}

abbrev second : LoadGuard
second = record { candidates = candidates; id = 1 }

abbrev dropped : RouteHits
dropped = (key, record { host = dns key.text; port = 443 }) ∷ []

abbrev slots : List (RouteCandidates × ℕ) → ℕ → CacheState
slots inflight loads = record empty { inflight = inflight; next_id = loads; running_loads = loads }

abbrev one_runs : World
one_runs = record { state = slots ((candidates, 0) ∷ []) 1; guards = guard ∷ [] }

abbrev cut_off : World
cut_off = record { state = slots [] 1; guards = guard ∷ [] }

abbrev two_run : World
two_run = record { state = slots ((candidates, 1) ∷ []) 2; guards = second ∷ guard ∷ [] }

abbrev first_ended : World
first_ended = record {
  state = record (slots ((candidates, 1) ∷ []) 2) { running_loads = 1 };
  guards = second ∷ [];
}

abbrev both_ended : World
both_ended = record {
  state = record {
    entries = (candidates, record { hits = []; expires = 15; stale_until = 15; id = 2 }) ∷ [];
    index = (key, candidates ∷ []) ∷ [];
    order = (candidates, 2) ∷ [];
    inflight = [];
    next_id = 3;
    running_loads = 0;
    last_purge = none;
  };
  guards = [];
}

abbrev SaysNothing : RouteHits → Type 0
SaysNothing hits = hits ≡ []

abbrev AfterCut : World → World → Type 0
AfterCut w v = Step no_jitter two_loads (brings_good key 1 SaysNothing) w v

first_starts : Run no_jitter two_loads anything start one_runs
unfolding begin_lookup load_or_join start_load take_id empty find put
first_starts = extend halt (look 7 candidates)

second_starts : AfterCut cut_off two_run
unfolding begin_lookup load_or_join start_load take_id empty find put
second_starts = look 8 candidates

first_ends : AfterCut two_run first_ended
unfolding finish owns_slot release_slot find empty candidates_eq key_eq str_eq
first_ends =
    end_load 9 (second ∷ []) guard [] (ok dropped) refl
      (λ hits is_ok covers late. absurd (omega (arith, late)))

second_ends : AfterCut first_ended both_ended
unfolding finish owns_slot release_slot find empty candidates_eq key_eq str_eq insert put keys
    remove Routes.is_empty
second_ends = end_load 10 [] second [] (ok []) refl (λ hits is_ok covers late. cc)

served_again : from_cache (begin_lookup two_loads 11 both_ended.state candidates).1 ≡ some []
unfolding begin_lookup find candidates_eq key_eq str_eq
served_again = refl

to_both_ended :
    Run no_jitter two_loads
      (brings_good key 1 SaysNothing)
      record { state = invalidate one_runs.state key; guards = one_runs.guards }
      both_ended
unfolding invalidate empty find remove_entries retain Routes.contains any_key keys key_eq str_eq
    remove
to_both_ended = extend (extend (extend halt second_starts) first_ends) second_ends

from_cache-invalidate_example : SaysNothing []
from_cache-invalidate_example =
    from_cache-invalidate key SaysNothing 11 candidates [] first_starts to_both_ended covered
      served_again
