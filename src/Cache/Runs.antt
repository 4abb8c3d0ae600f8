-- ===== src/Cache/Runs.antt =====
-- crates/sni_router/src/cache.rs: runs of the cache. Each critical section under the mutex is a step, at
-- any time; which loads bring which results is up to the store.
use sni_router.Common.{ℕ, ◌≡◌, List, [], ◌∷◌, ◌++◌}
use sni_router.Lookup.RouteKey.{RouteKey}
use sni_router.Lookup.Routes.{RouteCandidates}
use sni_router.Cache.State.{CacheConfig, CacheState, LoadResult, empty}
use sni_router.Cache.Loads.{LoadGuard, Begun, started, begin_lookup, finish, invalidate, clear}

-- The state, and the guards of the loads whose task has not finished.
pub record World : Type 0 where
  pub state : CacheState
  pub guards : List LoadGuard

abbrev pub start : World
start = record { state = empty; guards = [] }

-- A lookup that starts a load adds its guard.
abbrev pub guards_after : Begun → List LoadGuard → List LoadGuard
guards_after (started guard stale) guards = guard ∷ guards
guards_after _ guards = guards

-- The results that a load may bring.
abbrev pub Brings : Type 1
Brings = LoadGuard → LoadResult → Type 0

abbrev pub anything : Brings
anything guard result = Unit

module _ (jittered : ℕ → ℕ → ℕ) (config : CacheConfig) (brings : Brings) where
  pub data Step (w : World) : World → Type 0 where
    look :
        (now : ℕ) (c : RouteCandidates)
        → Step w record {
          state = (begin_lookup config now w.state c).0;
          guards = guards_after (begin_lookup config now w.state c).1 w.guards;
        }
    end_load :
        (now : ℕ) (before : List LoadGuard) (guard : LoadGuard) (after : List LoadGuard)
        (result : LoadResult)
        → w.guards ≡ before ++ guard ∷ after
        → brings guard result
        → Step w record {
          state = finish jittered now config w.state guard result;
          guards = before ++ after;
        }
    drop_key :
        (key : RouteKey) → Step w record { state = invalidate w.state key; guards = w.guards }
    drop_all : Step w record { state = clear w.state; guards = w.guards }

  pub data Run (w : World) : World → Type 0 where
    halt : Run w w
    extend : {v u : World} → Run w v → Step v u → Run w u
