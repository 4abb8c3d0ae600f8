-- ===== src/Cache/Admission.antt =====
-- crates/sni_router/src/cache.rs: which loads run, and what their slots and the index say.
use sni_router.Common.{
  ℕ, ◌-◌, ◌≤◌, ◌<◌, ◌≡◌, refl, sym, ap, ◌∙◌, Bool, true, false, ◌&&◌, List, [], ◌∷◌, ◌++◌, some,
  length, length-append, ◌==◌, arith, Bool-cases, ==_iff, inl, inr, if◌then◌else◌,
}
use sni_router.Lookup.Routes.{RouteCandidates}
use sni_router.Cache.Map.{find}
use sni_router.Cache.Map.Laws.{find-put, find-remove}
use sni_router.Cache.State.{
  CacheConfig, CacheState, LoadResult, candidates_eq, candidates_eq_iff, empty,
}
use sni_router.Cache.Entries.{take_id}
use sni_router.Cache.Loads.{
  LoadGuard, begin_lookup, start_load, finish, clear, owns_slot, release_slot,
}
use sni_router.Cache.Inserted.{IsIndexed, IsThinned-IsIndexed}
use sni_router.Cache.Runs.{
  World, start, guards_after, Brings, Step, look, end_load, drop_key, drop_all, Run, halt, extend,
}
use sni_router.Cache.Moves.{begin_lookup-move, finish-move}
use sni_router.Cache.Invalidation.{invalidate-IsIndexed, inflight-invalidate, invalidate-running}

abbrev is_load : RouteCandidates → ℕ → LoadGuard → Bool
is_load c id guard = candidates_eq guard.candidates c && guard.id == id

-- Whether a load of the candidates under the id is running.
unfoldable pub runs : List LoadGuard → RouteCandidates → ℕ → Bool
runs [] c id = false
runs (guard ∷ guards) c id = if is_load c id guard then true else runs guards c id

runs-append :
    (before : List LoadGuard) (guard : LoadGuard) (after : List LoadGuard) (c : RouteCandidates)
    (id : ℕ)
    → runs (before ++ guard ∷ after) c id ≡ true
    → is_load c id guard ≡ false
    → runs (before ++ after) c id ≡ true
unfolding runs
runs-append [] guard after c id h other = ground arith
runs-append (g ∷ before) guard after c id h other =
    ground (arith, runs-append before guard after c id)

-- The counter is the number of loads whose task has not finished, and within the limit; every slot that
-- is in flight is that of a running load; and the index finds every entry.
pub record IsAdmitted (config : CacheConfig) (w : World) : Type 0 where
  pub counted : w.state.running_loads ≡ length w.guards
  pub bounded : length w.guards ≤ config.max_inflight_loads
  pub not_stuck :
      (c : RouteCandidates) (id : ℕ)
      → find candidates_eq w.state.inflight c ≡ some id
      → runs w.guards c id ≡ true
  pub found : IsIndexed w.state

started-IsAdmitted :
    (config : CacheConfig) (w : World) (c : RouteCandidates)
    → w.state.running_loads < config.max_inflight_loads
    → IsAdmitted config w
    → IsAdmitted config
        record { state = (start_load w.state c).0; guards = (start_load w.state c).1 ∷ w.guards }
unfolding start_load take_id runs
started-IsAdmitted config w c room i = record {
  counted = omega (arith, i.counted);
  bounded = omega (arith, i.counted, room);
  not_stuck = λ d id h. ground (
    arith,
    find-put candidates_eq candidates_eq_iff w.state.inflight c d w.state.next_id,
    i.not_stuck d id,
  );
  found = record { under = i.found.under };
}

look-IsAdmitted :
    (config : CacheConfig) (now : ℕ) (w : World) (c : RouteCandidates)
    → IsAdmitted config w
    → IsAdmitted config record {
      state = (begin_lookup config now w.state c).0;
      guards = guards_after (begin_lookup config now w.state c).1 w.guards;
    }
look-IsAdmitted config now w c i = elim (begin_lookup-move config now w.state c) [
  | inl (same, none_added) ↦ rw (same, none_added w.guards) i
  | inr (free, room, stale, e) ↦ rw e (started-IsAdmitted config w c room i)
]

-- The loads of a state in which a guard is done.
record IsReleased (config : CacheConfig) (s t : CacheState) (guard : LoadGuard) : Type 0 where
  inflight : t.inflight ≡ (release_slot s guard).inflight
  running : t.running_loads ≡ s.running_loads - 1
  found : IsIndexed s → IsIndexed t

finish-IsReleased :
    (jittered : ℕ → ℕ → ℕ) (now : ℕ) (config : CacheConfig) (s : CacheState) (guard : LoadGuard)
    (result : LoadResult)
    → IsReleased config s (finish jittered now config s guard result) guard
finish-IsReleased jittered now config s guard result =
    elim (finish-move jittered now config s guard result) [
      | inl thin ↦ record {
        inflight = thin.loads.inflight;
        running = thin.loads.running ∙ (unfold release_slot in refl);
        found = λ i. IsThinned-IsIndexed _ _ thin (released i);
      }
      | inr (hits, brought, mine, new) ↦ record {
        inflight = new.loads.inflight;
        running = new.loads.running ∙ (unfold release_slot in refl);
        found = λ i. new.keeps_index (released i);
      }
    ]
  where
    released : IsIndexed s → IsIndexed (release_slot s guard)
    released i = unfold release_slot in record { under = i.under }

owns_slot_held :
    (s : CacheState) (guard : LoadGuard)
    → find candidates_eq s.inflight guard.candidates ≡ some guard.id
    → owns_slot s guard ≡ true
unfolding owns_slot
owns_slot_held s guard h = rw (owns_slot, h) ((==_iff guard.id guard.id).1 refl)

-- A slot that is left when a guard is done is that of another load.
release_slot-other :
    (s : CacheState) (guard : LoadGuard) (c : RouteCandidates) (id : ℕ)
    → find candidates_eq (release_slot s guard).inflight c ≡ some id
    → (find candidates_eq s.inflight c ≡ some id) × (is_load c id guard ≡ false)
unfolding release_slot
release_slot-other s guard c id = elim (Bool-cases (owns_slot s guard)) [
  | inl mine ↦ rw mine (λ h.
      ground (arith, find-remove candidates_eq candidates_eq_iff s.inflight guard.candidates c))
  | inr lost ↦ rw lost (λ h. elim (Bool-cases (is_load c id guard)) [
    | inr other ↦ (h, other)
    | inl own ↦
        let same : guard.candidates ≡ c = (candidates_eq_iff guard.candidates c).0 (ground arith) in
        let number : guard.id ≡ id = ground arith in
        absurd (cc (owns_slot_held s guard (rw (same, number) h)))
  ])
]

release_slot-not_stuck :
    (s : CacheState) (before : List LoadGuard) (guard : LoadGuard) (after : List LoadGuard)
    (c : RouteCandidates) (id : ℕ)
    → (find candidates_eq s.inflight c ≡ some id → runs (before ++ guard ∷ after) c id ≡ true)
    → find candidates_eq (release_slot s guard).inflight c ≡ some id
    → runs (before ++ after) c id ≡ true
release_slot-not_stuck s before guard after c id held h =
    let (there, other) = release_slot-other s guard c id h in
    runs-append before guard after c id (held there) other

Step-IsAdmitted :
    {jittered : ℕ → ℕ → ℕ} {config : CacheConfig} {brings : Brings} {w v : World}
    → Step jittered config brings w v
    → IsAdmitted config w
    → IsAdmitted config v
Step-IsAdmitted {config} {w} (look now c) i = look-IsAdmitted config now w c i
Step-IsAdmitted {jittered} {config} {w} (end_load now before guard after result h brought) i =
    let r = finish-IsReleased jittered now config w.state guard result in
    let sizes = ap length h in
    record {
      counted = omega (
        arith,
        r.running,
        i.counted,
        sizes,
        length-append before (guard ∷ after),
        length-append before after,
      );
      bounded = omega (
        arith,
        i.bounded,
        sizes,
        length-append before (guard ∷ after),
        length-append before after,
      );
      not_stuck = λ c id slot.
          release_slot-not_stuck w.state before guard after c id
            (λ there. rw h at (i.not_stuck c id there))
            (sym (ap (λ m. find candidates_eq m c) r.inflight) ∙ slot);
      found = r.found i.found;
    }
Step-IsAdmitted {w} (drop_key key) i = record {
  counted = invalidate-running w.state key ∙ i.counted;
  bounded = i.bounded;
  not_stuck = λ c id slot. ground (arith, inflight-invalidate w.state key c, i.not_stuck c id);
  found = invalidate-IsIndexed w.state key i.found;
}
Step-IsAdmitted drop_all i = record {
  counted = unfold clear in i.counted;
  bounded = i.bounded;
  not_stuck = λ c id slot. unfold clear find in cc;
  found = record { under = λ c e key h covered. unfold clear find in cc };
}

-- In every run of lookups, ends of loads, invalidations and clearings, in any order and with any results
-- of the store, the counter is the number of loads whose task has not finished and never exceeds the limit
-- on loads; every slot in flight is that of a running load, so that none is stuck; and the index finds every
-- entry under each key that could answer it.
pub Run-IsAdmitted :
    {jittered : ℕ → ℕ → ℕ} {config : CacheConfig} {brings : Brings} {w : World}
    → Run jittered config brings start w
    → IsAdmitted config w
unfolding empty find
Run-IsAdmitted halt = record {
  counted = refl;
  bounded = omega arith;
  not_stuck = λ c id slot. cc;
  found = record { under = λ c e key h covered. cc };
}
Run-IsAdmitted (extend r s) = Step-IsAdmitted s (Run-IsAdmitted r)
