-- ===== src/Delivery/Resolver/Flights.antt =====
-- crates/sni_router/src/delivery/resolver.rs: lookups of the system that run at once. Each critical section
-- under the mutex is a step, at any time; what the system resolves is up to the world.
use sni_router.Common.{
  ℕ, ◌+◌, ◌≤◌, ◌≡◌, refl, ap, ◌∙◌, false, List, [], ◌∷◌, ◌++◌, arith, if◌then◌else◌, Bool-cases,
  Option-cases, inl, inr,
}
use sni_router.Delivery.Resolver.{
  Key, key_eq, Outcome, State, Begun, started, fresh, is_inflight, remove_inflight, join_or_start,
  begin_resolve, end_lookup,
}
use sni_router.Delivery.Resolver.Answers.{key_eq_iff}

-- The state, and the keys of the lookups whose task has not ended.
pub record World : Type 0 where
  pub state : State
  pub running : List Key

-- A call that starts a lookup adds its task.
abbrev pub running_after : Begun → Key → List Key → List Key
running_after started key running = key ∷ running
running_after _ key running = running

module _ (ttl : ℕ) where
  pub data Step (w : World) : World → Type 0 where
    calls :
        (now : ℕ) (key : Key)
        → Step w record {
          state = (begin_resolve now w.state key).0;
          running = running_after (begin_resolve now w.state key).1 key w.running;
        }
    ends :
        (now : ℕ) (before : List Key) (key : Key) (after : List Key) (result : Outcome)
        → w.running ≡ before ++ key ∷ after
        → Step w
            record { state = (end_lookup now ttl w.state key result).0; running = before ++ after }

  pub data Run (w : World) : World → Type 0 where
    halt : Run w w
    extend : {v u : World} → Run w v → Step v u → Run w u

abbrev pub start : World
start = record { state = record { cache = []; inflight = [] }; running = [] }

-- How many of the keys are the key.
unfoldable pub count : List Key → Key → ℕ
count [] key = 0
count (k ∷ ks) key = if key_eq k key then count ks key + 1 else count ks key

pub count-append :
    (before after : List Key) (key : Key)
    → count (before ++ after) key ≡ count before key + count after key
unfolding count
count-append [] after key = omega arith
count-append (k ∷ before) after key = ground (arith, count-append before after key)

count-not_inflight : (ks : List Key) (key : Key) → is_inflight ks key ≡ false → count ks key ≡ 0
unfolding count is_inflight
count-not_inflight [] key h = refl
count-not_inflight (k ∷ ks) key h = ground (arith, count-not_inflight ks key)

remove_absent : (ks : List Key) (key : Key) → count ks key ≡ 0 → remove_inflight ks key ≡ ks
unfolding count remove_inflight
remove_absent [] key h = refl
remove_absent (k ∷ ks) key h = ground (arith, remove_absent ks key)

remove-append :
    (before after : List Key) (key : Key)
    → remove_inflight (before ++ after) key
      ≡ remove_inflight before key ++ remove_inflight after key
unfolding remove_inflight
remove-append [] after key = refl
remove-append (k ∷ before) after key = ground (arith, remove-append before after key)

-- The keys in flight are those of the running lookups, and no key has two.
pub record IsSingle (w : World) : Type 0 where
  pub inflight : w.state.inflight ≡ w.running
  pub single : (key : Key) → count w.running key ≤ 1

remove_ended :
    (before after : List Key) (key : Key)
    → count (before ++ key ∷ after) key ≤ 1
    → remove_inflight (before ++ key ∷ after) key ≡ before ++ after
unfolding remove_inflight count
remove_ended before after key once =
    let size = count-append before (key ∷ after) key in
    let self = (key_eq_iff key key).1 refl in
    let front = remove_absent before key (ground (arith, size, once, self)) in
    let back = remove_absent after key (ground (arith, size, once, self)) in
    remove-append before (key ∷ after) key ∙ rw (self, front, back) refl

end_lookup-inflight :
    (now ttl : ℕ) (s : State) (key : Key) (result : Outcome)
    → (end_lookup now ttl s key result).0.inflight ≡ remove_inflight s.inflight key
unfolding end_lookup
end_lookup-inflight now ttl s key result = refl

calls-IsSingle :
    (now : ℕ) (w : World) (key : Key)
    → IsSingle w
    → IsSingle record {
      state = (begin_resolve now w.state key).0;
      running = running_after (begin_resolve now w.state key).1 key w.running;
    }
unfolding begin_resolve join_or_start count
calls-IsSingle now w key i = elim (Option-cases (fresh now w.state.cache key)) [
  | inr (outcome, hit) ↦ rw (begin_resolve, hit) i
  | inl missing ↦ elim (Bool-cases (is_inflight w.state.inflight key)) [
    | inl shared ↦ rw (begin_resolve, missing, shared) i
    | inr free ↦
        let none_runs = count-not_inflight w.running key (rw i.inflight at free) in
        rw (begin_resolve, missing, free)
          record {
            inflight = ap (λ ks. key ∷ ks) i.inflight;
            single = λ k. ground (arith, i.single k, none_runs, key_eq_iff key k);
          }
  ]
]

Step-IsSingle : {ttl : ℕ} {w v : World} → Step ttl w v → IsSingle w → IsSingle v
unfolding count
Step-IsSingle {ttl} {w} (calls now key) i = calls-IsSingle now w key i
Step-IsSingle {ttl} {w} (ends now before key after result h) i = record {
  inflight =
      end_lookup-inflight now ttl w.state key result
      ∙ ap (λ ks. remove_inflight ks key) (i.inflight ∙ h)
      ∙ remove_ended before after key (rw h at (i.single key));
  single = λ k. ground (
    arith,
    i.single k,
    ap (λ ks. count ks k) h,
    count-append before (key ∷ after) k,
    count-append before after k,
  );
}

-- In every run of calls and ends of lookups, in any order and whatever the system resolves, the keys in
-- flight are those of the lookups that run, and no two lookups of a key run at once.
pub Run-IsSingle : {ttl : ℕ} {w : World} → Run ttl start w → IsSingle w
unfolding count
Run-IsSingle halt = record { inflight = refl; single = λ key. omega arith }
Run-IsSingle (extend r s) = Step-IsSingle s (Run-IsSingle r)
