-- ===== src/Delivery/Resolver/Lasting.antt =====
-- crates/sni_router/src/delivery/resolver.rs: how long the addresses that a lookup found are answered, whatever
-- other lookups end and are stored in the meantime.
use sni_router.Common.{
  ℕ, ◌+◌, ◌≤◌, ◌<◌, ◌≡◌, refl, ap, ◌∙◌, true, false, List, [], ◌∷◌, ◌++◌, some, ok, err, arith, ltb,
  leb, Bool-cases, Option-cases, inl, inr, length,
}
use sni_router.Lookup.Ip.{SocketAddr}
use sni_router.Cache.Map.{find, put}
use sni_router.Cache.Map.Laws.{find-put, find-put_same}
use sni_router.Delivery.Resolver.{
  Key, key_eq, Outcome, Entry, Cache, State, cached, joined, started, Begun, is_inflight, fresh,
  retain_usable, prune, prune_threshold, good_entry, store, store_failed, later, join_or_start,
  begin_resolve, end_lookup,
}
use sni_router.Delivery.Resolver.Answers.{key_eq_iff}
use sni_router.Delivery.Resolver.Flights.{
  World, Step, calls, ends, Run, start, running_after, count, count-append, IsSingle, Run-IsSingle,
}

-- The time of a step.
abbrev pub time : {ttl : ℕ} {w v : World} → Step ttl w v → ℕ
time (calls now key) = now
time (ends now before key after result h) = now

-- Steps that are not after a time.
pub data Until (ttl now : ℕ) (w : World) : World → Type 0 where
  stay : Until ttl now w w
  move : {v u : World} → Until ttl now w v → (s : Step ttl v u) → time s ≤ now → Until ttl now w u

-- The addresses of the key are known beyond the time, and no lookup of it runs.
record IsKnown (now : ℕ) (key : Key) (addrs : List SocketAddr) (w : World) : Type 0 where
  entry : Entry
  found : find key_eq w.state.cache key ≡ some entry
  good : entry.addrs ≡ some addrs
  lasts : now < entry.fresh_until
  quiet : count w.running key ≡ 0

find-retain_usable :
    (now : ℕ) (cache : Cache) (key : Key) (entry : Entry)
    → now < entry.fresh_until
    → find key_eq cache key ≡ some entry
    → find key_eq (retain_usable now cache) key ≡ some entry
unfolding find retain_usable
find-retain_usable now [] key entry soon h = h
find-retain_usable now ((k, e) ∷ cache) key entry soon h =
    ground (arith, find-retain_usable now cache key entry soon)

find-prune :
    (now : ℕ) (cache : Cache) (key : Key) (entry : Entry)
    → now < entry.fresh_until
    → find key_eq cache key ≡ some entry
    → find key_eq (prune now cache) key ≡ some entry
unfolding prune
find-prune now cache key entry soon h = elim (Bool-cases (leb prune_threshold (length cache))) [
  | inl full ↦ rw full (find-retain_usable now cache key entry soon h)
  | inr small ↦ rw small h
]

find-put_other :
    (cache : Cache) (k key : Key) (entry : Entry)
    → key_eq k key ≡ false
    → find key_eq (put key_eq cache k entry) key ≡ find key_eq cache key
find-put_other cache k key entry other =
    find-put key_eq key_eq_iff cache k key entry ∙ rw other refl

find-store_other :
    (now ttl : ℕ) (cache : Cache) (k key : Key) (result : Outcome)
    → key_eq k key ≡ false
    → find key_eq (store now ttl cache k result).0 key ≡ find key_eq (prune now cache) key
unfolding store store_failed
find-store_other now ttl cache k key (ok []) other = find-put_other (prune now cache) k key _ other
find-store_other now ttl cache k key (ok (a ∷ addrs)) other =
    find-put_other (prune now cache) k key _ other
find-store_other now ttl cache k key (err e) other = find-put_other (prune now cache) k key _ other

-- While they are known the addresses are answered from the cache.
begin_resolve-known :
    (until now : ℕ) (key : Key) (addrs : List SocketAddr) (w : World)
    → now ≤ until
    → IsKnown until key addrs w
    → begin_resolve now w.state key ≡ (w.state, cached (ok addrs))
unfolding begin_resolve fresh
begin_resolve-known until now key addrs w soon i =
    let in_time : ltb now i.entry.fresh_until ≡ true = ground (arith, i.lasts, soon) in
    rw (begin_resolve, fresh, i.found, in_time, i.good) refl

-- A call keeps the cache.
pub begin_resolve-cache :
    (now : ℕ) (s : State) (key : Key) → (begin_resolve now s key).0.cache ≡ s.cache
unfolding begin_resolve join_or_start
begin_resolve-cache now s key = elim (Option-cases (fresh now s.cache key)) [
  | inr (outcome, hit) ↦ rw (begin_resolve, hit) refl
  | inl missing ↦ elim (Bool-cases (is_inflight s.inflight key)) [
    | inl shared ↦ rw (begin_resolve, missing, shared) refl
    | inr free ↦ rw (begin_resolve, missing, free) refl
  ]
]

-- A call of another key starts no lookup of this one.
count-running_after :
    (b : Begun) (k key : Key) (running : List Key)
    → key_eq k key ≡ false
    → count (running_after b k running) key ≡ count running key
unfolding count
count-running_after (cached outcome) k key running other = refl
count-running_after joined k key running other = refl
count-running_after started k key running other = rw other refl

Step-IsKnown :
    {ttl until : ℕ} {w v : World} (key : Key) (addrs : List SocketAddr) (s : Step ttl w v)
    → time s ≤ until
    → IsKnown until key addrs w
    → IsKnown until key addrs v
unfolding count end_lookup
Step-IsKnown {ttl} {until} {w} key addrs (calls now k) soon i = elim (Bool-cases (key_eq k key)) [
  | inl same ↦
      let known = begin_resolve-known until now key addrs w soon i in
      let eq : k ≡ key = (key_eq_iff k key).0 same in
      rw (eq, known)
        record { entry = i.entry; found = i.found; good = i.good; lasts = i.lasts; quiet = i.quiet }
  | inr other ↦ record {
    entry = i.entry;
    found = rw (begin_resolve-cache now w.state k) i.found;
    good = i.good;
    lasts = i.lasts;
    quiet = count-running_after (begin_resolve now w.state k).1 k key w.running other ∙ i.quiet;
  }
]
Step-IsKnown {ttl} {until} {w} key addrs (ends now before k after result h) soon i =
    let size = ap (λ ks. count ks key) h in
    let parts = count-append before (k ∷ after) key in
    let other : key_eq k key ≡ false = ground (arith, size, parts, i.quiet) in
    record {
      entry = i.entry;
      found =
          find-store_other now ttl w.state.cache k key result other
          ∙ find-prune now w.state.cache key i.entry (omega (arith, i.lasts)) i.found;
      good = i.good;
      lasts = i.lasts;
      quiet = ground (arith, size, parts, i.quiet, count-append before after key);
    }

Until-IsKnown :
    {ttl until : ℕ} {w v : World} (key : Key) (addrs : List SocketAddr)
    → Until ttl until w v
    → IsKnown until key addrs w
    → IsKnown until key addrs v
Until-IsKnown key addrs stay i = i
Until-IsKnown key addrs (move u s soon) i =
    Step-IsKnown key addrs s soon (Until-IsKnown key addrs u i)

-- The world after the end of a lookup of the key.
abbrev pub ended : ℕ → ℕ → World → List Key → Key → List Key → Outcome → World
ended now ttl w before key after result = record {
  state = (end_lookup now ttl w.state key result).0;
  running = before ++ after;
}

ended-IsKnown :
    (now ttl until : ℕ) (w : World) (before : List Key) (key : Key) (after : List Key)
    (a : SocketAddr) (others : List SocketAddr)
    → until < now + ttl
    → IsSingle w
    → w.running ≡ before ++ key ∷ after
    → IsKnown until key (a ∷ others) (ended now ttl w before key after (ok (a ∷ others)))
unfolding end_lookup store good_entry later count
ended-IsKnown now ttl until w before key after a others soon i h = record {
  entry = good_entry now ttl (a ∷ others);
  found =
      find-put_same key_eq key_eq_iff (prune now w.state.cache) key
        (good_entry now ttl (a ∷ others));
  good = refl;
  lasts = soon;
  quiet = ground (
    arith,
    i.single key,
    ap (λ ks. count ks key) h,
    count-append before (key ∷ after) key,
    count-append before after key,
    (key_eq_iff key key).1 refl,
  );
}

-- When a lookup of a key ends with addresses in any run of the resolver, then after any further steps and until
-- the time to live is over a call for the key is answered with them from the cache, and starts no lookup:
-- neither other lookups that end, nor the pruning of the cache lose them.
pub begin_resolve-Until :
    {ttl : ℕ} {w v : World} (now until : ℕ) (before : List Key) (key : Key) (after : List Key)
    (a : SocketAddr) (others : List SocketAddr)
    → Run ttl start w
    → w.running ≡ before ++ key ∷ after
    → until < now + ttl
    → Until ttl until (ended now ttl w before key after (ok (a ∷ others))) v
    → begin_resolve until v.state key ≡ (v.state, cached (ok (a ∷ others)))
begin_resolve-Until {ttl} {w} {v} now until before key after a others r h soon u =
    let known = ended-IsKnown now ttl until w before key after a others soon (Run-IsSingle r) h in
    begin_resolve-known until until key (a ∷ others) v (omega arith)
      (Until-IsKnown key (a ∷ others) u known)
