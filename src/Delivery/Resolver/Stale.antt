-- ===== src/Delivery/Resolver/Stale.antt =====
-- crates/sni_router/src/delivery/resolver.rs: how old the addresses may be that are answered from the cache.
use sni_router.Common.{
  ℕ, ◌+◌, ◌*◌, ◌≤◌, ◌<◌, ◌≡◌, ◌⊎◌, refl, sym, subst, List, [], ◌∷◌, none, some, ok, err, ok_or,
  arith, max, ltb, leb, Bool-cases, Option-cases, inl, inr, length,
}
use sni_router.Lookup.Ip.{SocketAddr}
use sni_router.Cache.Map.{find, put}
use sni_router.Delivery.Resolver.{
  Key, key_eq, Outcome, Entry, Cache, State, Failure, second, negative_ttl, stale_if_error,
  not_found, cached, fresh, is_inflight, retain_usable, prune, prune_threshold, good_entry,
  entry_or_empty, stale_addrs, store, store_failed, later, join_or_start, begin_resolve, end_lookup,
}
use sni_router.Delivery.Resolver.Answers.{key_eq_iff}
use sni_router.Delivery.Resolver.Flights.{World, Step, calls, ends, Run, halt, extend, start}
use sni_router.Delivery.Resolver.Lasting.{begin_resolve-cache}

-- A call that is answered finds a fresh entry.
begin_resolve-cached :
    (now : ℕ) (s : State) (key : Key) (outcome : Outcome)
    → (begin_resolve now s key).1 ≡ cached outcome
    → (e : Entry) × (find key_eq s.cache key ≡ some e)
      × (now < e.fresh_until)
      × (ok_or e.addrs not_found ≡ outcome)
unfolding begin_resolve join_or_start fresh
begin_resolve-cached now s key outcome h = elim (Option-cases (find key_eq s.cache key)) [
  | inl missing ↦ elim (Bool-cases (is_inflight s.inflight key)) [
    | inl shared ↦ absurd (cc (rw (begin_resolve, fresh, missing, join_or_start, shared) at h))
    | inr free ↦ absurd (cc (rw (begin_resolve, fresh, missing, join_or_start, free) at h))
  ]
  | inr (e, hit) ↦ elim (Bool-cases (ltb now e.fresh_until)) [
    | inl soon ↦ (e, hit, ground (arith, soon), cc (rw (begin_resolve, fresh, hit, soon) at h))
    | inr over ↦ elim (Bool-cases (is_inflight s.inflight key)) [
      | inl shared ↦ absurd (cc (rw (begin_resolve, fresh, hit, over, join_or_start, shared) at h))
      | inr free ↦ absurd (cc (rw (begin_resolve, fresh, hit, over, join_or_start, free) at h))
    ]
  ]
]

-- Over what is known to have been found: the addresses of a key, at a time.
module _ (ttl : ℕ) (Found : Key → ℕ → List SocketAddr → Type 0) where
  -- An entry has no addresses, or those of a lookup, and its times follow from that of the lookup.
  data IsDated (key : Key) (e : Entry) : Type 0 where
    without : e.addrs ≡ none → IsDated key e
    dated :
        (addrs : List SocketAddr) (at : ℕ)
        → e.addrs ≡ some addrs
        → Found key at addrs
        → e.stale_until ≡ at + ttl + stale_if_error
        → e.fresh_until ≤ e.stale_until + negative_ttl
        → IsDated key e

  AreDated : Cache → Type 0
  AreDated [] = Unit
  AreDated ((key, e) ∷ cache) = IsDated key e × AreDated cache

  find-AreDated :
      (cache : Cache) (key : Key) (e : Entry)
      → AreDated cache
      → find key_eq cache key ≡ some e
      → IsDated key e
  unfolding find AreDated
  find-AreDated [] key e i h = absurd (cc)
  find-AreDated ((k, d) ∷ cache) key e (first, i) h = elim (Bool-cases (key_eq k key)) [
    | inl same ↦
        let eq : d ≡ e = ground (arith, h) in
        subst (λ x. IsDated key x) eq (subst (λ x. IsDated x d) ((key_eq_iff k key).0 same) first)
    | inr other ↦ find-AreDated cache key e i (ground (arith, h))
  ]

  put-AreDated :
      (cache : Cache) (key : Key) (e : Entry)
      → AreDated cache
      → IsDated key e
      → AreDated (put key_eq cache key e)
  unfolding put AreDated
  put-AreDated [] key e i new = (new, tt)
  put-AreDated ((k, d) ∷ cache) key e (first, i) new = elim (Bool-cases (key_eq k key)) [
    | inl same ↦ rw same (subst (λ x. IsDated x e) (sym ((key_eq_iff k key).0 same)) new, i)
    | inr other ↦ rw other (first, put-AreDated cache key e i new)
  ]

  retain_usable-AreDated :
      (now : ℕ) (cache : Cache) → AreDated cache → AreDated (retain_usable now cache)
  unfolding retain_usable AreDated
  retain_usable-AreDated now [] i = tt
  retain_usable-AreDated now ((k, d) ∷ cache) (first, i) =
      elim (Bool-cases (ltb now (max d.stale_until d.fresh_until))) [
        | inl usable ↦ rw usable (first, retain_usable-AreDated now cache i)
        | inr over ↦ rw over (retain_usable-AreDated now cache i)
      ]

  prune-AreDated : (now : ℕ) (cache : Cache) → AreDated cache → AreDated (prune now cache)
  unfolding prune
  prune-AreDated now cache i = elim (Bool-cases (leb prune_threshold (length cache))) [
    | inl full ↦ rw full (retain_usable-AreDated now cache i)
    | inr small ↦ rw small i
  ]

  entry_or_empty-IsDated :
      (now : ℕ) (cache : Cache) (key : Key)
      → AreDated cache
      → IsDated key (entry_or_empty now (find key_eq cache key))
  unfolding entry_or_empty
  entry_or_empty-IsDated now cache key i = elim (Option-cases (find key_eq cache key)) [
    | inl new ↦ rw new (without refl)
    | inr (e, old) ↦ rw old (find-AreDated cache key e i old)
  ]

  -- The entry that a failure leaves.
  failed-IsDated :
      (now : ℕ) (key : Key) (e : Entry)
      → IsDated key e
      → IsDated key record {
        addrs = stale_addrs now e;
        fresh_until = now + negative_ttl;
        stale_until = e.stale_until;
      }
  unfolding stale_addrs
  failed-IsDated now key e i = elim (Bool-cases (ltb now e.stale_until)) [
    | inr over ↦ without (rw over refl)
    | inl usable ↦ elim i [
      | without h ↦ without (rw (usable, h) refl)
      | dated addrs at h found stale soon ↦
          dated addrs at (rw (usable, h) refl) found stale (ground (arith, usable))
    ]
  ]

  store_failed-AreDated :
      (now : ℕ) (cache : Cache) (key : Key) (error : Failure)
      → AreDated cache
      → AreDated (store_failed now cache key error).0
  unfolding store_failed later
  store_failed-AreDated now cache key error i =
      put-AreDated cache key _ i (failed-IsDated now key _ (entry_or_empty-IsDated now cache key i))

  store-AreDated :
      (now : ℕ) (cache : Cache) (key : Key) (result : Outcome)
      → AreDated cache
      → ((addrs : List SocketAddr) → result ≡ ok addrs → Found key now addrs)
      → AreDated (store now ttl cache key result).0
  unfolding store good_entry later
  store-AreDated now cache key (ok []) i found =
      store_failed-AreDated now (prune now cache) key not_found (prune-AreDated now cache i)
  store-AreDated now cache key (ok (a ∷ others)) i found =
      put-AreDated (prune now cache) key _ (prune-AreDated now cache i)
        (dated (a ∷ others) now refl (found (a ∷ others) refl) refl (omega arith))
  store-AreDated now cache key (err error) i found =
      store_failed-AreDated now (prune now cache) key error (prune-AreDated now cache i)

  -- The age of what is answered while an entry is fresh.
  fresh-dated :
      (now : ℕ) (key : Key) (e : Entry) (addrs : List SocketAddr)
      → IsDated key e
      → now < e.fresh_until
      → ok_or e.addrs not_found ≡ ok addrs
      → (at : ℕ) × Found key at addrs × (now < at + ttl + 61 * second)
  fresh-dated now key e addrs (without none_yet) soon h = absurd (cc (none_yet, h))
  fresh-dated now key e addrs (dated others at known found stale late) soon h =
      let same : others ≡ addrs = cc (known, h) in
      (at, subst (Found key at) same found, omega (arith, soon, stale, late))

  begin_resolve-dated :
      (now : ℕ) (s : State) (key : Key) (addrs : List SocketAddr)
      → AreDated s.cache
      → (begin_resolve now s key).1 ≡ cached (ok addrs)
      → (at : ℕ) × Found key at addrs × (now < at + ttl + 61 * second)
  begin_resolve-dated now s key addrs i h =
      let (e, found, soon, answer) = begin_resolve-cached now s key (ok addrs) h in
      fresh-dated now key e addrs (find-AreDated s.cache key e i found) soon answer

-- What the end of a lookup has found.
abbrev FoundBy : {ttl : ℕ} {w v : World} → Step ttl w v → Key → ℕ → List SocketAddr → Type 0
FoundBy (calls now k) key at addrs = ⊥
FoundBy (ends now before k after result h) key at addrs =
    (k ≡ key) × (now ≡ at) × (result ≡ ok addrs)

-- In the run a lookup of the key ended at the time and found the addresses.
abbrev pub HasFound : {ttl : ℕ} {w v : World} → Run ttl w v → Key → ℕ → List SocketAddr → Type 0
HasFound halt key at addrs = ⊥
HasFound (extend r s) key at addrs = FoundBy s key at addrs ⊎ HasFound r key at addrs

AreDated-later :
    (ttl : ℕ) {F G : Key → ℕ → List SocketAddr → Type 0} (cache : Cache)
    → ((key : Key) (at : ℕ) (addrs : List SocketAddr) → F key at addrs → G key at addrs)
    → AreDated ttl F cache
    → AreDated ttl G cache
unfolding AreDated
AreDated-later ttl [] more i = tt
AreDated-later ttl {F} {G} ((key, e) ∷ cache) more (first, i) =
    (entry first, AreDated-later ttl cache more i)
  where
    entry : IsDated ttl F key e → IsDated ttl G key e
    entry (without h) = without h
    entry (dated addrs at h found stale late) =
        dated addrs at h (more key at addrs found) stale late

Run-AreDated : {ttl : ℕ} {w : World} (r : Run ttl start w) → AreDated ttl (HasFound r) w.state.cache
unfolding AreDated end_lookup
Run-AreDated halt = tt
Run-AreDated {ttl} (extend {v} r (calls now key)) =
    rw (begin_resolve-cache now v.state key)
      (AreDated-later ttl v.state.cache (λ k at addrs h. inr h) (Run-AreDated r))
Run-AreDated {ttl} (extend {v} r (ends now before key after result h)) =
    store-AreDated ttl (HasFound (extend r (ends now before key after result h))) now v.state.cache
      key result (AreDated-later ttl v.state.cache (λ k at addrs f. inr f) (Run-AreDated r))
      (λ addrs e. inl (refl, refl, e))

-- In every run of the resolver the addresses that a call is answered with from the cache were found by a lookup
-- of its key, that ended less than the time to live and 61 seconds before: the 60 for which a stale answer may
-- be used, and the second for which a failure is remembered.
pub Run-begin_resolve :
    {ttl : ℕ} {w : World} (r : Run ttl start w) (now : ℕ) (key : Key) (addrs : List SocketAddr)
    → (begin_resolve now w.state key).1 ≡ cached (ok addrs)
    → (at : ℕ) × HasFound r key at addrs × (now < at + ttl + 61 * second)
Run-begin_resolve {ttl} {w} r now key addrs h =
    begin_resolve-dated ttl (HasFound r) now w.state key addrs (Run-AreDated r) h
