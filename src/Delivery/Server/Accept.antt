-- ===== src/Delivery/Server/Accept.antt =====
-- crates/sni_router/src/delivery/server.rs: `accept_any` is fair.
use sni_router.Common.{
  ℕ, zero, suc, ◌+◌, ◌-◌, ◌%◌, ◌≤◌, ◌<◌, ◌≡◌, ◌⊎◌, refl, ap, ◌∙◌, Bool, true, List, [], ◌∷◌, Option,
  none, some, arith, length, Bool-cases, ltb, ltb→lt, ltb→le, inl, inr,
}
use native.Mathlib.Nat.{mod-add-mod, add-mod_right, mod-eq_of_lt}
use sni_router.Lookup.Text.{contains}
use sni_router.Delivery.Server.{accept_from, accept_any}

-- The listener is accepted from, or it is nearer to the start now.
record HasMoved (count j bound : ℕ) (result : Option (ℕ × ℕ)) : Type 0 where
  index : ℕ
  next : ℕ
  picks : result ≡ some (index, next)
  nearer : (index ≡ j) ⊎ ((d : ℕ) × (d < bound) × ((next + d) % count ≡ j))

-- Behind an accept at an offset, what was at a later offset is nearer by one place more.
shifted :
    (count next offset d j : ℕ)
    → offset < d
    → (next + d) % count ≡ j
    → (((next + offset) % count + 1) % count + (d - offset - 1)) % count ≡ j
shifted count next offset d j before place =
    mod-add-mod ((next + offset) % count + 1) count (d - offset - 1)
    ∙ ap (λ n. n % count) (omega arith)
    ∙ mod-add-mod (next + offset) count (1 + (d - offset - 1))
    ∙ ap (λ n. n % count) (omega (arith, before))
    ∙ place

accept_from-HasMoved :
    (count next : ℕ) (ready : ℕ → Bool) (offset left j d : ℕ)
    → ready j ≡ true
    → (next + d) % count ≡ j
    → offset ≤ d
    → d < offset + left
    → HasMoved count j d (accept_from count next ready offset left)
unfolding accept_from
accept_from-HasMoved count next ready offset zero j d is_ready place low high =
    absurd (omega (arith, low, high))
accept_from-HasMoved count next ready offset (suc left) j d is_ready place low high =
    let here : offset ≡ d → (next + offset) % count ≡ j =
      λ same. ap (λ o. (next + o) % count) same ∙ place in
    elim (Bool-cases (ready ((next + offset) % count))) [
      | inl first ↦ rw first record {
        index = (next + offset) % count;
        next = ((next + offset) % count + 1) % count;
        picks = refl;
        nearer = elim (Bool-cases (ltb offset d)) [
          | inl before ↦ inr (
            d - offset - 1,
            omega (arith, ltb→lt _ _ before),
            shifted count next offset d j (ltb→lt _ _ before) place,
          )
          | inr not_before ↦ inl (here (omega (arith, low, ltb→le _ _ not_before)))
        ];
      }
      | inr skipped ↦ rw skipped (elim (Bool-cases (ltb offset d)) [
        | inl before ↦
            accept_from-HasMoved count next ready (offset + 1) left j d is_ready place
              (omega (arith, ltb→lt _ _ before)) (omega (arith, high))
        | inr not_before ↦
            absurd (cc (is_ready, skipped, here (omega (arith, low, ltb→le _ _ not_before))))
      ])
    ]

-- The listeners that so many accepts take a connection from, each with what is ready at the time.
unfoldable pub accepts : ℕ → ℕ → List (ℕ → Bool) → List ℕ
accepts count next [] = []
accepts count next (ready ∷ times) = elim (accept_any count next ready) [
  | none ↦ accepts count next times
  | some (index, next') ↦ index ∷ accepts count next' times
]

abbrev pub AlwaysReady : ℕ → List (ℕ → Bool) → Type 0
AlwaysReady j [] = Unit
AlwaysReady j (ready ∷ times) = (ready j ≡ true) × AlwaysReady j times

accepts-next :
    (count next index next' : ℕ) (ready : ℕ → Bool) (times : List (ℕ → Bool))
    → accept_any count next ready ≡ some (index, next')
    → accepts count next (ready ∷ times) ≡ index ∷ accepts count next' times
unfolding accepts
accepts-next count next index next' ready times e = rw (accepts, e) refl

contains-head : (j x : ℕ) (xs : List ℕ) → x ≡ j → contains j (x ∷ xs) ≡ true
unfolding contains
contains-head j x xs same = ground (arith, same)

contains-tail : (j x : ℕ) (xs : List ℕ) → contains j xs ≡ true → contains j (x ∷ xs) ≡ true
unfolding contains
contains-tail j x xs h = ground (arith, h)

accepts-turn :
    (count next j d : ℕ) (times : List (ℕ → Bool))
    → AlwaysReady j times
    → (next + d) % count ≡ j
    → d < count
    → d < length times
    → contains j (accepts count next times) ≡ true
unfolding accept_any
accepts-turn count next j d [] always place ahead enough = absurd (omega (arith, enough))
accepts-turn count next j d (ready ∷ times) (is_ready, always) place ahead enough =
    let m =
      accept_from-HasMoved count next ready 0 count j d is_ready place (omega arith)
        (omega (arith, ahead)) in
    let accepted = accepts-next count next m.index m.next ready times m.picks in
    rw accepted (elim m.nearer [
      | inl same ↦ contains-head j m.index _ same
      | inr (e, nearer, place') ↦ contains-tail j m.index _ (
          accepts-turn count m.next j e times always place' (omega (arith, nearer, ahead))
            (omega (arith, nearer, enough)))
    ])

-- However busy the other listeners are, one that has a connection waiting is accepted from within as many
-- accepts as there are listeners.
pub accepts-fair :
    (count next j : ℕ) (times : List (ℕ → Bool))
    → next < count
    → j < count
    → AlwaysReady j times
    → count ≤ length times
    → contains j (accepts count next times) ≡ true
accepts-fair count next j times starts listed always enough = elim (Bool-cases (ltb j next)) [
  | inl behind ↦
      accepts-turn count next j (j + count - next) times always
        (ap (λ n. n % count) (omega (arith, ltb→lt _ _ behind, starts))
          ∙ add-mod_right j count
          ∙ mod-eq_of_lt listed)
        (omega (arith, ltb→lt _ _ behind, starts))
        (omega (arith, ltb→lt _ _ behind, starts, enough))
  | inr ahead ↦
      accepts-turn count next j (j - next) times always
        (ap (λ n. n % count) (omega (arith, ltb→le _ _ ahead)) ∙ mod-eq_of_lt listed)
        (omega (arith, listed)) (omega (arith, listed, enough))
]
