-- ===== src/Metrics/Labels.antt =====
-- crates/sni_router/src/metrics.rs: the labels tell the values apart.
use sni_router.Common.{
  ℕ, ◌≡◌, refl, sym, ap, ◌∙◌, String, List, [], ◌∷◌, Option, none, some, if◌then◌else◌,
}
use Prim.Native.Char.{code}
use mathlib.Core.Option.{some-injective}
use sni_router.Lookup.Text.{str_eq}
use sni_router.Metrics.{
  proxied, proxy_error, client_closed, hello_timeout, invalid_hello, missing_sni, unknown_host,
  lookup_failed, lookup_timeout, upstream_connect_failed, upstream_timeout, idle_timeout,
  shutdown_cancelled, shutdown_forced, aborted, found, not_found, error, timeout, hit, negative_hit,
  miss, coalesced, stale_served, load_error, shed, ConnectionOutcome, LookupOutcome, CacheEvent,
  outcome_label, lookup_label, event_label,
}

abbrev codes : String → List ℕ
codes String.[] = []
codes (String.◌∷◌ c s) = code c ∷ codes s

-- The first value with the label.
labelled {ℓ} : {A : Type ℓ} → (A → String) → List A → List ℕ → Option A
labelled label [] text = none
labelled label (a ∷ rest) text =
    if str_eq (codes (label a)) text then some a else labelled label rest text

abbrev outcomes : List ConnectionOutcome
outcomes =
    proxied ∷ proxy_error ∷ client_closed ∷ hello_timeout ∷ invalid_hello ∷ missing_sni
    ∷ unknown_host ∷ lookup_failed ∷ lookup_timeout ∷ upstream_connect_failed ∷ upstream_timeout
    ∷ idle_timeout ∷ shutdown_cancelled ∷ shutdown_forced ∷ aborted ∷ []

labelled-outcome_label :
    (a : ConnectionOutcome) → labelled outcome_label outcomes (codes (outcome_label a)) ≡ some a
unfolding labelled outcome_label str_eq
labelled-outcome_label proxied = refl
labelled-outcome_label proxy_error = refl
labelled-outcome_label client_closed = refl
labelled-outcome_label hello_timeout = refl
labelled-outcome_label invalid_hello = refl
labelled-outcome_label missing_sni = refl
labelled-outcome_label unknown_host = refl
labelled-outcome_label lookup_failed = refl
labelled-outcome_label lookup_timeout = refl
labelled-outcome_label upstream_connect_failed = refl
labelled-outcome_label upstream_timeout = refl
labelled-outcome_label idle_timeout = refl
labelled-outcome_label shutdown_cancelled = refl
labelled-outcome_label shutdown_forced = refl
labelled-outcome_label aborted = refl

abbrev lookups : List LookupOutcome
lookups = found ∷ not_found ∷ error ∷ timeout ∷ []

labelled-lookup_label :
    (a : LookupOutcome) → labelled lookup_label lookups (codes (lookup_label a)) ≡ some a
unfolding labelled lookup_label str_eq
labelled-lookup_label found = refl
labelled-lookup_label not_found = refl
labelled-lookup_label error = refl
labelled-lookup_label timeout = refl

abbrev events : List CacheEvent
events = hit ∷ negative_hit ∷ miss ∷ coalesced ∷ stale_served ∷ load_error ∷ shed ∷ []

labelled-event_label :
    (a : CacheEvent) → labelled event_label events (codes (event_label a)) ≡ some a
unfolding labelled event_label str_eq
labelled-event_label hit = refl
labelled-event_label negative_hit = refl
labelled-event_label miss = refl
labelled-event_label coalesced = refl
labelled-event_label stale_served = refl
labelled-event_label load_error = refl
labelled-event_label shed = refl

told_apart {ℓ} :
    {A : Type ℓ} (label : A → String) (all : List A)
    → ((a : A) → labelled label all (codes (label a)) ≡ some a)
    → (a b : A) → label a ≡ label b
    → a ≡ b
told_apart label all found_again a b same =
    some-injective _ _
      (sym (found_again a) ∙ ap (λ l. labelled label all (codes l)) same ∙ found_again b)

-- The labels tell the values apart: two outcomes of connections, two outcomes of lookups or two events of
-- the cache under one label are equal.
pub labels_injective :
    ((a b : ConnectionOutcome) → outcome_label a ≡ outcome_label b → a ≡ b)
    × ((a b : LookupOutcome) → lookup_label a ≡ lookup_label b → a ≡ b)
    × ((a b : CacheEvent) → event_label a ≡ event_label b → a ≡ b)
labels_injective = (
  told_apart outcome_label outcomes labelled-outcome_label,
  told_apart lookup_label lookups labelled-lookup_label,
  told_apart event_label events labelled-event_label,
)
