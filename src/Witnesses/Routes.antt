-- ===== src/Witnesses/Routes.antt =====
-- The theorems on hostnames, routes and the router, applied to a table with an exact entry and a wildcard
-- entry.
use sni_router.Common.{◌≡◌, ◌↔◌, ◌⊎◌, refl, true, false, [], ◌∷◌, some, ok}
use sni_router.Lookup.Text.{Str, to_ascii_lowercase, contains, split_once, str_eq}
use sni_router.Lookup.Names.{validate_dns_name}
use sni_router.Lookup.Ip.{parse_ip}
use sni_router.Lookup.Hostname
use sni_router.Lookup.Hostname.{Hostname}
use sni_router.Lookup.Hostname.Canonical.{IsCanonical, parse-IsCanonical}
use sni_router.Lookup.RouteKey
use sni_router.Lookup.RouteKey.{RouteKey, key_eq, wildcard_for}
use sni_router.Lookup.RouteKey.Wildcard.{Covers, wildcard_for_iff}
use sni_router.Lookup.Backend.{Backend, dns}
use sni_router.Lookup.Routes
use sni_router.Lookup.Routes.{RouteCandidates, RouteHits, keys, any_key}
use sni_router.Lookup.Memory
use sni_router.Lookup.Memory.{InMemoryLookup, hits, hits_of, insert, map_get}
use sni_router.Routing.{
  answered, resolve_route, resolve_end, candidate_keys, find_match, select_route,
}
use sni_router.Routing.Precedence.{memory-IsServing, route_of, resolve_route-IsServing}
use sni_router.Routing.Untrusted.{resolve_route-candidate}

-- "Api.a.b", lowered, and its wildcard key "*.a.b".
abbrev shouted : Str
shouted = b'A' ∷ b'p' ∷ b'.' ∷ b'a' ∷ b'.' ∷ b'b' ∷ []

abbrev host : Hostname
host = record { text = b'a' ∷ b'p' ∷ b'.' ∷ b'a' ∷ b'.' ∷ b'b' ∷ [] }

abbrev wildcard : RouteKey
wildcard = record { text = b'*' ∷ b'.' ∷ b'a' ∷ b'.' ∷ b'b' ∷ []; wildcard = true }

abbrev backend : Backend
backend = record { host = dns host.text; port = 443 }

abbrev table : InMemoryLookup
table = record { routes = (wildcard, backend) ∷ [] }

abbrev candidates : RouteCandidates
candidates = record {
  exact = record { text = host.text; wildcard = false };
  wildcard = some wildcard;
}

host_parses : Hostname.parse shouted ≡ ok host
unfolding Hostname.parse validate_dns_name parse_ip to_ascii_lowercase
host_parses = refl

parse-IsCanonical_example : (host.text ≡ to_ascii_lowercase shouted) × IsCanonical host
parse-IsCanonical_example = parse-IsCanonical shouted host host_parses

wildcard_for_iff_example : (wildcard_for host ≡ some wildcard) ↔ Covers wildcard host
wildcard_for_iff_example = wildcard_for_iff wildcard host

resolve_route-IsServing_example :
    resolve_route (λ c. answered (hits table c)) host ≡ route_of (Memory.get table) host
resolve_route-IsServing_example =
    resolve_route-IsServing (λ c. answered (hits table c)) (Memory.get table) host
      (memory-IsServing table)

found_by_wildcard :
    resolve_route (λ c. answered (hits table c)) host
    ≡ ok (record { key = wildcard; backend = backend })
unfolding resolve_route resolve_end candidate_keys select_route find_match hits hits_of Memory.get
    map_get key_eq str_eq Routes.for_hostname Routes.get keys RouteKey.exact wildcard_for
    Hostname.parent split_once contains
found_by_wildcard = refl

resolve_route-candidate_example :
    ((wildcard ≡ RouteKey.exact host) ⊎ Covers wildcard host)
    × (Routes.get (hits table (Routes.for_hostname host)) wildcard ≡ some backend)
resolve_route-candidate_example =
    resolve_route-candidate (λ c. answered (hits table c)) (hits table (Routes.for_hostname host))
      host (record { key = wildcard; backend = backend }) refl found_by_wildcard
