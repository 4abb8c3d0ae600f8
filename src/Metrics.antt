-- ===== src/Metrics.antt =====
-- crates/sni_router/src/metrics.rs: the events that the router reports, and the labels of their values.
-- A duration is a number.
pub mod Labels
use sni_router.Common.{ℕ, Bool, String, Option, none, some}
use sni_router.Lookup.Text.{Str}
use sni_router.Lookup.Ip.{SocketAddr}

pub record ListenerInfo : Type 0 where
  pub network : String
  pub address : SocketAddr
  pub name : Option Str

unfoldable pub tcp : SocketAddr → ListenerInfo
tcp address = record { network = "tcp"; address = address; name = none }

unfoldable pub with_name : ListenerInfo → Str → ListenerInfo
with_name info name = record info { name = some name }

pub data ConnectionOutcome : Type 0 where
  proxied proxy_error client_closed hello_timeout invalid_hello missing_sni unknown_host
        lookup_failed :
      ConnectionOutcome
  lookup_timeout upstream_connect_failed upstream_timeout idle_timeout shutdown_cancelled
        shutdown_forced aborted :
      ConnectionOutcome

pub data LookupOutcome : Type 0 where
  found not_found error timeout : LookupOutcome

pub data CacheEvent : Type 0 where
  hit negative_hit miss coalesced stale_served load_error shed : CacheEvent

unfoldable pub outcome_label : ConnectionOutcome → String
outcome_label proxied = "proxied"
outcome_label proxy_error = "proxy_error"
outcome_label client_closed = "client_closed"
outcome_label hello_timeout = "hello_timeout"
outcome_label invalid_hello = "invalid_hello"
outcome_label missing_sni = "missing_sni"
outcome_label unknown_host = "unknown_host"
outcome_label lookup_failed = "lookup_failed"
outcome_label lookup_timeout = "lookup_timeout"
outcome_label upstream_connect_failed = "upstream_connect_failed"
outcome_label upstream_timeout = "upstream_timeout"
outcome_label idle_timeout = "idle_timeout"
outcome_label shutdown_cancelled = "shutdown_cancelled"
outcome_label shutdown_forced = "shutdown_forced"
outcome_label aborted = "aborted"

unfoldable pub lookup_label : LookupOutcome → String
lookup_label found = "found"
lookup_label not_found = "not_found"
lookup_label error = "error"
lookup_label timeout = "timeout"

unfoldable pub event_label : CacheEvent → String
event_label hit = "hit"
event_label negative_hit = "negative_hit"
event_label miss = "miss"
event_label coalesced = "coalesced"
event_label stale_served = "stale_served"
event_label load_error = "load_error"
event_label shed = "shed"

pub data MetricEvent : Type 0 where
  connection_opened : ListenerInfo → MetricEvent
  connection_closed : ListenerInfo → ConnectionOutcome → ℕ → MetricEvent
  bytes_read bytes_written : ListenerInfo → ℕ → MetricEvent
  route_lookup : ListenerInfo → LookupOutcome → ℕ → MetricEvent
  upstream_connect : ListenerInfo → Bool → ℕ → MetricEvent
  cache : CacheEvent → MetricEvent
