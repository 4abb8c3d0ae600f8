-- ===== src/Lookup.antt =====
-- crates/sni_router/src/lookup: names, route keys and backends, and the lookup contract.
pub mod Text
pub mod Names
pub mod Ip
pub mod Hostname
pub mod RouteKey
pub mod Backend
pub mod Routes
pub mod Memory
