-- ===== src/Cache.antt =====
-- crates/sni_router/src/cache.rs: the cache in front of a route store. The mutex is held for each of
-- the operations here, so that each is a function on the state behind it.
pub mod Map
pub mod State
pub mod Entries
pub mod Loads
pub mod Index
pub mod Thinned
pub mod Inserted
pub mod Runs
pub mod Moves
pub mod Invalidation
pub mod Admission
pub mod Order
pub mod Capacity
pub mod Freshness
