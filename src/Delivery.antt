-- ===== src/Delivery.antt =====
-- crates/sni_router/src/delivery: reading the ClientHello, and the gate to the proxy stage.
pub mod HelloReader
pub mod Gate
pub mod Resolver
pub mod Upstream
pub mod Proxy
pub mod Connection
pub mod Metered
pub mod Splice
pub mod Server
