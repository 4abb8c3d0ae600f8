-- ===== src/Witnesses.antt =====
-- The theorems that have hypotheses, applied at inputs where the hypotheses hold.
mod Data
mod Hello
mod Routes
mod Gate
mod Cache
mod Resolver
mod Config
mod Connection
mod Proxy
