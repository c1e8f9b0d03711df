-- ===== src/Cache.antt =====
-- internal/cache: the local Actions cache.
pub mod Store
pub mod Match
pub mod BlockId
pub mod Server
mod Examples
mod Lookups
