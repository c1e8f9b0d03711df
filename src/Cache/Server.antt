-- ===== src/Cache/Server.antt =====
-- internal/cache/server.go: the cache's HTTP interface over the store.
--
-- HMAC-SHA256, the decoding of a token's claims and of JSON, the numbers of strconv and the answer of
-- the upstream service are parameters. Times are in seconds; numbers in texts are not negative. A
-- request's decoded body is an argument, `none` where it does not decode.
pub mod Signing
pub mod Scopes
pub mod Handlers
pub mod Signed
pub mod Isolation
mod Examples
