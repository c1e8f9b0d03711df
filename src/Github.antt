-- ===== src/Github.antt =====
-- internal/github: access to the API of GitHub.
pub mod Client
pub mod Provider
mod Examples
