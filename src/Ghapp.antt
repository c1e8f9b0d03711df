-- ===== src/Ghapp.antt =====
-- internal/ghapp: the login as a GitHub App.
pub mod Refresher
pub mod Device
mod Examples
