-- ===== src/ScaleSet.antt =====
-- internal/scaleset: runners provisioned from a GitHub Actions runner scale set.
pub mod Errors
pub mod State
pub mod Cleanup
pub mod Launcher
pub mod Shutdown
pub mod Bounds
pub mod Launching
pub mod Quiet
pub mod Steps
pub mod Histories
pub mod Serving
pub mod Order
pub mod Reconciling
pub mod Session
pub mod Supervisor
mod Examples
