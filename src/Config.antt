-- ===== src/Config.antt =====
-- internal/config: the configuration.
pub mod Scope
pub mod Strings
pub mod Types
mod Checks
pub mod Targets
mod Pools
mod Workflows
pub mod Limits
mod Images
pub mod Validate
pub mod Defaults
mod Examples
