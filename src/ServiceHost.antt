-- ===== src/ServiceHost.antt =====
-- internal/servicehost and the service of cmd/multirunner: the failures of a service's runs, and when
-- the process ends.
pub mod Failures
pub mod Program
mod Examples
