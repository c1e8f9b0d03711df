-- ===== src/Winvm.antt =====
-- internal/winvm: Windows runners in virtual machines; the housekeeping of the golden images.
pub mod Housekeeping
pub mod Keeping
mod Examples
