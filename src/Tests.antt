-- ===== src/Tests.antt =====
-- Tests: small programs run from the constructor on, and the theorems at concrete inputs.
pub mod Programs
pub mod Parts
pub mod Files
pub mod Runs
