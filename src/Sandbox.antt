-- ===== src/Sandbox.antt =====
-- src/sandbox.py: where commands run, and how many at once.
pub mod Runners
pub mod Factory
pub mod Pool
pub mod Limits
pub mod Isolation
pub mod Turns
mod Examples
