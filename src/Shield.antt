-- ===== src/Shield.antt =====
-- src/config_shield.py: leases on resources that several nodes share, in lock files or in Redis.
pub mod Files
pub mod Leases
pub mod Race
pub mod Waiting
pub mod Patience
pub mod Redis
pub mod Expiry
mod Examples
