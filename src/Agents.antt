-- ===== src/Agents.antt =====
-- src/agent_manager.py: the agents' profiles and files, and the failover of a dead node's tasks.
mod Examples
pub mod Validation
pub mod Profiles
pub mod Manager
pub mod Isolation
pub mod Safety
pub mod Failover
pub mod Reclaiming
