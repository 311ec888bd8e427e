-- ===== src/Routers.antt =====
-- The routes of src/routers/ over the parts that they serve.
pub mod Agents
pub mod Ownership
pub mod Jobs
pub mod Takeover
mod Examples
