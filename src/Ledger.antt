-- ===== src/Ledger.antt =====
-- The audit ledger: src/ledger_entry.py, src/sqlite_ledger_storage.py and src/ops_ledger.py.
pub mod Entry
pub mod Statuses
pub mod Storage
pub mod Operations
pub mod Rows
pub mod Transitions
pub mod Spec
pub mod Updating
pub mod Creation
pub mod History
pub mod Lifecycle
pub mod Queries
pub mod Cursor
pub mod Refinement
pub mod Retry
pub mod Retrying
pub mod Records
pub mod Journal
mod Examples
