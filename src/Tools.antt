-- ===== src/Tools.antt =====
-- src/tool_registry.py: the audit of a command and the dispatch of a tool call.
mod Examples
pub mod Patterns
pub mod Lexer
pub mod Policy
pub mod Dispatch
pub mod Settling
pub mod Gate
pub mod Guarding
