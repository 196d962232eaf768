-- ===== src/Runtime.antt =====
-- src/minion/runtime: the agent that works on one task.
pub mod Values
pub mod Policy
pub mod Context
pub mod Agent
pub mod Skills
pub mod Workspace
pub mod Tools
pub mod CodeIndex
pub mod Mcp
