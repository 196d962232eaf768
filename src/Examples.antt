-- ===== src/Examples.antt =====
-- Tests: concrete inputs on which the properties are applied.
mod Data
mod Control
mod Stream
mod Agent
mod Workspace
mod Tools
mod CodeIndex
mod Mcp
