-- ===== src/Agents.antt =====
-- crates/agents: which agent runs in a pane and what it is doing.
pub mod Detect
mod Examples
pub mod Gate
pub mod Load
pub mod Manifest
pub mod Names
pub mod Region
