-- ===== src/Agents.antt =====
-- bantu_os/agents/: the task manager.
pub mod Tasks
