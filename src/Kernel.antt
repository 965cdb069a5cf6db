-- ===== src/Kernel.antt =====
-- bantu_os/core/kernel/: the tool calls in a reply, their execution and the agentic loop of
-- kernel.py, and the service orchestrator of services.py.
mod Tests
pub mod Parse
pub mod Tools
pub mod Services
