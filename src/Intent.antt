-- ===== src/Intent.antt =====
-- bantu_os/core/intent: goals as trees, the planner that makes them, the gate that asks before a
-- destructive step, the retries, and the kernel that walks a tree.
mod Tests
pub mod Tree
pub mod Saved
pub mod Gate
pub mod Planner
pub mod Leaf
pub mod Walk
pub mod Receive
