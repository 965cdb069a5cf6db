-- ===== src/Session.antt =====
-- bantu_os/core/session_manager.py: token budgets, tool permissions, user sessions and their manager.
-- Times are natural numbers of milliseconds, and `now` is what `time.time()` returns.
mod Tests
pub mod Budget
pub mod Permissions
pub mod Manager
