-- ===== src/Services.antt =====
-- bantu_os/services/: the supervisor and the services that the tools stand for.
mod Tests
pub mod Supervisor
pub mod Admin
pub mod Iot
pub mod Sandbox
pub mod Mpesa
pub mod Process
pub mod Schedule
