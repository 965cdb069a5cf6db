-- ===== src/Server.antt =====
-- bantu_os/core/socket_server.py: the lines of a connection (Framing), its state (State), the commands of the shell
-- protocol (Process), its tool calls (Tools) and its questions to the client (Confirm).
mod Tests
pub mod Framing
pub mod Tools
pub mod State
pub mod Process
