-- ===== src/Ai.antt =====
-- bantu_os/ai/engine.py: the engine that asks a model, runs the tools it calls and asks again.
mod Tests
pub mod Calls
pub mod Engine
pub mod Rounds
pub mod Asked
