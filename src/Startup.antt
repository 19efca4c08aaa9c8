-- ===== src/Startup.antt =====
-- The start of the backend: server/backend/main.cpp.
pub mod Flow
pub mod Cpus
pub mod Port
pub mod Device
pub mod Launch
mod Tests
