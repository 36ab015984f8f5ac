-- ===== src/Slave.antt =====
-- The slave: its flags, klayslave/config/config.go, and its start, klayslave/main.go.
pub mod Flags
pub mod Reservoir
pub mod Tasks
mod Tests
