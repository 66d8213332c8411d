-- ===== src/Platform.antt =====
-- What guards the master key outside the agent: src/platform, and the settings of src/agent/paths.ts.
pub mod UnlockAttempts
pub mod RevealGate
pub mod Session
mod Tests
