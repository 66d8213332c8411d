-- ===== src/Agent.antt =====
-- The background agent that holds the unlocked master key: src/agent.
pub mod Buffers
pub mod Grants
pub mod State
pub mod Protocol
pub mod Wire
pub mod Server
pub mod SleepWatch
pub mod Paths
