-- ===== src/Core.antt =====
-- The vault, its merges and its keys: src/core.
pub mod Backup
pub mod Envelope
pub mod Vault
pub mod ApiKeys
pub mod CallerIdentity
pub mod Sync
pub mod Scope
