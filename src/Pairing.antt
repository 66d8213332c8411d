-- ===== src/Pairing.antt =====
-- The pairing of two machines: src/sync.
pub mod Encoding
pub mod Peers
pub mod Channel
pub mod Wordlist
pub mod Identity
pub mod Sas
pub mod Hello
pub mod Proc
pub mod Session
pub mod Listener
pub mod Example
