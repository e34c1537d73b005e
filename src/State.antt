-- ===== src/State.antt =====
-- The state and the host of test/state: what the execution of a transaction changes.
pub mod Bytes
pub mod Maps
pub mod Accounts
pub mod Host
pub mod Precompiles
pub mod Rlp
pub mod Bloom
pub mod Transition
