-- ===== src/Locks.antt =====
-- Locking and unlocking tokens (chaincode/src/locks).
pub mod Lock
pub mod Unlock
