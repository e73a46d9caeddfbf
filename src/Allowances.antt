-- ===== src/Allowances.antt =====
-- Allowances (chaincode/src/allowances): a grantor lets another user act on tokens, up to a quantity,
-- a number of uses and a time. Checking, using and deleting them.
pub mod Refresh
pub mod Useable
pub mod Capacity
pub mod Mintable
pub mod MintRequests
pub mod Grant
pub mod Amount
pub mod Fetch
pub mod Check
pub mod Use
pub mod Verify
pub mod Bounds
