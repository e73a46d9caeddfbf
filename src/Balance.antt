-- ===== src/Balance.antt =====
-- `TokenBalance` and `TokenHold` of chain-api/src/types/TokenBalance.ts: what a user holds of one
-- token class, and the holds (locks) on it.
pub mod Sort
pub mod Hold
pub mod Account
pub mod Nft
pub mod Fungible
pub mod AtOnce
pub mod Held
pub mod Spending
pub mod Solvency
pub mod Unlocking
pub mod Instances
pub mod Locking
pub mod Vesting
