-- ===== src/Examples.antt =====
-- Concrete runs of the modelled code: a world state that is a dictionary, codecs for its objects, and
-- the theorems applied to them.
mod World
mod Codec
mod Chains
mod Balances
mod Instances
mod Stubs
mod Tokens
mod Burns
mod Classes
mod Mints
mod Swaps
mod Transactions
mod Allowances
