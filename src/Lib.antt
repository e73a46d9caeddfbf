-- ===== src/Lib.antt =====
-- GalaChain SDK: the core of the token chaincode, as executable definitions with proofs.
--
-- The program keeps token balances, classes, instances and allowances as chain objects in the world
-- state of a Hyperledger Fabric channel. A contract method fetches objects through a cache
-- (chaincode/src/types/GalaChainStub.ts, `Stub` here), changes them in memory
-- (chain-api/src/types/TokenBalance.ts, `Balance`), and puts them back; the cache is flushed to the
-- world state when the method has succeeded. Transfers, locks and allowances are functions over that
-- (`Transfer`, `Locks`, `Allowances`). A call runs in the wrapper `Transaction`, which lets it through
-- by `Authorize`, and only once by `Unique`.
--
-- Files and what they model:
--   Base, Base/*: texts as lists of UTF-16 code units, Boolean tests, signed integers over the native
--     numbers, JavaScript objects as dictionaries in insertion order.
--   Numeric: the finite values of bignumber.js as an interface. Numbers have at most a fixed number of
--     decimal places, so that a number is a whole count of one small unit; sums and differences are
--     exact, a quotient rounds. Numeric/Units: an instance on the integers, for runs.
--   Errors: the errors thrown, their codes (chain-api/src/utils/error.ts), and results.
--   Balance: Hold (TokenHold), Account (TokenBalance, fields and shared methods), Nft, Fungible, and
--     Sort (Array.prototype.sort); the proofs are in AtOnce, Held, Spending, Solvency, Unlocking,
--     Instances, Locking and
--     Vesting. A method that mutates `this` or throws returns the changed balance or an error.
--   Stub: Fabric's stub as an interface; Stub/Cache is StubCache; proofs in View, Flush, Scan.
--   Keys: composite and encodable keys (chain-api/src/types/ChainObject.ts); proofs in Injective.
--   State: chaincode/src/utils/state.ts as actions that pass the cache on and may throw; what was
--     written before a throw stays written. State/Inversion has lemmas on sequences of actions.
--   Tokens, Ledger: the chain objects, their keys and the fetch functions (chaincode/src/balances,
--     chaincode/src/token). `Chain` bundles what is outside: stub, numbers, codecs, user aliases.
--   Context: chaincode/src/types/GalaChainContext.ts. Authorize: chaincode/src/contracts/authorize.ts.
--   Allowances/*: chaincode/src/allowances; Mintable, Grant and MintRequests are grantAllowance.ts, Refresh
--     has refreshAllowances.ts, deleteAllowances.ts and fullAllowanceCheck.ts; proofs in Bounds, Useable
--     and Capacity.
--   Utils: the time keys of chaincode/src/utils/utils.ts. Tokens/Counters: the records of burns and mints.
--   Supply: fetchMintSupply.ts and fetchMintAllowanceSupply.ts of chaincode/src/mint, and
--     fetchKnownBurnCount of chaincode/src/burns/fetchBurns.ts: ranges of the world state, read past the
--     cache; proofs in Supply/Count.
--   Burns: chaincode/src/burns/burnTokens.ts, Burns/Aggregate the sums per token; proofs in Burns/Grouped,
--     Burns/Merged and Burns/Exact.
--   Mint: chaincode/src/mint/mintToken.ts, with its loop in Mint/Nft; Mint/Request: requestMint.ts and
--     validateMintRequest.ts; Mint/Batch: batchMintToken.ts; Mint/WithAllowance:
--     mintTokenWithAllowance.ts; proofs in Mint/Exact, Loop and Replaced.
--   Swaps: chaincode/src/swaps, the objects and keys; Swaps/Request and Swaps/Index: requestTokenSwap.ts;
--     Swaps/Checks, Fill, Token and Exchange: fillTokenSwap.ts, the validation, the fill, `swapToken` and
--     what that does to two balances; Swaps/Terminate: terminateTokenSwap.ts; proofs in Swaps/Bounds and
--     Swaps/Conserve. Validation errors are counted, and their messages left out.
--   Classes: createTokenClass.ts and updateTokenClass.ts of chaincode/src/token, proof in Classes/Once.
--   Collections: chaincode/src/nftCollections, proof in Collections/Sound.
--   Vesting: chaincode/src/vesting/vestingToken.ts. Oracle: chaincode/src/oracle, less its queries.
--   Transfer: chaincode/src/transfer/transferToken.ts, with its proof in Transfer/Conserve.
--   Locks/*: chaincode/src/locks.
--   Fees: chain-api/src/types/FeeCodeSplitFormula.ts. Unique:
--     chaincode/src/services/UniqueTransactionService.ts.
--   Transaction: the wrapper of chaincode/src/contracts/GalaTransaction.ts and `afterTransaction` of
--     chaincode/src/contracts/GalaContract.ts; proofs in Transaction/Confined and Transaction/Atomic.
--     Parsing and validating the call's object, the authentication of its signatures and the method
--     itself are given to it.
--   Examples/*: a world state that is a dictionary, codecs, and runs.
--
-- All loops are structural recursion, but for the loop that makes NFT instances (Mint/Nft): it runs on
-- fuel 1000, the most that a mint may make, and Mint/Loop shows that this is enough. Times are milliseconds as natural numbers.
-- class-validator and class-transformer are the codecs (`Serial`), with the law that an object that was
-- written is read back, and that the empty array is no object.
--
-- NaN is modelled where the code makes it: a hold that starts and ends its vesting at one instant locks
-- 0/0 of its quantity then, `none` in what is locked, and comparisons with it are false.
--
-- Not modelled: other NaN, and infinite numbers, except for the quantity and uses of an allowance and the
-- limits of a class; logging;
-- pagination; grants for a partial key, which run concurrently; the fulfilment of mint requests; the
-- queries and the clean-up of swaps; fees beyond the split formula; signatures.
-- A dictionary has only its own keys, not those of Object.prototype.
pub mod Base
pub mod Numeric
pub mod Errors
pub mod Balance
pub mod Stub
pub mod Keys
pub mod Context
pub mod State
pub mod Tokens
pub mod Ledger
pub mod Allowances
pub mod Utils
pub mod Supply
pub mod Burns
pub mod Mint
pub mod Swaps
pub mod Classes
pub mod Collections
pub mod Vesting
pub mod Oracle
pub mod Transfer
pub mod Locks
pub mod Authorize
pub mod Fees
pub mod Unique
pub mod Transaction
pub mod Examples
