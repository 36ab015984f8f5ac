-- ===== src/Account.antt =====
-- klayslave/account/account.go: an account of the load tester, its nonce, and the methods that
-- send transactions. The definitions stand in the children below.
pub mod Types
pub mod Nonce
pub mod Send
pub mod Transfers
pub mod Direct
pub mod Ethereum
pub mod Gasless
pub mod TargetTx
pub mod Auction
pub mod Retry
mod Tests
