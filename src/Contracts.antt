-- ===== src/Contracts.antt =====
-- The test contracts of klayslave/account/contract.go.
pub mod Names
pub mod Registry
pub mod GenData
pub mod Laws
mod Tests
