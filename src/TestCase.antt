-- ===== src/TestCase.antt =====
-- The test cases of testcase/: their list, their configuration and their requests.
pub mod TcList
pub mod Config
pub mod Requests
pub mod Ethereum
pub mod ReadApi
mod Tests
