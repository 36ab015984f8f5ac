-- ===== src/Lib.antt =====
-- A verification library for the Kaia load tester: the accounts that build, sign and submit the
-- load's transactions, and the pools and ledgers that its test cases share.
--
-- The program. A slave (klayslave/main.go) makes groups of accounts (klayslave/account/accgroup.go),
-- deploys the contracts that the chosen test cases need (klayslave/account/contract.go), and runs
-- the test cases of testcase/ as boomer tasks. A task takes a client from the pool
-- (klayslave/clipool/clipool.go), picks accounts, and calls one method of the sending account
-- (klayslave/account/account.go), which completes and signs a transaction, submits it to a node and
-- keeps count of its nonce. The ERC-721 test case also keeps a ledger of who holds which token
-- (klayslave/account/erc721_ledger.go), and the auction test case bids for a bundle of a target
-- transaction (klayslave/account/targetTxTypeLIst.go) and a call.
--
-- The files.
--   Prelude: the tests on numbers, lists over the native numbers, counting, maps as association lists,
--     integers, and texts with the splitting at commas and the reading of a number.
--   Clipool: klayslave/clipool/clipool.go. `init_pool`, `alloc` and `free` are Init, Alloc and Free;
--     Clipool/Sessions has the runs of a pool as sequences of calls.
--   Account: klayslave/account/account.go. A method is a function from a `World` (the account, the
--     transactions and the bids that were submitted) to an outcome, which is a result with the next
--     world, or the end of the process where the code calls log.Fatalf. Account/Nonce has GetNonce,
--     GetNonceFromBlock and UpdateNonce; Account/Send has sendRawTx and sendTransaction;
--     Account/Transfers and Account/Transfers/Contracts have the methods that send through it;
--     Account/Direct has the signed transfer, the transfer with its cancellation and the
--     deployment; Account/Ethereum has the Ethereum transactions; Account/Gasless has
--     TransferNewGaslessTx and TransferNewGaslessApproveTx with the call data of
--     klayslave/account/contract.go; Account/TargetTx has the list of
--     klayslave/account/targetTxTypeLIst.go; Account/Auction has AuctionBid and AuctionRevertedBid;
--     Account/Retry has RunWithRetry and the methods that run it.
--   Concurrent: ConcurrentTransactionSend of klayslave/account/account.go, as steps of its loop and
--     of its goroutines.
--   AccGroup: klayslave/account/accgroup.go, with AccountSet in AccGroup/AccountSet and
--     DeployTestContracts in AccGroup/Deploy.
--   Erc721Ledger: klayslave/account/erc721_ledger.go, with RunErc721TransferTC of
--     testcase/run_execute_contract.go in Erc721Ledger/Transfer. Erc721Ledger/Mutexes takes
--     getAccountMutex apart into its look-up and its LoadOrStore.
--   Contracts: klayslave/account/contract.go: in Contracts/Registry the list TestContractInfos, with
--     who asks for each contract and whose address its constructor reads; in Contracts/GenData the
--     call data.
--   TestCase: the test cases of testcase/. TestCase/TcList is tclist.go; TestCase/Config is tcconfig.go;
--     TestCase/Requests has what every request does around its account method, with
--     run_value_transfer.go, run_execute_contract.go and run_auction.go in its modules ValueTransfers,
--     ContractCalls and Auctions; TestCase/Ethereum is run_ethereum.go, and TestCase/ReadApi is
--     run_read_api_call.go.
--   ReceiptCheck: testcase/run_receipt_check.go: the pool of hashes and the choice of the next task, in
--     ReceiptCheck/Locking the mutexes that doubleLock takes, as steps of goroutines, in
--     ReceiptCheck/Transfers transferAndCheck, and in ReceiptCheck/Runs the requests.
--   Slave: klayslave/config/config.go in Slave/Flags (setConfigsFromFlag, GetExtendedTasks), and
--     klayslave/main.go in Slave/Reservoir (the accounts, and what goes into and out of the slave's
--     reservoir account) and Slave/Tasks (initializeTasks).
--
-- What the code calls and does not implement is the record `Env` of Account/Types: the node's
-- answers, the signing, hashing and packing of the Kaia libraries, the clock. Its functions are
-- arguments of every theorem, so each theorem holds for every answer; within one call of a method a
-- function answers the same for the same arguments. A transaction is the call that built it with
-- the keys that signed it. Addresses, keys, hashes and amounts are numbers, and an error of the node
-- is one of the three texts that the code compares or any other. A nonce wraps around at 2 ^ 64.
-- Where the code holds a mutex over a method, the method is one step.
--
-- Loops are structural recursion: over the list of transactions, over the results of the bids, over
-- the attempts of the token search (one for each account of the set, which reaches every one of
-- them), over the 60 polls of the wait. RunWithRetry may go on for ever; it runs on a number of
-- attempts, which is enough where it reaches an attempt that decides. The loops of transferAndCheck
-- run on fuel, which is enough once it exceeds the poll at which their time is over, and the wait for
-- a receipt in run_ethereum.go on fuel above the number of retries.
--
-- What a request draws at random is an argument. An event that is published is a value; its time and
-- the endpoint's name are left out. A request of a test case is taken as one step; the goroutine of
-- run_ethereum.go that checks a receipt is taken with its request. A contract that is nil in the
-- configuration of a contract test case makes the request panic at once, where the code panics when
-- the method reads its address; an auction request with a missing contract is not followed, since the
-- code does part of its work before it reads the address.
--
-- Not modelled: in klayslave/account/account.go the making of keys, keystores and receipts; in
-- klayslave/account/contract.go the closures of the setup and charging work other than what they pay,
-- the registry look-ups and the contracts' addresses; in klayslave/config the reading from the node
-- and the system's limits; the generated bindings under klayslave/account/contracts. Logging, waiting and time-outs other than those named are left out.
pub mod Prelude
pub mod Clipool
pub mod Account
pub mod Concurrent
pub mod ReceiptCheck
pub mod AccGroup
pub mod Erc721Ledger
pub mod Contracts
pub mod TestCase
pub mod Slave
