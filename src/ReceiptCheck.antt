-- ===== src/ReceiptCheck.antt =====
-- testcase/run_receipt_check.go: the pool of hashes that the test case reads receipts of, and the
-- choice between sending and reading.
pub mod Laws
pub mod Locking
pub mod Transfers
pub mod Runs
mod Tests
use kaia_load_tester.Prelude.{
  ℕ, ◌+◌, ◌%◌, ◌^◌, Bool, true, false, not, ◌&&◌, ◌||◌, Option, none, some, List, if◌then◌else◌,
  ◌==◌, ltb, set, get_elem?, replicate, length,
}

-- `hashPool`, `tail` and `isFull`; the pool's size is that of the list.
pub record HashPool : Type 0 where
  pub hash_pool : List ℕ
  pub tail : ℕ
  pub is_full : Bool

abbrev pub new_hash_pool : ℕ → HashPool
new_hash_pool size = record { hash_pool = replicate size 0; tail = 0; is_full = false }

unfoldable pub add_hash : ℕ → HashPool → HashPool
add_hash hash p =
    let tail = (p.tail + 1) % length p.hash_pool in
    record {
      hash_pool = set p.hash_pool p.tail hash;
      tail = tail;
      is_full = (tail == 0) || p.is_full;
    }

-- `none` is a panic; the random number is the argument.
unfoldable pub get_hash : ℕ → HashPool → Option ℕ
get_hash draw p =
    if p.is_full
    then get_elem? p.hash_pool (draw % length p.hash_pool)
    else (if p.tail == 0 then none else get_elem? p.hash_pool (draw % p.tail))

-- `cnt` and `initFlag`.
pub record Schedule : Type 0 where
  pub cnt : ℕ
  pub init_flag : Bool

-- `defaultInitSendTx` and `ratioReadPerSend`.
abbrev pub default_init_send_tx : ℕ
default_init_send_tx = 10_000

abbrev pub ratio_read_per_send : ℕ
ratio_read_per_send = 9

-- `RunReceiptCheckTC`: whether the task sends, and the counter after it, which is a uint32.
unfoldable pub run_receipt_check : Schedule → Bool × Schedule
run_receipt_check s =
    let nc = (s.cnt + 1) % 2 ^ 32 in
    if not s.init_flag && ltb nc default_init_send_tx
    then (true, record { cnt = nc; init_flag = s.init_flag })
    else (
      nc % (ratio_read_per_send + 1) == ratio_read_per_send,
      record { cnt = nc; init_flag = true },
    )
