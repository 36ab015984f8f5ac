-- ===== src/ReceiptCheck/Runs/Laws.antt =====
-- Reading never begins with an empty pool of hashes.
use native.Mathlib.Nat.{mod-eq_of_lt}
use kaia_load_tester.Prelude.{
  ℕ, ◌+◌, ◌%◌, ◌^◌, ◌<◌, ◌≤◌, ◌≡◌, refl, ap, ◌⊎◌, inl, inr, true, false, Option, none, some, List,
  [], ◌∷◌, ◌==◌, ltb, length, get_or, get_elem?-get_or, length-set, arith, Bool-cases,
}
use kaia_load_tester.Account.Types.{Account, Env, TxError, World, Outcome, done, fatal, ◌>>=◌}
use kaia_load_tester.Account.Transfers.{Reply}
use kaia_load_tester.Account.Transfers.Contracts.{first_key}
use kaia_load_tester.Account.Send.Laws.{get_nonce-next}
use kaia_load_tester.Account.Direct.{transfer_signed_tx, transfer_signed_tx_return_tx}
use kaia_load_tester.Account.Direct.Laws.{send_raw_tx-settled}
use kaia_load_tester.ReceiptCheck.Transfers.Laws.{transfer_tx}
use kaia_load_tester.Clipool.{alloc}
use kaia_load_tester.AccGroup.AccountSet.{AccountSet, len, get_account_randomly}
use kaia_load_tester.TestCase.Requests.{put_pool, Draws}
use kaia_load_tester.ReceiptCheck.{add_hash, Schedule, run_receipt_check, default_init_send_tx}
use kaia_load_tester.ReceiptCheck.Laws.{added, get_hash-added}
use kaia_load_tester.ReceiptCheck.Runs.{
  Session, Ended, going, down, over, run_receipt_check_tc, run_receipt_check_send_tx,
  run_receipt_check_read_tx, after_send,
}

-- There are accounts, the pool holds the hashes added, reading has begun only with one in it, and
-- until then the count of runs is at most that of the hashes.
abbrev pub Begun : Schedule → List ℕ → Type 0
Begun s hashes =
    ((s.init_flag ≡ true) × (0 < length hashes))
    ⊎ ((s.init_flag ≡ false) × (s.cnt ≤ length hashes) × (s.cnt < default_init_send_tx))

pub record Sound (size : ℕ) (s : Session) : Type 0 where
  pub hashes : List ℕ
  pub pooled : s.pool ≡ added size hashes
  pub begun : Begun s.schedule hashes
  pub staffed : 0 < length s.task.config.acc_grp.accounts

-- The transfer from a drawn account to a drawn account cannot be signed.
abbrev pub Unsigned : Env → Draws → AccountSet Account → Type 0
Unsigned e d s =
    (from : Account) × (to : Account) × (get_account_randomly d.from s ≡ some from)
    × (get_account_randomly d.to s ≡ some to)
    × (e.sign_ok (transfer_tx e from to (d.value % 3)).body (first_key from ∷ []) ≡ false)

abbrev pub SoundEnd : ℕ → Type 0 → Ended → Type 0
SoundEnd size Ends (going s) = Sound size s
SoundEnd size Ends down = ⊥
SoundEnd size Ends over = Ends

-- A transfer ends the process only where signing fails.
abbrev Signs : Env → Account → ℕ → World → Outcome Reply → Type 0
Signs e to value w fatal =
    e.sign_ok (transfer_tx e w.self to value).body (first_key w.self ∷ []) ≡ false
Signs e to value w (done r w') = Unit

transfer_signed_tx-Signs :
    (e : Env) (to : Account) (value : ℕ) (w : World)
    → Signs e to value w (transfer_signed_tx e to value none w)
unfolding transfer_signed_tx transfer_signed_tx_return_tx
transfer_signed_tx-Signs e to value w =
    let tx = transfer_tx e w.self to value in
    rw (get_nonce-next e w, ◌>>=◌)
      (elim (Bool-cases (e.sign_ok tx.body (first_key w.self ∷ []))) [
        | inl signs ↦ rw (signs, send_raw_tx-settled e tx _) tt
        | inr bad ↦ rw bad bad
      ])

-- A run that sends may follow with one hash more; one that reads has a hash to read.
schedule-Begun :
    (s : Schedule) (hashes : List ℕ)
    → Begun s hashes
    → ((run_receipt_check s).0 ≡ true → (hash : ℕ) → Begun (run_receipt_check s).1 (hash ∷ hashes))
      × ((run_receipt_check s).0 ≡ false
          → Begun (run_receipt_check s).1 hashes × (0 < length hashes))
unfolding run_receipt_check
schedule-Begun s hashes (inl (flag, some_hash)) =
    rw flag (λ sends hash. inl (refl, omega arith), λ reads. (inl (refl, some_hash), some_hash))
schedule-Begun s hashes (inr (flag, most, below)) =
    let counted : (s.cnt + 1) % 2 ^ 32 ≡ s.cnt + 1 = mod-eq_of_lt (omega arith) in
    rw (flag, counted)
      (elim (Bool-cases (ltb (s.cnt + 1) default_init_send_tx)) [
        | inl early ↦
            rw early
              (λ sends hash. inr (refl, omega arith, ground arith), λ reads. absurd (ground arith))
        | inr late ↦
            let some_hash : 0 < length hashes = ground arith in
            rw late
              (λ sends hash. inl (refl, omega arith), λ reads. (inl (refl, some_hash), some_hash))
      ])

abbrev nobody : Account
nobody = record { private_key = []; address = 0; nonce = 0; last_blocknum_sent_tx = 0 }

drawn :
    (draw : ℕ) (s : AccountSet Account)
    → 0 < length s.accounts
    → (a : Account) × (get_account_randomly draw s ≡ some a)
unfolding get_account_randomly
drawn draw s some_account =
    let full : (len s == 0) ≡ false = ground arith in
    (
      get_or s.accounts (draw % len s) nobody,
      rw full (get_elem?-get_or s.accounts (draw % len s) nobody (ground arith)),
    )

module _ (e : Env) (receipt_error : ℕ → Option TxError) (size : ℕ) where
  after_send-Sound :
      (Ends : Type 0) (cli i : ℕ) (s : Session) (hashes : List ℕ) (out : Outcome Reply)
      → s.pool ≡ added size hashes
      → ((hash : ℕ) → Begun s.schedule (hash ∷ hashes))
      → 0 < length s.task.config.acc_grp.accounts
      → (to : Account) (value : ℕ) (w : World) → Signs e to value w out
      → (e.sign_ok (transfer_tx e w.self to value).body (first_key w.self ∷ []) ≡ false → Ends)
      → SoundEnd size Ends (after_send cli i s out)
  after_send-Sound Ends cli i s hashes fatal pooled begun staffed to value v signs ends = ends signs
  after_send-Sound Ends cli i s hashes (done r w) pooled begun staffed to value v signs ends =
      record {
        hashes = r.hash ∷ hashes;
        pooled = ap (add_hash r.hash) pooled;
        begun = begun r.hash;
        staffed = rw (length-set s.task.config.acc_grp.accounts i w.self) staffed;
      }

  -- With the two drawn accounts.
  sent-Sound :
      (Ends : Type 0) (d : Draws) (s : Session) (hashes : List ℕ) (from to : Account)
      → s.pool ≡ added size hashes
      → ((hash : ℕ) → Begun s.schedule (hash ∷ hashes))
      → 0 < length s.task.config.acc_grp.accounts
      → get_account_randomly d.from s.task.config.acc_grp ≡ some from
      → get_account_randomly d.to s.task.config.acc_grp ≡ some to
      → (e.sign_ok (transfer_tx e from to (d.value % 3)).body (first_key from ∷ []) ≡ false → Ends)
      → SoundEnd size Ends (run_receipt_check_send_tx e d s)
  unfolding run_receipt_check_send_tx
  sent-Sound Ends d s hashes from to pooled begun staffed f t ends =
      rw (f, t)
        (after_send-Sound Ends _ _
          (record s { task = put_pool (alloc s.task.config.cli_pool).1 s.task }) hashes _ pooled
          begun staffed to (d.value % 3)
          (record { self = from; sent = s.task.sent; bids = s.task.bids })
          (transfer_signed_tx-Signs e to (d.value % 3)
            (record { self = from; sent = s.task.sent; bids = s.task.bids }))
          ends)

  send_tx-Sound :
      (d : Draws) (s : Session) (hashes : List ℕ)
      → s.pool ≡ added size hashes
      → ((hash : ℕ) → Begun s.schedule (hash ∷ hashes))
      → 0 < length s.task.config.acc_grp.accounts
      → SoundEnd size (Unsigned e d s.task.config.acc_grp) (run_receipt_check_send_tx e d s)
  send_tx-Sound d s hashes pooled begun staffed =
      let (from, f) = drawn d.from s.task.config.acc_grp staffed in
      let (to, t) = drawn d.to s.task.config.acc_grp staffed in
      sent-Sound _ d s hashes from to pooled begun staffed f t (λ bad. (from, to, f, t, bad))

  read_tx-Sound :
      (Ends : Type 0) (draw : ℕ) (s : Session) (hashes : List ℕ)
      → 0 < size
      → s.pool ≡ added size hashes
      → Begun s.schedule hashes
      → 0 < length hashes
      → 0 < length s.task.config.acc_grp.accounts
      → SoundEnd size Ends (run_receipt_check_read_tx receipt_error draw s)
  unfolding run_receipt_check_read_tx
  read_tx-Sound Ends draw s [] some_room pooled begun some_hash staffed = absurd (omega arith)
  read_tx-Sound Ends draw s (hash ∷ hashes) some_room pooled begun some_hash staffed =
      let (h, found, _) = get_hash-added size draw hash hashes some_room in
      rw (pooled, found)
        (record { hashes = hash ∷ hashes; pooled = refl; begun = begun; staffed = staffed })

  -- With a set of accounts that is not empty and a pool with room, a run of the receipt check keeps
  -- this: the pool holds the hashes added to it, and reading has begun only with a hash in it. So
  -- no run panics; it ends the process only where the transfer from the one drawn account to the
  -- other cannot be signed.
  pub run_receipt_check_tc-Sound :
      (d : Draws) (s : Session)
      → 0 < size
      → Sound size s
      → SoundEnd size
          (Unsigned e d s.task.config.acc_grp)
          (run_receipt_check_tc e receipt_error d s)
  unfolding run_receipt_check_tc
  run_receipt_check_tc-Sound d s some_room sound =
      let (sending, reading) = schedule-Begun s.schedule sound.hashes sound.begun in
      elim (Bool-cases (run_receipt_check s.schedule).0) [
        | inl sends ↦ rw sends (
            send_tx-Sound d (record s { schedule = (run_receipt_check s.schedule).1 }) sound.hashes
              sound.pooled (sending sends) sound.staffed)
        | inr reads ↦
            let (begun, some_hash) = reading reads in
            rw reads (
              read_tx-Sound _ (d.more 0) (record s { schedule = (run_receipt_check s.schedule).1 })
                sound.hashes some_room sound.pooled begun some_hash sound.staffed)
      ]
