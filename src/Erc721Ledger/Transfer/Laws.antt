-- ===== src/Erc721Ledger/Transfer/Laws.antt =====
-- The token, the transaction and the queues over one run of `RunErc721TransferTC` of
-- testcase/run_execute_contract.go.
use native.Mathlib.Nat.{mod-lt}
use kaia_load_tester.Prelude.{
  ℕ, ◌+◌, ◌%◌, ◌<◌, ◌≡◌, ◌≢◌, refl, ◌⊎◌, inl, inr, true, ◌++◌, Option-cases, Option, none, some,
  List, [], ◌∷◌, ◌==◌, if◌then◌else◌, get_elem?-some, arith,
}
use kaia_load_tester.Account.Types.{
  Account, smart_contract_execution, TxValues, Key, num, addr, bytes, with_map, Tx, Env, TxError,
  failed, Outcome, done, fatal,
}
use kaia_load_tester.Account.Send.{SendResult, to_error}
use kaia_load_tester.Account.Send.Laws.{Delivers, send_transaction-Delivers}
use kaia_load_tester.Account.Transfers.Contracts.{transfer_new_smart_contract_execution_tx}
use kaia_load_tester.Clipool.{ClientPool, alloc}
use kaia_load_tester.Clipool.Returned.{Returned, alloc-free}
use kaia_load_tester.Contracts.Names.{contract_erc721}
use kaia_load_tester.TestCase.Config.{contract_account}
use kaia_load_tester.TestCase.Requests.{Task, request_failure, put_pool, published}
use kaia_load_tester.TestCase.Requests.Laws.{delivered}
use kaia_load_tester.AccGroup.AccountSet.{AccountSet, len, get_account_index, get_account_randomly}
use kaia_load_tester.Erc721Ledger.{Erc721TokenLedger, put_token}
use kaia_load_tester.Erc721Ledger.Tokens.{tokens_of, held, put_token-held, put_token-tokens}
use kaia_load_tester.Erc721Ledger.Transfer.{
  Ran, panicked, ended, exited, Found, Holder, put_back, after_execution, transfer_args,
  transfer_by, after_search, search_and_transfer, after_run, run_erc721_transfer,
}
use kaia_load_tester.Erc721Ledger.Transfer.Search.{
  Kept, Searched, find_token-Searched, every_index, get_elem?-below, ==-positive,
}

-- An account is drawn from a set that is not empty.
drawn_some :
    (draw : ℕ) (s : AccountSet Account)
    → 0 < len s
    → (a : Account) × (get_account_randomly draw s ≡ some a)
unfolding get_account_randomly
drawn_some draw s h =
    let (to, at) = get_elem?-some s.accounts (draw % len s) (mod-lt draw h) in
    (to, rw (==-positive (len s) h) at)

-- Who has the token afterwards.
abbrev pub owner : Account → Account → Option TxError → Account
owner from to none = to
owner from to (some err) = from

module _ (e : Env) (draw : ℕ) where
  -- How a run ends. `left` is the task that the client was taken from.
  abbrev pub TransferredWith : (ClientPool ℕ → Type 0) → Task → Erc721TokenLedger → Ran → Type 0
  TransferredWith pooled t l exited =
      (from to : Account) × (token : ℕ) × (e.abi_pack "transferFrom" (transfer_args from to token)
        ≡ none)
  TransferredWith pooled t l (panicked t' l') =
      (contract_account contract_erc721 t.config ≡ none)
      × (t'.sent ≡ t.sent)
      × (t'.events ≡ t.events)
      × ((token : ℕ) × ((u : ℕ) → held u l ≡ held u l' + (if u == token then 1 else 0)))
      × pooled t'.config.cli_pool
  TransferredWith pooled t l (ended none t' l') =
      (l'.token_queues ≡ l.token_queues)
      × ((i : ℕ) (a : Account)
          → get_account_index i t.config.acc_grp ≡ some a
          → tokens_of a.address l ≡ [])
      × (t'.sent ≡ t.sent)
      × (t'.events ≡ t.events ++ request_failure t.config.name (failed "No tokens available") ∷ [])
      × pooled t'.config.cli_pool
  TransferredWith pooled t l (ended (some (h, to)) t' l') =
      ((u : ℕ) → held u l' ≡ held u l)
      × ((ts : List ℕ) × (tokens_of h.from.address l ≡ h.token ∷ ts))
      × (get_account_index h.index t.config.acc_grp ≡ some h.from)
      × (get_account_randomly draw t.config.acc_grp ≡ some to)
      × ((err : Option TxError) × ((ts : List ℕ) × (tokens_of (owner h.from to err).address l'
              ≡ ts ++ h.token ∷ []))
          × (t'.events ≡ t.events ++ published t.config.name err ∷ [])
          × (((err ≢ none) × (t'.sent ≡ t.sent))
              ⊎ ((tx : Tx) × (values : TxValues) × (t'.sent ≡ t.sent ++ tx ∷ [])
                  × (tx.body ≡ with_map smart_contract_execution values)
                  × (tx.signed_by ≡ h.from.private_key)
                  × (err ≡ to_error (e.send_raw_transaction tx)))))
      × pooled t'.config.cli_pool

  abbrev pub Transferred : Task → Erc721TokenLedger → Ran → Type 0
  Transferred t l r = TransferredWith (Returned t.config.cli_pool) t l r

  put_back-held :
      (from to : Account) (token : ℕ) (err : Option TxError) (l : Erc721TokenLedger) (u : ℕ)
      → held u (put_back from to token err l) ≡ held u l + (if u == token then 1 else 0)
  put_back-held from to token none l u = put_token-held u to.address token l
  put_back-held from to token (some err) l u = put_token-held u from.address token l

  at_end :
      (a token : ℕ) (l : Erc721TokenLedger)
      → (ts : List ℕ) × (tokens_of a (put_token a token l) ≡ ts ++ token ∷ [])
  at_end a token l =
      let same : (a == a) ≡ true = ground arith in
      let q = rw same at (put_token-tokens a a token l) in (tokens_of a l, q)

  put_back-at_end :
      (from to : Account) (token : ℕ) (err : Option TxError) (l : Erc721TokenLedger)
      → (ts : List ℕ) × (tokens_of (owner from to err).address (put_back from to token err l)
          ≡ ts ++ token ∷ [])
  put_back-at_end from to token none l = at_end to.address token l
  put_back-at_end from to token (some err) l = at_end from.address token l

  module _ (t : Task) (l : Erc721TokenLedger) where
    abbrev taken : Task
    taken = put_pool (alloc t.config.cli_pool).1 t

    -- Before the client is given back the pool is the one without it.
    abbrev Before : Ran → Type 0
    Before r = TransferredWith (λ p. p ≡ (alloc t.config.cli_pool).1) t l r

    after_execution-Before :
        (h : Holder) (to : Account) (m : Erc721TokenLedger) (values : TxValues)
        (out : Outcome SendResult)
        → Kept t.config.acc_grp l.token_queues h m
        → get_account_randomly draw t.config.acc_grp ≡ some to
        → Delivers e
            (record { self = h.from; sent = t.sent; bids = t.bids })
            smart_contract_execution
            values
            none
            out
        → Before (after_execution h to taken m out)
    after_execution-Before h to m values fatal kept drawn d = absurd d
    after_execution-Before h to m values (done r w) (total, head, at) drawn d =
        let (same, sends) =
          delivered e smart_contract_execution values none
            (record { self = h.from; sent = t.sent; bids = t.bids }) w r d in
        (
          (λ u. omega (arith, total u, put_back-held h.from to h.token r.error m u)),
          head,
          at,
          drawn,
          (r.error, put_back-at_end h.from to h.token r.error m, refl, sends),
          refl,
        )

    transfer_by-Before :
        (h : Holder) (to : Account) (m : Erc721TokenLedger) (call : List ℕ)
        → Kept t.config.acc_grp l.token_queues h m
        → get_account_randomly draw t.config.acc_grp ≡ some to
        → Before (transfer_by e h to taken m call (contract_account contract_erc721 t.config))
    unfolding transfer_new_smart_contract_execution_tx
    transfer_by-Before h to m call kept drawn =
        elim (Option-cases (contract_account contract_erc721 t.config)) [
          | inl missing ↦ rw missing (missing, refl, refl, (h.token, kept.0), refl)
          | inr (contract, there) ↦ rw there (
              after_execution-Before h to m
                ((Key.gas_limit, num 5_000_000)
                  ∷ (Key.amount, num 0)
                  ∷ (Key.to, addr contract.address)
                  ∷ (Key.payload, bytes call)
                  ∷ [])
                _ kept drawn
                (send_transaction-Delivers e smart_contract_execution _ _
                  (record { self = h.from; sent = t.sent; bids = t.bids })))
        ]

    after_search-Before :
        (c : ℕ) (to : Account) (o : Found)
        → get_account_randomly draw t.config.acc_grp ≡ some to
        → Searched t.config.acc_grp (len t.config.acc_grp) c l.token_queues o
        → Before (after_search e taken l to o)
    unfolding get_account_index
    after_search-Before c to none drawn s = absurd s
    after_search-Before c to (some (none, m)) drawn (same, all) = (
      same,
      (λ i a here. all i a (get_elem?-below t.config.acc_grp.accounts i a here) here (
          every_index (len t.config.acc_grp) c i
            (get_elem?-below t.config.acc_grp.accounts i a here))),
      refl,
      refl,
      refl,
    )
    after_search-Before c to (some (some h, m)) drawn kept =
        elim (Option-cases (e.abi_pack "transferFrom" (transfer_args h.from to h.token))) [
          | inl refused ↦ rw refused (h.from, to, h.token, refused)
          | inr (call, packed) ↦ rw packed (transfer_by-Before h to m call kept drawn)
        ]

    search-Before :
        (start : ℕ) → 0 < len t.config.acc_grp → Before (search_and_transfer e draw start taken l)
    unfolding search_and_transfer
    search-Before start h =
        let accs = t.config.acc_grp in
        let (to, drawn) = drawn_some draw accs h in
        rw (==-positive (len accs) h, drawn)
          (after_search-Before (start % len accs) to _ drawn
            (find_token-Searched accs (len accs) (start % len accs) l (mod-lt start h)))

    after_run-Transferred :
        (r : Ran) → Before r → Transferred t l (after_run e (alloc t.config.cli_pool).0 r)
    after_run-Transferred exited h = h
    after_run-Transferred (panicked t' l') (missing, sent, events, lost, same) =
        (missing, sent, events, lost, rw same (alloc-free t.config.cli_pool))
    after_run-Transferred (ended none t' l') (queues, all, sent, events, same) =
        (queues, all, sent, events, rw same (alloc-free t.config.cli_pool))
    after_run-Transferred (ended (some (h, to)) t' l') (total, head, at, drawn, out, same) =
        (total, head, at, drawn, out, rw same (alloc-free t.config.cli_pool))

    -- A run over a set that is not empty panics only where the ERC721 contract is missing, and then
    -- sends and publishes nothing, and one token of some queue is lost; it ends the process only
    -- where the call cannot be packed. Otherwise it publishes one event. It sends no transaction for
    -- want of a token only if no account of the set has one, and then the queues stay as they are.
    -- If it finds a token, the token stood at the head of its holder's queue; the holder sends at most
    -- one transaction, and the event is a success just if the transaction was sent and taken. The
    -- token then stands last in the recipient's queue on success and in the holder's on failure, and
    -- every token stands in the queues of all accounts as often as before. If the process does not
    -- end, the client is given back.
    pub run_erc721_transfer-Transferred :
        (start : ℕ)
        → 0 < len t.config.acc_grp
        → Transferred t l (run_erc721_transfer e draw start t l)
    unfolding run_erc721_transfer
    run_erc721_transfer-Transferred start h =
        after_run-Transferred (search_and_transfer e draw start taken l) (search-Before start h)
