-- ===== src/TestCase/ReadApi/Requests.antt =====
-- What a read API request leaves behind.
use kaia_load_tester.Prelude.{ℕ, ◌≡◌, refl, ◌⊎◌, inl, inr, Option, none, some, List, [], ◌∷◌, ◌++◌}
use kaia_load_tester.Account.Types.{Env, TxError}
use kaia_load_tester.Clipool.{ClientPool, alloc}
use kaia_load_tester.Clipool.Returned.{Returned, alloc-free}
use kaia_load_tester.TestCase.TcList.{
  ReadApi, run_gas_price, run_block_number, run_get_block_by_number, run_get_account,
  run_get_block_with_consensus_info_by_number, run_get_storage_at, run_call, run_estimate_gas,
}
use kaia_load_tester.AccGroup.AccountSet.{get_account_randomly}
use kaia_load_tester.Contracts.Names.{contract_read_api_call_contract}
use kaia_load_tester.TestCase.Config.{contract_account}
use kaia_load_tester.TestCase.Requests.{
  Task, Ran, ended, panicked, exited, put_pool, release, with_client, published, request_success,
  request_failure,
}
use kaia_load_tester.TestCase.ReadApi.{
  Node, read_error, read_name, needs_account, needs_contract, packed, address_if, put_rpc_pool,
  release_rpc, answered_with, read_body, run_read_api,
}
use kaia_load_tester.TestCase.ReadApi.Laws.{Right, read_error-Right}

abbrev pub Kept : Task → Task → Type 0
Kept t t' = (t'.sent ≡ t.sent) × (t'.bids ≡ t.bids) × (t'.config.acc_grp ≡ t.config.acc_grp)

-- The address of the drawn account and that of the contract, where the request needs them.
abbrev pub asker : ReadApi → ℕ → Task → Option ℕ
asker tc draw t = address_if (needs_account tc) (get_account_randomly draw t.config.acc_grp)

abbrev pub asked : ReadApi → Task → Option ℕ
asked tc t =
    address_if (needs_contract tc) (contract_account contract_read_api_call_contract t.config)

-- A panic is for want of one of them. The event says success just if the answer to these addresses
-- and to the packed call is right.
abbrev pub ReadWith :
    (ClientPool ℕ → ClientPool ℕ → Type 0) → Env → Node → ReadApi → ℕ → ℕ → Task → Ran → Type 0
ReadWith pooled e n tc draw number t exited = packed e tc ≡ none
ReadWith pooled e n tc draw number t (panicked t') =
    ((asker tc draw t ≡ none) ⊎ (asked tc t ≡ none))
    × Kept t t'
    × (t'.events ≡ t.events)
    × pooled t'.config.cli_pool t'.config.rpc_cli_pool
ReadWith pooled e n tc draw number t (ended t') =
    Kept t t'
    × ((from : ℕ) × (contract : ℕ) × (call : List ℕ) × (asker tc draw t ≡ some from)
        × (asked tc t ≡ some contract)
        × (packed e tc ≡ some call)
        × ((Right n tc number from contract call
              × (t'.events ≡ t.events ++ request_success (read_name tc) ∷ []))
            ⊎ ((¬ Right n tc number from contract call)
                × ((err : TxError) × (t'.events
                      ≡ t.events ++ request_failure (read_name tc) err ∷ [])))))
    × pooled t'.config.cli_pool t'.config.rpc_cli_pool

-- The clients that were taken are given back.
abbrev pub Pooled : ReadApi → Task → ClientPool ℕ → ClientPool ℕ → Type 0
Pooled run_get_account t p q = (p ≡ t.config.cli_pool) × Returned t.config.rpc_cli_pool q
Pooled run_get_block_with_consensus_info_by_number t p q =
    Returned t.config.cli_pool p × Returned t.config.rpc_cli_pool q
Pooled _ t p q = Returned t.config.cli_pool p × (q ≡ t.config.rpc_cli_pool)

module _ (e : Env) (n : Node) (tc : ReadApi) (draw number : ℕ) (t : Task) where
  said :
      (from contract : ℕ) (call : List ℕ) (err : Option TxError)
      → read_error n tc number from contract call ≡ err
      → (Right n tc number from contract call
          × (t.events ++ published (read_name tc) err ∷ []
              ≡ t.events ++ request_success (read_name tc) ∷ []))
        ⊎ ((¬ Right n tc number from contract call)
            × ((err' : TxError) × (t.events ++ published (read_name tc) err ∷ []
                  ≡ t.events ++ request_failure (read_name tc) err' ∷ [])))
  said from contract call none h = inl ((read_error-Right n tc number from contract call).0 h, refl)
  said from contract call (some err) h = inr (
    λ right. let q = (read_error-Right n tc number from contract call).1 right in cc,
    (err, refl),
  )

  answered-ReadWith :
      (cli rpc : ClientPool ℕ) (from contract : Option ℕ) (call : Option (List ℕ))
      → asker tc draw t ≡ from
      → asked tc t ≡ contract
      → packed e tc ≡ call
      → ReadWith
          (λ p q. (p ≡ cli) × (q ≡ rpc))
          e
          n
          tc
          draw
          number
          t
          (answered_with n tc number (put_rpc_pool rpc (put_pool cli t)) from contract call)
  answered-ReadWith cli rpc none contract call who whom made =
      (inl who, (refl, refl, refl), refl, (refl, refl))
  answered-ReadWith cli rpc (some from) none call who whom made =
      (inr whom, (refl, refl, refl), refl, (refl, refl))
  answered-ReadWith cli rpc (some from) (some contract) none who whom made = made
  answered-ReadWith cli rpc (some from) (some contract) (some call) who whom made = (
    (refl, refl, refl),
    (from, contract, call, who, whom, made, said from contract call _ refl),
    (refl, refl),
  )

  release-ReadWith :
      (pooled : ClientPool ℕ → Type 0) (r : Ran)
      → ReadWith (λ p q. (p ≡ (alloc t.config.cli_pool).1) × pooled q) e n tc draw number t r
      → ReadWith
          (λ p q. Returned t.config.cli_pool p × pooled q)
          e
          n
          tc
          draw
          number
          t
          (release (alloc t.config.cli_pool).0 r)
  release-ReadWith pooled exited h = h
  release-ReadWith pooled (panicked t') (why, kept, same, (p, q)) =
      (why, kept, same, (rw p (alloc-free t.config.cli_pool), q))
  release-ReadWith pooled (ended t') (kept, event, (p, q)) =
      (kept, event, (rw p (alloc-free t.config.cli_pool), q))

  release_rpc-ReadWith :
      (pooled : ClientPool ℕ → Type 0) (r : Ran)
      → ReadWith (λ p q. pooled p × (q ≡ (alloc t.config.rpc_cli_pool).1)) e n tc draw number t r
      → ReadWith
          (λ p q. pooled p × Returned t.config.rpc_cli_pool q)
          e
          n
          tc
          draw
          number
          t
          (release_rpc (alloc t.config.rpc_cli_pool).0 r)
  release_rpc-ReadWith pooled exited h = h
  release_rpc-ReadWith pooled (panicked t') (why, kept, same, (p, q)) =
      (why, kept, same, (p, rw q (alloc-free t.config.rpc_cli_pool)))
  release_rpc-ReadWith pooled (ended t') (kept, event, (p, q)) =
      (kept, event, (p, rw q (alloc-free t.config.rpc_cli_pool)))

abbrev pub Reads : Env → Node → ReadApi → ℕ → ℕ → Task → Ran → Type 0
Reads e n tc draw number t = ReadWith (Pooled tc t) e n tc draw number t

module _ (e : Env) (n : Node) (draw number : ℕ) (t : Task) where
  abbrev cli : ClientPool ℕ
  cli = (alloc t.config.cli_pool).1

  abbrev rpc : ClientPool ℕ
  rpc = (alloc t.config.rpc_cli_pool).1

  body-ReadWith :
      (tc : ReadApi) (left_cli left_rpc : ClientPool ℕ)
      → ReadWith
          (λ p q. (p ≡ left_cli) × (q ≡ left_rpc))
          e
          n
          tc
          draw
          number
          t
          (read_body e n tc draw number (put_rpc_pool left_rpc (put_pool left_cli t)))
  body-ReadWith tc left_cli left_rpc =
      answered-ReadWith e n tc draw number t left_cli left_rpc _ _ _ refl refl refl

  -- A test case that takes one client of the usual pool.
  with_client-ReadWith :
      (tc : ReadApi)
      → ReadWith
          (λ p q. Returned t.config.cli_pool p × (q ≡ t.config.rpc_cli_pool))
          e
          n
          tc
          draw
          number
          t
          (with_client (read_body e n tc draw number) t)
  unfolding with_client
  with_client-ReadWith tc =
      release-ReadWith e n tc draw number t (λ q. q ≡ t.config.rpc_cli_pool)
        (read_body e n tc draw number (put_pool cli t)) (body-ReadWith tc cli t.config.rpc_cli_pool)

  -- A read API request sends nothing and changes no account. It asks of the drawn account, of the
  -- contract and with the packed call, where it needs them, and publishes one event, a success just if
  -- the node's answer is right, where of a call's result nothing is asked; or it panics, only for
  -- want of an account or of the contract that it needs, and publishes nothing; or it ends the process,
  -- only where its call cannot be packed. If it does not end the process, it gives back each client that
  -- it took.
  pub run_read_api-Reads :
      (tc : ReadApi) → Reads e n tc draw number t (run_read_api e n tc draw number t)
  unfolding run_read_api with_client
  run_read_api-Reads run_get_account =
      release_rpc-ReadWith e n run_get_account draw number t (λ p. p ≡ t.config.cli_pool)
        (read_body e n run_get_account draw number (put_rpc_pool rpc t))
        (body-ReadWith run_get_account t.config.cli_pool rpc)
  run_read_api-Reads run_get_block_with_consensus_info_by_number =
      let tc = run_get_block_with_consensus_info_by_number in
      let body = read_body e n tc draw number (put_rpc_pool rpc (put_pool cli t)) in
      release-ReadWith e n tc draw number t (Returned t.config.rpc_cli_pool)
        (release_rpc (alloc t.config.rpc_cli_pool).0 body)
        (release_rpc-ReadWith e n tc draw number t (λ p. p ≡ cli) body (body-ReadWith tc cli rpc))
  run_read_api-Reads run_gas_price = with_client-ReadWith run_gas_price
  run_read_api-Reads run_block_number = with_client-ReadWith run_block_number
  run_read_api-Reads run_get_block_by_number = with_client-ReadWith run_get_block_by_number
  run_read_api-Reads run_get_storage_at = with_client-ReadWith run_get_storage_at
  run_read_api-Reads run_call = with_client-ReadWith run_call
  run_read_api-Reads run_estimate_gas = with_client-ReadWith run_estimate_gas
