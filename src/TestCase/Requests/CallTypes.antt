-- ===== src/TestCase/Requests/CallTypes.antt =====
-- The type of transaction that each contract test case sends.
use kaia_load_tester.Prelude.{
  ℕ, ◌%◌, ◌≡◌, refl, subst, inl, inr, Option, none, some, ◌⊎◌, List, [], String, ◌==◌, ◌^◌,
  Option-cases, Bool-cases,
}
use kaia_load_tester.Account.Types.{
  Account, TxType, smart_contract_execution, fee_delegated_smart_contract_execution,
  fee_delegated_smart_contract_execution_with_ratio, Env, World, Value,
}
use kaia_load_tester.Account.Transfers.Contracts.{
  execute_storage_trie_store, transfer_new_smart_contract_execution_tx,
  transfer_new_fee_delegated_smart_contract_execution_tx,
  transfer_new_fee_delegated_smart_contract_execution_with_ratio_tx,
}
use kaia_load_tester.AccGroup.AccountSet.{len, get_account_randomly}
use kaia_load_tester.Clipool.{ClientPool, alloc}
use kaia_load_tester.Contracts.GenData.{pack_contract_call}
use kaia_load_tester.TestCase.TcList
use kaia_load_tester.TestCase.TcList.{ValueTransfer, ContractCall}
use kaia_load_tester.TestCase.Requests.{Task, put_pool, Draws}
use kaia_load_tester.TestCase.Requests.ContractCalls.{
  execute, name_of, contract_func, callee, with_receiver, to_callee, run_base_with_contract,
}
use kaia_load_tester.TestCase.Requests.Types.{SendsIts}
use kaia_load_tester.TestCase.Requests.Laws.{
  SendsType, undrawn, send_reply-SendsType, send_transaction-SendsType, packed-SendsType,
  packed_reply-SendsType, InRequest, Requested, by_drawn-InRequest, with_client-Requested,
}

-- The gasless ones send two transactions or another kind, and the last one sends two.
abbrev pub call_type_of : ContractCall → Option TxType
call_type_of TcList.run_gasless_transaction = none
call_type_of TcList.run_gasless_revert_transaction = none
call_type_of TcList.run_gasless_only_approve = none
call_type_of TcList.run_user_storage_set_get = none
call_type_of TcList.run_new_fee_delegated_smart_contract_execution =
    some fee_delegated_smart_contract_execution
call_type_of TcList.run_new_fee_delegated_smart_contract_execution_with_ratio =
    some fee_delegated_smart_contract_execution_with_ratio
call_type_of _ = some smart_contract_execution

-- What a request cannot do without: an account, and the contract that it calls.
abbrev pub NoneToCall : ContractCall → Task → Type 0
NoneToCall tc t = (t.config.acc_grp.accounts ≡ []) ⊎ (callee tc t.config ≡ none)

module _ (e : Env) where
  execution :
      (to : Account) (value : Option ℕ) (method : String) (args : List Value) (w : World)
      → SendsType e smart_contract_execution w
          (execute e to value (pack_contract_call e method args) w)
  unfolding pack_contract_call transfer_new_smart_contract_execution_tx
  execution to value method args w =
      packed-SendsType e smart_contract_execution method args _ w
        (λ call. send_transaction-SendsType e smart_contract_execution _ _ w)

  contract_func-SendsIts :
      (tc : ContractCall) (d : Draws) (to : Account × Account) (receiver from : Account) (w : World)
      → SendsIts e (call_type_of tc) w (contract_func e tc d to receiver from)
  unfolding contract_func transfer_new_fee_delegated_smart_contract_execution_tx
      transfer_new_fee_delegated_smart_contract_execution_with_ratio_tx execute_storage_trie_store
  contract_func-SendsIts TcList.run_gasless_transaction d to receiver from w = tt
  contract_func-SendsIts TcList.run_gasless_revert_transaction d to receiver from w = tt
  contract_func-SendsIts TcList.run_gasless_only_approve d to receiver from w = tt
  contract_func-SendsIts TcList.run_user_storage_set_get d to receiver from w = tt
  contract_func-SendsIts TcList.run_new_fee_delegated_smart_contract_execution d to receiver from
        w =
      packed_reply-SendsType e _ _ _ _ w (λ call. send_reply-SendsType e _ _ _ w)
  contract_func-SendsIts TcList.run_new_fee_delegated_smart_contract_execution_with_ratio d to
        receiver from w =
      packed_reply-SendsType e _ _ _ _ w (λ call. send_reply-SendsType e _ _ _ w)
  contract_func-SendsIts TcList.run_storage_trie_write d to receiver from w =
      packed_reply-SendsType e _ _ _ _ w (λ call. send_reply-SendsType e _ _ _ w)
  contract_func-SendsIts TcList.run_erc20_transfer d to receiver from w =
      elim (Bool-cases (d.value % 3 == 10 ^ 11)) [
        | inl minted ↦ rw minted (execution _ _ _ _ w)
        | inr moved ↦ rw moved (execution _ _ _ _ w)
      ]
  contract_func-SendsIts _ d to receiver from w = execution _ _ _ _ w

  name_of-typed :
      (tc : ContractCall) (type : TxType) (t : Task)
      → call_type_of tc ≡ some type
      → name_of e tc t ≡ t.config.name
  name_of-typed TcList.run_user_storage_set_get type t known = cc
  name_of-typed TcList.run_gasless_transaction type t known = refl
  name_of-typed _ type t known = refl

  with_receiver-InRequest :
      (tc : ContractCall) (type : TxType) (d : Draws) (t : Task) (to : Account × Account)
      → call_type_of tc ≡ some type
      → InRequest e type
          (NoneToCall tc t)
          t.config.name
          (d.from % len t.config.acc_grp)
          t
          (with_receiver e tc d t to (get_account_randomly d.to t.config.acc_grp))
  with_receiver-InRequest tc type d t to known =
      elim (Option-cases (get_account_randomly d.to t.config.acc_grp)) [
        | inl nobody ↦ rw nobody (inl (undrawn d.to _ _ nobody), (refl, refl, refl), refl)
        | inr (receiver, found) ↦
            rw (found, name_of-typed tc type t known)
              (by_drawn-InRequest e type (NoneToCall tc t) t.config.name d.from _ t inl (λ from w.
                subst (λ o. SendsIts e o w (contract_func e tc d to receiver from)) known
                  (contract_func-SendsIts tc d to receiver from w)))
      ]

  -- The contract does not depend on the pool of clients.
  callee-put_pool :
      (tc : ContractCall) (pool : ClientPool ℕ) (t : Task)
      → callee tc (put_pool pool t).config ≡ callee tc t.config
  unfolding callee
  callee-put_pool TcList.run_gasless_transaction pool t = refl
  callee-put_pool _ pool t = refl

  to_callee-InRequest :
      (tc : ContractCall) (type : TxType) (d : Draws) (t : Task) (to : Option (Account × Account))
      → callee tc t.config ≡ to
      → call_type_of tc ≡ some type
      → InRequest e type
          (NoneToCall tc t)
          t.config.name
          (d.from % len t.config.acc_grp)
          t
          (to_callee e tc d t to)
  to_callee-InRequest tc type d t none at known = (inr at, (refl, refl, refl), refl)
  to_callee-InRequest tc type d t (some to) at known = with_receiver-InRequest tc type d t to known

  -- A request of a contract test case with a type gives the client back, and it panics only where
  -- the set of accounts is empty or the contract is missing, and then leaves the rest. If it neither
  -- panics nor ends the process, at most one transaction is sent, by the drawn account, of the type of
  -- the test case, one event is published, a success just if the transaction was sent and taken, and
  -- no other account changes. The process ends only where call data cannot be packed.
  pub run_base_with_contract-Requested :
      (tc : ContractCall) (type : TxType) (d : Draws) (t : Task)
      → call_type_of tc ≡ some type
      → Requested e type
          (NoneToCall tc t)
          t.config.name
          (d.from % len t.config.acc_grp)
          t
          (run_base_with_contract e tc d t)
  unfolding run_base_with_contract
  run_base_with_contract-Requested tc type d t known =
      let taken : Task = put_pool (alloc t.config.cli_pool).1 t in
      with_client-Requested e type (NoneToCall tc t) t.config.name (d.from % len t.config.acc_grp) _
        t
        (subst
          (λ to.
            InRequest e type ((t.config.acc_grp.accounts ≡ []) ⊎ (to ≡ none)) t.config.name
              (d.from % len t.config.acc_grp) taken
              (to_callee e tc d taken (callee tc taken.config)))
          (callee-put_pool tc (alloc t.config.cli_pool).1 t)
          (to_callee-InRequest tc type d taken _ refl known))
