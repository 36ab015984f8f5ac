-- ===== src/Contracts/Tests.antt =====
-- A deployment of a leader that needs every contract of the token with a bridge.
use kaia_load_tester.Prelude.{ℕ, ◌+◌, false, true, [], ◌∷◌}
use kaia_load_tester.AccGroup.Deploy.{Chain}
use kaia_load_tester.Contracts.Registry.{constructor_reads}
use kaia_load_tester.Contracts.Laws.{AllReady, constructor_reads-AllReady}

abbrev fresh : Chain ℕ
fresh = record {
  is_deployed = λ i. false;
  account_at = λ i. 100 + i;
  deploys_to = λ i. 100 + i;
  ready = λ i k. true;
}

constructor_reads-AllReady_example :
    AllReady fresh ("auctionBidTC" ∷ "internalTxTC" ∷ []) ("GAA" ∷ []) constructor_reads
constructor_reads-AllReady_example =
    constructor_reads-AllReady fresh ("auctionBidTC" ∷ "internalTxTC" ∷ []) ("GAA" ∷ [])
