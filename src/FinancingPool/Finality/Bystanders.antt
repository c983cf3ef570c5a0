-- ===== src/FinancingPool/Finality/Bystanders.antt =====
-- The calls that leave the pools and the repayment locks alone.
use kora_contract.Prelude.{ℕ, arith}
use kora_contract.Prelude.Int.{ℤ}
use kora_contract.Prelude.Results.{Ensures}
use kora_contract.Shared.Host.{Env, Address, Bytes}
use kora_contract.Shared.Types.{InstallmentSchedule}
use kora_contract.InvoiceNft.State.{NftState}
use kora_contract.FinancingPool.State.{PoolState, Peers, World}
use kora_contract.FinancingPool.Admin
use kora_contract.FinancingPool.Positions
use kora_contract.FinancingPool.Shares
use kora_contract.FinancingPool.Lifecycle
use kora_contract.FinancingPool.Settlement
use kora_contract.FinancingPool.Finality.{Agrees}

module _ {W : Type 0} (peers : Peers W) (env : Env) where
  store_position-Agrees :
      (s : PoolState) (id : ℕ) (i : Address) (n : ℤ) (b : ℕ)
      → Ensures (λ s'. Agrees s s') (Positions.store_position peers env s id i n b)
  unfolding Positions.store_position
  store_position-Agrees s id i n b = ground arith

  pub set_max_position_bps-Agrees :
      (s : PoolState) (a : Address) (n : ℕ)
      → Ensures (λ s'. Agrees s s') (Admin.set_max_position_bps env s a n)
  unfolding Admin.set_max_position_bps
  set_max_position_bps-Agrees s a n = grind arith

  pub set_late_penalty_split-Agrees :
      (s : PoolState) (a : Address) (n : ℕ)
      → Ensures (λ s'. Agrees s s') (Admin.set_late_penalty_split env s a n)
  unfolding Admin.set_late_penalty_split
  set_late_penalty_split-Agrees s a n = grind arith

  pub set_parameter_registry-Agrees :
      (s : PoolState) (a r : Address)
      → Ensures (λ s'. Agrees s s') (Admin.set_parameter_registry env s a r)
  unfolding Admin.set_parameter_registry
  set_parameter_registry-Agrees s a r = grind arith

  pub set_marketplace-Agrees :
      (s : PoolState) (a m : Address)
      → Ensures (λ s'. Agrees s s') (Admin.set_marketplace env s a m)
  unfolding Admin.set_marketplace
  set_marketplace-Agrees s a m = grind arith

  pub propose_upgrade-Agrees :
      (s : PoolState) (a : Address) (h : Bytes)
      → Ensures (λ s'. Agrees s s') (Admin.propose_upgrade env s a h)
  unfolding Admin.propose_upgrade
  propose_upgrade-Agrees s a h = grind arith

  pub execute_upgrade-Agrees :
      (s : PoolState) (a : Address) → Ensures (λ q. Agrees s q.0) (Admin.execute_upgrade env s a)
  unfolding Admin.execute_upgrade
  execute_upgrade-Agrees s a = grind arith

  pub transfer_position-Agrees :
      (s : PoolState) (id : ℕ) (a b : Address)
      → Ensures (λ s'. Agrees s s') (Positions.transfer_position peers env s id a b)
  unfolding Positions.transfer_position
  transfer_position-Agrees s id a b = grind arith

  pub list_position_for_sale-Agrees :
      (s : PoolState) (a : Address) (id : ℕ) (k : Address) (n : ℤ)
      → Ensures (λ s'. Agrees s s') (Positions.list_position_for_sale peers env s a id k n)
  unfolding Positions.list_position_for_sale
  list_position_for_sale-Agrees s a id k n = grind arith

  pub buy_position-Agrees :
      (s : PoolState) (w : W) (a : Address) (id : ℕ) (b : Address)
      → Ensures (λ q. Agrees s q.0) (Positions.buy_position peers env s w a id b)
  unfolding Positions.buy_position
  buy_position-Agrees s w a id b = grind arith

  pub record_position-Agrees :
      (s : PoolState) (nft : NftState) (a : Address) (id : ℕ) (i : Address) (n m : ℤ)
      → Ensures (λ s'. Agrees s s') (Positions.record_position peers env s nft a id i n m)
  unfolding Positions.record_position
  record_position-Agrees s nft a id i n m = grind (arith, store_position-Agrees)

  pub split_position-Agrees :
      (s : PoolState) (a : Address) (id : ℕ) (n : ℤ)
      → Ensures (λ q. Agrees s q.0) (Shares.split_position env s a id n)
  unfolding Shares.split_position
  split_position-Agrees s a id n = grind arith

  pub transfer_share-Agrees :
      (s : PoolState) (a : Address) (id : ℕ) (b : Address) (i : ℕ) (c : Address)
      → Ensures (λ s'. Agrees s s') (Shares.transfer_share env s a id b i c)
  unfolding Shares.transfer_share
  transfer_share-Agrees s a id b i c = grind arith

  pub list_share_for_sale-Agrees :
      (s : PoolState) (a : Address) (id : ℕ) (b : Address) (i : ℕ) (k : Address) (n : ℤ)
      → Ensures (λ s'. Agrees s s') (Shares.list_share_for_sale env s a id b i k n)
  unfolding Shares.list_share_for_sale
  list_share_for_sale-Agrees s a id b i k n = grind arith

  pub buy_share-Agrees :
      (s : PoolState) (w : W) (a : Address) (id : ℕ) (b c : Address) (i : ℕ)
      → Ensures (λ q. Agrees s q.0) (Shares.buy_share env peers s w a id b c i)
  unfolding Shares.buy_share
  buy_share-Agrees s w a id b c i = grind arith

  pub set_installment_schedule-Agrees :
      (s : PoolState) (a : Address) (id : ℕ) (l : InstallmentSchedule)
      → Ensures (λ s'. Agrees s s') (Settlement.set_installment_schedule env s a id l)
  unfolding Settlement.set_installment_schedule
  set_installment_schedule-Agrees s a id l = grind arith

  pub propose_repayment-Agrees :
      (s : PoolState) (a : Address) (id : ℕ) (n : ℤ)
      → Ensures (λ s'. Agrees s s') (Lifecycle.propose_repayment peers env s a id n)
  unfolding Lifecycle.propose_repayment
  propose_repayment-Agrees s a id n = grind arith

  pub approve_repayment-Agrees :
      (s : PoolState) (a : Address) (id : ℕ)
      → Ensures (λ s'. Agrees s s') (Lifecycle.approve_repayment peers env s a id)
  unfolding Lifecycle.approve_repayment
  approve_repayment-Agrees s a id = grind arith

  pub propose_early_settlement-Agrees :
      (x : World W) (a : Address) (id : ℕ) (n : ℤ)
      → Ensures
          (λ y. Agrees x.state y.state)
          (Settlement.propose_early_settlement peers env x a id n)
  unfolding Settlement.propose_early_settlement
  propose_early_settlement-Agrees x a id n = grind arith

  pub cancel_early_settlement-Agrees :
      (x : World W) (a : Address) (id : ℕ)
      → Ensures (λ y. Agrees x.state y.state) (Settlement.cancel_early_settlement peers env x a id)
  unfolding Settlement.cancel_early_settlement
  cancel_early_settlement-Agrees x a id = grind arith
