-- ===== src/FinancingPool/Requests.antt =====
-- The calls of the financing pool as data, and a history of calls. A call that fails leaves everything as it
-- was, as the host undoes its writes.
use kora_contract.Prelude.{ℕ, List, [], ◌∷◌}
use kora_contract.Prelude.Int.{ℤ}
use kora_contract.Prelude.Results.{ok, err, trap, ◌>>=◌}
use kora_contract.Shared.Host.{Env, Address, Bytes}
use kora_contract.Shared.Types.{InstallmentSchedule}
use kora_contract.FinancingPool.State.{Call, PoolState, Peers, World}
use kora_contract.FinancingPool.Admin
use kora_contract.FinancingPool.Positions
use kora_contract.FinancingPool.Shares
use kora_contract.FinancingPool.Repayment
use kora_contract.FinancingPool.Lifecycle
use kora_contract.FinancingPool.Settlement

pub data Request : Type 0 where
  set_max_position_bps set_late_penalty_split : Address → ℕ → Request
  set_parameter_registry set_marketplace : Address → Address → Request
  propose_upgrade : Address → Bytes → Request
  execute_upgrade : Address → Request
  release_funds : Address → ℕ → Address → Request
  record_position : Address → ℕ → Address → ℤ → ℤ → Request
  transfer_position : ℕ → Address → Address → Request
  list_position_for_sale : Address → ℕ → Address → ℤ → Request
  buy_position : Address → ℕ → Address → Request
  split_position : Address → ℕ → ℤ → Request
  transfer_share : Address → ℕ → Address → ℕ → Address → Request
  list_share_for_sale : Address → ℕ → Address → ℕ → Address → ℤ → Request
  buy_share : Address → ℕ → Address → Address → ℕ → Request
  set_installment_schedule : Address → ℕ → InstallmentSchedule → Request
  repay_partial repay : Address → ℕ → Address → ℤ → Request
  propose_repayment : Address → ℕ → ℤ → Request
  approve_repayment : Address → ℕ → Request
  execute_repayment mark_default : Address → ℕ → Address → Request
  propose_early_settlement : Address → ℕ → ℤ → Request
  accept_early_settlement cancel_early_settlement : Address → ℕ → Request

module _ {W : Type 0} where
  abbrev pub stores : World W → Call PoolState → Call (World W)
  stores x m = m >>= λ s. ok (record x { state = s })

  abbrev pub stores_with : {A : Type 0} → World W → Call (PoolState × A) → Call (World W)
  stores_with x m = m >>= λ q. ok (record x { state = q.0 })

  abbrev pub pays : World W → Call (PoolState × W) → Call (World W)
  pays x m = m >>= λ q. ok (record x { state = q.0; ledger = q.1 })

  unfoldable pub execute : Peers W → Env → World W → Request → Call (World W)
  execute peers env x (Request.set_max_position_bps a n) =
      stores x (Admin.set_max_position_bps env x.state a n)
  execute peers env x (Request.set_late_penalty_split a n) =
      stores x (Admin.set_late_penalty_split env x.state a n)
  execute peers env x (Request.set_parameter_registry a r) =
      stores x (Admin.set_parameter_registry env x.state a r)
  execute peers env x (Request.set_marketplace a m) =
      stores x (Admin.set_marketplace env x.state a m)
  execute peers env x (Request.propose_upgrade a h) =
      stores x (Admin.propose_upgrade env x.state a h)
  execute peers env x (Request.execute_upgrade a) =
      stores_with x (Admin.execute_upgrade env x.state a)
  execute peers env x (Request.release_funds a id k) =
      Lifecycle.release_funds peers env x.state x.nft a id k >>= λ q.
      ok (record x { state = q.0; nft = q.1 })
  execute peers env x (Request.record_position a id i n m) =
      stores x (Positions.record_position peers env x.state x.nft a id i n m)
  execute peers env x (Request.transfer_position id a b) =
      stores x (Positions.transfer_position peers env x.state id a b)
  execute peers env x (Request.list_position_for_sale a id k n) =
      stores x (Positions.list_position_for_sale peers env x.state a id k n)
  execute peers env x (Request.buy_position a id b) =
      pays x (Positions.buy_position peers env x.state x.ledger a id b)
  execute peers env x (Request.split_position a id n) =
      stores_with x (Shares.split_position env x.state a id n)
  execute peers env x (Request.transfer_share a id b i c) =
      stores x (Shares.transfer_share env x.state a id b i c)
  execute peers env x (Request.list_share_for_sale a id b i k n) =
      stores x (Shares.list_share_for_sale env x.state a id b i k n)
  execute peers env x (Request.buy_share a id b c i) =
      pays x (Shares.buy_share env peers x.state x.ledger a id b c i)
  execute peers env x (Request.set_installment_schedule a id l) =
      stores x (Settlement.set_installment_schedule env x.state a id l)
  execute peers env x (Request.repay_partial a id k n) =
      pays x (Repayment.repay_partial peers env x.state x.ledger a id k n)
  execute peers env x (Request.repay a id k n) = Repayment.repay peers env x a id k n
  execute peers env x (Request.propose_repayment a id n) =
      stores x (Lifecycle.propose_repayment peers env x.state a id n)
  execute peers env x (Request.approve_repayment a id) =
      stores x (Lifecycle.approve_repayment peers env x.state a id)
  execute peers env x (Request.execute_repayment a id k) =
      Lifecycle.execute_repayment peers env x a id k
  execute peers env x (Request.mark_default a id k) = Lifecycle.mark_default peers env x a id k
  execute peers env x (Request.propose_early_settlement a id n) =
      Settlement.propose_early_settlement peers env x a id n
  execute peers env x (Request.accept_early_settlement a id) =
      Settlement.accept_early_settlement peers env x a id
  execute peers env x (Request.cancel_early_settlement a id) =
      Settlement.cancel_early_settlement peers env x a id

  abbrev pub committed : World W → Call (World W) → World W
  committed x (ok x') = x'
  committed x (err e) = x
  committed x trap = x

  unfoldable pub step : Peers W → World W → Env × Request → World W
  unfolding execute
  step peers x (env, r) = committed x (execute peers env x r)

  unfoldable pub run : Peers W → World W → List (Env × Request) → World W
  unfolding step
  run peers x [] = x
  run peers x (c ∷ cs) = run peers (step peers x c) cs
