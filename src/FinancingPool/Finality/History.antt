-- ===== src/FinancingPool/Finality/History.antt =====
-- Closed pools and repayment locks, across every history of calls.
use kora_contract.Prelude.{ℕ, refl, List, [], ◌∷◌}
use kora_contract.Prelude.Results.{Ensures, Ensures-bind, Ensures-mono, ok, err, trap}
use kora_contract.Shared.Host.{Env}
use kora_contract.FinancingPool.State.{Call, PoolState, Peers, World}
use kora_contract.FinancingPool.Requests.{
  Request, execute, step, run, committed, stores, stores_with, pays,
}
use kora_contract.FinancingPool.Finality
use kora_contract.FinancingPool.Finality.{Agrees, Keeps, Agrees-Keeps, Keeps-trans}
use kora_contract.FinancingPool.Finality.Bystanders

module _ {W : Type 0} (x : World W) (j : ℕ) where
  stores-Keeps :
      (m : Call PoolState)
      → Ensures (λ s. Agrees x.state s) m
      → Ensures (λ y. Keeps x.state j y.state) (stores x m)
  stores-Keeps m h = Ensures-bind (λ s. Agrees x.state s) _ m _ (λ s. Agrees-Keeps x.state j s) h

  stores_with-Keeps :
      {A : Type 0} (m : Call (PoolState × A))
      → Ensures (λ q. Agrees x.state q.0) m
      → Ensures (λ y. Keeps x.state j y.state) (stores_with x m)
  stores_with-Keeps {A} m h =
      Ensures-bind (λ (q : PoolState × A). Agrees x.state q.0) _ m _
        (λ q. Agrees-Keeps x.state j q.0) h

  pays-Keeps :
      (m : Call (PoolState × W))
      → Ensures (λ q. Agrees x.state q.0) m
      → Ensures (λ y. Keeps x.state j y.state) (pays x m)
  pays-Keeps m h =
      Ensures-bind (λ (q : PoolState × W). Agrees x.state q.0) _ m _
        (λ q. Agrees-Keeps x.state j q.0) h

  world-Keeps :
      (m : Call (World W))
      → Ensures (λ y. Agrees x.state y.state) m
      → Ensures (λ y. Keeps x.state j y.state) m
  world-Keeps m h = Ensures-mono _ _ m (λ y. Agrees-Keeps x.state j y.state) h

module _ {W : Type 0} (peers : Peers W) where
  execute-Keeps :
      (env : Env) (x : World W) (j : ℕ) (r : Request)
      → Ensures (λ y. Keeps x.state j y.state) (execute peers env x r)
  unfolding execute
  execute-Keeps env x j (Request.set_max_position_bps a n) =
      stores-Keeps x j _ (Bystanders.set_max_position_bps-Agrees peers env x.state a n)
  execute-Keeps env x j (Request.set_late_penalty_split a n) =
      stores-Keeps x j _ (Bystanders.set_late_penalty_split-Agrees peers env x.state a n)
  execute-Keeps env x j (Request.set_parameter_registry a r) =
      stores-Keeps x j _ (Bystanders.set_parameter_registry-Agrees peers env x.state a r)
  execute-Keeps env x j (Request.set_marketplace a m) =
      stores-Keeps x j _ (Bystanders.set_marketplace-Agrees peers env x.state a m)
  execute-Keeps env x j (Request.propose_upgrade a h) =
      stores-Keeps x j _ (Bystanders.propose_upgrade-Agrees peers env x.state a h)
  execute-Keeps env x j (Request.execute_upgrade a) =
      stores_with-Keeps x j _ (Bystanders.execute_upgrade-Agrees peers env x.state a)
  execute-Keeps env x j (Request.transfer_position id a b) =
      stores-Keeps x j _ (Bystanders.transfer_position-Agrees peers env x.state id a b)
  execute-Keeps env x j (Request.list_position_for_sale a id k n) =
      stores-Keeps x j _ (Bystanders.list_position_for_sale-Agrees peers env x.state a id k n)
  execute-Keeps env x j (Request.buy_position a id b) =
      pays-Keeps x j _ (Bystanders.buy_position-Agrees peers env x.state x.ledger a id b)
  execute-Keeps env x j (Request.record_position a id i n m) =
      stores-Keeps x j _ (Bystanders.record_position-Agrees peers env x.state x.nft a id i n m)
  execute-Keeps env x j (Request.split_position a id n) =
      stores_with-Keeps x j _ (Bystanders.split_position-Agrees peers env x.state a id n)
  execute-Keeps env x j (Request.transfer_share a id b i c) =
      stores-Keeps x j _ (Bystanders.transfer_share-Agrees peers env x.state a id b i c)
  execute-Keeps env x j (Request.list_share_for_sale a id b i k n) =
      stores-Keeps x j _ (Bystanders.list_share_for_sale-Agrees peers env x.state a id b i k n)
  execute-Keeps env x j (Request.buy_share a id b c i) =
      pays-Keeps x j _ (Bystanders.buy_share-Agrees peers env x.state x.ledger a id b c i)
  execute-Keeps env x j (Request.set_installment_schedule a id l) =
      stores-Keeps x j _ (Bystanders.set_installment_schedule-Agrees peers env x.state a id l)
  execute-Keeps env x j (Request.propose_repayment a id n) =
      stores-Keeps x j _ (Bystanders.propose_repayment-Agrees peers env x.state a id n)
  execute-Keeps env x j (Request.approve_repayment a id) =
      stores-Keeps x j _ (Bystanders.approve_repayment-Agrees peers env x.state a id)
  execute-Keeps env x j (Request.propose_early_settlement a id n) =
      world-Keeps x j _ (Bystanders.propose_early_settlement-Agrees peers env x a id n)
  execute-Keeps env x j (Request.cancel_early_settlement a id) =
      world-Keeps x j _ (Bystanders.cancel_early_settlement-Agrees peers env x a id)
  execute-Keeps env x j (Request.release_funds a id k) =
      Ensures-bind (λ q. Keeps x.state j q.0) _ _ _ (λ q h. h)
        (Finality.release_funds-Keeps peers env x.state x.nft a id k j)
  execute-Keeps env x j (Request.repay_partial a id k n) =
      Ensures-bind (λ q. Keeps x.state j q.0) _ _ _ (λ q h. h)
        (Finality.repay_partial-Keeps peers env x.state x.ledger a id k n j)
  execute-Keeps env x j (Request.repay a id k n) = Finality.repay-Keeps peers env x a id k n j
  execute-Keeps env x j (Request.execute_repayment a id k) =
      Finality.execute_repayment-Keeps peers env x a id k j
  execute-Keeps env x j (Request.mark_default a id k) =
      Finality.mark_default-Keeps peers env x a id k j
  execute-Keeps env x j (Request.accept_early_settlement a id) =
      Finality.accept_early_settlement-Keeps peers env x a id j

  committed-Keeps :
      (x : World W) (j : ℕ) (m : Call (World W))
      → Ensures (λ y. Keeps x.state j y.state) m
      → Keeps x.state j (committed x m).state
  committed-Keeps x j (ok y) h = h
  committed-Keeps x j (err e) h = record { lock = refl; final = λ p was closed. was }
  committed-Keeps x j trap h = record { lock = refl; final = λ p was closed. was }

-- Whatever is called, and whether the calls succeed or fail: the repayment lock of each invoice is
-- afterwards what it was before, and a pool that is closed stays as it is.
pub run-Keeps :
    {W : Type 0} (peers : Peers W) (x : World W) (cs : List (Env × Request)) (j : ℕ)
    → Keeps x.state j (run peers x cs).state
unfolding run step
run-Keeps peers x [] j = record { lock = refl; final = λ p was closed. was }
run-Keeps peers x ((env, r) ∷ cs) j =
    Keeps-trans x.state (step peers x (env, r)).state j _
      (committed-Keeps peers x j _ (execute-Keeps peers env x j r))
      (run-Keeps peers (step peers x (env, r)) cs j)
