-- ===== src/FinancingPool/Settled/History.antt =====
-- Closed pools and settled invoices, across every history of calls.
use kora_contract.Prelude.{ℕ, ◌≡◌, refl, ◌∙◌, ◌⊎◌, inl, inr, List, [], ◌∷◌, arith, true, some}
use kora_contract.Prelude.Int.{ℤ}
use kora_contract.Prelude.Results.{Ensures, Ensures-bind, Ensures-mono, Ensures-and, ok, err, trap}
use kora_contract.Shared.Host.{Env, Address}
use kora_contract.Shared.Types.{Pool, repaid, defaulted}
use kora_contract.InvoiceNft.State.{NftState}
use kora_contract.InvoiceNft.Lifecycle.{status_of}
use kora_contract.FinancingPool.State.{Call, PoolState, Peers, World}
use kora_contract.FinancingPool.Requests.{
  Request, execute, step, run, committed, stores, stores_with, pays,
}
use kora_contract.FinancingPool.Settlement.{propose_early_settlement, cancel_early_settlement}
use kora_contract.FinancingPool.Repayment.{repay_partial}
use kora_contract.FinancingPool.Finality.{Agrees, distribute_yield-Agrees}
use kora_contract.FinancingPool.Finality.Bystanders
use kora_contract.FinancingPool.Settled
use kora_contract.FinancingPool.Settled.{Settles, agreeing-Settles}

-- If the pool is closed, then its invoice is repaid or defaulted.
abbrev pub IsSettledPool : {W : Type 0} → World W → ℕ → Type 0
IsSettledPool x j =
    (p : Pool)
    → x.state.pool j ≡ some p
    → p.is_closed ≡ true
    → (status_of x.nft j ≡ some repaid) ⊎ (status_of x.nft j ≡ some defaulted)

Settles-IsSettledPool :
    {W : Type 0} (x : World W) (j : ℕ) (y : World W)
    → Settles x j y
    → IsSettledPool x j
    → IsSettledPool y j
Settles-IsSettledPool x j y h before p now closed = elim (h.settles p now closed) [
  | inl (was, hot) ↦ elim (before p was closed) [
    | inl r ↦ inl (same_status (y.nft) x.nft j hot ∙ r)
    | inr d ↦ inr (same_status (y.nft) x.nft j hot ∙ d)
  ]
  | inr settled ↦ settled
]
  where
    same_status : (a b : NftState) (i : ℕ) → a.hot i ≡ b.hot i → status_of a i ≡ status_of b i
    same_status a b i e = ground (arith, e)

module _ {W : Type 0} (x : World W) (j : ℕ) where
  stores-Settles :
      (m : Call PoolState)
      → Ensures (λ s. Agrees x.state s) m
      → Ensures (λ y. Settles x j y) (stores x m)
  stores-Settles m h =
      Ensures-bind (λ s. Agrees x.state s) _ m _
        (λ s same. agreeing-Settles x (record x { state = s }) j same refl) h

  stores_with-Settles :
      {A : Type 0} (m : Call (PoolState × A))
      → Ensures (λ q. Agrees x.state q.0) m
      → Ensures (λ y. Settles x j y) (stores_with x m)
  stores_with-Settles {A} m h =
      Ensures-bind (λ (q : PoolState × A). Agrees x.state q.0) _ m _
        (λ q same. agreeing-Settles x (record x { state = q.0 }) j same refl) h

  pays-Settles :
      (m : Call (PoolState × W))
      → Ensures (λ q. Agrees x.state q.0) m
      → Ensures (λ y. Settles x j y) (pays x m)
  pays-Settles m h =
      Ensures-bind (λ (q : PoolState × W). Agrees x.state q.0) _ m _
        (λ q same. agreeing-Settles x (record x { state = q.0; ledger = q.1 }) j same refl) h

module _ {W : Type 0} (peers : Peers W) where
  propose_early_settlement-nft :
      (env : Env) (x : World W) (a : Address) (id : ℕ) (n : ℤ)
      → Ensures (λ y. y.nft ≡ x.nft) (propose_early_settlement peers env x a id n)
  unfolding propose_early_settlement
  propose_early_settlement-nft env x a id n = grind arith

  cancel_early_settlement-nft :
      (env : Env) (x : World W) (a : Address) (id : ℕ)
      → Ensures (λ y. y.nft ≡ x.nft) (cancel_early_settlement peers env x a id)
  unfolding cancel_early_settlement
  cancel_early_settlement-nft env x a id = grind arith

  -- Partial repayments never close a pool.
  repay_partial-Settles :
      (env : Env) (x : World W) (a : Address) (id : ℕ) (k : Address) (n : ℤ) (j : ℕ)
      → Ensures
          (λ q. Settles x j (record x { state = q.0; ledger = q.1 }))
          (repay_partial peers env x.state x.ledger a id k n)
  unfolding repay_partial
  repay_partial-Settles env x a id k n j = grind (arith, distribute_yield-Agrees)

  execute-Settles :
      (env : Env) (x : World W) (j : ℕ) (r : Request)
      → Ensures (λ y. Settles x j y) (execute peers env x r)
  unfolding execute
  execute-Settles env x j (Request.set_max_position_bps a n) =
      stores-Settles x j _ (Bystanders.set_max_position_bps-Agrees peers env x.state a n)
  execute-Settles env x j (Request.set_late_penalty_split a n) =
      stores-Settles x j _ (Bystanders.set_late_penalty_split-Agrees peers env x.state a n)
  execute-Settles env x j (Request.set_parameter_registry a r) =
      stores-Settles x j _ (Bystanders.set_parameter_registry-Agrees peers env x.state a r)
  execute-Settles env x j (Request.set_marketplace a m) =
      stores-Settles x j _ (Bystanders.set_marketplace-Agrees peers env x.state a m)
  execute-Settles env x j (Request.propose_upgrade a h) =
      stores-Settles x j _ (Bystanders.propose_upgrade-Agrees peers env x.state a h)
  execute-Settles env x j (Request.execute_upgrade a) =
      stores_with-Settles x j _ (Bystanders.execute_upgrade-Agrees peers env x.state a)
  execute-Settles env x j (Request.transfer_position id a b) =
      stores-Settles x j _ (Bystanders.transfer_position-Agrees peers env x.state id a b)
  execute-Settles env x j (Request.list_position_for_sale a id k n) =
      stores-Settles x j _ (Bystanders.list_position_for_sale-Agrees peers env x.state a id k n)
  execute-Settles env x j (Request.buy_position a id b) =
      pays-Settles x j _ (Bystanders.buy_position-Agrees peers env x.state x.ledger a id b)
  execute-Settles env x j (Request.record_position a id i n m) =
      stores-Settles x j _ (Bystanders.record_position-Agrees peers env x.state x.nft a id i n m)
  execute-Settles env x j (Request.split_position a id n) =
      stores_with-Settles x j _ (Bystanders.split_position-Agrees peers env x.state a id n)
  execute-Settles env x j (Request.transfer_share a id b i c) =
      stores-Settles x j _ (Bystanders.transfer_share-Agrees peers env x.state a id b i c)
  execute-Settles env x j (Request.list_share_for_sale a id b i k n) =
      stores-Settles x j _ (Bystanders.list_share_for_sale-Agrees peers env x.state a id b i k n)
  execute-Settles env x j (Request.buy_share a id b c i) =
      pays-Settles x j _ (Bystanders.buy_share-Agrees peers env x.state x.ledger a id b c i)
  execute-Settles env x j (Request.set_installment_schedule a id l) =
      stores-Settles x j _ (Bystanders.set_installment_schedule-Agrees peers env x.state a id l)
  execute-Settles env x j (Request.propose_repayment a id n) =
      stores-Settles x j _ (Bystanders.propose_repayment-Agrees peers env x.state a id n)
  execute-Settles env x j (Request.approve_repayment a id) =
      stores-Settles x j _ (Bystanders.approve_repayment-Agrees peers env x.state a id)
  execute-Settles env x j (Request.propose_early_settlement a id n) =
      Ensures-mono _ _ _ (λ (y : World W) h. agreeing-Settles x y j h.0 h.1)
        (Ensures-and _ _ _ (Bystanders.propose_early_settlement-Agrees peers env x a id n)
          (propose_early_settlement-nft env x a id n))
  execute-Settles env x j (Request.cancel_early_settlement a id) =
      Ensures-mono _ _ _ (λ (y : World W) h. agreeing-Settles x y j h.0 h.1)
        (Ensures-and _ _ _ (Bystanders.cancel_early_settlement-Agrees peers env x a id)
          (cancel_early_settlement-nft env x a id))
  execute-Settles env x j (Request.release_funds a id k) =
      Ensures-bind (λ (q : PoolState × NftState). Settles x j (record x { state = q.0; nft = q.1 }))
        _ _ _ (λ q h. h) (Settled.release_funds-Settles peers env x a id k j)
  execute-Settles env x j (Request.repay_partial a id k n) =
      Ensures-bind (λ (q : PoolState × W). Settles x j (record x { state = q.0; ledger = q.1 })) _ _
        _ (λ q h. h) (repay_partial-Settles env x a id k n j)
  execute-Settles env x j (Request.repay a id k n) = Settled.repay-Settles peers env x a id k n j
  execute-Settles env x j (Request.execute_repayment a id k) =
      Settled.execute_repayment-Settles peers env x a id k j
  execute-Settles env x j (Request.mark_default a id k) =
      Settled.mark_default-Settles peers env x a id k j
  execute-Settles env x j (Request.accept_early_settlement a id) =
      Settled.accept_early_settlement-Settles peers env x a id j

  committed-IsSettledPool :
      (x : World W) (j : ℕ) (m : Call (World W))
      → Ensures (λ y. Settles x j y) m
      → IsSettledPool x j
      → IsSettledPool (committed x m) j
  committed-IsSettledPool x j (ok y) h before = Settles-IsSettledPool x j y h before
  committed-IsSettledPool x j (err e) h before = before
  committed-IsSettledPool x j trap h before = before

-- Where the pool of an invoice is closed only if the invoice contract has the invoice as repaid or
-- defaulted, that is so after any history of calls of the pool, whether they succeed or fail.
pub run-IsSettledPool :
    {W : Type 0} (peers : Peers W) (x : World W) (cs : List (Env × Request)) (j : ℕ)
    → IsSettledPool x j
    → IsSettledPool (run peers x cs) j
unfolding run step
run-IsSettledPool peers x [] j before = before
run-IsSettledPool peers x ((env, r) ∷ cs) j before =
    run-IsSettledPool peers (step peers x (env, r)) cs j
      (committed-IsSettledPool peers x j _ (execute-Settles peers env x j r) before)
