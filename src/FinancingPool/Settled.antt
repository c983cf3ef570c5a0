-- ===== src/FinancingPool/Settled.antt =====
-- The pools and the invoice contract together: which invoices belong to closed pools.
pub mod History
use kora_contract.Prelude.{
  ℕ, ◌+◌, ◌-◌, ◌≡◌, refl, sym, ap, ◌∙◌, ◌≢◌, ◌⊎◌, inl, inr, Bool, true, false, Option, none, some,
  List, [], ◌∷◌, if◌then◌else◌, ◌==◌, arith, is_some,
}
use kora_contract.Prelude.Int.{ℤ, pos}
use kora_contract.Prelude.Results.{
  ok_or, Ensures-and, Result, Ensures, Ensures-bind, Ensures-mono, Ensures-step, Ensures-call, call,
  ok, err, trap,
}
use kora_contract.Prelude.Store.{update, remove}
use kora_contract.Shared.Host.{Env, Address}
use kora_contract.Shared.Types.{Pool, Invoice, EarlySettlementOffer, repaid, defaulted}
use kora_contract.InvoiceNft.State.{NftState}
use kora_contract.InvoiceNft.Status.{set_repaid, set_funded, set_defaulted}
use kora_contract.InvoiceNft.Views.{get_invoice}
use kora_contract.InvoiceNft.Lifecycle.{status_of}
use kora_contract.FinancingPool.State.{FinancingPoolError, PoolState, Peers, World}
use kora_contract.FinancingPool.Guards.{callee}
use kora_contract.FinancingPool.Distribution.{distribute_yield}
use kora_contract.FinancingPool.Lifecycle.{
  release_funds, mark_default, execute_repayment, pay_received, finish_default,
}
use kora_contract.FinancingPool.Settlement.{settle_early, accept_early_settlement}
use kora_contract.FinancingPool.Repayment.{pay_in, repay_internal, repay, close_pool}
use kora_contract.FinancingPool.Finality.{
  is_open_at, closed_at, Agrees, distribute_yield-Agrees, apply_terms-Agrees, pay_received-Agrees,
  repay_internal_shape, repay_shape, execute_repayment_shape, mark_default_shape,
  accept_early_settlement_shape,
}

-- A pool that is closed afterwards was so before, and its invoice is as it was, or its invoice is settled.
pub record Settles {W : Type 0} (x : World W) (j : ℕ) (y : World W) : Type 0 where
  pub settles :
      (p : Pool)
      → y.state.pool j ≡ some p
      → p.is_closed ≡ true
      → ((x.state.pool j ≡ some p) × (y.nft.hot j ≡ x.nft.hot j))
        ⊎ (status_of y.nft j ≡ some repaid)
        ⊎ (status_of y.nft j ≡ some defaulted)

set_repaid-hot :
    (env : Env) (nft : NftState) (c : Address) (id j : ℕ)
    → Ensures
        (λ nft'. (status_of nft' id ≡ some repaid) × (id ≢ j → nft'.hot j ≡ nft.hot j))
        (set_repaid env nft c id)
unfolding set_repaid
set_repaid-hot env nft c id j = grind arith

set_funded-hot :
    (env : Env) (nft : NftState) (c : Address) (id j : ℕ)
    → Ensures (λ nft'. id ≢ j → nft'.hot j ≡ nft.hot j) (set_funded env nft c id)
unfolding set_funded
set_funded-hot env nft c id j = grind arith

set_defaulted-hot :
    (env : Env) (nft : NftState) (c : Address) (id j : ℕ)
    → Ensures
        (λ nft'. (status_of nft' id ≡ some defaulted) × (id ≢ j → nft'.hot j ≡ nft.hot j))
        (set_defaulted env nft c id)
unfolding set_defaulted
set_defaulted-hot env nft c id j = grind arith

repaid-Settles :
    {W : Type 0} (x z : World W) (id j : ℕ)
    → (id ≢ j → z.state.pool j ≡ x.state.pool j)
    → status_of z.nft id ≡ some repaid
    → (id ≢ j → z.nft.hot j ≡ x.nft.hot j)
    → Settles x j z
repaid-Settles x z id j e status n = grind arith

opened-Settles :
    {W : Type 0} (x z : World W) (id j : ℕ)
    → (id ≢ j → z.state.pool j ≡ x.state.pool j)
    → is_open_at (z.state.pool id) ≡ true
    → (id ≢ j → z.nft.hot j ≡ x.nft.hot j)
    → Settles x j z
opened-Settles x z id j e opened n = grind arith

pub agreeing-Settles :
    {W : Type 0} (x y : World W) (j : ℕ) → Agrees x.state y.state → y.nft ≡ x.nft → Settles x j y
agreeing-Settles x y j same n = grind arith

module _ {W : Type 0} (peers : Peers W) (env : Env) where
  close_pool-hot :
      (x : World W) (id : ℕ) (token c : Address) (n : ℤ) (j : ℕ)
      → Ensures
          (λ y.
            Agrees x.state y.state
            × (status_of y.nft id ≡ some repaid)
            × (id ≢ j → y.nft.hot j ≡ x.nft.hot j))
          (close_pool peers env x id token c n)
  unfolding close_pool
  close_pool-hot x id token c n j =
      Ensures-bind (λ q. Agrees x.state q.0) _
        (distribute_yield peers.token env.contract token x.state x.ledger id n) _
        (λ q same.
          Ensures-bind
            (λ nft'. (status_of nft' id ≡ some repaid) × (id ≢ j → nft'.hot j ≡ x.nft.hot j)) _
            (call (set_repaid (callee env c) x.nft env.contract id)) _ (λ nft' h. (same, h.0, h.1))
            (Ensures-call FinancingPoolError
              (λ nft'. (status_of nft' id ≡ some repaid) × (id ≢ j → nft'.hot j ≡ x.nft.hot j)) _
              (set_repaid-hot (callee env c) x.nft env.contract id j)))
        (distribute_yield-Agrees peers.token env.contract token x.state x.ledger id n)

  abbrev unlocked : ℕ → World W → World W
  unlocked id y =
      let s = y.state in
      record y { state = record s { repayment_lock = remove s.repayment_lock id } }

  -- A payment leaves the pool open, or closes it.
  pay_in_shape :
      (x : World W) (payer : Address) (id : ℕ) (token c : Address) (n m : ℤ) (pool : Pool) (j : ℕ)
      (Q : World W → Type 0)
      → ((s : PoolState) (w : W) (pool' : Pool)
          → s.pool j ≡ update x.state.pool id pool' j
          → pool'.is_closed ≡ false
          → Q (record x { state = s; ledger = w }))
      → ((s : PoolState) (w : W) (r : ℤ)
          → (id ≢ j → s.pool j ≡ x.state.pool j)
          → Ensures
              (λ y. Q (unlocked id y))
              (close_pool peers env (record x { state = s; ledger = w }) id token c r))
      → Ensures Q (pay_in peers env x payer id token c n m pool)
  unfolding pay_in
  pay_in_shape x payer id token c n m pool j Q left closed = grind (arith, left, closed)

  open-Settles :
      (x : World W) (s : PoolState) (w : W) (id j : ℕ) (pool' : Pool)
      → s.pool j ≡ update x.state.pool id pool' j
      → pool'.is_closed ≡ false
      → Settles x j (record x { state = s; ledger = w })
  open-Settles x s w id j pool' e unclosed = ground arith

  closed-Settles :
      (x y z : World W) (id j : ℕ)
      → (id ≢ j → y.state.pool j ≡ x.state.pool j)
      → y.nft ≡ x.nft
      → Agrees y.state z.state
        × (status_of z.nft id ≡ some repaid)
        × (id ≢ j → z.nft.hot j ≡ y.nft.hot j)
      → Settles x j (unlocked id z)
  closed-Settles x y z id j e n h = grind arith

  pay_in-Settles :
      (x : World W) (payer : Address) (id : ℕ) (token c : Address) (n m : ℤ) (pool : Pool) (j : ℕ)
      → Ensures (λ y. Settles x j y) (pay_in peers env x payer id token c n m pool)
  pay_in-Settles x payer id token c n m pool j =
      pay_in_shape x payer id token c n m pool j _
        (λ s w pool' e unclosed. open-Settles x s w id j pool' e unclosed)
        (λ s w r e.
          Ensures-mono _ _ _
            (λ z. closed-Settles x (record x { state = s; ledger = w }) z id j e refl)
            (close_pool-hot (record x { state = s; ledger = w }) id token c r j))

  -- The same storage before.
  from-Settles :
      (x : World W) (s : PoolState) (j : ℕ) (y : World W)
      → Agrees x.state s
      → Settles (record x { state = s }) j y
      → Settles x j y
  from-Settles x s j y same h = record {
    settles = λ p now closed. elim (h.settles p now closed) [
      | inl (was, hot) ↦ inl (sym (ap (λ (f : ℕ → Option Pool). f j) same.0) ∙ was, hot)
      | inr settled ↦ inr settled
    ];
  }

  repay_internal-Settles :
      (x : World W) (payer : Address) (id : ℕ) (token : Address) (n : ℤ) (j : ℕ)
      → Ensures (λ y. Settles x j y) (repay_internal peers env x payer id token n)
  repay_internal-Settles x payer id token n j =
      repay_internal_shape peers env x payer id token n _ (λ s c m pool same unclosed free.
        Ensures-mono _ _ _ (λ (y : World W). from-Settles x s j y same)
          (pay_in-Settles (record x { state = s }) payer id token c n m pool j))

  pub repay-Settles :
      (x : World W) (payer : Address) (id : ℕ) (token : Address) (n : ℤ) (j : ℕ)
      → Ensures (λ y. Settles x j y) (repay peers env x payer id token n)
  repay-Settles x payer id token n j =
      repay_shape peers env x payer id token n _ (repay_internal-Settles x payer id token n j)

  pub execute_repayment-Settles :
      (x : World W) (payer : Address) (id : ℕ) (token : Address) (j : ℕ)
      → Ensures (λ y. Settles x j y) (execute_repayment peers env x payer id token)
  execute_repayment-Settles x payer id token j =
      execute_repayment_shape peers env x payer id token _ (λ s n same.
        Ensures-mono _ _ _ (λ (y : World W). from-Settles x s j y same)
          (repay_internal-Settles (record x { state = s }) payer id token n j))

  finish_default-hot :
      (x : World W) (a : Address) (id : ℕ) (token c : Address) (n : ℤ) (j : ℕ)
      → Ensures
          (λ y.
            Agrees x.state y.state
            × (status_of y.nft id ≡ some defaulted)
            × (id ≢ j → y.nft.hot j ≡ x.nft.hot j))
          (finish_default peers env x a id token c n)
  unfolding finish_default
  finish_default-hot x a id token c n j =
      Ensures-bind (λ q. Agrees x.state q.0) _ (pay_received peers env x.state x.ledger id token n)
        _
        (λ q same.
          Ensures-bind
            (λ nft'. (status_of nft' id ≡ some defaulted) × (id ≢ j → nft'.hot j ≡ x.nft.hot j)) _
            (call (set_defaulted (callee env c) x.nft a id)) _
            (λ nft' h. Ensures-step _ (call (get_invoice nft' id)) _ (λ i e. (same, h.0, h.1)))
            (Ensures-call FinancingPoolError
              (λ nft'. (status_of nft' id ≡ some defaulted) × (id ≢ j → nft'.hot j ≡ x.nft.hot j)) _
              (set_defaulted-hot (callee env c) x.nft a id j)))
        (pay_received-Agrees peers env x.state x.ledger id token n)

  defaulted-Settles :
      (x y z : World W) (id j : ℕ)
      → (id ≢ j → y.state.pool j ≡ x.state.pool j)
      → y.nft ≡ x.nft
      → Agrees y.state z.state
        × (status_of z.nft id ≡ some defaulted)
        × (id ≢ j → z.nft.hot j ≡ y.nft.hot j)
      → Settles x j z
  defaulted-Settles x y z id j e n h = grind arith

  pub mark_default-Settles :
      (x : World W) (a : Address) (id : ℕ) (token : Address) (j : ℕ)
      → Ensures (λ y. Settles x j y) (mark_default peers env x a id token)
  mark_default-Settles x a id token j =
      mark_default_shape peers env x a id token _
        (λ c n.
          Ensures-mono _ _ _ (λ z. defaulted-Settles x x z id j (λ ne. refl) refl)
            (finish_default-hot x a id token c n j))
        (λ c n pool was unclosed.
          Ensures-mono _ _ _
            (λ z.
              defaulted-Settles x (record x { state = closed_at peers env x.state id pool }) z id j
                (λ ne. ground (arith, ne)) refl)
            (finish_default-hot (record x { state = closed_at peers env x.state id pool }) a id
              token c n j))

  settle_early-Settles :
      (x : World W) (id : ℕ) (pool : Pool) (offer : EarlySettlementOffer) (j : ℕ)
      → Ensures (λ y. Settles x j y) (settle_early peers env x id pool offer)
  unfolding settle_early
  settle_early-Settles x id pool offer j =
      Ensures-step _ (ok_or x.state.invoice_nft FinancingPoolError.not_initialized) _ (λ c e.
        let y : World W = record x {
          state = record (x.state) {
            repayment_lock = update x.state.repayment_lock id true;
            pool =
                update x.state.pool id
                  (record pool { repaid_amount = offer.amount; is_closed = true });
          };
        } in
        Ensures-bind
          (λ z.
            Agrees y.state z.state
            × (status_of z.nft id ≡ some repaid)
            × (id ≢ j → z.nft.hot j ≡ x.nft.hot j))
          _ (close_pool peers env y id pool.token c offer.amount) _
          (λ z h.
            repaid-Settles x _ id j
              (λ ne. ap (λ (f : ℕ → Option Pool). f j) h.0.0 ∙ ground (arith, ne)) h.1 h.2)
          (close_pool-hot y id pool.token c offer.amount j))

  pub accept_early_settlement-Settles :
      (x : World W) (a : Address) (id j : ℕ)
      → Ensures (λ y. Settles x j y) (accept_early_settlement peers env x a id)
  accept_early_settlement-Settles x a id j =
      accept_early_settlement_shape peers env x a id _
        (λ s same. agreeing-Settles x (record x { state = s }) j same refl)
        (λ pool offer was unclosed free. settle_early-Settles x id pool offer j)

  release_funds-opens :
      (s : PoolState) (nft : NftState) (a : Address) (id : ℕ) (token : Address) (j : ℕ)
      → Ensures
          (λ q. (id ≢ j → q.0.pool j ≡ s.pool j) × (is_open_at (q.0.pool id) ≡ true))
          (release_funds peers env s nft a id token)
  unfolding release_funds
  release_funds-opens s nft a id token j = grind arith

  release_funds_shape :
      (s : PoolState) (nft : NftState) (a : Address) (id : ℕ) (token : Address)
      (Q : NftState → Type 0)
      → ((c : Address) → Ensures Q (set_funded (callee env c) nft env.contract id))
      → Ensures (λ q. Q q.1) (release_funds peers env s nft a id token)
  unfolding release_funds
  release_funds_shape s nft a id token Q h = grind (arith, h)

  pub release_funds-Settles :
      (x : World W) (a : Address) (id : ℕ) (token : Address) (j : ℕ)
      → Ensures
          (λ q. Settles x j (record x { state = q.0; nft = q.1 }))
          (release_funds peers env x.state x.nft a id token)
  release_funds-Settles x a id token j =
      let m = release_funds peers env x.state x.nft a id token in
      Ensures-mono
        (λ (q : PoolState × NftState).
          ((id ≢ j → q.0.pool j ≡ x.state.pool j) × (is_open_at (q.0.pool id) ≡ true))
          × (id ≢ j → q.1.hot j ≡ x.nft.hot j))
        _ m (λ q h. opened-Settles x (record x { state = q.0; nft = q.1 }) id j h.0.0 h.0.1 h.1)
        (Ensures-and _ _ m (release_funds-opens x.state x.nft a id token j) (
          release_funds_shape x.state x.nft a id token (λ nft'. id ≢ j → nft'.hot j ≡ x.nft.hot j)
            (λ c. set_funded-hot (callee env c) x.nft env.contract id j)))
