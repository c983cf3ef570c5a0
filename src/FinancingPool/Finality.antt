-- ===== src/FinancingPool/Finality.antt =====
-- Closed pools and repayment locks, across every call of the pool.
pub mod Bystanders
pub mod History
use kora_contract.Prelude.{
  ℕ, ◌+◌, ◌-◌, ◌≡◌, refl, sym, ap, ◌∙◌, ◌≢◌, Bool, not, true, false, Option, none, some, List, [],
  ◌∷◌, if◌then◌else◌, ◌==◌, arith, is_some,
}
use kora_contract.Prelude.Int.{ℤ, pos}
use kora_contract.Prelude.Results.{
  Result, Ensures, Ensures-bind, Ensures-mono, Ensures-step, ok, err, trap,
}
use kora_contract.Prelude.Store.{update, remove}
use kora_contract.Shared.Host.{Env, Address}
use kora_contract.Shared.Token.{Token}
use kora_contract.Shared.Types.{Pool, Invoice, InstallmentSchedule, EarlySettlementOffer}
use kora_contract.InvoiceNft.State.{NftState}
use kora_contract.FinancingPool.State.{PoolState, Peers, World}
use kora_contract.FinancingPool.Distribution.{distribute_yield}
use kora_contract.FinancingPool.Lifecycle.{
  release_funds, mark_default, pay_received, require_defaultable, finish_default, execute_repayment,
}
use kora_contract.FinancingPool.Settlement.{settle_early, accept_early_settlement}
use kora_contract.FinancingPool.Repayment.{
  pay_in, repay_partial, repay_internal, repay, apply_terms, pay_installment, apply_late_penalty,
  close_pool,
}

-- The pools and the locks are those of another storage.
abbrev pub Agrees : PoolState → PoolState → Type 0
Agrees s s' = (s'.pool ≡ s.pool) × (s'.repayment_lock ≡ s.repayment_lock)

-- An entry that is closed, and the lock of an invoice, are those of another storage.
pub record Keeps (s : PoolState) (j : ℕ) (s' : PoolState) : Type 0 where
  pub lock : s'.repayment_lock j ≡ s.repayment_lock j
  pub final : (p : Pool) → s.pool j ≡ some p → p.is_closed ≡ true → s'.pool j ≡ some p

Keeps-Agrees :
    (s s' : PoolState) (j : ℕ) (s'' : PoolState) → Agrees s s' → Keeps s' j s'' → Keeps s j s''
Keeps-Agrees s s' j s'' (p, l) h = record {
  lock = h.lock ∙ ap (λ (f : ℕ → Option Bool). f j) l;
  final = λ q was closed. h.final q (ap (λ (f : ℕ → Option Pool). f j) p ∙ was) closed;
}

pub Agrees-Keeps : (s : PoolState) (j : ℕ) (s' : PoolState) → Agrees s s' → Keeps s j s'
Agrees-Keeps s j s' (p, l) = record {
  lock = ap (λ (f : ℕ → Option Bool). f j) l;
  final = λ q was closed. ap (λ (f : ℕ → Option Pool). f j) p ∙ was;
}

pub Keeps-trans :
    (s s' : PoolState) (j : ℕ) (s'' : PoolState) → Keeps s j s' → Keeps s' j s'' → Keeps s j s''
Keeps-trans s s' j s'' h h' = record {
  lock = h'.lock ∙ h.lock;
  final = λ p was closed. h'.final p (h.final p was closed) closed;
}

-- There is a pool, and it is open.
abbrev pub is_open_at : Option Pool → Bool
is_open_at none = false
is_open_at (some pool) = not pool.is_closed

module _ {W : Type 0} (t : Token W) (me token : Address) where
  pub distribute_yield-Agrees :
      (s : PoolState) (w : W) (id : ℕ) (n : ℤ)
      → Ensures (λ q. Agrees s q.0) (distribute_yield t me token s w id n)
  unfolding distribute_yield
  distribute_yield-Agrees s w id n = ground arith

module _ {W : Type 0} (peers : Peers W) (env : Env) where
  pub repay_partial-Keeps :
      (s : PoolState) (w : W) (payer : Address) (id : ℕ) (token : Address) (n : ℤ) (j : ℕ)
      → Ensures (λ q. Keeps s j q.0) (repay_partial peers env s w payer id token n)
  unfolding repay_partial
  repay_partial-Keeps s w payer id token n j = grind (arith, distribute_yield-Agrees)

  close_pool-Agrees :
      (x : World W) (id : ℕ) (token c : Address) (n : ℤ)
      → Ensures (λ y. Agrees x.state y.state) (close_pool peers env x id token c n)
  unfolding close_pool
  close_pool-Agrees x id token c n = grind (arith, distribute_yield-Agrees)

  apply_late_penalty-Agrees :
      (s : PoolState) (id : ℕ) (pool : Pool) (b d : ℕ)
      → Ensures (λ q. Agrees s q.0) (apply_late_penalty env s id pool b d)
  unfolding apply_late_penalty
  apply_late_penalty-Agrees s id pool b d = ground arith

  pay_installment-Agrees :
      (s : PoolState) (id : ℕ) (pool : Pool) (l : InstallmentSchedule) (n : ℤ)
      → Ensures (λ q. Agrees s q.0) (pay_installment peers env s id pool l n)
  unfolding pay_installment
  pay_installment-Agrees s id pool l n = grind (arith, apply_late_penalty-Agrees)

  pub apply_terms-Agrees :
      (s : PoolState) (id : ℕ) (pool : Pool) (i : Invoice) (n : ℤ)
      → Ensures (λ q. Agrees s q.0) (apply_terms peers env s id pool i n)
  unfolding apply_terms
  apply_terms-Agrees s id pool i n =
      grind (arith, apply_late_penalty-Agrees, pay_installment-Agrees)

  -- A repayment is a payment into a pool that is open, where no repayment is under way.
  pub repay_internal_shape :
      (x : World W) (payer : Address) (id : ℕ) (token : Address) (n : ℤ) (Q : World W → Type 0)
      → ((s : PoolState) (c : Address) (m : ℤ) (pool : Pool)
          → Agrees x.state s
          → is_open_at (x.state.pool id) ≡ true
          → x.state.repayment_lock id ≡ none
          → Ensures Q (pay_in peers env (record x { state = s }) payer id token c n m pool))
      → Ensures Q (repay_internal peers env x payer id token n)
  unfolding repay_internal
  repay_internal_shape x payer id token n Q paid = grind (arith, paid, apply_terms-Agrees)

  pay_in-Keeps :
      (x : World W) (payer : Address) (id : ℕ) (token c : Address) (n m : ℤ) (pool : Pool) (j : ℕ)
      → is_open_at (x.state.pool id) ≡ true
      → x.state.repayment_lock id ≡ none
      → Ensures (λ y. Keeps x.state j y.state) (pay_in peers env x payer id token c n m pool)
  unfolding pay_in
  pay_in-Keeps x payer id token c n m pool j unclosed free = grind (arith, close_pool-Agrees)

  repay_internal-Keeps :
      (x : World W) (payer : Address) (id : ℕ) (token : Address) (n : ℤ) (j : ℕ)
      → Ensures (λ y. Keeps x.state j y.state) (repay_internal peers env x payer id token n)
  repay_internal-Keeps x payer id token n j =
      repay_internal_shape x payer id token n _ (λ s c m pool same unclosed free.
        Ensures-mono _ _ _ (λ (y : World W). Keeps-Agrees x.state s j y.state same)
          (pay_in-Keeps (record x { state = s }) payer id token c n m pool j
            (ap (λ (f : ℕ → Option Pool). is_open_at (f id)) same.0 ∙ unclosed)
            (ap (λ (f : ℕ → Option Bool). f id) same.1 ∙ free)))

  -- What holds after a large repayment or its execution, as it does after the repayment itself.
  pub repay_shape :
      (x : World W) (payer : Address) (id : ℕ) (token : Address) (n : ℤ) (Q : World W → Type 0)
      → Ensures Q (repay_internal peers env x payer id token n)
      → Ensures Q (repay peers env x payer id token n)
  unfolding repay
  repay_shape x payer id token n Q h = grind (arith, h)

  pub execute_repayment_shape :
      (x : World W) (payer : Address) (id : ℕ) (token : Address) (Q : World W → Type 0)
      → ((s : PoolState) (n : ℤ)
          → Agrees x.state s
          → Ensures Q (repay_internal peers env (record x { state = s }) payer id token n))
      → Ensures Q (execute_repayment peers env x payer id token)
  unfolding execute_repayment
  execute_repayment_shape x payer id token Q h = grind (arith, h)

  pub repay-Keeps :
      (x : World W) (payer : Address) (id : ℕ) (token : Address) (n : ℤ) (j : ℕ)
      → Ensures (λ y. Keeps x.state j y.state) (repay peers env x payer id token n)
  repay-Keeps x payer id token n j =
      repay_shape x payer id token n _ (repay_internal-Keeps x payer id token n j)

  pub execute_repayment-Keeps :
      (x : World W) (payer : Address) (id : ℕ) (token : Address) (j : ℕ)
      → Ensures (λ y. Keeps x.state j y.state) (execute_repayment peers env x payer id token)
  execute_repayment-Keeps x payer id token j =
      execute_repayment_shape x payer id token _ (λ s n same.
        Ensures-mono _ _ _ (λ y. Keeps-Agrees x.state s j y.state same)
          (repay_internal-Keeps (record x { state = s }) payer id token n j))

  pub pay_received-Agrees :
      (s : PoolState) (w : W) (id : ℕ) (token : Address) (n : ℤ)
      → Ensures (λ q. Agrees s q.0) (pay_received peers env s w id token n)
  unfolding pay_received
  pay_received-Agrees s w id token n = grind (arith, distribute_yield-Agrees)

  finish_default-Agrees :
      (x : World W) (a : Address) (id : ℕ) (token c : Address) (n : ℤ)
      → Ensures (λ y. Agrees x.state y.state) (finish_default peers env x a id token c n)
  unfolding finish_default
  finish_default-Agrees x a id token c n = grind (arith, pay_received-Agrees)

  abbrev pub closed_at : PoolState → ℕ → Pool → PoolState
  closed_at s id pool = record s { pool = update s.pool id (record pool { is_closed = true }) }

  pub require_defaultable-open :
      (s : PoolState) (nft : NftState) (a : Address) (id : ℕ)
      → Ensures
          (λ q. (s.pool id ≡ some q.0) × (q.0.is_closed ≡ false))
          (require_defaultable peers env s nft a id)
  unfolding require_defaultable
  require_defaultable-open s nft a id = grind arith

  -- A default pays from the storage as it is, or from the one where the open pool is closed.
  pub mark_default_shape :
      (x : World W) (a : Address) (id : ℕ) (token : Address) (Q : World W → Type 0)
      → ((c : Address) (n : ℤ) → Ensures Q (finish_default peers env x a id token c n))
      → ((c : Address) (n : ℤ) (pool : Pool)
          → x.state.pool id ≡ some pool
          → pool.is_closed ≡ false
          → Ensures Q (
              finish_default peers env
                (record x { state = closed_at x.state id pool })
                a
                id
                token
                c
                n))
      → Ensures Q (mark_default peers env x a id token)
  unfolding mark_default
  mark_default_shape x a id token Q as_is closed =
      grind (arith, as_is, closed, require_defaultable-open)

  settle_early-Keeps :
      (x : World W) (id : ℕ) (pool : Pool) (offer : EarlySettlementOffer) (j : ℕ)
      → x.state.pool id ≡ some pool
      → pool.is_closed ≡ false
      → x.state.repayment_lock id ≡ none
      → Ensures (λ y. Keeps x.state j y.state) (settle_early peers env x id pool offer)
  unfolding settle_early
  settle_early-Keeps x id pool offer j was unclosed free = grind (arith, close_pool-Agrees)

  pub accept_early_settlement_shape :
      (x : World W) (a : Address) (id : ℕ) (Q : World W → Type 0)
      → ((s : PoolState) → Agrees x.state s → Q (record x { state = s }))
      → ((pool : Pool) (offer : EarlySettlementOffer)
          → x.state.pool id ≡ some pool
          → pool.is_closed ≡ false
          → x.state.repayment_lock id ≡ none
          → Ensures Q (settle_early peers env x id pool offer))
      → Ensures Q (accept_early_settlement peers env x a id)
  unfolding accept_early_settlement
  accept_early_settlement_shape x a id Q kept settled = grind (arith, kept, settled)

  pub release_funds-Keeps :
      (s : PoolState) (nft : NftState) (a : Address) (id : ℕ) (token : Address) (j : ℕ)
      → Ensures (λ q. Keeps s j q.0) (release_funds peers env s nft a id token)
  unfolding release_funds
  release_funds-Keeps s nft a id token j = grind arith

  pub accept_early_settlement-Keeps :
      (x : World W) (a : Address) (id j : ℕ)
      → Ensures (λ y. Keeps x.state j y.state) (accept_early_settlement peers env x a id)
  accept_early_settlement-Keeps x a id j =
      accept_early_settlement_shape x a id _ (λ s. Agrees-Keeps x.state j s)
        (λ pool offer was unclosed free. settle_early-Keeps x id pool offer j was unclosed free)

  closed_at-Keeps :
      (s : PoolState) (id j : ℕ) (pool : Pool)
      → s.pool id ≡ some pool
      → pool.is_closed ≡ false
      → Keeps s j (closed_at s id pool)
  closed_at-Keeps s id j pool was unclosed = ground arith

  pub mark_default-Keeps :
      (x : World W) (a : Address) (id : ℕ) (token : Address) (j : ℕ)
      → Ensures (λ y. Keeps x.state j y.state) (mark_default peers env x a id token)
  mark_default-Keeps x a id token j =
      mark_default_shape x a id token _
        (λ c n.
          Ensures-mono _ _ _ (λ y. Agrees-Keeps x.state j y.state)
            (finish_default-Agrees x a id token c n))
        (λ c n pool was unclosed.
          Ensures-mono _ _ _
            (λ (y : World W) same.
              Keeps-trans x.state (closed_at x.state id pool) j y.state
                (closed_at-Keeps x.state id j pool was unclosed) (Agrees-Keeps _ j y.state same))
            (finish_default-Agrees (record x { state = closed_at x.state id pool }) a id token c n))
