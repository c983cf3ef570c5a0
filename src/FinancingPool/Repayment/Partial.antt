-- ===== src/FinancingPool/Repayment/Partial.antt =====
-- What a partial repayment takes and gives.
use kora_contract.Prelude.{ℕ, ◌≡◌, ◌≢◌, refl, true, false, Option, none, some, is_some, arith}
use kora_contract.Prelude.Int.{ℤ, ltb_ℤ}
use kora_contract.Prelude.Int128.{checked_add}
use kora_contract.Prelude.Results.{
  ok, refuse_if, refuse_if-ok, ok_or, ok_or-ok, unwrap-ok, Ensures, Ensures-step, Ensures-ok,
}
use kora_contract.Prelude.Store.{update, remove}
use kora_contract.Shared.Host.{Env, Address, require_auth}
use kora_contract.Shared.Token.{Token, transfer}
use kora_contract.Shared.Types.{Pool}
use kora_contract.FinancingPool.State.{FinancingPoolError, PoolState, Peers}
use kora_contract.FinancingPool.Guards.{is_out_of_range, load_open_pool}
use kora_contract.FinancingPool.Distribution.{distribute_yield}
use kora_contract.FinancingPool.Repayment.{repay_partial, count_repaid}

-- A partial repayment went through.
pub record IsPartlyRepaid {W : Type 0} (peers : Peers W) (env : Env) (s : PoolState) (w : W)
    (payer : Address) (id : ℕ) (token : Address) (n : ℤ) (s' : PoolState) (w' : W) : Type 0 where
  pub pool : Pool
  pub repaid : ℤ
  pub paid_in : W
  pub before : PoolState
  pub after : PoolState
  pub was : s.pool id ≡ some pool
  pub unclosed : pool.is_closed ≡ false
  pub sum : checked_add pool.repaid_amount n ≡ some repaid
  pub within : ltb_ℤ pool.total_owed repaid ≡ false
  pub free : s.repayment_lock id ≡ none
  pub stored : before.pool id ≡ some (record pool { repaid_amount = repaid })
  pub same_positions : before.positions ≡ s.positions
  pub received : peers.token.transfer w token payer env.contract n ≡ some paid_in
  pub distributed :
      distribute_yield peers.token env.contract token before paid_in id repaid ≡ ok (after, w')
  -- The storage that is returned: the repaid amount is stored, the pool is open, and the lock is released.
  pub returned : s' ≡ record after { repayment_lock = remove after.repayment_lock id }
  pub persisted : s'.pool id ≡ some (record pool { repaid_amount = repaid })
  pub unlocked : s'.repayment_lock id ≡ none
  pub others : (j : ℕ) → j ≢ id → s'.pool j ≡ s.pool j

is_some-none : {A : Type 0} (o : Option A) → is_some o ≡ false → o ≡ none
is_some-none none e = refl
is_some-none (some a) e = absurd (cc (e))

load_open_pool-open :
    (s : PoolState) (id : ℕ) (pool : Pool)
    → load_open_pool s id ≡ ok pool
    → (s.pool id ≡ some pool) × (pool.is_closed ≡ false)
load_open_pool-open s id pool e = ground arith

distribute_yield-pool :
    {W : Type 0} (t : Token W) (me token : Address) (s : PoolState) (w : W) (id : ℕ) (n : ℤ)
    → Ensures (λ q. q.0.pool ≡ s.pool) (distribute_yield t me token s w id n)
unfolding distribute_yield
distribute_yield-pool t me token s w id n = ground arith

module _ {W : Type 0} (peers : Peers W) (env : Env) where
  repay_partial-steps :
      (s : PoolState) (w : W) (payer : Address) (id : ℕ) (token : Address) (n : ℤ)
      → Ensures
          (λ q. IsPartlyRepaid peers env s w payer id token n q.0 q.1)
          (repay_partial peers env s w payer id token n)
  unfolding repay_partial
  repay_partial-steps s w payer id token n = Ensures-step _ (require_auth env payer) _ (λ u0 e0.
      Ensures-step _
        (refuse_if (is_some (s.escrow_credited id)) FinancingPoolError.partial_repay_invalid) _
        (λ u1 e1.
          Ensures-step _
            (refuse_if (is_some (s.escrow_pending id)) FinancingPoolError.escrow_pending) _
            (λ u2 e2.
              Ensures-step _ (refuse_if (is_out_of_range n) FinancingPoolError.invalid_amount) _
                (λ u3 e3.
                  Ensures-step _
                    (refuse_if (is_some (s.repayment_lock id)) FinancingPoolError.unauthorized) _
                    (λ u4 e4. Ensures-step _ (load_open_pool s id) _ (λ pool e5.
                      Ensures-step _
                        (ok_or (checked_add pool.repaid_amount n)
                          FinancingPoolError.arithmetic_overflow)
                        _
                        (λ repaid e6.
                          Ensures-step _
                            (refuse_if (ltb_ℤ pool.total_owed repaid)
                              FinancingPoolError.partial_repay_invalid)
                            _
                            (λ u7 e7.
                              Ensures-step _ (transfer peers.token w token payer env.contract n) _
                                (λ w1 e8.
                                  let s1 : PoolState =
                                    count_repaid
                                      (record s {
                                        repayment_lock = update s.repayment_lock id true;
                                        pool =
                                            update s.pool id
                                              (record pool { repaid_amount = repaid });
                                      })
                                      n false in
                                  Ensures-step _
                                    (distribute_yield peers.token env.contract token s1 w1 id
                                      repaid)
                                    _
                                    (λ q e9.
                                      let kept =
                                        Ensures-ok (λ q. q.0.pool ≡ s1.pool)
                                          (distribute_yield peers.token env.contract token s1 w1 id
                                            repaid)
                                          (distribute_yield-pool peers.token env.contract token s1
                                            w1 id repaid)
                                          e9 in
                                      let found = load_open_pool-open s id pool e5 in
                                      record {
                                        pool = pool;
                                        repaid = repaid;
                                        paid_in = w1;
                                        before = s1;
                                        after = q.0;
                                        was = found.0;
                                        unclosed = found.1;
                                        sum = ok_or-ok (checked_add pool.repaid_amount n) _ e6;
                                        within =
                                            refuse_if-ok (ltb_ℤ pool.total_owed repaid)
                                              FinancingPoolError.partial_repay_invalid e7;
                                        free = is_some-none (s.repayment_lock id) (
                                            refuse_if-ok (is_some (s.repayment_lock id))
                                              FinancingPoolError.unauthorized e4);
                                        stored = ground arith;
                                        same_positions = refl;
                                        received =
                                            unwrap-ok
                                              (peers.token.transfer w token payer env.contract n)
                                              e8;
                                        distributed = e9;
                                        returned = refl;
                                        persisted = ground (arith, kept);
                                        unlocked = ground arith;
                                        others = λ j ne. ground (arith, ne, kept);
                                      }))))))))))

-- A partial repayment that succeeds finds an open pool and no repayment under way, takes the amount from the payer, and
-- stores the repaid amount, which is at most what is owed: afterwards the pool is open with that amount, its lock is
-- released, and no other pool is changed. In between it distributes, to the positions as they were, the whole
-- repaid amount, the earlier partial repayments included.
pub repay_partial-IsPartlyRepaid :
    {W : Type 0} (peers : Peers W) (env : Env) (s s' : PoolState) (w w' : W) (payer : Address)
    (id : ℕ) (token : Address) (n : ℤ)
    → repay_partial peers env s w payer id token n ≡ ok (s', w')
    → IsPartlyRepaid peers env s w payer id token n s' w'
repay_partial-IsPartlyRepaid peers env s s' w w' payer id token n e =
    Ensures-ok (λ q. IsPartlyRepaid peers env s w payer id token n q.0 q.1)
      (repay_partial peers env s w payer id token n)
      (repay_partial-steps peers env s w payer id token n) e
