-- ===== src/Marketplace/Payments/Refunds.antt =====
-- What comes back to an investor.
use kora_contract.Prelude.{ℕ, ◌+◌, ◌≡◌, arith}
use kora_contract.Prelude.Int.{ℤ, pos, pos_part, ltb_ℤ}
use kora_contract.Prelude.Results.{
  ok, Ensures, Ensures-step, Ensures-ok, Ensures-bind, Ensures-if, Ensures-call, call, lift_err,
}
use kora_contract.Prelude.Store.{remove2}
use kora_contract.Shared.Host.{Env, Address, Bytes}
use kora_contract.Shared.Errors.{KoraError, kora_error}
use kora_contract.Shared.Token.{share_of, transfer}
use kora_contract.Shared.Types.{Listing}
use kora_contract.Shared.Validation.{safe_add}
use kora_contract.Treasury.Fees.{TreasuryState, TreasuryError, refund_fee}
use kora_contract.FinancingPool.Guards.{callee}
use kora_contract.Marketplace.State.{MarketState, MarketplaceConfig, Peers, Protocol}
use kora_contract.Marketplace.Cancellation.{
  reverse_fee, pay_back, fee_contributed_of, reduce_exposure,
}
use kora_contract.Marketplace.Payments.{
  IsMarketPeers, Moved, transfer-Moved, nothing-Moved, share_of-add,
}

module _ {W : Type 0} (peers : Peers W) (laws : IsMarketPeers peers) (z : Address) where
  refund_fee_shape :
      (env : Env) (s : TreasuryState) (w : W) (a k : Address) (n : ℤ) (i : Address)
      (Q : TreasuryState × W → Type 0)
      → ((s' : TreasuryState) (w' : W)
          → transfer {E = TreasuryError} peers.pool.token w k env.contract i n ≡ ok w'
          → Q (s', w'))
      → Ensures Q (refund_fee peers.pool.token env s w a k n i)
  unfolding refund_fee
  refund_fee_shape env s w a k n i Q h = grind (arith, h)

  refund_fee-Moved :
      (env : Env) (s : TreasuryState) (w : W) (a k : Address) (n : ℤ) (i : Address)
      → Ensures
          (λ q. Moved peers k z env.contract i (pos_part n) w q.1)
          (refund_fee peers.pool.token env s w a k n i)
  refund_fee-Moved env s w a k n i = refund_fee_shape env s w a k n i _ (λ s' w' e.
      Ensures-ok (Moved peers k z env.contract i (pos_part n) w) _
        (transfer-Moved peers laws z TreasuryError w k env.contract i n) e)

  reverse_fee-Moved :
      (env : Env) (s : MarketState) (t : TreasuryState) (w : W) (c : MarketplaceConfig) (id : ℕ)
      (k i : Address) (n : ℤ)
      → Ensures
          (λ q. Moved peers k z c.treasury i (pos_part n) w q.2)
          (reverse_fee peers env s t w c id k i n)
  unfolding reverse_fee
  reverse_fee-Moved env s t w c id k i n =
      Ensures-if
        (λ (q : MarketState × TreasuryState × W). Moved peers k z c.treasury i (pos_part n) w q.2)
        (ltb_ℤ (pos 0) n) _ _
        (λ h.
          let there = refund_fee peers.pool.token (callee env c.treasury) t w env.contract k n i in
          Ensures-bind {E = KoraError}
            (λ (q : TreasuryState × W). Moved peers k z c.treasury i (pos_part n) w q.1)
            (λ (q : MarketState × TreasuryState × W).
              Moved peers k z c.treasury i (pos_part n) w q.2)
            (call there)
            (λ q. ok (record s { fee_contribution = remove2 s.fee_contribution id i }, q.0, q.1))
            (λ q m. m)
            (Ensures-call KoraError
              (λ (q : TreasuryState × W). Moved peers k z c.treasury i (pos_part n) w q.1) there
              (refund_fee-Moved (callee env c.treasury) t w env.contract k n i)))
        (λ h. nothing-Moved peers laws z w k c.treasury i n h)

  -- The pool and the treasury gave back what they had of the investor.
  abbrev pub PaidBack : Address → Address → MarketplaceConfig → ℕ → ℕ → W → W → Type 0
  PaidBack k i c fee net w w' =
      peers.pool.token.balance w' k z + share_of c.treasury z fee + share_of c.financing_pool z net
      ≡ peers.pool.token.balance w k z + share_of i z (fee + net)

  pay_back_shape :
      (env : Env) (x : Protocol W) (c : MarketplaceConfig) (l : Listing) (h : Bytes) (id : ℕ)
      (i : Address) (n : ℤ) (Q : Protocol W → Type 0)
      → ((w1 w2 : W) (g : ℤ) (s1 : MarketState) (q : MarketState × TreasuryState × W)
          → peers.remove_debtor_exposure x.ledger h id g ≡ ok w1
          → transfer {E = KoraError} peers.pool.token w1 l.token c.financing_pool i n ≡ ok w2
          → reverse_fee peers env s1 x.treasury w2 c id l.token i (fee_contributed_of x.market id i)
            ≡ ok q
          → Q (record x { market = q.0; treasury = q.1; ledger = q.2 }))
      → Ensures Q (pay_back peers env x c l h id i n)
  unfolding pay_back
  pay_back_shape env x c l h id i n Q k =
      let fee = fee_contributed_of x.market id i in
      Ensures-step Q (lift_err kora_error (safe_add n fee)) _ (λ g e1.
        Ensures-step Q (peers.remove_debtor_exposure x.ledger h id g) _ (λ w1 e2.
          Ensures-step Q (reduce_exposure x.market l.token g) _ (λ s1 e3.
            Ensures-step Q (transfer peers.pool.token w1 l.token c.financing_pool i n) _ (λ w2 e4.
              Ensures-step Q (reverse_fee peers env s1 x.treasury w2 c id l.token i fee) _
                (λ q e5. k w1 w2 g s1 q e2 e4 e5)))))

  pub pay_back-PaidBack :
      (env : Env) (x : Protocol W) (c : MarketplaceConfig) (l : Listing) (h : Bytes) (id : ℕ)
      (i : Address) (n : ℤ)
      → Ensures
          (λ y.
            PaidBack l.token i c
              (pos_part (fee_contributed_of x.market id i))
              (pos_part n)
              x.ledger
              y.ledger)
          (pay_back peers env x c l h id i n)
  pay_back-PaidBack env x c l h id i n =
      pay_back_shape env x c l h id i n _ (λ w1 w2 g s1 q e1 e2 e3.
        let k = l.token in
        let fee = fee_contributed_of x.market id i in
        let m1 = laws.removed x.ledger w1 h id g e1 k z in
        let m2 =
          Ensures-ok (Moved peers k z c.financing_pool i (pos_part n) w1) _
            (transfer-Moved peers laws z KoraError w1 k c.financing_pool i n) e2 in
        let m3 =
          Ensures-ok
            (λ (q : MarketState × TreasuryState × W).
              Moved peers k z c.treasury i (pos_part fee) w2 (q.2))
            _ (reverse_fee-Moved env s1 x.treasury w2 c id k i fee) e3 in
        omega (arith, m1, m2, m3, share_of-add peers laws z i (pos_part fee) (pos_part n)))
