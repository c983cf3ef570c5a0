-- ===== src/Marketplace/Payments.antt =====
-- What an investor pays for an allocation.
pub mod Amounts
pub mod Refunds
pub mod Prices
pub mod Trips
pub mod Returns
pub mod Once
use kora_contract.Prelude.{
  ℕ, zero, suc, ◌+◌, ◌-◌, ◌*◌, ◌/◌, ◌≤◌, ◌<◌, ◌≡◌, refl, ap, ◌∙◌, sym, Bool, true, false, not,
  Option, none, some, if◌then◌else◌, ◌==◌, arith, Bool-cases, inl, inr, unwrap_or,
}
use kora_contract.Prelude.Int.{ℤ, pos, negsuc, pos_part, neg_part, leb_ℤ, ltb_ℤ, eq_ℤ, ◌≤ℤ◌}
use kora_contract.Prelude.Int128.{checked_sub, checked_add}
use kora_contract.Prelude.Results.{
  Result, ok, err, trap, Ensures, Ensures-step, Ensures-mono, Ensures-ok, Ensures-bind, Ensures-map,
  Ensures-if, Ensures-intro, ◌>>=◌, lift_err, call, lift_err-ok, unwrap, unwrap-ok,
}
use kora_contract.Shared.Host.{Env, Address, Bytes}
use kora_contract.Shared.Errors.{KoraError, kora_error}
use kora_contract.Shared.Token.{Token, IsToken, transfer, share_of}
use kora_contract.Shared.Types.{Listing, Invoice}
use kora_contract.Treasury.Fees.{TreasuryState, refund_fee, collect_fee}
use kora_contract.FinancingPool.Guards.{callee}
use kora_contract.Marketplace.State.{MarketState, MarketplaceConfig, Peers, Protocol, Call}
use kora_contract.Marketplace.Funding.{Allocation, pay_treasury, pay_pool, settle}
use kora_contract.Marketplace.Cancellation.{reverse_fee, pay_back, fee_contributed_of}

-- What is assumed of the contracts that are called: the tokens behave as documented, and the bookkeeping of the
-- debtors' exposures, which the repository does not declare, moves no money.
pub record IsMarketPeers {W : Type 0} (peers : Peers W) : Type 0 where
  pub token : IsToken peers.pool.token
  pub added :
      (w w' : W) (h : Bytes) (id : ℕ) (n : ℤ)
      → peers.add_debtor_exposure w h id n ≡ ok w'
      → (k z : Address) → peers.pool.token.balance w' k z ≡ peers.pool.token.balance w k z
  pub removed :
      (w w' : W) (h : Bytes) (id : ℕ) (n : ℤ)
      → peers.remove_debtor_exposure w h id n ≡ ok w'
      → (k z : Address) → peers.pool.token.balance w' k z ≡ peers.pool.token.balance w k z

-- `n` of the token `k` went from one account to another, as the account `z` sees it.
abbrev pub Moved :
    {W : Type 0} → Peers W → Address → Address → Address → Address → ℕ → W → W → Type 0
Moved peers k z a b n w w' =
    peers.pool.token.balance w' k z + share_of a z n
    ≡ peers.pool.token.balance w k z + share_of b z n

share_of_none : (a z : Address) → share_of a z 0 ≡ 0
share_of_none a z = ground arith

not_paid : (n : ℤ) → ltb_ℤ (pos 0) n ≡ false → pos_part n ≡ 0
not_paid (pos n) h = ground (arith, h)
not_paid (negsuc n) h = refl

module _ {W : Type 0} (peers : Peers W) (laws : IsMarketPeers peers) (z : Address) where
  pub transfer-Moved :
      (E : Type 0) (w : W) (k a b : Address) (n : ℤ)
      → Ensures (Moved peers k z a b (pos_part n) w) (transfer {E = E} peers.pool.token w k a b n)
  transfer-Moved E w k a b n =
      Ensures-intro _ _ (λ w' e. laws.token.moved w w' k a b n (unwrap-ok _ e) z)

  -- Nothing is moved where there is nothing to pay.
  pub nothing-Moved :
      (w : W) (k a b : Address) (n : ℤ)
      → ltb_ℤ (pos 0) n ≡ false
      → Moved peers k z a b (pos_part n) w w
  nothing-Moved w k a b n h =
      rw (not_paid n h) (omega (arith, share_of_none a z, share_of_none b z))

  pay_treasury-Moved :
      (env : Env) (t : TreasuryState) (w : W) (i : Address) (a : Allocation)
      → Ensures
          (λ q. Moved peers a.pay_token z i a.config.treasury (pos_part a.pay_fee) w q.1)
          (pay_treasury peers env t w i a)
  unfolding pay_treasury
  pay_treasury-Moved env t w i a =
      Ensures-if
        (λ (q : TreasuryState × W).
          Moved peers a.pay_token z i a.config.treasury (pos_part a.pay_fee) w q.1)
        (ltb_ℤ (pos 0) a.pay_fee) _ _
        (λ h.
          Ensures-bind (Moved peers a.pay_token z i a.config.treasury (pos_part a.pay_fee) w) _ _ _
            (λ w' m. Ensures-step _ (call (collect_fee t a.pay_token a.pay_fee)) _ (λ t' e. m))
            (transfer-Moved KoraError w a.pay_token i a.config.treasury a.pay_fee))
        (λ h. nothing-Moved w a.pay_token i a.config.treasury a.pay_fee h)

  pay_pool-Moved :
      (env : Env) (w : W) (i : Address) (a : Allocation)
      → Ensures
          (Moved peers a.pay_token z i a.config.financing_pool (pos_part a.pay_net) w)
          (pay_pool peers env w i a)
  unfolding pay_pool
  pay_pool-Moved env w i a =
      Ensures-if (Moved peers a.pay_token z i a.config.financing_pool (pos_part a.pay_net) w)
        (ltb_ℤ (pos 0) a.pay_net) _ _
        (λ h. transfer-Moved KoraError w a.pay_token i a.config.financing_pool a.pay_net)
        (λ h. nothing-Moved w a.pay_token i a.config.financing_pool a.pay_net h)

  -- The fee went to the treasury and the rest to the pool.
  abbrev pub Paid : Address → Address → MarketplaceConfig → ℕ → ℕ → W → W → Type 0
  Paid k i c fee net w w' =
      peers.pool.token.balance w' k z + share_of i z (fee + net)
      ≡ peers.pool.token.balance w k z + share_of c.treasury z fee + share_of c.financing_pool z net

  pub share_of-add :
      (a : Address) (n m : ℕ) → share_of a z (n + m) ≡ share_of a z n + share_of a z m
  share_of-add a n m = ground arith

  settle_shape :
      (env : Env) (x : Protocol W) (i : Address) (id : ℕ) (a : Allocation) (Q : Protocol W → Type 0)
      → ((w1 w2 w3 : W) (t : TreasuryState) (y : Protocol W)
          → peers.add_debtor_exposure x.ledger a.debtor_hash id a.listing_amount ≡ ok w1
          → pay_treasury peers env x.treasury w1 i a ≡ ok (t, w2)
          → pay_pool peers env w2 i a ≡ ok w3
          → y.ledger ≡ w3
          → y.treasury ≡ t
          → Q y)
      → Ensures Q (settle peers env x i id a)
  unfolding settle
  settle_shape env x i id a Q h = grind (arith, h)

  pub settle-Paid :
      (env : Env) (x : Protocol W) (i : Address) (id : ℕ) (a : Allocation)
      → Ensures
          (λ y.
            Paid a.pay_token i a.config (pos_part a.pay_fee) (pos_part a.pay_net) x.ledger y.ledger)
          (settle peers env x i id a)
  settle-Paid env x i id a = settle_shape env x i id a _ (λ w1 w2 w3 t y e1 e2 e3 same taken.
      let k = a.pay_token in
      let m1 = laws.added x.ledger w1 a.debtor_hash id a.listing_amount e1 k z in
      let m2 =
        Ensures-ok
          (λ (q : TreasuryState × W).
            Moved peers k z i a.config.treasury (pos_part a.pay_fee) w1 q.1)
          _ (pay_treasury-Moved env x.treasury w1 i a) e2 in
      let m3 =
        Ensures-ok (Moved peers k z i a.config.financing_pool (pos_part a.pay_net) w2) _
          (pay_pool-Moved env w2 i a) e3 in
      rw same (omega (arith, m1, m2, m3, share_of-add i (pos_part a.pay_fee) (pos_part a.pay_net))))
