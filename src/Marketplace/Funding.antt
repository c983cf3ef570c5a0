-- ===== src/Marketplace/Funding.antt =====
-- An investor funds a listing, or several of them: the checks, the conversion of what is paid, the fee, the books and
-- the payments. Where the listing is full, the pool takes the invoice over. A batch that is not atomic keeps what a
-- failed allocation wrote before it failed, so the errors here carry the storage.
mod Amounts
unfoldable pub use Amounts.*
use kora_contract.Prelude.{
  ℕ, Bool, true, false, not, ◌&&◌, Option, none, some, List, [], ◌∷◌, ◌++◌, length, ltb, leb, ◌==◌,
  if◌then◌else◌, unwrap_or,
}
use kora_contract.Prelude.Int.{ℤ, pos, leb_ℤ, ltb_ℤ, eq_ℤ}
use kora_contract.Prelude.Int128.{checked_sub, checked_mul}
use kora_contract.Prelude.Results.{
  Result, ok, err, trap, ◌>>=◌, ◌>>◌, refuse_if, ok_or, unwrap, lift_err, call, assert_host,
}
use kora_contract.Prelude.Store.{update, update2}
use kora_contract.Shared.Host.{Env, Address, Symbol, Bytes, require_auth}
use kora_contract.Shared.Errors.{KoraError, kora_error}
use kora_contract.Shared.Types.{Listing, Invoice}
use kora_contract.Shared.Token.{transfer}
use kora_contract.Shared.Validation.{
  require_non_zero_amount, require_within_max_amount, safe_add, safe_sub, safe_mul, safe_div,
}
use kora_contract.Shared.Decimals.{bps_of_normalized}
use kora_contract.InvoiceNft.State.{NftState}
use kora_contract.InvoiceNft.Views.{get_invoice}
use kora_contract.InvoiceNft.Freeze.{is_invoice_frozen}
use kora_contract.FinancingPool.State.{PoolState}
use kora_contract.FinancingPool.Guards.{callee}
use kora_contract.FinancingPool.Admin.{get_price_oracle}
use kora_contract.FinancingPool.Lifecycle.{release_funds}
use kora_contract.Treasury.Fees.{TreasuryState, collect_fee}
use kora_contract.Marketplace.State.{
  Call, MarketplaceConfig, MarketState, Peers, Protocol, BatchAllocationResult,
}
use kora_contract.Marketplace.Guards.{
  load_config, require_not_paused, acquire_guard, release_guard, require_whitelisted_token,
  require_circuit_breaker_not_tripped, require_investor_accredited, require_priority_window_allowed,
  min_contribution_floor, tier_ordinal, base_fee_bps, remove_token_exposure,
}
use kora_contract.Marketplace.Listing.{load_active}

-- An investor is entered with the first contribution.
unfoldable pub enter_investor : MarketState → ℕ → Address → ℤ → MarketState
enter_investor s invoice_id investor prev_contrib =
    if eq_ℤ prev_contrib (pos 0)
    then record s {
      listing_investors =
          update s.listing_investors invoice_id
            (unwrap_or (s.listing_investors invoice_id) [] ++ investor ∷ []);
    }
    else s

-- The books of a listing that is funded, which is no longer active where it is full.
unfoldable pub store_funding : MarketState → ℕ → Address → Allocation → MarketState
store_funding s invoice_id investor a =
    let full = leb_ℤ a.listing.asking_price a.funded_after in
    let s1 = record s {
      contribution = update2 s.contribution invoice_id investor a.contrib_after;
      fee_contribution = update2 s.fee_contribution invoice_id investor a.fee_after;
      listing =
          update s.listing invoice_id
            (record (a.listing) { funded_amount = a.funded_after; is_active = not full });
    } in
    if full then remove_token_exposure s1 a.listing.token a.listing.asking_price else s1

-- The errors of a call, with the storage that they leave.
abbrev pub leaving : {A : Type 0} → MarketState → Call A → Result (KoraError × MarketState) A
leaving s m = lift_err (λ e. (e, s)) m

abbrev pub unlocked : {W : Type 0} → Protocol W → Protocol W
unlocked x = record x { market = release_guard x.market }

abbrev pub funded_result : ℕ → BatchAllocationResult
funded_result invoice_id = record { invoice_id = invoice_id; success = true; error_code = none }

abbrev pub failed_result : ℕ → KoraError → BatchAllocationResult
failed_result invoice_id e = record {
  invoice_id = invoice_id;
  success = false;
  error_code = some e;
}

-- `MAX_BATCH_SIZE`
abbrev pub max_batch_size : ℕ
max_batch_size = 20

module _ {W : Type 0} (peers : Peers W) (env : Env) where
  -- The fee goes to the treasury, which enters it.
  unfoldable pub pay_treasury : TreasuryState → W → Address → Allocation → Call (TreasuryState × W)
  pay_treasury t w investor a =
      if ltb_ℤ (pos 0) a.pay_fee
      then (transfer peers.pool.token w a.pay_token investor a.config.treasury a.pay_fee >>= λ w'.
          call (collect_fee t a.pay_token a.pay_fee) >>= λ t'. ok (t', w'))
      else ok (t, w)

  unfoldable pub pay_pool : W → Address → Allocation → Call W
  pay_pool w investor a =
      if ltb_ℤ (pos 0) a.pay_net
      then transfer peers.pool.token w a.pay_token investor a.config.financing_pool a.pay_net
      else ok w

  -- A full listing is taken over by the pool.
  unfoldable pub hand_over : PoolState → NftState → ℕ → Allocation → Call (PoolState × NftState)
  hand_over pool nft invoice_id a =
      if leb_ℤ a.listing.asking_price a.funded_after
      then call (
          release_funds peers.pool (callee env a.config.financing_pool) pool nft env.contract
            invoice_id a.listing.token)
      else ok (pool, nft)

  unfoldable pub settle : Protocol W → Address → ℕ → Allocation → Call (Protocol W)
  settle x investor invoice_id a = do
    w1 ← peers.add_debtor_exposure x.ledger a.debtor_hash invoice_id a.listing_amount
    (treasury', w2) ← pay_treasury x.treasury w1 investor a
    w3 ← pay_pool w2 investor a
    (pool', nft') ← hand_over x.pool x.nft invoice_id a
    ok (record {
      market = store_funding x.market invoice_id investor a;
      pool = pool';
      nft = nft';
      treasury = treasury';
      ledger = w3;
    })

  unfoldable pub fund_invoice_internal :
      Protocol W → Address → ℕ → ℤ → Option Address → Result (KoraError × MarketState) (Protocol W)
  fund_invoice_internal x investor invoice_id amount payment_token = do
    checked ← leaving x.market (check_funding peers env x.market x.nft investor invoice_id amount)
    a ← leaving x.market (allocate peers env x investor invoice_id amount payment_token checked)
    let entered = enter_investor x.market invoice_id investor a.prev_contrib
    leaving entered (settle (record x { market = entered }) investor invoice_id a)

  unfoldable pub fund_invoice : Protocol W → Address → ℕ → ℤ → Option Address → Call (Protocol W)
  fund_invoice x investor invoice_id amount payment_token = do
    require_auth env investor
    require_not_paused env x.market
    locked ← acquire_guard x.market
    x' ←
        lift_err (λ e. e.0)
          (fund_invoice_internal (record x { market = locked }) investor invoice_id amount
            payment_token)
    ok (unlocked x')

  -- The allocations in their order.
  unfoldable pub fund_each :
      Protocol W
      → Address
      → Bool
      → List (ℕ × ℤ)
      → List BatchAllocationResult
      → Call (Protocol W × List BatchAllocationResult)
  fund_each x investor atomic [] results = ok (x, results)
  fund_each x investor atomic ((invoice_id, amount) ∷ rest) results =
      elim (fund_invoice_internal x investor invoice_id amount none) [
        | ok x' ↦ fund_each x' investor atomic rest (results ++ funded_result invoice_id ∷ [])
        | err (e, s) ↦ elim atomic [
          | true ↦ err e
          | false ↦
              fund_each (record x { market = s }) investor false rest
                (results ++ failed_result invoice_id e ∷ [])
        ]
        | trap ↦ trap
      ]

  unfoldable pub fund_invoices_batch :
      Protocol W → Address → List (ℕ × ℤ) → Bool → Call (Protocol W × List BatchAllocationResult)
  fund_invoices_batch x investor allocations atomic = do
    require_auth env investor
    require_not_paused env x.market
    locked ← acquire_guard x.market
    refuse_if (length allocations == 0) KoraError.invalid_amount
    refuse_if (ltb max_batch_size (length allocations)) KoraError.invalid_amount
    (x', results) ← fund_each (record x { market = locked }) investor atomic allocations []
    ok (unlocked x', results)
