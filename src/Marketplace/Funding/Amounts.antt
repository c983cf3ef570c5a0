-- ===== src/Marketplace/Funding/Amounts.antt =====
-- What a funding checks and computes before anything is moved: the conversion of what is paid, the fee, and the
-- books afterwards.
use kora_contract.Prelude.{
  ℕ, Bool, true, false, not, ◌&&◌, Option, none, some, length, ltb, leb, ◌==◌, if◌then◌else◌,
  unwrap_or,
}
use kora_contract.Prelude.Int.{ℤ, pos, ltb_ℤ, eq_ℤ}
use kora_contract.Prelude.Int128.{checked_sub, checked_mul}
use kora_contract.Prelude.Results.{
  ok, ◌>>=◌, ◌>>◌, refuse_if, ok_or, unwrap, lift_err, call, assert_host,
}
use kora_contract.Shared.Host.{Env, Address, Symbol, Bytes}
use kora_contract.Shared.Errors.{KoraError, kora_error}
use kora_contract.Shared.Types.{Listing, Invoice}
use kora_contract.Shared.Validation.{
  require_non_zero_amount, require_within_max_amount, safe_add, safe_sub, safe_mul, safe_div,
}
use kora_contract.Shared.Decimals.{bps_of_normalized}
use kora_contract.InvoiceNft.State.{NftState}
use kora_contract.InvoiceNft.Views.{get_invoice}
use kora_contract.InvoiceNft.Freeze.{is_invoice_frozen}
use kora_contract.FinancingPool.State.{PoolState}
use kora_contract.FinancingPool.Admin.{get_price_oracle}
use kora_contract.Marketplace.State.{Call, MarketplaceConfig, MarketState, Peers, Protocol}
use kora_contract.Marketplace.Guards.{
  load_config, require_whitelisted_token, require_circuit_breaker_not_tripped,
  require_investor_accredited, require_priority_window_allowed, min_contribution_floor,
  tier_ordinal, base_fee_bps,
}
use kora_contract.Marketplace.Listing.{load_active}

-- The funding of one listing, after the checks: what is paid, in the token of the listing and in that of the
-- payment, and the books afterwards.
pub record Allocation : Type 0 where
  pub listing : Listing
  pub config : MarketplaceConfig
  pub debtor_hash : Bytes
  pub pay_token : Address
  pub listing_amount : ℤ
  pub pay_fee : ℤ
  pub pay_net : ℤ
  pub funded_after : ℤ
  pub prev_contrib : ℤ
  pub contrib_after : ℤ
  pub fee_after : ℤ

-- No investor may fund more than the cap's share of the asking price. The former contributions are read from an
-- entry that nothing writes.
unfoldable pub check_concentration : MarketState → ℕ → Address → ℤ → ℤ → Call (Unit {0})
check_concentration s invoice_id investor amount asking_price =
    let cap_bps = unwrap_or s.max_investor_share_bps 0 in
    let prev_gross = unwrap_or (s.gross_contribution invoice_id investor) (pos 0) in
    if ltb 0 cap_bps
    then (lift_err kora_error (safe_add prev_gross amount) >>= λ prospective.
        ok_or (checked_mul prospective (pos 10_000)) KoraError.arithmetic_overflow >>= λ lhs.
        ok_or (checked_mul (pos cap_bps) asking_price) KoraError.arithmetic_overflow >>= λ rhs.
        refuse_if (ltb_ℤ rhs lhs) KoraError.investor_concentration_exceeded)
    else ok tt

-- The fee and the rest, in the token of the payment.
unfoldable pub split_payment : Bool → ℤ → ℤ → ℤ → ℤ → Call (ℤ × ℤ)
split_payment true amount listing_amount fee net = ok (fee, net)
split_payment false amount listing_amount fee net = do
  product ← lift_err kora_error (safe_mul amount fee)
  pay_fee ← lift_err kora_error (safe_div product listing_amount)
  pay_net ← lift_err kora_error (safe_sub amount pay_fee)
  ok (pay_fee, pay_net)

module _ {W : Type 0} (peers : Peers W) (env : Env) where
  -- The symbol of a token that has no currency here; the code copies it into 32 bytes.
  unfoldable pub symbol_currency : Bytes → Symbol → Call Symbol
  symbol_currency text currency = assert_host (leb (length text) 32) >>= λ u.
      (if peers.is_utf8 text then unwrap (peers.new_symbol text) else ok currency)

  unfoldable pub token_currency_of : MarketState → Address → Symbol → Call Symbol
  unfolding symbol_currency
  token_currency_of s token currency = elim (s.token_currency token) [
    | none ↦ symbol_currency (peers.pool.token_symbol token) currency
    | some c ↦ ok c
  ]

  -- The amount in the currency of the invoice.
  unfoldable pub credited_amount : MarketplaceConfig → ℤ → Symbol → Symbol → ℕ → Call ℤ
  credited_amount config amount token_currency currency token_decimals =
      if token_currency == currency
      then ok amount
      else unwrap (
          peers.convert_with_decimals config.price_oracle amount token_currency currency
            token_decimals 7)

  unfoldable pub convert_via_oracle : MarketState → PoolState → ℤ → Address → Address → Call ℤ
  convert_via_oracle s pool amount from_token to_token = do
    from_currency ← ok_or (s.token_currency from_token) KoraError.token_not_whitelisted
    to_currency ← ok_or (s.token_currency to_token) KoraError.token_not_whitelisted
    oracle_addr ← call (get_price_oracle pool)
    unwrap (peers.pool.convert oracle_addr amount from_currency to_currency)

  -- What is paid, in the token of the listing.
  unfoldable pub listing_amount_of : MarketState → PoolState → ℤ → Address → Address → Call ℤ
  listing_amount_of s pool amount pay_token token =
      if pay_token == token
      then ok amount
      else (require_whitelisted_token s pay_token >>= λ u.
          convert_via_oracle s pool amount pay_token token >>= λ converted.
          lift_err kora_error (require_within_max_amount converted) >>= λ v. ok converted)

  unfoldable pub effective_fee_bps : MarketState → W → MarketplaceConfig → Invoice → Call ℕ
  effective_fee_bps s w config invoice = elim (s.tier_fee_bps (tier_ordinal invoice.risk_tier)) [
    | none ↦ base_fee_bps peers w config
    | some tier_fee ↦ ok tier_fee
  ]

  -- The checks before anything is computed: the listing, the configuration and the invoice.
  unfoldable pub check_funding :
      MarketState → NftState → Address → ℕ → ℤ → Call (Listing × MarketplaceConfig × Invoice)
  check_funding s nft investor invoice_id amount = do
    lift_err kora_error (require_non_zero_amount amount)
    lift_err kora_error (require_within_max_amount amount)
    listing ← load_active s invoice_id
    refuse_if (ltb listing.funding_deadline env.now) KoraError.funding_deadline_passed
    config ← load_config s
    invoice ← call (get_invoice nft invoice_id)
    require_circuit_breaker_not_tripped peers s invoice.debtor_hash invoice.risk_tier
    token_currency ← token_currency_of s listing.token invoice.currency
    credited ←
        credited_amount config amount token_currency invoice.currency
          (peers.pool.token.decimals listing.token)
    remaining ← lift_err kora_error (safe_sub listing.asking_price listing.funded_amount)
    refuse_if (ltb_ℤ remaining credited) KoraError.exceeds_funding_target
    refuse_if (ltb_ℤ amount (min_contribution_floor s) && not (eq_ℤ amount remaining))
        KoraError.contribution_below_minimum
    require_investor_accredited s investor
    require_priority_window_allowed env s invoice_id investor
    check_concentration s invoice_id investor amount listing.asking_price
    refuse_if (is_invoice_frozen nft invoice_id) KoraError.invoice_frozen
    ok (listing, config, invoice)

  -- The amounts and the books afterwards, all of them computed before anything is moved.
  unfoldable pub allocate :
      Protocol W
      → Address
      → ℕ
      → ℤ
      → Option Address
      → Listing × MarketplaceConfig × Invoice
      → Call Allocation
  allocate x investor invoice_id amount payment_token (listing, config, invoice) = do
    let pay_token = unwrap_or payment_token listing.token
    listing_amount ← listing_amount_of x.market x.pool amount pay_token listing.token
    remaining ← lift_err kora_error (safe_sub listing.asking_price listing.funded_amount)
    refuse_if (ltb_ℤ remaining listing_amount) KoraError.exceeds_funding_target
    peers.check_debtor_cap x.ledger invoice.debtor_hash listing_amount
    fee_bps ← effective_fee_bps x.market x.ledger config invoice
    fee ←
        lift_err kora_error
          (bps_of_normalized listing_amount fee_bps (peers.pool.token.decimals listing.token))
    net ← ok_or (checked_sub listing_amount fee) KoraError.arithmetic_overflow
    (pay_fee, pay_net) ← split_payment (pay_token == listing.token) amount listing_amount fee net
    funded_after ← lift_err kora_error (safe_add listing.funded_amount listing_amount)
    let prev_contrib = unwrap_or (x.market.contribution invoice_id investor) (pos 0)
    contrib_after ← lift_err kora_error (safe_add prev_contrib net)
    fee_after ←
        lift_err kora_error
          (safe_add (unwrap_or (x.market.fee_contribution invoice_id investor) (pos 0)) fee)
    ok (record {
      listing = listing;
      config = config;
      debtor_hash = invoice.debtor_hash;
      pay_token = pay_token;
      listing_amount = listing_amount;
      pay_fee = pay_fee;
      pay_net = pay_net;
      funded_after = funded_after;
      prev_contrib = prev_contrib;
      contrib_after = contrib_after;
      fee_after = fee_after;
    })
