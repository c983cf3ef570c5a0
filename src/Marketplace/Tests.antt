-- ===== src/Marketplace/Tests.antt =====
-- The marketplace on a small concrete history.
mod Start
use kora_contract.Prelude.{take, drop}
use kora_contract.Prelude.{
  ◌+◌, ◌*◌, ◌^◌, ◌<◌, ◌≡◌, refl, true, false, some, none, List, [], ◌∷◌, arith, ◌==◌, if◌then◌else◌,
}
use kora_contract.Prelude.Int.{pos}
use kora_contract.Prelude.Results.{ok}
use kora_contract.Prelude.Store.{update, update2, remove2}
use kora_contract.Shared.Host.{Env}
use kora_contract.Shared.Types.{Listing, listed, aa}
use kora_contract.Shared.Ledger.{Ledger, ledger, moved_to, ledger-IsToken}
use kora_contract.InvoiceNft.State.{NftState, InvoiceHot, InvoiceCold, empty_storage}
use kora_contract.FinancingPool.State.{PoolState}
use kora_contract.FinancingPool.State as Pool
use kora_contract.Treasury.Fees.{TreasuryState}
use kora_contract.Marketplace.State.{
  Call, MarketState, MarketplaceConfig, Peers, Protocol, AttestationStatus,
}
use kora_contract.Marketplace.Requests.{Request, run}
use kora_contract.InvoiceNft.Views.{get_invoice}
use kora_contract.InvoiceNft.Freeze.{is_invoice_frozen}
use kora_contract.Shared.Validation.{
  require_non_zero_amount, require_within_max_amount, safe_sub, safe_add, safe_mul, safe_div,
}
use kora_contract.Shared.Decimals.{bps_of_normalized, normalize_amount, denormalize_amount}
use kora_contract.Treasury.Fees.{collect_fee, refund_fee}
use kora_contract.Marketplace.Guards.{
  load_config, require_not_paused, acquire_guard, release_guard,
  require_circuit_breaker_not_tripped, require_investor_accredited, require_priority_window_allowed,
  min_contribution_floor, tier_ordinal, base_fee_bps, remove_token_exposure,
}
use kora_contract.Marketplace.Listing.{load_active}
use kora_contract.Marketplace.Funding.{
  fund_invoice, fund_invoice_internal, check_funding, token_currency_of, symbol_currency,
  credited_amount, check_concentration, allocate, listing_amount_of, convert_via_oracle,
  effective_fee_bps, split_payment, enter_investor, settle, pay_treasury, pay_pool, hand_over,
  store_funding,
}
use kora_contract.Marketplace.Cancellation.{
  claim_refund, check_refund, mark_listing_expired, pay_back, reduce_exposure, reverse_fee,
}
use kora_contract.Marketplace.Investors.{get_listing_investors, clamp_page_size, investors_of}
use kora_contract.Marketplace.Investors.Pages.{get_listing_investors-take}
use kora_contract.Marketplace.Lifecycle.{view, Route, IsSound}
use kora_contract.Marketplace.Lifecycle.History.{run-Route, run-IsSound}
use kora_contract.Marketplace.Payments.{IsMarketPeers}
use kora_contract.Marketplace.Payments.Prices.{HasRates}
use kora_contract.Marketplace.Payments.Trips.{IsFunded, fund_invoice-IsFunded}
use kora_contract.Marketplace.Payments.Returns.{fund_invoice-claim_refund}
use kora_contract.Marketplace.Payments.Once.{claim_refund-claim_refund}
use kora_contract.Marketplace.Tests.Start.{
  host, afterwards, pool_peers, peers, returned, settings, offer, market, pool, listed_hot,
  listed_cold, nft, fees, coins, world, peers-IsMarketPeers,
}

-- The listing is funded, funded beyond its price, withdrawn too late, and then full.
abbrev calls : List (Env × Request)
calls =
    (host, Request.fund_invoice 21 1 (pos 4000) none)
    ∷ (host, Request.fund_invoice 22 1 (pos 6000) none)
    ∷ (host, Request.withdraw_listing 7 1)
    ∷ (host, Request.cancel_listing 7 1)
    ∷ []

run-Route_example :
    Route (view (world.market.listing 1)) (view ((run peers world calls).market.listing 1))
run-Route_example = run-Route peers world calls 1

run-IsSound_example : IsSound (view ((run peers world calls).market.listing 1))
run-IsSound_example = run-IsSound peers world calls 1 (omega arith, omega arith)

-- A listing with three investors, in pages of two.
abbrev crowded : MarketState
crowded = record market { listing_investors = λ id. some (21 ∷ 22 ∷ 23 ∷ []) }

two_pages : 1 * clamp_page_size 2 + clamp_page_size 2 < 2 ^ 32
unfolding clamp_page_size
two_pages = ground arith

get_listing_investors-take_example :
    get_listing_investors crowded 1 1 2
    ≡ some (take (clamp_page_size 2) (drop (1 * clamp_page_size 2) (investors_of crowded 1)))
get_listing_investors-take_example = get_listing_investors-take crowded 1 1 2 two_pages

-- The fee is 20.
abbrev part_funded : Listing
part_funded = record offer { funded_amount = pos 4000 }

abbrev after_funding : Protocol Ledger
after_funding = record {
  market = record market {
    listing = update market.listing 1 part_funded;
    listing_investors = update market.listing_investors 1 (21 ∷ []);
    contribution = update2 market.contribution 1 21 (pos 3980);
    fee_contribution = update2 market.fee_contribution 1 21 (pos 20);
  };
  pool = pool;
  nft = nft;
  treasury = record fees { collected = update fees.collected 5 (pos 20) };
  ledger = moved_to (moved_to coins 5 21 4 20) 5 21 50 3980;
}

was_funded : fund_invoice peers host world 21 1 (pos 4000) none ≡ ok after_funding
unfolding fund_invoice fund_invoice_internal check_funding token_currency_of symbol_currency
    credited_amount check_concentration allocate listing_amount_of convert_via_oracle
    effective_fee_bps split_payment enter_investor settle pay_treasury pay_pool hand_over
    store_funding load_config require_not_paused acquire_guard release_guard
    require_circuit_breaker_not_tripped min_contribution_floor tier_ordinal base_fee_bps
    remove_token_exposure load_active get_invoice is_invoice_frozen require_non_zero_amount
    require_within_max_amount safe_sub safe_add safe_mul safe_div bps_of_normalized normalize_amount
    denormalize_amount collect_fee require_investor_accredited require_priority_window_allowed
was_funded = refl

rates : HasRates market settings
rates = record { flat = omega arith; tier = λ n bps e. absurd (cc (e)) }

fund_invoice-IsFunded_example :
    IsFunded peers peers-IsMarketPeers world 21 1 4000 none offer settings host after_funding
fund_invoice-IsFunded_example =
    fund_invoice-IsFunded peers peers-IsMarketPeers host world after_funding 21 1 4000 none offer
      settings (omega arith) refl refl rates was_funded

abbrev expired_listing : Listing
expired_listing = record part_funded { is_active = false }

abbrev after_claim : Protocol Ledger
after_claim = record {
  market = record (after_funding.market) {
    listing = update after_funding.market.listing 1 expired_listing;
    expiry_emitted = update market.expiry_emitted 1 true;
    refund_claimed = update2 market.refund_claimed 1 21 true;
    token_exposure_current = update market.token_exposure_current 5 (pos 5000);
    fee_contribution = remove2 after_funding.market.fee_contribution 1 21;
  };
  pool = pool;
  nft = nft;
  treasury = record fees { collected = update (after_funding.treasury).collected 5 (pos 0) };
  ledger = moved_to (moved_to after_funding.ledger 5 50 21 3980) 5 4 21 20;
}

was_claimed : claim_refund peers afterwards after_funding 21 1 ≡ ok after_claim
unfolding claim_refund check_refund mark_listing_expired pay_back reduce_exposure reverse_fee
    refund_fee load_config get_invoice safe_add safe_sub
was_claimed = refl

fund_invoice-claim_refund_example : after_claim.ledger 5 21 ≡ world.ledger 5 21
fund_invoice-claim_refund_example =
    fund_invoice-claim_refund peers peers-IsMarketPeers host afterwards world after_funding
      after_claim 21 1 4000 offer part_funded settings (omega arith) refl refl rates refl refl
      was_funded refl was_claimed 21

claim_refund-claim_refund_example :
    ¬ (claim_refund peers afterwards (run peers after_claim calls) 21 1 ≡ ok world)
claim_refund-claim_refund_example =
    claim_refund-claim_refund peers afterwards afterwards after_funding after_claim world 21 1 calls
      was_claimed
