-- ===== src/Marketplace/Listing.antt =====
-- An invoice is listed, its listing amended, or taken back.
use kora_contract.Prelude.{ℕ, true, ◌||◌, Option, none, some, ◌==◌, is_some}
use kora_contract.Prelude.Int.{ℤ, pos, leb_ℤ, ltb_ℤ, eq_ℤ}
use kora_contract.Prelude.Results.{ok, ◌>>=◌, ◌>>◌, guard, refuse_if, ok_or, lift_err, call}
use kora_contract.Prelude.Store.{update, remove}
use kora_contract.Shared.Host.{Env, Address, require_auth}
use kora_contract.Shared.Errors.{KoraError, kora_error}
use kora_contract.Shared.Types.{Listing, Invoice, AmountBounds}
use kora_contract.Shared.Validation.{
  require_non_zero_amount, require_within_max_amount, require_future_timestamp,
}
use kora_contract.InvoiceNft.State.{NftState}
use kora_contract.InvoiceNft.Views.{get_invoice}
use kora_contract.InvoiceNft.Status.{set_listed, set_created}
use kora_contract.FinancingPool.Guards.{callee}
use kora_contract.Marketplace.State.{Call, MarketplaceConfig, MarketState, Peers, Protocol}
use kora_contract.Marketplace.Guards.{
  load_config, require_not_paused, acquire_guard, release_guard, require_whitelisted_token,
  require_compliance_attested, require_debtor_verified, require_circuit_breaker_not_tripped,
  require_debtor_attestation_if_needed, add_token_exposure, remove_token_exposure,
}

-- The price and the face value of a listing, and its deadline.
unfoldable pub check_terms : Env → ℤ → ℤ → ℕ → Call (Unit {0})
check_terms env asking_price face_value funding_deadline = do
  lift_err kora_error (require_non_zero_amount asking_price)
  lift_err kora_error (require_non_zero_amount face_value)
  lift_err kora_error (require_within_max_amount asking_price)
  lift_err kora_error (require_within_max_amount face_value)
  lift_err kora_error (require_future_timestamp env funding_deadline)
  refuse_if (leb_ℤ face_value asking_price) KoraError.invalid_amount

unfoldable pub record_referrer : MarketState → Address → ℕ → Option Address → Call MarketState
record_referrer s seller invoice_id none = ok s
record_referrer s seller invoice_id (some r) = do
  refuse_if (r == seller) KoraError.invalid_address
  ok (record s { referrer = update s.referrer invoice_id r })

abbrev pub check_bounds : Option AmountBounds → ℤ → Call (Unit {0})
check_bounds none face_value = ok tt
check_bounds (some bounds) face_value =
    refuse_if (ltb_ℤ face_value bounds.min || ltb_ℤ bounds.max face_value) KoraError.invalid_amount

-- The listing, while it is active.
unfoldable pub load_active : MarketState → ℕ → Call Listing
load_active s invoice_id = do
  listing ← ok_or (s.listing invoice_id) KoraError.listing_not_found
  guard listing.is_active KoraError.listing_already_cancelled
  ok listing

unfoldable pub require_seller_or_admin : MarketplaceConfig → Listing → Address → Call (Unit {0})
require_seller_or_admin config listing caller =
    guard (caller == listing.seller || caller == config.admin) KoraError.unauthorized

-- The new price, if one is given.
unfoldable pub amend_price : Listing → Option ℤ → Call Listing
amend_price listing none = ok listing
amend_price listing (some price) = do
  lift_err kora_error (require_non_zero_amount price)
  lift_err kora_error (require_within_max_amount price)
  refuse_if (leb_ℤ listing.face_value price) KoraError.invalid_amount
  ok (record listing { asking_price = price })

unfoldable pub amend_deadline : Env → Listing → Option ℕ → Call Listing
amend_deadline env listing none = ok listing
amend_deadline env listing (some deadline) = do
  lift_err kora_error (require_future_timestamp env deadline)
  ok (record listing { funding_deadline = deadline })

unfoldable pub amend_token : MarketState → Listing → Option Address → Call Listing
amend_token s listing none = ok listing
amend_token s listing (some token) = do
  require_whitelisted_token s token
  ok (record listing { token = token })

unfoldable pub amend_listing :
    Env → MarketState → Address → ℕ → Option ℤ → Option ℕ → Option Address → Call MarketState
amend_listing env s caller invoice_id new_asking_price new_funding_deadline new_token = do
  require_auth env caller
  require_not_paused env s
  listing ← load_active s invoice_id
  refuse_if (ltb_ℤ (pos 0) listing.funded_amount) KoraError.listing_already_funded
  config ← load_config s
  require_seller_or_admin config listing caller
  priced ← amend_price listing new_asking_price
  dated ← amend_deadline env priced new_funding_deadline
  amended ← amend_token s dated new_token
  ok (record s { listing = update s.listing invoice_id amended })

module _ {W : Type 0} (peers : Peers W) (env : Env) where
  -- What the invoice and its debtor must be like.
  unfoldable pub check_invoice : MarketState → W → NftState → ℕ → Invoice → ℤ → ℤ → Call (Unit {0})
  check_invoice s w nft invoice_id invoice asking_price face_value = do
    guard (eq_ℤ invoice.amount face_value) KoraError.invalid_amount
    check_bounds (nft.amount_bounds invoice.risk_tier) face_value
    require_debtor_verified peers s invoice.debtor_hash
    peers.check_debtor_cap w invoice.debtor_hash asking_price
    require_circuit_breaker_not_tripped peers s invoice.debtor_hash invoice.risk_tier
    require_debtor_attestation_if_needed peers s invoice_id face_value invoice.risk_tier

  unfoldable pub list_invoice :
      Protocol W → Address → ℕ → ℤ → ℤ → Address → ℕ → Option Address → Call (Protocol W)
  list_invoice x seller invoice_id asking_price face_value token funding_deadline referrer = do
    require_auth env seller
    require_not_paused env x.market
    check_terms env asking_price face_value funding_deadline
    require_whitelisted_token x.market token
    require_compliance_attested peers x.market seller
    refuse_if (is_some (x.market.listing invoice_id)) KoraError.already_initialized
    s1 ← acquire_guard x.market
    config ← load_config s1
    s2 ← record_referrer s1 seller invoice_id referrer
    invoice ← call (get_invoice x.nft invoice_id)
    check_invoice s2 x.ledger x.nft invoice_id invoice asking_price face_value
    s3 ← add_token_exposure s2 token asking_price
    nft' ← call (set_listed (callee env config.invoice_nft) x.nft env.contract invoice_id)
    let listing : Listing = record {
      invoice_id = invoice_id;
      seller = seller;
      asking_price = asking_price;
      face_value = face_value;
      token = token;
      funded_amount = pos 0;
      funding_deadline = funding_deadline;
      is_active = true;
      bidding_deadline = none;
    }
    ok (record x {
      market = release_guard (record s3 { listing = update s3.listing invoice_id listing });
      nft = nft';
    })

  unfoldable pub withdraw_listing : Protocol W → Address → ℕ → Call (Protocol W)
  withdraw_listing x caller invoice_id = do
    require_auth env caller
    listing ← load_active x.market invoice_id
    refuse_if (ltb_ℤ (pos 0) listing.funded_amount) KoraError.listing_already_funded
    config ← load_config x.market
    require_seller_or_admin config listing caller
    let s1 = record (x.market) { listing = remove x.market.listing invoice_id }
    nft' ← call (set_created (callee env config.invoice_nft) x.nft env.contract invoice_id)
    ok (record x {
      market = remove_token_exposure s1 listing.token listing.asking_price;
      nft = nft';
    })
