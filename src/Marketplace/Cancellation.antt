-- ===== src/Marketplace/Cancellation.antt =====
-- A listing is cancelled, at once or in two phases, or it expires, and its investors are paid back.
use kora_contract.Prelude.{
  ℕ, true, false, not, ◌&&◌, List, [], ◌∷◌, leb, if◌then◌else◌, unwrap_or, is_some,
}
use kora_contract.Prelude.Int.{ℤ, pos, leb_ℤ, ltb_ℤ, eq_ℤ}
use kora_contract.Prelude.Results.{ok, ◌>>=◌, ◌>>◌, guard, refuse_if, ok_or, lift_err, call}
use kora_contract.Prelude.Store.{update, remove, update2, remove2}
use kora_contract.Shared.Host.{Env, Address, Bytes, require_auth}
use kora_contract.Shared.Errors.{KoraError, kora_error}
use kora_contract.Shared.Types.{Listing}
use kora_contract.Shared.Token.{transfer}
use kora_contract.Shared.Validation.{safe_add, safe_sub}
use kora_contract.InvoiceNft.Views.{get_invoice}
use kora_contract.FinancingPool.Guards.{callee}
use kora_contract.Treasury.Fees.{TreasuryState, refund_fee}
use kora_contract.Marketplace.State.{Call, MarketplaceConfig, MarketState, Peers, Protocol}
use kora_contract.Marketplace.Guards.{
  load_config, require_admin, exposure_of, remove_token_exposure,
}
use kora_contract.Marketplace.Listing.{load_active, require_seller_or_admin}

-- The listing is closed, and no longer an exposure of the marketplace.
unfoldable pub deactivate : MarketState → ℕ → Listing → MarketState
deactivate s invoice_id listing =
    remove_token_exposure
      (record s { listing = update s.listing invoice_id (record listing { is_active = false }) })
      listing.token listing.asking_price

unfoldable pub request_cancellation : Env → MarketState → Address → ℕ → Call MarketState
request_cancellation env s caller invoice_id = do
  require_auth env caller
  listing ← load_active s invoice_id
  config ← load_config s
  require_seller_or_admin config listing caller
  if eq_ℤ listing.funded_amount (pos 0)
      then ok (deactivate s invoice_id listing)
      else (refuse_if (is_some (s.cancellation_request invoice_id)) KoraError.cancellation_pending
          >>= λ u.
              ok (record s {
                cancellation_request = update s.cancellation_request invoice_id caller;
              }))

unfoldable pub admin_confirm_cancellation : Env → MarketState → Address → ℕ → Call MarketState
admin_confirm_cancellation env s admin invoice_id = do
  require_auth env admin
  require_admin s admin
  guard (is_some (s.cancellation_request invoice_id)) KoraError.no_cancellation_pending
  listing ← load_active s invoice_id
  let s1 = deactivate s invoice_id listing
  ok (record s1 {
    cancellation_request = remove s1.cancellation_request invoice_id;
    cancellation_confirmed = update s1.cancellation_confirmed invoice_id true;
  })

-- A listing that did not fill up in time is closed, and marked as expired.
unfoldable pub mark_listing_expired : MarketState → ℕ → Listing → MarketState
mark_listing_expired s invoice_id listing =
    if leb_ℤ listing.asking_price listing.funded_amount then s else record s {
      listing = update s.listing invoice_id (record listing { is_active = false });
      expiry_emitted =
          (if unwrap_or (s.expiry_emitted invoice_id) false
            then s.expiry_emitted
            else update s.expiry_emitted invoice_id true);
    }

abbrev pub contributed_of : MarketState → ℕ → Address → ℤ
contributed_of s invoice_id investor = unwrap_or (s.contribution invoice_id investor) (pos 0)

abbrev pub fee_contributed_of : MarketState → ℕ → Address → ℤ
fee_contributed_of s invoice_id investor =
    unwrap_or (s.fee_contribution invoice_id investor) (pos 0)

-- The exposure of the token falls by what is paid back.
unfoldable pub reduce_exposure : MarketState → Address → ℤ → Call MarketState
reduce_exposure s token gross = do
  exp_new ← lift_err kora_error (safe_sub (exposure_of s token) gross)
  ok (record s { token_exposure_current = update s.token_exposure_current token exp_new })

-- Whether the investor may claim, and the storage with the listing marked where it is expired.
unfoldable pub check_refund : Env → MarketState → ℕ → Address → Call (Listing × MarketState)
check_refund env s invoice_id investor = do
  listing ← ok_or (s.listing invoice_id) KoraError.listing_not_found
  refuse_if (leb_ℤ listing.asking_price listing.funded_amount) KoraError.listing_fully_funded
  let confirmed = unwrap_or (s.cancellation_confirmed invoice_id) false
  refuse_if (not confirmed && leb env.now listing.funding_deadline) KoraError.funding_not_expired
  let s1 = if confirmed then s else mark_listing_expired s invoice_id listing
  refuse_if (unwrap_or (s1.refund_claimed invoice_id investor) false) KoraError.already_initialized
  refuse_if (leb_ℤ (contributed_of s1 invoice_id investor) (pos 0)) KoraError.insufficient_funds
  ok (listing, s1)

module _ {W : Type 0} where
  abbrev pub mark_claimed : Protocol W → ℕ → Address → Protocol W
  mark_claimed x invoice_id investor = record x {
    market = record (x.market) {
      refund_claimed = update2 x.market.refund_claimed invoice_id investor true;
    };
  }

  abbrev pub clear_contribution : Protocol W → ℕ → Address → Protocol W
  clear_contribution x invoice_id investor = record x {
    market = record (x.market) { contribution = remove2 x.market.contribution invoice_id investor };
  }

module _ {W : Type 0} (peers : Peers W) (env : Env) where
  -- The fee of an investor comes back from the treasury, and its record goes.
  unfoldable pub reverse_fee :
      MarketState
      → TreasuryState
      → W
      → MarketplaceConfig
      → ℕ
      → Address
      → Address
      → ℤ
      → Call (MarketState × TreasuryState × W)
  reverse_fee s t w config invoice_id token investor fee =
      if ltb_ℤ (pos 0) fee
      then (call (
            refund_fee peers.pool.token (callee env config.treasury) t w env.contract token fee
              investor)
          >>= λ q. ok (
            record s { fee_contribution = remove2 s.fee_contribution invoice_id investor },
            q.0,
            q.1,
          ))
      else ok (s, t, w)

  -- What an investor paid comes back: the net contribution from the pool, the fee from the treasury.
  unfoldable pub pay_back :
      Protocol W → MarketplaceConfig → Listing → Bytes → ℕ → Address → ℤ → Call (Protocol W)
  pay_back x config listing debtor_hash invoice_id investor net = do
    let fee = fee_contributed_of x.market invoice_id investor
    gross ← lift_err kora_error (safe_add net fee)
    w1 ← peers.remove_debtor_exposure x.ledger debtor_hash invoice_id gross
    s1 ← reduce_exposure x.market listing.token gross
    w2 ← transfer peers.pool.token w1 listing.token config.financing_pool investor net
    (s2, t2, w3) ← reverse_fee s1 x.treasury w2 config invoice_id listing.token investor fee
    ok (record x { market = s2; treasury = t2; ledger = w3 })

  unfoldable pub refund_each :
      Protocol W → MarketplaceConfig → Listing → Bytes → ℕ → List Address → Call (Protocol W)
  refund_each x config listing debtor_hash invoice_id [] = ok x
  refund_each x config listing debtor_hash invoice_id (investor ∷ rest) =
      let net = contributed_of x.market invoice_id investor in
      let skip = refund_each x config listing debtor_hash invoice_id rest in
      let paid =
        pay_back (mark_claimed x invoice_id investor) config listing debtor_hash invoice_id investor
          net
        >>= λ x'.
            refund_each (clear_contribution x' invoice_id investor) config listing debtor_hash
              invoice_id rest in
      if leb_ℤ net (pos 0) then skip else paid

  unfoldable pub refund_all : Protocol W → MarketplaceConfig → Listing → ℕ → Call (Protocol W)
  refund_all x config listing invoice_id = do
    invoice ← call (get_invoice x.nft invoice_id)
    x' ←
        refund_each x config listing invoice.debtor_hash invoice_id
          (unwrap_or (x.market.listing_investors invoice_id) [])
    ok (record x' {
      market = record (x'.market) {
        listing_investors = remove x'.market.listing_investors invoice_id;
      };
    })

  unfoldable pub cancel_listing : Protocol W → Address → ℕ → Call (Protocol W)
  cancel_listing x caller invoice_id = do
    require_auth env caller
    listing ← load_active x.market invoice_id
    config ← load_config x.market
    require_seller_or_admin config listing caller
    x' ←
        if ltb_ℤ (pos 0) listing.funded_amount then refund_all x config listing invoice_id else ok x
    ok (record x' { market = deactivate x'.market invoice_id listing })

  unfoldable pub claim_refund : Protocol W → Address → ℕ → Call (Protocol W)
  claim_refund x investor invoice_id = do
    require_auth env investor
    (listing, s1) ← check_refund env x.market invoice_id investor
    config ← load_config s1
    invoice ← call (get_invoice x.nft invoice_id)
    pay_back (mark_claimed (record x { market = s1 }) invoice_id investor) config listing
        invoice.debtor_hash invoice_id investor (contributed_of s1 invoice_id investor)
