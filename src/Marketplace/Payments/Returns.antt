-- ===== src/Marketplace/Payments/Returns.antt =====
-- A claim of a refund, and the way of the money there and back.
use kora_contract.Prelude.{
  ℕ, ◌≤◌, ◌≡◌, refl, ap, ◌∙◌, sym, Option, none, some, arith, Bool-cases, inl, inr,
}
use kora_contract.Prelude.Int.{ℤ, pos, pos_part, leb_ℤ}
use kora_contract.Prelude.Results.{ok, Ensures, Ensures-step, Ensures-ok, call}
use kora_contract.Shared.Host.{Env, Address, require_auth}
use kora_contract.Shared.Types.{Listing, Invoice}
use kora_contract.InvoiceNft.Views.{get_invoice}
use kora_contract.Marketplace.State.{MarketState, MarketplaceConfig, Peers, Protocol}
use kora_contract.Marketplace.Guards.{load_config}
use kora_contract.Marketplace.Funding.{fund_invoice}
use kora_contract.Marketplace.Cancellation.{
  contributed_of, fee_contributed_of, mark_listing_expired, check_refund, claim_refund,
  mark_claimed, pay_back,
}
use kora_contract.Marketplace.Payments.{IsMarketPeers, share_of-add}
use kora_contract.Marketplace.Payments.Refunds.{PaidBack, pay_back-PaidBack}
use kora_contract.Marketplace.Payments.Prices.{HasRates}
use kora_contract.Marketplace.Payments.Trips.{fund_invoice-IsFunded, some_same, config_same}

-- The books and the claims are those of another storage.
abbrev pub SameBooks : MarketState → MarketState → Type 0
SameBooks s s' =
    (s'.contribution ≡ s.contribution)
    × (s'.fee_contribution ≡ s.fee_contribution)
    × (s'.config ≡ s.config)
    × (s'.refund_claimed ≡ s.refund_claimed)

pub mark_listing_expired-SameBooks :
    (s : MarketState) (id : ℕ) (l : Listing) → SameBooks s (mark_listing_expired s id l)
unfolding mark_listing_expired
mark_listing_expired-SameBooks s id l = elim (Bool-cases (leb_ℤ l.asking_price l.funded_amount)) [
  | inl full ↦ rw full (refl, refl, refl, refl)
  | inr short ↦ rw short (refl, refl, refl, refl)
]

check_refund-SameBooks :
    (env : Env) (s : MarketState) (id : ℕ) (i : Address)
    → Ensures (λ q. (s.listing id ≡ some (q.0)) × SameBooks s (q.1)) (check_refund env s id i)
unfolding check_refund
check_refund-SameBooks env s id i = grind (arith, mark_listing_expired-SameBooks)

pub claim_refund_shape :
    {W : Type 0} (peers : Peers W) (env : Env) (x : Protocol W) (i : Address) (id : ℕ)
    (Q : Protocol W → Type 0)
    → ((q : Listing × MarketState) (c : MarketplaceConfig) (v : Invoice)
        → check_refund env x.market id i ≡ ok q
        → load_config (q.1) ≡ ok c
        → Ensures Q (
            pay_back peers env
              (mark_claimed (record x { market = q.1 }) id i)
              c
              (q.0)
              v.debtor_hash
              id
              i
              (contributed_of (q.1) id i)))
    → Ensures Q (claim_refund peers env x i id)
unfolding claim_refund
claim_refund_shape peers env x i id Q h = Ensures-step Q (require_auth env i) _ (λ u e1.
    Ensures-step Q (check_refund env x.market id i) _ (λ q e2.
      Ensures-step Q (load_config (q.1)) _
        (λ c e3. Ensures-step Q (call (get_invoice x.nft id)) _ (λ v e4. h q c v e2 e3))))

module _ {W : Type 0} (peers : Peers W) (laws : IsMarketPeers peers) (z : Address) where
  -- The listing's token brings back what the books have of the investor.
  claim_refund-PaidBack :
      (env : Env) (x y : Protocol W) (i : Address) (id : ℕ) (l : Listing) (c : MarketplaceConfig)
      → x.market.listing id ≡ some l
      → x.market.config ≡ some c
      → claim_refund peers env x i id ≡ ok y
      → PaidBack peers laws z l.token i c
          (pos_part (fee_contributed_of x.market id i))
          (pos_part (contributed_of x.market id i))
          x.ledger
          y.ledger
  claim_refund-PaidBack env x y i id l c was conf e =
      Ensures-ok
        (λ (y : Protocol W).
          PaidBack peers laws z l.token i c (pos_part (fee_contributed_of x.market id i))
            (pos_part (contributed_of x.market id i)) x.ledger y.ledger)
        (claim_refund peers env x i id)
        (claim_refund_shape peers env x i id _ (λ q c' v e1 e2.
          let checked =
            Ensures-ok
              (λ (q : Listing × MarketState).
                (x.market.listing id ≡ some (q.0)) × SameBooks x.market (q.1))
              (check_refund env x.market id i) (check_refund-SameBooks env x.market id i) e1 in
          let (net_same, fee_same, config_kept, claims_same) = checked.1 in
          let l_same : q.0 ≡ l = some_same (q.0) l (sym checked.0 ∙ was) in
          let c_same : c' ≡ c = config_same (q.1) c' c e2 (config_kept ∙ conf) in
          let at : (f : ℕ → Address → Option ℤ) → Option ℤ = λ f. f id i in
          rw (← ap at net_same, ← ap at fee_same, ← l_same, ← c_same)
            (pay_back-PaidBack peers laws z env (mark_claimed (record x { market = q.1 }) id i) c'
              q.0 v.debtor_hash id i (contributed_of (q.1) id i))))
        e

-- Where the tokens and the bookkeeping of the debtors behave as documented, and the stored rates are at most the
-- whole: when an investor funds a listing in its own token for the first time, and then claims the refund, every
-- account of the token has afterwards what it had before.
pub fund_invoice-claim_refund :
    {W : Type 0} (peers : Peers W) (laws : IsMarketPeers peers) (env env' : Env)
    (x y y' : Protocol W) (i : Address) (id n : ℕ) (l l' : Listing) (c : MarketplaceConfig)
    → 1 ≤ n
    → x.market.listing id ≡ some l
    → x.market.config ≡ some c
    → HasRates x.market c
    → x.market.contribution id i ≡ none
    → x.market.fee_contribution id i ≡ none
    → fund_invoice peers env x i id (pos n) none ≡ ok y
    → y.market.listing id ≡ some l'
    → claim_refund peers env' y i id ≡ ok y'
    → (z : Address)
    → peers.pool.token.balance y'.ledger l.token z ≡ peers.pool.token.balance x.ledger l.token z
fund_invoice-claim_refund peers laws env env' x y y' i id n l l' c one was conf rates new_net
      new_fee e at_id e' z =
    let h = fund_invoice-IsFunded peers laws env x y i id n none l c one was conf rates e in
    let there = h.moved z in
    let back =
      rw (h.token_kept l' at_id, h.net_book refl new_net, h.fee_book refl new_fee) at
        (claim_refund-PaidBack peers laws z env' y y' i id l' c at_id (h.config_kept ∙ conf) e') in
    omega (arith, there, back, share_of-add peers laws z i h.fee h.net)
