-- ===== src/Marketplace/Payments/Prices.antt =====
-- What an allocation computes (allocate): the converted amount, the fee, and the books.
use kora_contract.Prelude.{
  ℕ, ◌+◌, ◌≤◌, ◌≡◌, ap, ◌∙◌, sym, Bool, true, Option, none, some, ◌==◌, arith, unwrap_or, ==-refl,
  ◌*◌, ◌/◌,
}
use kora_contract.Prelude.Int.{ℤ, pos, pos_part}
use kora_contract.Prelude.Results.{ok, Ensures, Ensures-ok}
use kora_contract.Prelude.Int128.{checked_sub}
use kora_contract.Shared.Validation.{safe_add}
use kora_contract.Shared.Decimals.{bps_of_normalized}
use kora_contract.Shared.Host.{Env, Address}
use kora_contract.Shared.Types.{Listing, Invoice}
use kora_contract.Marketplace.State.{MarketState, MarketplaceConfig, Peers, Protocol}
use kora_contract.Marketplace.Guards.{base_fee_bps}
use kora_contract.Marketplace.Funding.{
  Allocation, allocate, effective_fee_bps, split_payment, listing_amount_of,
}
use kora_contract.Marketplace.Cancellation.{contributed_of, fee_contributed_of}
use kora_contract.Marketplace.Lifecycle.Allocations.{
  allocate_shape, split_payment-pos, listing_amount_of-same,
}
use kora_contract.Marketplace.Payments.Amounts.{
  payment_whole, payment_fee, split_payment_same, first_entry,
}

-- The rates that are stored here are at most the whole, as each call that stores one asks.
pub record HasRates (s : MarketState) (c : MarketplaceConfig) : Type 0 where
  pub flat : c.fee_bps ≤ 10_000
  pub tier : (n bps : ℕ) → s.tier_fee_bps n ≡ some bps → bps ≤ 10_000

module _ {W : Type 0} (peers : Peers W) (env : Env) where
  base_fee_bps-le :
      (w : W) (c : MarketplaceConfig)
      → c.fee_bps ≤ 10_000
      → Ensures (λ b. b ≤ 10_000) (base_fee_bps peers w c)
  unfolding base_fee_bps
  base_fee_bps-le w c le = grind arith

  effective_fee_bps-le :
      (s : MarketState) (w : W) (c : MarketplaceConfig) (v : Invoice)
      → HasRates s c
      → Ensures (λ b. b ≤ 10_000) (effective_fee_bps peers env s w c v)
  unfolding effective_fee_bps
  effective_fee_bps-le s w c v h = grind (arith, base_fee_bps-le, h.tier, h.flat)

own_token : (k : Option Address) (t : Address) → k ≡ none → (unwrap_or k t == t) ≡ true
own_token k t e = rw e (==-refl t)

-- How much a payment of `n` funds, at which fee, and what the books are afterwards. What is paid is converted
-- to the token of the listing; the fee there is at the rate of the invoice's tier, or else of the marketplace,
-- and that in the token of the payment is in proportion to it.
pub record IsPriced {W : Type 0} (peers : Peers W) (env : Env) (x : Protocol W) (i : Address)
    (id n : ℕ) (k : Option Address) (l : Listing) (c : MarketplaceConfig) (v : Invoice) (fee : ℕ)
    (funded_after net_after fee_after : ℤ) : Type 0 where
  pub amount : ℤ
  pub listing_fee : ℤ
  pub listing_net : ℤ
  pub rate : ℕ
  pub converted :
      listing_amount_of peers env x.market x.pool (pos n) (unwrap_or k l.token) l.token ≡ ok amount
  pub rated : effective_fee_bps peers env x.market x.ledger c v ≡ ok rate
  pub fee_is : bps_of_normalized amount rate (peers.pool.token.decimals l.token) ≡ ok listing_fee
  pub net_is : checked_sub amount listing_fee ≡ some listing_net
  pub proportion : fee ≡ n * pos_part listing_fee / pos_part amount
  pub funded : safe_add l.funded_amount amount ≡ ok funded_after
  pub net_book : safe_add (contributed_of x.market id i) listing_net ≡ ok net_after
  pub fee_book : safe_add (fee_contributed_of x.market id i) listing_fee ≡ ok fee_after

-- An allocation that is computed: what is paid is the fee and the rest, and the books grow by them.
pub record IsAllocation {W : Type 0} (x : Protocol W) (i : Address) (id n : ℕ) (k : Option Address)
    (l : Listing) (c : MarketplaceConfig) (v : Invoice) (peers : Peers W) (env : Env)
    (a : Allocation) : Type 0 where
  pub listing : a.listing ≡ l
  pub config : a.config ≡ c
  pub pay_token : a.pay_token ≡ unwrap_or k l.token
  pub whole : pos_part a.pay_fee + pos_part a.pay_net ≡ n
  pub priced :
      IsPriced peers env x i id n k l c v
        (pos_part a.pay_fee)
        a.funded_after
        a.contrib_after
        a.fee_after
  -- The first funding in the listing's own token.
  pub net_book : k ≡ none → x.market.contribution id i ≡ none → a.contrib_after ≡ a.pay_net
  pub fee_book : k ≡ none → x.market.fee_contribution id i ≡ none → a.fee_after ≡ a.pay_fee

module _ {W : Type 0} (peers : Peers W) (env : Env) where
  pub allocate-IsAllocation :
      (x : Protocol W) (i : Address) (id n : ℕ) (k : Option Address) (l : Listing)
      (c : MarketplaceConfig) (v : Invoice)
      → 1 ≤ n
      → HasRates x.market c
      → Ensures
          (IsAllocation x i id n k l c v peers env)
          (allocate peers env x i id (pos n) k (l, c, v))
  allocate-IsAllocation x i id n k l c v one rates =
      allocate_shape peers env x i id (pos n) k l c v (IsAllocation x i id n k l c v peers env)
        (λ a r fee net b el ec ek e1 e2 e3 e4 e5 e6 e7 e8 e9 e10.
          let same = unwrap_or k l.token == l.token in
          let own =
            listing_amount_of-same peers env x (pos n) a.listing_amount (unwrap_or k l.token)
              l.token e1 in
          let d = peers.pool.token.decimals l.token in
          let counts =
            split_payment-pos same (pos n) a.listing_amount fee net _ b d own (omega arith) e5 e7 in
          let parts = λ (is_none : k ≡ none).
            split_payment_same (pos n) a.listing_amount fee net (a.pay_fee, a.pay_net)
              (ap (λ (t : Bool). split_payment t (pos n) a.listing_amount fee net)
                  (sym (own_token k l.token is_none))
                ∙ e7) in
          record {
            listing = el;
            config = ec;
            pay_token = ek;
            whole =
                payment_whole same n a.listing_amount b d fee net (a.pay_fee, a.pay_net) own counts
                  (Ensures-ok (λ b. b ≤ 10_000) _
                    (effective_fee_bps-le peers env x.market x.ledger c v rates) e4)
                  e5 e6 e7;
            priced = record {
              amount = a.listing_amount;
              listing_fee = fee;
              listing_net = net;
              rate = b;
              converted = e1;
              rated = e4;
              fee_is = e5;
              net_is = e6;
              proportion =
                  payment_fee same n a.listing_amount b d fee net (a.pay_fee, a.pay_net) own counts
                    (Ensures-ok (λ b. b ≤ 10_000) _
                      (effective_fee_bps-le peers env x.market x.ledger c v rates) e4)
                    e5 e7;
              funded = e8;
              net_book = e9;
              fee_book = e10;
            };
            net_book = λ is_none new.
                first_entry net a.contrib_after (rw new at e9) ∙ sym (parts is_none).1;
            fee_book =
                λ is_none new. first_entry fee a.fee_after (rw new at e10) ∙ sym (parts is_none).0;
          })
