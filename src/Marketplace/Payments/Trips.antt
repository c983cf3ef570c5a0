-- ===== src/Marketplace/Payments/Trips.antt =====
-- A funding that is paid, and one that is paid back.
use kora_contract.Prelude.{
  ℕ, ◌+◌, ◌≤◌, ◌≡◌, ap, ◌∙◌, sym, true, Option, none, some, arith, unwrap_or, refl, false,
  Bool-cases, inl, inr,
}
use kora_contract.Prelude.Int.{ℤ, pos, pos_part, leb_ℤ}
use kora_contract.Prelude.Results.{Result, ok, err, trap, call, Ensures, Ensures-ok}
use kora_contract.InvoiceNft.Views.{get_invoice}
use kora_contract.Shared.Host.{Env, Address}
use kora_contract.Shared.Types.{Listing, Invoice}
use kora_contract.InvoiceNft.State.{NftState}
use kora_contract.Marketplace.State.{MarketState, MarketplaceConfig, Peers, Protocol}
use kora_contract.Marketplace.Guards.{
  load_config, acquire_guard, release_guard, remove_token_exposure, require_whitelisted_token,
}
use kora_contract.Marketplace.Listing.{load_active}
use kora_contract.Marketplace.Funding.{
  Allocation, check_funding, allocate, settle, enter_investor, store_funding, fund_invoice,
  fund_invoice_internal, unlocked, effective_fee_bps, listing_amount_of, convert_via_oracle,
}
use kora_contract.Marketplace.Cancellation.{contributed_of, fee_contributed_of}
use kora_contract.Marketplace.Lifecycle.Listings.{load_active_lem}
use kora_contract.Marketplace.Lifecycle.Allocations.{check_funding_shape}
use kora_contract.Marketplace.Lifecycle.Fundings.{settle-market}
use kora_contract.Marketplace.Payments.{IsMarketPeers, Paid, settle-Paid}
use kora_contract.Marketplace.Payments.Prices.{
  HasRates, IsPriced, IsAllocation, allocate-IsAllocation,
}

-- A listing was funded, and paid for.
pub record IsFunded {W : Type 0} (peers : Peers W) (laws : IsMarketPeers peers) (x : Protocol W)
    (i : Address) (id n : ℕ) (k : Option Address) (l : Listing) (c : MarketplaceConfig) (env : Env)
    (y : Protocol W) : Type 0 where
  pub fee : ℕ
  pub net : ℕ
  pub whole : fee + net ≡ n
  pub moved : (z : Address) → Paid peers laws z (unwrap_or k l.token) i c fee net x.ledger y.ledger
  pub invoice : Invoice
  pub read : get_invoice x.nft id ≡ ok invoice
  pub after : Listing
  pub stored : y.market.listing id ≡ some after
  pub priced :
      IsPriced peers env x i id n k l c invoice fee after.funded_amount
        (contributed_of y.market id i)
        (fee_contributed_of y.market id i)
  -- The first funding in the listing's own token.
  pub net_book :
      k ≡ none → x.market.contribution id i ≡ none → pos_part (contributed_of y.market id i) ≡ net
  pub fee_book :
      k ≡ none
      → x.market.fee_contribution id i ≡ none
      → pos_part (fee_contributed_of y.market id i) ≡ fee
  pub config_kept : y.market.config ≡ x.market.config
  pub token_kept : (l' : Listing) → y.market.listing id ≡ some l' → l'.token ≡ l.token

module _ {W : Type 0} (peers : Peers W) (env : Env) where
  abbrev locked_world : Protocol W → Protocol W
  locked_world x = record x { market = record (x.market) { locked = true } }

  abbrev entered_world : Protocol W → ℕ → Address → Allocation → Protocol W
  entered_world x id i a = record x {
    market = enter_investor (record (x.market) { locked = true }) id i a.prev_contrib;
  }

  fund_invoice_parts :
      (x : Protocol W) (i : Address) (id : ℕ) (n : ℤ) (k : Option Address) (Q : Protocol W → Type 0)
      → ((q : Listing × MarketplaceConfig × Invoice) (a : Allocation) (y : Protocol W)
          → check_funding peers env (record (x.market) { locked = true }) x.nft i id n ≡ ok q
          → allocate peers env (locked_world x) i id n k q ≡ ok a
          → settle peers env (entered_world x id i a) i id a ≡ ok y
          → Q (unlocked y))
      → Ensures Q (fund_invoice peers env x i id n k)
  unfolding fund_invoice fund_invoice_internal acquire_guard
  fund_invoice_parts x i id n k Q h = grind (arith, h)

-- The books that a funding leaves.
record HasBooks (s : MarketState) (id : ℕ) (i : Address) (a : Allocation) (s' : MarketState)
    : Type 0 where
  net : contributed_of s' id i ≡ a.contrib_after
  fee : fee_contributed_of s' id i ≡ a.fee_after
  config : s'.config ≡ s.config
  token : (l' : Listing) → s'.listing id ≡ some l' → l'.token ≡ a.listing.token
  after : Listing
  stored : s'.listing id ≡ some after
  funded : after.funded_amount ≡ a.funded_after

store_funding-HasBooks :
    (s : MarketState) (id : ℕ) (i : Address) (a : Allocation) (p : ℤ)
    → HasBooks s id i a (release_guard (store_funding (enter_investor s id i p) id i a))
unfolding store_funding release_guard remove_token_exposure enter_investor
store_funding-HasBooks s id i a p =
    elim (Bool-cases (leb_ℤ a.listing.asking_price a.funded_after)) [
      | inl full ↦ record {
        net = ground arith;
        fee = ground arith;
        config = ground arith;
        token = λ l' h. ground (arith, h);
        after = record (a.listing) { funded_amount = a.funded_after; is_active = false };
        stored = ground (arith, full);
        funded = refl;
      }
      | inr short ↦ record {
        net = ground arith;
        fee = ground arith;
        config = ground arith;
        token = λ l' h. ground (arith, h);
        after = record (a.listing) { funded_amount = a.funded_after; is_active = true };
        stored = ground (arith, short);
        funded = refl;
      }
    ]

-- The lock is not read by what is priced.
IsPriced-locked :
    {W : Type 0} (peers : Peers W) (env : Env) (x : Protocol W) (i : Address) (id n : ℕ)
    (k : Option Address) (l : Listing) (c : MarketplaceConfig) (v : Invoice) (fee : ℕ) (f g h : ℤ)
    → IsPriced peers env (locked_world peers env x) i id n k l c v fee f g h
    → IsPriced peers env x i id n k l c v fee f g h
unfolding listing_amount_of convert_via_oracle require_whitelisted_token effective_fee_bps
IsPriced-locked peers env x i id n k l c v fee f g h p = record {
  amount = p.amount;
  listing_fee = p.listing_fee;
  listing_net = p.listing_net;
  rate = p.rate;
  converted = p.converted;
  rated = p.rated;
  fee_is = p.fee_is;
  net_is = p.net_is;
  proportion = p.proportion;
  funded = p.funded;
  net_book = p.net_book;
  fee_book = p.fee_book;
}

call-ok : {D E A : Type 0} (m : Result D A) (a : A) → call {E = E} m ≡ ok a → m ≡ ok a
call-ok (ok b) a e = ground (arith, e)
call-ok (err x) a e = cc (e)
call-ok trap a e = cc (e)

check_funding-reads :
    {W : Type 0} (peers : Peers W) (env : Env) (s : MarketState) (nft : NftState) (i : Address)
    (id : ℕ) (n : ℤ)
    → Ensures (λ q. get_invoice nft id ≡ ok (q.2)) (check_funding peers env s nft i id n)
unfolding check_funding
check_funding-reads peers env s nft i id n = grind (arith, call-ok)

pub some_same : {A : Type 0} (a b : A) → some a ≡ some b → a ≡ b
some_same a b e = cc (e)

pub config_same :
    (s : MarketState) (c c' : MarketplaceConfig)
    → load_config s ≡ ok c
    → s.config ≡ some c'
    → c ≡ c'
unfolding load_config
config_same s c c' e e' = ground (arith, e, e')

-- The listing and the configuration that the checks return are those that are stored.
check_funding-loads :
    {W : Type 0} (peers : Peers W) (env : Env) (s : MarketState) (nft : NftState) (i : Address)
    (id : ℕ) (n : ℤ) (l : Listing) (c : MarketplaceConfig)
    (q : Listing × MarketplaceConfig × Invoice)
    → s.listing id ≡ some l
    → s.config ≡ some c
    → check_funding peers env s nft i id n ≡ ok q
    → (q.0 ≡ l) × (q.1 ≡ c)
check_funding-loads peers env s nft i id n l c q was conf e =
    let checked =
      Ensures-ok
        (λ (q : Listing × MarketplaceConfig × Invoice).
          (load_active s id ≡ ok (q.0)) × (load_config s ≡ ok (q.1)))
        (check_funding peers env s nft i id n)
        (check_funding_shape peers env s nft i id n _ (λ l c v lt loaded conf. (loaded, conf))) e in
    let loaded =
      Ensures-ok (λ l. (s.listing id ≡ some l) × (l.is_active ≡ true)) (load_active s id)
        (load_active_lem s id) checked.0 in
    (some_same (q.0) l (sym loaded.0 ∙ was), config_same s (q.1) c checked.1 conf)

-- Where the tokens and the bookkeeping of the debtors behave as documented, and the stored rates are at most the
-- whole, a funding that succeeds takes the amount from the investor, no more and no less: a part as the fee to the
-- treasury and the rest to the pool, in the token that is paid, and no other account of that token changes. The
-- listing is funded by the amount as it is converted to its own token. The fee is at the rate of the invoice's
-- tier, or else of the marketplace: of the converted amount in the investor's books, and in proportion in what is paid.
-- What was in the investor's two books before is added to: the fee in the one, the converted amount less the
-- fee in the other. The configuration and the listing's token stay.
pub fund_invoice-IsFunded :
    {W : Type 0} (peers : Peers W) (laws : IsMarketPeers peers) (env : Env) (x y : Protocol W)
    (i : Address) (id n : ℕ) (k : Option Address) (l : Listing) (c : MarketplaceConfig)
    → 1 ≤ n
    → x.market.listing id ≡ some l
    → x.market.config ≡ some c
    → HasRates x.market c
    → fund_invoice peers env x i id (pos n) k ≡ ok y
    → IsFunded peers laws x i id n k l c env y
fund_invoice-IsFunded {W} peers laws env x y i id n k l c one was conf rates e =
    Ensures-ok (λ (y : Protocol W). IsFunded peers laws x i id n k l c env y)
      (fund_invoice peers env x i id (pos n) k)
      (fund_invoice_parts peers env x i id (pos n) k _ (λ q a y e1 e2 e3.
        let s = record (x.market) { locked = true } in
        let (l_same, c_same) =
          check_funding-loads peers env s x.nft i id (pos n) l c q was conf e1 in
        let h =
          Ensures-ok (IsAllocation (locked_world peers env x) i id n k (q.0) (q.1) (q.2) peers env)
            (allocate peers env (locked_world peers env x) i id (pos n) k q)
            (allocate-IsAllocation peers env (locked_world peers env x) i id n k q.0 q.1 q.2 one
              (record { flat = rw c_same rates.flat; tier = rates.tier }))
            e2 in
        let token_same : a.pay_token ≡ unwrap_or k l.token =
          h.pay_token ∙ ap (λ (l : Listing). unwrap_or k l.token) l_same in
        let paid_by : a.config ≡ c = h.config ∙ c_same in
        let stored =
          Ensures-ok
            (λ (y : Protocol W).
              y.market ≡ store_funding (entered_world peers env x id i a).market id i a)
            (settle peers env (entered_world peers env x id i a) i id a)
            (settle-market peers env (entered_world peers env x id i a) i id a) e3 in
        let books : HasBooks s id i a (release_guard y.market) =
          rw stored (store_funding-HasBooks s id i a a.prev_contrib) in
        record {
          fee = pos_part a.pay_fee;
          net = pos_part a.pay_net;
          whole = h.whole;
          moved = λ z.
              let m =
                Ensures-ok
                  (λ (y : Protocol W).
                    Paid peers laws z a.pay_token i a.config (pos_part a.pay_fee)
                      (pos_part a.pay_net) x.ledger y.ledger)
                  (settle peers env (entered_world peers env x id i a) i id a)
                  (settle-Paid peers laws z env (entered_world peers env x id i a) i id a) e3 in
              rw (← token_same, ← paid_by) m;
          invoice = q.2;
          read =
              Ensures-ok
                (λ (q : Listing × MarketplaceConfig × Invoice). get_invoice x.nft id ≡ ok (q.2))
                (check_funding peers env s x.nft i id (pos n))
                (check_funding-reads peers env s x.nft i id (pos n)) e1;
          after = books.after;
          stored = books.stored;
          priced =
              IsPriced-locked peers env x i id n k l c q.2 (pos_part a.pay_fee)
                books.after.funded_amount (contributed_of (release_guard y.market) id i)
                (fee_contributed_of (release_guard y.market) id i)
                (rw (books.funded, books.net, books.fee, ← l_same, ← c_same) h.priced);
          net_book = λ own new. ap pos_part (books.net ∙ h.net_book own new);
          fee_book = λ own new. ap pos_part (books.fee ∙ h.fee_book own new);
          config_kept = books.config;
          token_kept =
              λ l' at_id. books.token l' at_id ∙ ap (λ (l : Listing). l.token) (h.listing ∙ l_same);
        }))
      e
