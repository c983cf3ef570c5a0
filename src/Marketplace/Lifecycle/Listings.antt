-- ===== src/Marketplace/Lifecycle/Listings.antt =====
-- Listing, amending and withdrawing move a listing along its edges.
use kora_contract.Prelude.{ℕ, ◌≡◌, refl, ap, ◌∙◌, true, false, Option, none, some, arith, is_some}
use kora_contract.Prelude.Int.{ℤ, pos, negsuc, ltb_ℤ, ◌≤ℤ◌}
use kora_contract.Prelude.Results.{ok, Ensures, Ensures-ok}
use kora_contract.Prelude.Store.{update, remove}
use kora_contract.Shared.Host.{Env, Address}
use kora_contract.Shared.Types.{Listing}
use kora_contract.Shared.Validation.{require_non_zero_amount}
use kora_contract.InvoiceNft.State.{NftState}
use kora_contract.Marketplace.State.{MarketState, Peers, Protocol}
use kora_contract.Marketplace.Guards.{
  add_token_exposure, remove_token_exposure, acquire_guard, release_guard,
}
use kora_contract.Marketplace.Listing.{
  check_terms, record_referrer, load_active, list_invoice, amend_price, amend_deadline, amend_token,
  amend_listing, withdraw_listing,
}
use kora_contract.Marketplace.Lifecycle.{◌<ℤ◌, lists, amends, withdraws}
use kora_contract.Marketplace.Lifecycle.Follows.{Agrees, Puts}

check_terms-lt :
    (env : Env) (price face : ℤ) (deadline : ℕ)
    → Ensures (λ u. pos 0 <ℤ price) (check_terms env price face deadline)
unfolding check_terms require_non_zero_amount
check_terms-lt env (pos n) face deadline = grind arith
check_terms-lt env (negsuc n) face deadline = grind arith

record_referrer-Agrees :
    (s : MarketState) (a : Address) (id : ℕ) (r : Option Address)
    → Ensures (λ s'. Agrees s s') (record_referrer s a id r)
unfolding record_referrer
record_referrer-Agrees s a id none = (refl, refl)
record_referrer-Agrees s a id (some r) = grind arith

add_token_exposure-Agrees :
    (s : MarketState) (k : Address) (n : ℤ) → Ensures (λ s'. Agrees s s') (add_token_exposure s k n)
unfolding add_token_exposure
add_token_exposure-Agrees s k n = grind arith

-- The listing is there and active.
pub load_active_lem :
    (s : MarketState) (id : ℕ)
    → Ensures (λ l. (s.listing id ≡ some l) × (l.is_active ≡ true)) (load_active s id)
unfolding load_active
load_active_lem s id = grind arith

none_of : {A : Type 0} (o : Option A) → is_some o ≡ false → o ≡ none
none_of none h = refl
none_of (some a) h = cc

no_funds : (f : ℤ) → ltb_ℤ (pos 0) f ≡ false → f ≤ℤ pos 0
no_funds (pos n) h = ground arith
no_funds (negsuc n) h = omega arith

abbrev new_listing : ℕ → Address → ℤ → ℤ → Address → ℕ → Listing
new_listing id a p f k d = record {
  invoice_id = id;
  seller = a;
  asking_price = p;
  face_value = f;
  token = k;
  funded_amount = pos 0;
  funding_deadline = d;
  is_active = true;
  bidding_deadline = none;
}

module _ {W : Type 0} (peers : Peers W) (env : Env) where
  list_invoice_shape :
      (x : Protocol W) (a : Address) (id : ℕ) (p f : ℤ) (k : Address) (d : ℕ) (r : Option Address)
      (Q : Protocol W → Type 0)
      → ((s2 s3 : MarketState) (nft' : NftState)
          → pos 0 <ℤ p
          → is_some (x.market.listing id) ≡ false
          → Agrees x.market s2
          → Agrees s2 s3
          → Q (record x {
            market =
                release_guard
                  (record s3 { listing = update s3.listing id (new_listing id a p f k d) });
            nft = nft';
          }))
      → Ensures Q (list_invoice peers env x a id p f k d r)
  unfolding list_invoice acquire_guard
  list_invoice_shape x a id p f k d r Q h =
      grind (arith, h, check_terms-lt, record_referrer-Agrees, add_token_exposure-Agrees)

  pub list_invoice-Puts :
      (x : Protocol W) (a : Address) (id : ℕ) (p f : ℤ) (k : Address) (d : ℕ) (r : Option Address)
      → Ensures (λ y. Puts x.market id y.market) (list_invoice peers env x a id p f k d r)
  unfolding release_guard
  list_invoice-Puts x a id p f k d r =
      list_invoice_shape x a id p f k d r _ (λ s2 s3 nft' lt new h h'. record {
        before = none;
        after = some (new_listing id a p f k d);
        was = none_of _ new;
        edge = lists p (pos 0) refl lt;
        puts = λ j.
            ap (λ (g : ℕ → Option Listing). update g id (new_listing id a p f k d) j) (h'.0 ∙ h.0);
        kept = h'.1 ∙ h.1;
      })

  withdraw_listing_shape :
      (x : Protocol W) (a : Address) (id : ℕ) (Q : Protocol W → Type 0)
      → ((l : Listing) (nft' : NftState)
          → (x.market.listing id ≡ some l) × (l.is_active ≡ true)
          → ltb_ℤ (pos 0) l.funded_amount ≡ false
          → Q (record x {
            market =
                remove_token_exposure
                  (record (x.market) { listing = remove x.market.listing id })
                  l.token
                  l.asking_price;
            nft = nft';
          }))
      → Ensures Q (withdraw_listing peers env x a id)
  unfolding withdraw_listing
  withdraw_listing_shape x a id Q h = grind (arith, h, load_active_lem)

  pub withdraw_listing-Puts :
      (x : Protocol W) (a : Address) (id : ℕ)
      → Ensures (λ y. Puts x.market id y.market) (withdraw_listing peers env x a id)
  unfolding remove_token_exposure
  withdraw_listing-Puts x a id = withdraw_listing_shape x a id _ (λ l nft' was unfunded. record {
    before = some l;
    after = none;
    was = was.0;
    edge =
        rw (was.1) (withdraws l.asking_price l.funded_amount (no_funds l.funded_amount unfunded));
    puts = λ j. refl;
    kept = refl;
  })

-- Only the price is another, and it is more than nothing if the former was.
abbrev Repriced : Listing → Listing → Type 0
Repriced l l' =
    (l'.funded_amount ≡ l.funded_amount)
    × (l'.is_active ≡ l.is_active)
    × (pos 0 <ℤ l.asking_price → pos 0 <ℤ l'.asking_price)

amend_price_lem : (l : Listing) (o : Option ℤ) → Ensures (Repriced l) (amend_price l o)
unfolding amend_price require_non_zero_amount
amend_price_lem l none = (refl, refl, λ h. h)
amend_price_lem l (some (pos n)) = grind arith
amend_price_lem l (some (negsuc n)) = grind arith

-- The price and the funds are those of another listing.
abbrev SameTerms : Listing → Listing → Type 0
SameTerms l l' =
    (l'.funded_amount ≡ l.funded_amount)
    × (l'.is_active ≡ l.is_active)
    × (l'.asking_price ≡ l.asking_price)

amend_deadline-SameTerms :
    (env : Env) (l : Listing) (o : Option ℕ)
    → Ensures (λ l'. SameTerms l l') (amend_deadline env l o)
unfolding amend_deadline
amend_deadline-SameTerms env l none = (refl, refl, refl)
amend_deadline-SameTerms env l (some d) = grind arith

amend_token-SameTerms :
    (s : MarketState) (l : Listing) (o : Option Address)
    → Ensures (λ l'. SameTerms l l') (amend_token s l o)
unfolding amend_token
amend_token-SameTerms s l none = (refl, refl, refl)
amend_token-SameTerms s l (some k) = grind arith

amend_listing_shape :
    (env : Env) (s : MarketState) (a : Address) (id : ℕ) (p : Option ℤ) (d : Option ℕ)
    (k : Option Address) (Q : MarketState → Type 0)
    → ((l l1 l2 l3 : Listing)
        → load_active s id ≡ ok l
        → ltb_ℤ (pos 0) l.funded_amount ≡ false
        → amend_price l p ≡ ok l1
        → amend_deadline env l1 d ≡ ok l2
        → amend_token s l2 k ≡ ok l3
        → Q (record s { listing = update s.listing id l3 }))
    → Ensures Q (amend_listing env s a id p d k)
unfolding amend_listing
amend_listing_shape env s a id p d k Q h = grind (arith, h)

pub amend_listing-Puts :
    (env : Env) (s : MarketState) (a : Address) (id : ℕ) (p : Option ℤ) (d : Option ℕ)
    (k : Option Address)
    → Ensures (λ s'. Puts s id s') (amend_listing env s a id p d k)
amend_listing-Puts env s a id p d k =
    amend_listing_shape env s a id p d k _ (λ l l1 l2 l3 loaded unfunded e1 e2 e3.
      let was =
        Ensures-ok (λ l. (s.listing id ≡ some l) × (l.is_active ≡ true)) _ (load_active_lem s id)
          loaded in
      let h1 = Ensures-ok (Repriced l) _ (amend_price_lem l p) e1 in
      let h2 = Ensures-ok (λ l'. SameTerms l1 l') _ (amend_deadline-SameTerms env l1 d) e2 in
      let h3 = Ensures-ok (λ l'. SameTerms l2 l') _ (amend_token-SameTerms s l2 k) e3 in
      record {
        before = some l;
        after = some l3;
        was = was.0;
        edge =
            rw (h3.1, h2.1, h1.1, was.1, h3.0, h2.0, h1.0)
              (amends l.asking_price l3.asking_price l.funded_amount
                (no_funds l.funded_amount unfunded) (λ lt. rw (h3.2, h2.2) (h1.2 lt)));
        puts = λ j. refl;
        kept = refl;
      })
