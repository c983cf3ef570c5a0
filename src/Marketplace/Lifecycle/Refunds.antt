-- ===== src/Marketplace/Lifecycle/Refunds.antt =====
-- Cancelling a listing and paying its investors back move it along its edges, and take no claim back.
use kora_contract.Prelude.{
  ℕ, ◌≡◌, refl, ap, ◌∙◌, Bool, true, false, Option, some, List, [], ◌∷◌, if◌then◌else◌, arith,
  Bool-cases, inl, inr, unwrap_or,
}
use kora_contract.Prelude.Int.{ℤ, pos, leb_ℤ}
use kora_contract.Prelude.Results.{
  ok, Ensures, Ensures-step, Ensures-mono, Ensures-ok, Ensures-if, Ensures-bind, Ensures-map, call,
}
use kora_contract.Prelude.Store.{update}
use kora_contract.Shared.Host.{Env, Address, Bytes, require_auth}
use kora_contract.Shared.Types.{Listing}
use kora_contract.InvoiceNft.Views.{get_invoice}
use kora_contract.Treasury.Fees.{TreasuryState}
use kora_contract.Marketplace.State.{MarketState, MarketplaceConfig, Peers, Protocol}
use kora_contract.Marketplace.Guards.{load_config}
use kora_contract.Marketplace.Listing.{load_active}
use kora_contract.Marketplace.Cancellation.{
  deactivate, mark_listing_expired, reduce_exposure, reverse_fee, pay_back, mark_claimed,
  clear_contribution, refund_each, refund_all, cancel_listing, check_refund, claim_refund,
  contributed_of,
}
use kora_contract.Marketplace.Lifecycle.{closes}
use kora_contract.Marketplace.Lifecycle.Follows.{
  Follows, Follows-refl, Follows-trans, Agrees, Agrees-Follows, Puts-Follows, same-Follows,
}
use kora_contract.Marketplace.Lifecycle.Listings.{load_active_lem}
use kora_contract.Marketplace.Lifecycle.Cancellations.{deactivate-Puts}

-- The listings are those of another storage, and a refund that was claimed stays claimed.
pub record Claims (s : MarketState) (j : ℕ) (i : Address) (s' : MarketState) : Type 0 where
  pub listings : s'.listing ≡ s.listing
  pub claims : s.refund_claimed j i ≡ some true → s'.refund_claimed j i ≡ some true

Agrees-Claims :
    (s : MarketState) (j : ℕ) (i : Address) (s' : MarketState) → Agrees s s' → Claims s j i s'
Agrees-Claims s j i s' (l, c) = record {
  listings = l;
  claims = λ h. ap (λ (f : ℕ → Address → Option Bool). f j i) c ∙ h;
}

Claims-trans :
    (s : MarketState) (j : ℕ) (i : Address) (s' s'' : MarketState)
    → Claims s j i s'
    → Claims s' j i s''
    → Claims s j i s''
Claims-trans s j i s' s'' h h' = record {
  listings = h'.listings ∙ h.listings;
  claims = λ c. h'.claims (h.claims c);
}

Claims-Follows :
    (s : MarketState) (j : ℕ) (i : Address) (s' : MarketState) → Claims s j i s' → Follows s j i s'
Claims-Follows s j i s' h = record {
  moves =
      (same-Follows s j i (record s' { refund_claimed = s.refund_claimed })
        (ap (λ (f : ℕ → Option Listing). f j) h.listings) refl).moves;
  claims = h.claims;
}

mark_claimed-Claims :
    {W : Type 0} (x : Protocol W) (id : ℕ) (a : Address) (j : ℕ) (i : Address)
    → Claims x.market j i (mark_claimed x id a).market
mark_claimed-Claims x id a j i = record { listings = refl; claims = λ h. ground (arith, h) }

reduce_exposure-Agrees :
    (s : MarketState) (k : Address) (n : ℤ) → Ensures (λ s'. Agrees s s') (reduce_exposure s k n)
unfolding reduce_exposure
reduce_exposure-Agrees s k n = grind arith

-- To close a listing that is closed changes nothing.
unchanged :
    (g : ℕ → Option Listing) (id : ℕ) (l : Listing)
    → g id ≡ some l
    → l.is_active ≡ false
    → (j : ℕ) → update g id (record l { is_active = false }) j ≡ g j
unchanged g id l was down j = ground (arith, was, down)

module _ {W : Type 0} (peers : Peers W) (env : Env) where
  reverse_fee-Agrees :
      (s : MarketState) (t : TreasuryState) (w : W) (c : MarketplaceConfig) (id : ℕ) (k i : Address)
      (n : ℤ)
      → Ensures (λ q. Agrees s q.0) (reverse_fee peers env s t w c id k i n)
  unfolding reverse_fee
  reverse_fee-Agrees s t w c id k i n = grind arith

  pub pay_back-Agrees :
      (x : Protocol W) (c : MarketplaceConfig) (l : Listing) (h : Bytes) (id : ℕ) (i : Address)
      (n : ℤ)
      → Ensures (λ y. Agrees x.market y.market) (pay_back peers env x c l h id i n)
  unfolding pay_back
  pay_back-Agrees x c l h id i n = grind (arith, reduce_exposure-Agrees, reverse_fee-Agrees)

  module _ (j : ℕ) (i : Address) where
    refund_each-Claims :
        (x : Protocol W) (c : MarketplaceConfig) (l : Listing) (h : Bytes) (id : ℕ)
        (as_listed : List Address)
        → Ensures (λ y. Claims x.market j i y.market) (refund_each peers env x c l h id as_listed)
    unfolding refund_each
    refund_each-Claims x c l h id [] = Agrees-Claims x.market j i x.market (refl, refl)
    refund_each-Claims x c l h id (a ∷ rest) =
        let n = contributed_of x.market id a in
        Ensures-if (λ (y : Protocol W). Claims x.market j i y.market) (leb_ℤ n (pos 0)) _ _
          (λ e. refund_each-Claims x c l h id rest)
          (λ e.
            Ensures-bind (λ (y : Protocol W). Agrees (mark_claimed x id a).market y.market)
              (λ (y : Protocol W). Claims x.market j i y.market)
              (pay_back peers env (mark_claimed x id a) c l h id a n) _
              (λ y same.
                Ensures-mono
                  (λ (z : Protocol W). Claims (clear_contribution y id a).market j i z.market) _
                  (refund_each peers env (clear_contribution y id a) c l h id rest)
                  (λ z more.
                    Claims-trans x.market j i _ z.market
                      (Claims-trans x.market j i _ (clear_contribution y id a).market
                        (mark_claimed-Claims x id a j i)
                        (Agrees-Claims (mark_claimed x id a).market j i _ same))
                      more)
                  (refund_each-Claims (clear_contribution y id a) c l h id rest))
              (pay_back-Agrees (mark_claimed x id a) c l h id a n))

    refund_all-Claims :
        (x : Protocol W) (c : MarketplaceConfig) (l : Listing) (id : ℕ)
        → Ensures (λ y. Claims x.market j i y.market) (refund_all peers env x c l id)
    unfolding refund_all
    refund_all-Claims x c l id = Ensures-step _ (call (get_invoice x.nft id)) _ (λ v e.
        Ensures-map (λ (y : Protocol W). Claims x.market j i y.market) _
          (refund_each peers env x c l v.debtor_hash id
            (unwrap_or (x.market.listing_investors id) []))
          _
          (λ y h.
            Claims-trans x.market j i y.market _ h (Agrees-Claims y.market j i _ (refl, refl)))
          (refund_each-Claims x c l v.debtor_hash id
            (unwrap_or (x.market.listing_investors id) [])))

    cancel_listing_shape :
        (x : Protocol W) (a : Address) (id : ℕ) (Q : Protocol W → Type 0)
        → ((c : MarketplaceConfig) (l : Listing)
            → load_active x.market id ≡ ok l
            → Q (record x { market = deactivate x.market id l }))
        → ((c : MarketplaceConfig) (l : Listing) (y : Protocol W)
            → load_active x.market id ≡ ok l
            → refund_all peers env x c l id ≡ ok y
            → Q (record y { market = deactivate y.market id l }))
        → Ensures Q (cancel_listing peers env x a id)
    unfolding cancel_listing
    cancel_listing_shape x a id Q h k = grind (arith, h, k)

    pub cancel_listing-Follows :
        (x : Protocol W) (a : Address) (id : ℕ)
        → Ensures (λ y. Follows x.market j i y.market) (cancel_listing peers env x a id)
    cancel_listing-Follows x a id =
        cancel_listing_shape x a id _
          (λ c l e.
            Puts-Follows x.market id _ j i
              (deactivate-Puts x.market id l (Ensures-ok _ _ (load_active_lem x.market id) e)))
          (λ c l y e r.
            let h : Claims x.market j i y.market =
              Ensures-ok (λ (y : Protocol W). Claims x.market j i y.market) _
                (refund_all-Claims x c l id) r in
            let was =
              Ensures-ok (λ l. (x.market.listing id ≡ some l) × (l.is_active ≡ true)) _
                (load_active_lem x.market id) e in
            Follows-trans x.market j i y.market _ (Claims-Follows x.market j i y.market h) (
              Puts-Follows y.market id _ j i (
                deactivate-Puts y.market id l
                  (ap (λ (f : ℕ → Option Listing). f id) h.listings ∙ was.0, was.1))))

    expire-Follows :
        (s : MarketState) (id : ℕ) (l : Listing)
        → s.listing id ≡ some l
        → Follows s j i (record s {
          listing = update s.listing id (record l { is_active = false });
          expiry_emitted =
              (if unwrap_or (s.expiry_emitted id) false
                then s.expiry_emitted
                else update s.expiry_emitted id true);
        })
    expire-Follows s id l was = elim (Bool-cases l.is_active) [
      | inl up ↦ Puts-Follows s id _ j i (record {
        before = some l;
        after = some (record l { is_active = false });
        was = was;
        edge = rw up (closes l.asking_price l.funded_amount);
        puts = λ j. refl;
        kept = refl;
      })
      | inr down ↦ same-Follows s j i _ (unchanged s.listing id l was down j) refl
    ]

    mark_listing_expired-Follows :
        (s : MarketState) (id : ℕ) (l : Listing)
        → s.listing id ≡ some l
        → Follows s j i (mark_listing_expired s id l)
    unfolding mark_listing_expired
    mark_listing_expired-Follows s id l was =
        elim (Bool-cases (leb_ℤ l.asking_price l.funded_amount)) [
          | inl full ↦ rw full (Follows-refl s j i)
          | inr short ↦ rw short (expire-Follows s id l was)
        ]

    check_refund_shape :
        (s : MarketState) (id : ℕ) (a : Address) (Q : Listing × MarketState → Type 0)
        → ((l : Listing) → Q (l, s))
        → ((l : Listing) → s.listing id ≡ some l → Q (l, mark_listing_expired s id l))
        → Ensures Q (check_refund env s id a)
    unfolding check_refund
    check_refund_shape s id a Q h k = grind (arith, h, k)

    pub claim_refund-Follows :
        (x : Protocol W) (a : Address) (id : ℕ)
        → Ensures (λ y. Follows x.market j i y.market) (claim_refund peers env x a id)
    unfolding claim_refund
    claim_refund-Follows x a id = Ensures-step _ (require_auth env a) _ (λ u e.
        Ensures-bind (λ (q : Listing × MarketState). Follows x.market j i q.1) _
          (check_refund env x.market id a) _
          (λ q h. Ensures-step _ (load_config q.1) _ (λ c e1.
            Ensures-step _ (call (get_invoice x.nft id)) _ (λ v e2.
              let y = mark_claimed (record x { market = q.1 }) id a in
              Ensures-mono (λ (z : Protocol W). Agrees y.market z.market) _
                (pay_back peers env y c q.0 v.debtor_hash id a (contributed_of q.1 id a))
                (λ z same.
                  Follows-trans x.market j i y.market z.market
                    (Follows-trans x.market j i q.1 y.market h (
                      Claims-Follows q.1 j i y.market
                        (mark_claimed-Claims (record x { market = q.1 }) id a j i)))
                    (Agrees-Follows y.market j i z.market same))
                (pay_back-Agrees y c q.0 v.debtor_hash id a (contributed_of q.1 id a)))))
          (check_refund_shape x.market id a _ (λ l. Follows-refl x.market j i)
            (λ l was. mark_listing_expired-Follows x.market id l was)))
