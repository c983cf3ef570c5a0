-- ===== src/Marketplace/Lifecycle/Books.antt =====
-- What a funding stores (store_funding and enter_investor), and the edge that the listing takes.
use kora_contract.Prelude.{
  ℕ, ◌≡◌, refl, ap, Bool, true, false, not, Option, some, arith, Bool-cases, inl, inr,
}
use kora_contract.Prelude.Int.{ℤ, pos, negsuc, leb_ℤ, eq_ℤ, ◌≤ℤ◌}
use kora_contract.Prelude.Store.{update}
use kora_contract.Shared.Host.{Address}
use kora_contract.Shared.Types.{Listing}
use kora_contract.Marketplace.State.{MarketState}
use kora_contract.Marketplace.Guards.{remove_token_exposure}
use kora_contract.Marketplace.Funding.{Allocation, enter_investor, store_funding}
use kora_contract.Marketplace.Lifecycle.{view, Edge, ◌<ℤ◌, funds, fills}
use kora_contract.Marketplace.Lifecycle.Follows.{Agrees, Puts}
use kora_contract.Marketplace.Lifecycle.Allocations.{Grows}

-- The listing that is stored.
abbrev funded_listing : Allocation → Bool → Listing
funded_listing a full = record (a.listing) { funded_amount = a.funded_after; is_active = not full }

store_funding_lem :
    (s : MarketState) (id : ℕ) (i : Address) (a : Allocation)
    → ((store_funding s id i a).listing
        ≡ update s.listing id (funded_listing a (leb_ℤ a.listing.asking_price a.funded_after)))
      × ((store_funding s id i a).refund_claimed ≡ s.refund_claimed)
unfolding store_funding remove_token_exposure
store_funding_lem s id i a = elim (Bool-cases (leb_ℤ a.listing.asking_price a.funded_after)) [
  | inl full ↦ rw full (refl, refl)
  | inr short ↦ rw short (refl, refl)
]

at_price : (g p : ℤ) → leb_ℤ p g ≡ true → g ≤ℤ p → g ≡ p
at_price (pos g) (pos p) h le = ground (arith, h, le)
at_price (pos g) (negsuc p) h le = absurd (omega (arith, le))
at_price (negsuc g) (pos p) h le = cc (h)
at_price (negsuc g) (negsuc p) h le = ground (arith, h, le)

below_price : (g p : ℤ) → leb_ℤ p g ≡ false → g <ℤ p
below_price (pos g) (pos p) h = ground (arith, h)
below_price (pos g) (negsuc p) h = cc (h)
below_price (negsuc g) (pos p) h = omega arith
below_price (negsuc g) (negsuc p) h = ground (arith, h)

funding-Edge :
    (l : Listing) (a : Allocation)
    → l.is_active ≡ true
    → Grows l a
    → Edge
        (view (some l))
        (view (some (funded_listing a (leb_ℤ a.listing.asking_price a.funded_after))))
funding-Edge l a up g =
    rw (g.listing, up)
      (elim (Bool-cases (leb_ℤ l.asking_price a.funded_after)) [
        | inl full ↦ rw full (
            fills l.asking_price l.funded_amount a.funded_after g.more
              (at_price a.funded_after l.asking_price full g.fits))
        | inr short ↦ rw short (
            funds l.asking_price l.funded_amount a.funded_after g.more
              (below_price a.funded_after l.asking_price short))
      ])

pub store_funding-Puts :
    (s : MarketState) (id : ℕ) (i : Address) (l : Listing) (a : Allocation)
    → (s.listing id ≡ some l) × (l.is_active ≡ true)
    → Grows l a
    → Puts s id (store_funding s id i a)
store_funding-Puts s id i l a was g =
    let h = store_funding_lem s id i a in
    record {
      before = some l;
      after = some (funded_listing a (leb_ℤ a.listing.asking_price a.funded_after));
      was = was.0;
      edge = funding-Edge l a was.1 g;
      puts = λ j. ap (λ (f : ℕ → Option Listing). f j) h.0;
      kept = h.1;
    }

pub enter_investor-Agrees :
    (s : MarketState) (id : ℕ) (i : Address) (n : ℤ) → Agrees s (enter_investor s id i n)
unfolding enter_investor
enter_investor-Agrees s id i n = elim (Bool-cases (eq_ℤ n (pos 0))) [
  | inl first ↦ rw first (refl, refl)
  | inr more ↦ rw more (refl, refl)
]
