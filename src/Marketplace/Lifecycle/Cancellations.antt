-- ===== src/Marketplace/Lifecycle/Cancellations.antt =====
-- A cancellation that is asked for and confirmed moves a listing along its edges.
use kora_contract.Prelude.{ℕ, ◌≡◌, refl, true, false, some, arith}
use kora_contract.Prelude.Results.{ok, Ensures, Ensures-ok}
use kora_contract.Prelude.Store.{update, remove}
use kora_contract.Shared.Host.{Env, Address}
use kora_contract.Shared.Types.{Listing}
use kora_contract.Marketplace.State.{MarketState}
use kora_contract.Marketplace.Guards.{remove_token_exposure}
use kora_contract.Marketplace.Listing.{load_active}
use kora_contract.Marketplace.Cancellation.{
  deactivate, request_cancellation, admin_confirm_cancellation,
}
use kora_contract.Marketplace.Lifecycle.{closes}
use kora_contract.Marketplace.Lifecycle.Follows.{
  Follows, Follows-trans, Agrees-Follows, Puts, Puts-Follows,
}
use kora_contract.Marketplace.Lifecycle.Listings.{load_active_lem}

pub deactivate-Puts :
    (s : MarketState) (id : ℕ) (l : Listing)
    → (s.listing id ≡ some l) × (l.is_active ≡ true)
    → Puts s id (deactivate s id l)
unfolding deactivate remove_token_exposure
deactivate-Puts s id l (was, up) = record {
  before = some l;
  after = some (record l { is_active = false });
  was = was;
  edge = rw up (closes l.asking_price l.funded_amount);
  puts = λ j. refl;
  kept = refl;
}

module _ (env : Env) (j : ℕ) (i : Address) where
  request_cancellation_shape :
      (s : MarketState) (a : Address) (id : ℕ) (Q : MarketState → Type 0)
      → ((l : Listing) → load_active s id ≡ ok l → Q (deactivate s id l))
      → Q (record s { cancellation_request = update s.cancellation_request id a })
      → Ensures Q (request_cancellation env s a id)
  unfolding request_cancellation
  request_cancellation_shape s a id Q h k = grind (arith, h, k)

  pub request_cancellation-Follows :
      (s : MarketState) (a : Address) (id : ℕ)
      → Ensures (λ s'. Follows s j i s') (request_cancellation env s a id)
  request_cancellation-Follows s a id =
      request_cancellation_shape s a id _
        (λ l e.
          Puts-Follows s id _ j i
            (deactivate-Puts s id l (Ensures-ok _ _ (load_active_lem s id) e)))
        (Agrees-Follows s j i _ (refl, refl))

  admin_confirm_cancellation_shape :
      (s : MarketState) (a : Address) (id : ℕ) (Q : MarketState → Type 0)
      → ((l : Listing)
          → load_active s id ≡ ok l
          → Q (record (deactivate s id l) {
            cancellation_request = remove (deactivate s id l).cancellation_request id;
            cancellation_confirmed = update (deactivate s id l).cancellation_confirmed id true;
          }))
      → Ensures Q (admin_confirm_cancellation env s a id)
  unfolding admin_confirm_cancellation
  admin_confirm_cancellation_shape s a id Q h = grind (arith, h)

  pub admin_confirm_cancellation-Follows :
      (s : MarketState) (a : Address) (id : ℕ)
      → Ensures (λ s'. Follows s j i s') (admin_confirm_cancellation env s a id)
  admin_confirm_cancellation-Follows s a id = admin_confirm_cancellation_shape s a id _ (λ l e.
      Follows-trans s j i (deactivate s id l) _
        (Puts-Follows s id _ j i (deactivate-Puts s id l (Ensures-ok _ _ (load_active_lem s id) e)))
        (Agrees-Follows (deactivate s id l) j i _ (refl, refl)))
