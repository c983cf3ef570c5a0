-- ===== src/Marketplace/Lifecycle/History.antt =====
-- The listings and the claimed refunds, across every history of calls.
use kora_contract.Prelude.{ℕ, List, [], ◌∷◌}
use kora_contract.Prelude.Results.{Ensures, Ensures-bind, Ensures-mono, ok, err, trap}
use kora_contract.Shared.Host.{Env, Address}
use kora_contract.Marketplace.State.{Call, MarketState, Peers, Protocol, BatchAllocationResult}
use kora_contract.Marketplace.Requests.{Request, execute, step, run, committed, stores, stores_both}
use kora_contract.Marketplace.Lifecycle.{view, Route, IsSound, Route-IsSound}
use kora_contract.Marketplace.Lifecycle.Follows.{
  Follows, Follows-refl, Follows-trans, Agrees, Agrees-Follows, Puts, Puts-Follows,
}
use kora_contract.Marketplace.Lifecycle.Bystanders
use kora_contract.Marketplace.Lifecycle.Listings
use kora_contract.Marketplace.Lifecycle.Fundings
use kora_contract.Marketplace.Lifecycle.Cancellations
use kora_contract.Marketplace.Lifecycle.Refunds

module _ {W : Type 0} (x : Protocol W) (j : ℕ) (i : Address) where
  stores-Follows :
      (m : Call MarketState)
      → Ensures (λ s. Follows x.market j i s) m
      → Ensures (λ y. Follows x.market j i y.market) (stores x m)
  stores-Follows m h = Ensures-bind (λ s. Follows x.market j i s) _ m _ (λ s f. f) h

  keeps-Follows :
      (m : Call MarketState)
      → Ensures (λ s. Agrees x.market s) m
      → Ensures (λ y. Follows x.market j i y.market) (stores x m)
  keeps-Follows m h =
      Ensures-bind (λ s. Agrees x.market s) _ m _ (λ s. Agrees-Follows x.market j i s) h

  written-Follows :
      (id : ℕ) (m : Call MarketState)
      → Ensures (λ s. Puts x.market id s) m
      → Ensures (λ y. Follows x.market j i y.market) (stores x m)
  written-Follows id m h =
      Ensures-bind (λ s. Puts x.market id s) _ m _ (λ s. Puts-Follows x.market id s j i) h

  both-Follows :
      (m : Call (MarketState × W))
      → Ensures (λ q. Agrees x.market q.0) m
      → Ensures (λ y. Follows x.market j i y.market) (stores_both x m)
  both-Follows m h =
      Ensures-bind (λ (q : MarketState × W). Agrees x.market q.0) _ m _
        (λ q. Agrees-Follows x.market j i q.0) h

module _ {W : Type 0} (peers : Peers W) where
  execute-Follows :
      (env : Env) (x : Protocol W) (j : ℕ) (i : Address) (r : Request)
      → Ensures (λ y. Follows x.market j i y.market) (execute peers env x r)
  unfolding execute
  execute-Follows env x j i (Request.set_fee_bps a n) =
      both-Follows x j i _ (Bystanders.set_fee_bps-Agrees peers env x.market x.ledger a n)
  execute-Follows env x j i (Request.set_referrer_split_bps a n) =
      both-Follows x j i _
        (Bystanders.set_referrer_split_bps-Agrees peers env x.market x.ledger a n)
  execute-Follows env x j i (Request.set_max_investor_share_bps a n) =
      keeps-Follows x j i _ (Bystanders.set_max_investor_share_bps-Agrees env x.market a n)
  execute-Follows env x j i (Request.set_min_contribution a n) =
      keeps-Follows x j i _ (Bystanders.set_min_contribution-Agrees env x.market a n)
  execute-Follows env x j i (Request.set_investor_accredited a k b) =
      keeps-Follows x j i _ (Bystanders.set_investor_accredited-Agrees env x.market a k b)
  execute-Follows env x j i (Request.set_tier_fee_bps a t n) =
      keeps-Follows x j i _ (Bystanders.set_tier_fee_bps-Agrees peers env x.market a t n)
  execute-Follows env x j i (Request.propose_token_whitelist a k) =
      keeps-Follows x j i _ (Bystanders.propose_token_whitelist-Agrees env x.market a k)
  execute-Follows env x j i (Request.execute_token_whitelist a k) =
      keeps-Follows x j i _ (Bystanders.execute_token_whitelist-Agrees env x.market a k)
  execute-Follows env x j i (Request.remove_token_whitelist a k) =
      keeps-Follows x j i _ (Bystanders.remove_token_whitelist-Agrees env x.market a k)
  execute-Follows env x j i (Request.set_token_currency a k c) =
      keeps-Follows x j i _ (Bystanders.set_token_currency-Agrees env x.market a k c)
  execute-Follows env x j i (Request.set_token_exposure_cap a k n) =
      keeps-Follows x j i _ (Bystanders.set_token_exposure_cap-Agrees env x.market a k n)
  execute-Follows env x j i (Request.set_debtor_attestation a o) =
      keeps-Follows x j i _ (Bystanders.set_debtor_attestation-Agrees env x.market a o)
  execute-Follows env x j i (Request.set_priority_window a id l n) =
      keeps-Follows x j i _ (Bystanders.set_priority_window-Agrees env x.market a id l n)
  execute-Follows env x j i (Request.propose_upgrade a h) =
      keeps-Follows x j i _ (Bystanders.propose_upgrade-Agrees peers env x.market a h)
  execute-Follows env x j i (Request.execute_upgrade a) =
      keeps-Follows x j i _ (Bystanders.execute_upgrade-Agrees peers env x.market a)
  execute-Follows env x j i (Request.propose_admin_action a m) =
      Ensures-bind (λ (q : MarketState × ℕ). Agrees x.market q.0) _ _ _
        (λ q. Agrees-Follows x.market j i q.0)
        (Bystanders.propose_admin_action-Agrees peers env x.market a m)
  execute-Follows env x j i (Request.approve_admin_action a n) =
      keeps-Follows x j i _ (Bystanders.approve_admin_action-Agrees peers env x.market a n)
  execute-Follows env x j i (Request.execute_admin_action a n) =
      both-Follows x j i _ (Bystanders.execute_admin_action-Agrees peers env x.market x.ledger a n)
  execute-Follows env x j i (Request.propose_dependency_update a f k) =
      keeps-Follows x j i _ (Bystanders.propose_dependency_update-Agrees env x.market a f k)
  execute-Follows env x j i (Request.execute_dependency_update a f) =
      keeps-Follows x j i _ (Bystanders.execute_dependency_update-Agrees env x.market a f)
  execute-Follows env x j i (Request.list_invoice a id p f k d r) =
      Ensures-mono (λ (y : Protocol W). Puts x.market id y.market) _ _
        (λ y. Puts-Follows x.market id y.market j i)
        (Listings.list_invoice-Puts peers env x a id p f k d r)
  execute-Follows env x j i (Request.amend_listing a id p d k) =
      written-Follows x j i id _ (Listings.amend_listing-Puts env x.market a id p d k)
  execute-Follows env x j i (Request.withdraw_listing a id) =
      Ensures-mono (λ (y : Protocol W). Puts x.market id y.market) _ _
        (λ y. Puts-Follows x.market id y.market j i)
        (Listings.withdraw_listing-Puts peers env x a id)
  execute-Follows env x j i (Request.request_cancellation a id) =
      stores-Follows x j i _ (Cancellations.request_cancellation-Follows env j i x.market a id)
  execute-Follows env x j i (Request.admin_confirm_cancellation a id) =
      stores-Follows x j i _
        (Cancellations.admin_confirm_cancellation-Follows env j i x.market a id)
  execute-Follows env x j i (Request.cancel_listing a id) =
      Refunds.cancel_listing-Follows peers env j i x a id
  execute-Follows env x j i (Request.claim_refund a id) =
      Refunds.claim_refund-Follows peers env j i x a id
  execute-Follows env x j i (Request.fund_invoice a id n k) =
      Fundings.fund_invoice-Follows peers env j i x a id n k
  execute-Follows env x j i (Request.fund_invoices_batch a l b) =
      Ensures-bind
        (λ (q : Protocol W × List BatchAllocationResult). Follows x.market j i q.0.market) _ _ _
        (λ q f. f) (Fundings.fund_invoices_batch-Follows peers env j i x a l b)

  committed-Follows :
      (x : Protocol W) (j : ℕ) (i : Address) (m : Call (Protocol W))
      → Ensures (λ y. Follows x.market j i y.market) m
      → Follows x.market j i (committed x m).market
  committed-Follows x j i (ok y) h = h
  committed-Follows x j i (err e) h = Follows-refl x.market j i
  committed-Follows x j i trap h = Follows-refl x.market j i

  pub run-Follows :
      (x : Protocol W) (cs : List (Env × Request)) (j : ℕ) (i : Address)
      → Follows x.market j i (run peers x cs).market
  unfolding run step
  run-Follows x [] j i = Follows-refl x.market j i
  run-Follows x ((env, r) ∷ cs) j i =
      Follows-trans x.market j i (step peers x (env, r)).market _
        (committed-Follows x j i _ (execute-Follows env x j i r))
        (run-Follows (step peers x (env, r)) cs j i)

-- Whatever is called, and whether the calls succeed or fail: an invoice's listing goes through the stages along
-- the edges. It begins at a positive price with nothing funded, its price changes and it is withdrawn only while
-- nothing is funded, its funds only grow and never pass the price, it is closed when they reach it, and a closed
-- listing never moves.
pub run-Route :
    {W : Type 0} (peers : Peers W) (x : Protocol W) (cs : List (Env × Request)) (j : ℕ)
    → Route (view (x.market.listing j)) (view ((run peers x cs).market.listing j))
run-Route peers x cs j = (run-Follows peers x cs j 0).moves

-- What is funded of a listing is never negative or more than its price, and it is less than the price while the
-- listing is active, over every history of calls, where that held at the start or the invoice was not listed.
pub run-IsSound :
    {W : Type 0} (peers : Peers W) (x : Protocol W) (cs : List (Env × Request)) (j : ℕ)
    → IsSound (view (x.market.listing j))
    → IsSound (view ((run peers x cs).market.listing j))
run-IsSound peers x cs j h = Route-IsSound (run-Route peers x cs j) h
