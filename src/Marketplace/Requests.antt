-- ===== src/Marketplace/Requests.antt =====
-- The calls of the marketplace as data, and a history of calls. A call that fails leaves everything as it was, as
-- the host undoes its writes.
use kora_contract.Prelude.{ℕ, Bool, Option, List, [], ◌∷◌}
use kora_contract.Prelude.Int.{ℤ}
use kora_contract.Prelude.Results.{ok, err, trap, ◌>>=◌}
use kora_contract.Shared.Host.{Env, Address, Symbol, Bytes}
use kora_contract.Shared.Types.{RiskTier}
use kora_contract.Marketplace.State.{
  Call, MarketState, Peers, Protocol, MarketplaceAction, DependencyField,
}
use kora_contract.Marketplace.Admin
use kora_contract.Marketplace.Multisig
use kora_contract.Marketplace.Listing
use kora_contract.Marketplace.Funding
use kora_contract.Marketplace.Cancellation

pub data Request : Type 0 where
  set_fee_bps set_referrer_split_bps set_max_investor_share_bps : Address → ℕ → Request
  set_min_contribution : Address → ℤ → Request
  set_investor_accredited : Address → Address → Bool → Request
  set_tier_fee_bps : Address → RiskTier → ℕ → Request
  propose_token_whitelist execute_token_whitelist remove_token_whitelist :
      Address → Address → Request
  set_token_currency : Address → Address → Symbol → Request
  set_token_exposure_cap : Address → Address → ℤ → Request
  set_debtor_attestation : Address → Option Address → Request
  set_priority_window : Address → ℕ → List Address → ℕ → Request
  propose_upgrade : Address → Bytes → Request
  execute_upgrade : Address → Request
  propose_admin_action : Address → MarketplaceAction → Request
  approve_admin_action execute_admin_action : Address → ℕ → Request
  propose_dependency_update : Address → DependencyField → Address → Request
  execute_dependency_update : Address → DependencyField → Request
  list_invoice : Address → ℕ → ℤ → ℤ → Address → ℕ → Option Address → Request
  amend_listing : Address → ℕ → Option ℤ → Option ℕ → Option Address → Request
  withdraw_listing request_cancellation admin_confirm_cancellation cancel_listing :
      Address → ℕ → Request
  claim_refund : Address → ℕ → Request
  fund_invoice : Address → ℕ → ℤ → Option Address → Request
  fund_invoices_batch : Address → List (ℕ × ℤ) → Bool → Request

module _ {W : Type 0} where
  abbrev pub stores : Protocol W → Call MarketState → Call (Protocol W)
  stores x m = m >>= λ s. ok (record x { market = s })

  -- The storage, and what the registry holds.
  abbrev pub stores_both : Protocol W → Call (MarketState × W) → Call (Protocol W)
  stores_both x m = m >>= λ q. ok (record x { market = q.0; ledger = q.1 })

  unfoldable pub execute : Peers W → Env → Protocol W → Request → Call (Protocol W)
  execute peers env x (Request.set_fee_bps a n) =
      stores_both x (Multisig.set_fee_bps peers env x.market x.ledger a n)
  execute peers env x (Request.set_referrer_split_bps a n) =
      stores_both x (Multisig.set_referrer_split_bps peers env x.market x.ledger a n)
  execute peers env x (Request.set_max_investor_share_bps a n) =
      stores x (Admin.set_max_investor_share_bps env x.market a n)
  execute peers env x (Request.set_min_contribution a n) =
      stores x (Admin.set_min_contribution env x.market a n)
  execute peers env x (Request.set_investor_accredited a i b) =
      stores x (Admin.set_investor_accredited env x.market a i b)
  execute peers env x (Request.set_tier_fee_bps a t n) =
      stores x (Multisig.set_tier_fee_bps peers env x.market a t n)
  execute peers env x (Request.propose_token_whitelist a k) =
      stores x (Admin.propose_token_whitelist env x.market a k)
  execute peers env x (Request.execute_token_whitelist a k) =
      stores x (Admin.execute_token_whitelist env x.market a k)
  execute peers env x (Request.remove_token_whitelist a k) =
      stores x (Admin.remove_token_whitelist env x.market a k)
  execute peers env x (Request.set_token_currency a k c) =
      stores x (Admin.set_token_currency env x.market a k c)
  execute peers env x (Request.set_token_exposure_cap a k n) =
      stores x (Admin.set_token_exposure_cap env x.market a k n)
  execute peers env x (Request.set_debtor_attestation a o) =
      stores x (Admin.set_debtor_attestation env x.market a o)
  execute peers env x (Request.set_priority_window a id l n) =
      stores x (Admin.set_priority_window env x.market a id l n)
  execute peers env x (Request.propose_upgrade a h) =
      stores x (Multisig.propose_upgrade peers env x.market a h)
  execute peers env x (Request.execute_upgrade a) =
      stores x (Multisig.execute_upgrade peers env x.market a)
  execute peers env x (Request.propose_admin_action a m) =
      Multisig.propose_admin_action peers env x.market a m >>= λ q. ok (record x { market = q.0 })
  execute peers env x (Request.approve_admin_action a n) =
      stores x (Multisig.approve_admin_action peers env x.market a n)
  execute peers env x (Request.execute_admin_action a n) =
      stores_both x (Multisig.execute_admin_action peers env x.market x.ledger a n)
  execute peers env x (Request.propose_dependency_update a f k) =
      stores x (Multisig.propose_dependency_update env x.market a f k)
  execute peers env x (Request.execute_dependency_update a f) =
      stores x (Multisig.execute_dependency_update env x.market a f)
  execute peers env x (Request.list_invoice a id p f k d r) =
      Listing.list_invoice peers env x a id p f k d r
  execute peers env x (Request.amend_listing a id p d k) =
      stores x (Listing.amend_listing env x.market a id p d k)
  execute peers env x (Request.withdraw_listing a id) = Listing.withdraw_listing peers env x a id
  execute peers env x (Request.request_cancellation a id) =
      stores x (Cancellation.request_cancellation env x.market a id)
  execute peers env x (Request.admin_confirm_cancellation a id) =
      stores x (Cancellation.admin_confirm_cancellation env x.market a id)
  execute peers env x (Request.cancel_listing a id) = Cancellation.cancel_listing peers env x a id
  execute peers env x (Request.claim_refund a id) = Cancellation.claim_refund peers env x a id
  execute peers env x (Request.fund_invoice a id n k) = Funding.fund_invoice peers env x a id n k
  execute peers env x (Request.fund_invoices_batch a l b) =
      Funding.fund_invoices_batch peers env x a l b >>= λ q. ok (q.0)

  abbrev pub committed : Protocol W → Call (Protocol W) → Protocol W
  committed x (ok x') = x'
  committed x (err e) = x
  committed x trap = x

  unfoldable pub step : Peers W → Protocol W → Env × Request → Protocol W
  unfolding execute
  step peers x (env, r) = committed x (execute peers env x r)

  unfoldable pub run : Peers W → Protocol W → List (Env × Request) → Protocol W
  unfolding step
  run peers x [] = x
  run peers x (c ∷ cs) = run peers (step peers x c) cs
