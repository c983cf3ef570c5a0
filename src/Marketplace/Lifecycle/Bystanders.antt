-- ===== src/Marketplace/Lifecycle/Bystanders.antt =====
-- The calls that leave the listings and the claimed refunds alone.
use kora_contract.Prelude.{ℕ, Bool, Option, List, arith}
use kora_contract.Prelude.Int.{ℤ}
use kora_contract.Prelude.Results.{Ensures}
use kora_contract.Shared.Host.{Env, Address, Symbol, Bytes}
use kora_contract.Shared.Types.{RiskTier}
use kora_contract.Marketplace.State.{MarketState, Peers, MarketplaceAction, DependencyField}
use kora_contract.Marketplace.Admin
use kora_contract.Marketplace.Multisig
use kora_contract.Marketplace.Lifecycle.Follows.{Agrees}

module _ (env : Env) where
  pub set_max_investor_share_bps-Agrees :
      (s : MarketState) (a : Address) (n : ℕ)
      → Ensures (λ s'. Agrees s s') (Admin.set_max_investor_share_bps env s a n)
  unfolding Admin.set_max_investor_share_bps
  set_max_investor_share_bps-Agrees s a n = grind arith

  pub set_min_contribution-Agrees :
      (s : MarketState) (a : Address) (n : ℤ)
      → Ensures (λ s'. Agrees s s') (Admin.set_min_contribution env s a n)
  unfolding Admin.set_min_contribution
  set_min_contribution-Agrees s a n = grind arith

  pub set_investor_accredited-Agrees :
      (s : MarketState) (a i : Address) (b : Bool)
      → Ensures (λ s'. Agrees s s') (Admin.set_investor_accredited env s a i b)
  unfolding Admin.set_investor_accredited
  set_investor_accredited-Agrees s a i b = grind arith

  pub propose_token_whitelist-Agrees :
      (s : MarketState) (a k : Address)
      → Ensures (λ s'. Agrees s s') (Admin.propose_token_whitelist env s a k)
  unfolding Admin.propose_token_whitelist
  propose_token_whitelist-Agrees s a k = grind arith

  pub execute_token_whitelist-Agrees :
      (s : MarketState) (a k : Address)
      → Ensures (λ s'. Agrees s s') (Admin.execute_token_whitelist env s a k)
  unfolding Admin.execute_token_whitelist Admin.add_to_whitelist_registry
  execute_token_whitelist-Agrees s a k = grind arith

  pub remove_token_whitelist-Agrees :
      (s : MarketState) (a k : Address)
      → Ensures (λ s'. Agrees s s') (Admin.remove_token_whitelist env s a k)
  unfolding Admin.remove_token_whitelist Admin.remove_from_whitelist_registry
  remove_token_whitelist-Agrees s a k = grind arith

  pub set_token_currency-Agrees :
      (s : MarketState) (a k : Address) (c : Symbol)
      → Ensures (λ s'. Agrees s s') (Admin.set_token_currency env s a k c)
  unfolding Admin.set_token_currency
  set_token_currency-Agrees s a k c = grind arith

  pub set_token_exposure_cap-Agrees :
      (s : MarketState) (a k : Address) (n : ℤ)
      → Ensures (λ s'. Agrees s s') (Admin.set_token_exposure_cap env s a k n)
  unfolding Admin.set_token_exposure_cap
  set_token_exposure_cap-Agrees s a k n = grind arith

  pub set_debtor_attestation-Agrees :
      (s : MarketState) (a : Address) (o : Option Address)
      → Ensures (λ s'. Agrees s s') (Admin.set_debtor_attestation env s a o)
  unfolding Admin.set_debtor_attestation
  set_debtor_attestation-Agrees s a o = grind arith

  pub set_priority_window-Agrees :
      (s : MarketState) (a : Address) (id : ℕ) (l : List Address) (n : ℕ)
      → Ensures (λ s'. Agrees s s') (Admin.set_priority_window env s a id l n)
  unfolding Admin.set_priority_window
  set_priority_window-Agrees s a id l n = grind arith

  pub propose_dependency_update-Agrees :
      (s : MarketState) (a : Address) (f : DependencyField) (k : Address)
      → Ensures (λ s'. Agrees s s') (Multisig.propose_dependency_update env s a f k)
  unfolding Multisig.propose_dependency_update
  propose_dependency_update-Agrees s a f k = grind arith

  pub execute_dependency_update-Agrees :
      (s : MarketState) (a : Address) (f : DependencyField)
      → Ensures (λ s'. Agrees s s') (Multisig.execute_dependency_update env s a f)
  unfolding Multisig.execute_dependency_update
  execute_dependency_update-Agrees s a f = grind arith

module _ {W : Type 0} (peers : Peers W) (env : Env) where
  pub set_tier_fee_bps-Agrees :
      (s : MarketState) (a : Address) (t : RiskTier) (n : ℕ)
      → Ensures (λ s'. Agrees s s') (Multisig.set_tier_fee_bps peers env s a t n)
  unfolding Multisig.set_tier_fee_bps Multisig.apply_set_tier_fee_bps
  set_tier_fee_bps-Agrees s a t n = grind arith

  pub propose_upgrade-Agrees :
      (s : MarketState) (a : Address) (h : Bytes)
      → Ensures (λ s'. Agrees s s') (Multisig.propose_upgrade peers env s a h)
  unfolding Multisig.propose_upgrade Multisig.apply_propose_upgrade
  propose_upgrade-Agrees s a h = grind arith

  pub execute_upgrade-Agrees :
      (s : MarketState) (a : Address)
      → Ensures (λ s'. Agrees s s') (Multisig.execute_upgrade peers env s a)
  unfolding Multisig.execute_upgrade Multisig.apply_execute_upgrade
  execute_upgrade-Agrees s a = grind arith

  pub propose_admin_action-Agrees :
      (s : MarketState) (a : Address) (m : MarketplaceAction)
      → Ensures (λ q. Agrees s q.0) (Multisig.propose_admin_action peers env s a m)
  unfolding Multisig.propose_admin_action
  propose_admin_action-Agrees s a m = grind arith

  pub approve_admin_action-Agrees :
      (s : MarketState) (a : Address) (n : ℕ)
      → Ensures (λ s'. Agrees s s') (Multisig.approve_admin_action peers env s a n)
  unfolding Multisig.approve_admin_action
  approve_admin_action-Agrees s a n = grind arith

  pub set_fee_bps-Agrees :
      (s : MarketState) (w : W) (a : Address) (n : ℕ)
      → Ensures (λ q. Agrees s q.0) (Multisig.set_fee_bps peers env s w a n)
  unfolding Multisig.set_fee_bps Multisig.apply_set_fee_bps
  set_fee_bps-Agrees s w a n = grind arith

  pub set_referrer_split_bps-Agrees :
      (s : MarketState) (w : W) (a : Address) (n : ℕ)
      → Ensures (λ q. Agrees s q.0) (Multisig.set_referrer_split_bps peers env s w a n)
  unfolding Multisig.set_referrer_split_bps Multisig.apply_set_referrer_split_bps
  set_referrer_split_bps-Agrees s w a n = grind arith

  apply_action-Agrees :
      (s : MarketState) (w : W) (a : Address) (m : MarketplaceAction)
      → Ensures (λ q. Agrees s q.0) (Multisig.apply_action peers env s w a m)
  unfolding Multisig.apply_action Multisig.apply_set_fee_bps Multisig.apply_set_referrer_split_bps
      Multisig.apply_set_tier_fee_bps Multisig.apply_whitelist_token
      Multisig.apply_remove_token_whitelist Multisig.apply_propose_upgrade
      Multisig.apply_execute_upgrade
  apply_action-Agrees s w a (MarketplaceAction.set_fee_bps n) = grind arith
  apply_action-Agrees s w a (MarketplaceAction.set_referrer_split_bps n) = grind arith
  apply_action-Agrees s w a (MarketplaceAction.set_tier_fee_bps k n) = grind arith
  apply_action-Agrees s w a (MarketplaceAction.whitelist_token k) = grind arith
  apply_action-Agrees s w a (MarketplaceAction.remove_token_whitelist k) = grind arith
  apply_action-Agrees s w a (MarketplaceAction.propose_upgrade h) = grind arith
  apply_action-Agrees s w a MarketplaceAction.execute_upgrade = grind arith

  pub execute_admin_action-Agrees :
      (s : MarketState) (w : W) (a : Address) (n : ℕ)
      → Ensures (λ q. Agrees s q.0) (Multisig.execute_admin_action peers env s w a n)
  unfolding Multisig.execute_admin_action
  execute_admin_action-Agrees s w a n = grind (arith, apply_action-Agrees)
