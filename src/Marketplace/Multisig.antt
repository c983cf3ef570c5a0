-- ===== src/Marketplace/Multisig.antt =====
-- The actions of the marketplace that the signers' quorum gates, the timelocks, and the exchange of the contracts
-- that it calls.
use kora_contract.Prelude.{
  ℕ, ◌+◌, true, false, none, some, [], ◌∷◌, ◌++◌, length, ltb, ◌==◌, unwrap_or,
}
use kora_contract.Prelude.Int.{pos}
use kora_contract.Prelude.Int128.{u64_limit, checked_add_u}
use kora_contract.Prelude.Results.{
  ok, ◌>>=◌, ◌>>◌, guard, refuse_if, ok_or, unwrap, lift_err, assert_host,
}
use kora_contract.Prelude.Store.{update, remove}
use kora_contract.Shared.Host.{Env, Address, Bytes, require_auth}
use kora_contract.Shared.Errors.{KoraError, kora_error}
use kora_contract.Shared.Types.{RiskTier}
use kora_contract.Shared.Validation.{require_valid_fee_bps}
use kora_contract.Marketplace.State.{
  Call, MarketplaceConfig, MarketState, Peers, RegistryParamKey, AdminProposal, MarketplaceAction,
  DependencyField,
}
use kora_contract.Marketplace.Guards.{
  load_config, require_admin, contains, tier_ordinal, load_proposal, require_signer,
  require_multisig, require_direct_admin_allowed,
}

-- `UPGRADE_TIMELOCK_DELAY`; the sum traps where it is no u64.
abbrev pub upgrade_timelock_delay : ℕ
upgrade_timelock_delay = 86_400

abbrev pub require_elapsed : Env → ℕ → KoraError → Call (Unit {0})
require_elapsed env proposed_at e = do
  assert_host (ltb (proposed_at + upgrade_timelock_delay) u64_limit)
  refuse_if (ltb env.now (proposed_at + upgrade_timelock_delay)) e

unfoldable pub apply_set_tier_fee_bps : MarketState → ℕ → ℕ → Call MarketState
apply_set_tier_fee_bps s ordinal fee_bps = do
  lift_err kora_error (require_valid_fee_bps fee_bps)
  ok (record s { tier_fee_bps = update s.tier_fee_bps ordinal fee_bps })

unfoldable pub apply_whitelist_token : MarketState → Address → Call MarketState
apply_whitelist_token s token =
    ok (record s { whitelisted_token = update s.whitelisted_token token true })

unfoldable pub apply_remove_token_whitelist : MarketState → Address → Call MarketState
apply_remove_token_whitelist s token = do
  guard (unwrap_or (s.whitelisted_token token) false) KoraError.token_not_whitelisted
  ok (record s { whitelisted_token = remove s.whitelisted_token token })

unfoldable pub apply_propose_upgrade : Env → MarketState → Bytes → Call MarketState
apply_propose_upgrade env s new_wasm_hash =
    ok (record s { upgrade_proposal = some (new_wasm_hash, env.now) })

-- The code that the contract runs from then on is left out.
unfoldable pub apply_execute_upgrade : Env → MarketState → Call MarketState
apply_execute_upgrade env s = do
  (wasm_hash, proposed_at) ← ok_or s.upgrade_proposal KoraError.no_upgrade_proposed
  require_elapsed env proposed_at KoraError.upgrade_timelock_not_elapsed
  ok (record s { upgrade_proposal = none })

unfoldable pub dependency_field_ordinal : DependencyField → ℕ
dependency_field_ordinal DependencyField.invoice_nft = 0
dependency_field_ordinal DependencyField.financing_pool = 1
dependency_field_ordinal DependencyField.treasury = 2
dependency_field_ordinal DependencyField.access_control = 3
dependency_field_ordinal DependencyField.risk_registry = 4
dependency_field_ordinal DependencyField.parameter_registry = 5
dependency_field_ordinal DependencyField.debtor_attestation = 6

unfoldable pub propose_dependency_update :
    Env → MarketState → Address → DependencyField → Address → Call MarketState
unfolding require_admin dependency_field_ordinal
propose_dependency_update env s admin field new_address = do
  require_auth env admin
  require_admin s admin
  ok (record s {
    dependency_update_proposal =
        update s.dependency_update_proposal (dependency_field_ordinal field) (new_address, env.now);
  })

-- The address of the field is exchanged.
unfoldable pub rewire :
    MarketState → MarketplaceConfig → DependencyField → Address → Call MarketState
rewire s config DependencyField.invoice_nft new_address =
    ok (record s { config = some (record config { invoice_nft = new_address }) })
rewire s config DependencyField.financing_pool new_address =
    ok (record s { config = some (record config { financing_pool = new_address }) })
rewire s config DependencyField.treasury new_address =
    ok (record s { config = some (record config { treasury = new_address }) })
rewire s config DependencyField.access_control new_address =
    ok (record s { config = some (record config { access_control = new_address }) })
rewire s config DependencyField.risk_registry new_address =
    ok (record s { config = some (record config { risk_registry = new_address }) })
rewire s config DependencyField.parameter_registry new_address =
    ok (record s { config = some (record config { parameter_registry = new_address }) })
rewire s config DependencyField.debtor_attestation new_address =
    ok_or s.debtor_attestation KoraError.not_initialized >>= λ old.
    ok (record s { debtor_attestation = some new_address; config = some config })

unfoldable pub execute_dependency_update :
    Env → MarketState → Address → DependencyField → Call MarketState
unfolding load_config dependency_field_ordinal rewire
execute_dependency_update env s admin field = do
  require_auth env admin
  config ← load_config s
  guard (config.admin == admin) KoraError.not_admin
  let ordinal = dependency_field_ordinal field
  (new_address, proposed_at) ←
      ok_or (s.dependency_update_proposal ordinal) KoraError.no_dependency_update_proposed
  require_elapsed env proposed_at KoraError.dependency_update_timelock_not_elapsed
  rewire (record s { dependency_update_proposal = remove s.dependency_update_proposal ordinal })
      config field new_address

module _ {W : Type 0} (peers : Peers W) (env : Env) where
  -- The registry is told the new rate as the admin.
  unfoldable pub apply_set_fee_bps : MarketState → W → Address → ℕ → Call (MarketState × W)
  unfolding load_config
  apply_set_fee_bps s w admin fee_bps = do
    lift_err kora_error (require_valid_fee_bps fee_bps)
    config ← load_config s
    w' ← unwrap (
        peers.set_parameter w config.parameter_registry admin RegistryParamKey.marketplace_fee_bps
          (pos fee_bps))
    ok (record s { config = some (record config { fee_bps = fee_bps }) }, w')

  unfoldable pub apply_set_referrer_split_bps :
      MarketState → W → Address → ℕ → Call (MarketState × W)
  unfolding load_config
  apply_set_referrer_split_bps s w admin bps = do
    lift_err kora_error (require_valid_fee_bps bps)
    config ← load_config s
    w' ← unwrap (
        peers.set_parameter w config.parameter_registry admin RegistryParamKey.referrer_split_bps
          (pos bps))
    ok (record s { config = some (record config { referrer_split_bps = bps }) }, w')

  -- The guard of the calls that the admin may make alone, while no quorum is set.
  abbrev pub require_sole_admin : MarketState → Address → Call (Unit {0})
  require_sole_admin s admin = do
    require_auth env admin
    require_admin s admin
    require_direct_admin_allowed peers s

  unfoldable pub set_referrer_split_bps : MarketState → W → Address → ℕ → Call (MarketState × W)
  set_referrer_split_bps s w admin bps = do
    require_sole_admin s admin
    apply_set_referrer_split_bps s w admin bps

  unfoldable pub set_fee_bps : MarketState → W → Address → ℕ → Call (MarketState × W)
  set_fee_bps s w admin fee_bps = do require_sole_admin s admin; apply_set_fee_bps s w admin fee_bps

  unfoldable pub update_fee_bps : MarketState → W → Address → ℕ → Call (MarketState × W)
  unfolding set_fee_bps
  update_fee_bps s w admin fee_bps = set_fee_bps s w admin fee_bps

  unfoldable pub set_tier_fee_bps : MarketState → Address → RiskTier → ℕ → Call MarketState
  set_tier_fee_bps s admin tier fee_bps = do
    require_sole_admin s admin
    apply_set_tier_fee_bps s (tier_ordinal tier) fee_bps

  unfoldable pub propose_upgrade : MarketState → Address → Bytes → Call MarketState
  propose_upgrade s admin new_wasm_hash = do
    require_sole_admin s admin
    apply_propose_upgrade env s new_wasm_hash

  unfoldable pub execute_upgrade : MarketState → Address → Call MarketState
  execute_upgrade s admin = do require_sole_admin s admin; apply_execute_upgrade env s

  -- The storage, and the identifier of the proposal.
  unfoldable pub propose_admin_action :
      MarketState → Address → MarketplaceAction → Call (MarketState × ℕ)
  propose_admin_action s proposer action = do
    require_auth env proposer
    cfg ← require_multisig peers s
    require_signer cfg proposer
    let id = unwrap_or s.next_admin_proposal_id 1
    let proposal : AdminProposal = record {
      id = id;
      action = action;
      approvals = proposer ∷ [];
      executed = false;
      created_at = env.now;
    }
    next ← ok_or (checked_add_u u64_limit id 1) KoraError.arithmetic_overflow
    ok (
      record s {
        admin_proposal = update s.admin_proposal id proposal;
        next_admin_proposal_id = some next;
      },
      id,
    )

  unfoldable pub approve_admin_action : MarketState → Address → ℕ → Call MarketState
  approve_admin_action s approver proposal_id = do
    require_auth env approver
    cfg ← require_multisig peers s
    require_signer cfg approver
    proposal ← load_proposal s proposal_id
    refuse_if proposal.executed KoraError.parameter_proposal_already_executed
    refuse_if (contains proposal.approvals approver) KoraError.already_voted
    let proposal' = record proposal { approvals = proposal.approvals ++ approver ∷ [] }
    ok (record s { admin_proposal = update s.admin_proposal proposal_id proposal' })

  -- What an action does when its proposal is executed.
  unfoldable pub apply_action :
      MarketState → W → Address → MarketplaceAction → Call (MarketState × W)
  apply_action s w admin (MarketplaceAction.set_fee_bps bps) = apply_set_fee_bps s w admin bps
  apply_action s w admin (MarketplaceAction.set_referrer_split_bps bps) =
      apply_set_referrer_split_bps s w admin bps
  apply_action s w admin (MarketplaceAction.set_tier_fee_bps ordinal bps) =
      apply_set_tier_fee_bps s ordinal bps >>= λ s'. ok (s', w)
  apply_action s w admin (MarketplaceAction.whitelist_token token) =
      apply_whitelist_token s token >>= λ s'. ok (s', w)
  apply_action s w admin (MarketplaceAction.remove_token_whitelist token) =
      apply_remove_token_whitelist s token >>= λ s'. ok (s', w)
  apply_action s w admin (MarketplaceAction.propose_upgrade hash) =
      apply_propose_upgrade env s hash >>= λ s'. ok (s', w)
  apply_action s w admin MarketplaceAction.execute_upgrade =
      apply_execute_upgrade env s >>= λ s'. ok (s', w)

  unfoldable pub execute_admin_action : MarketState → W → Address → ℕ → Call (MarketState × W)
  execute_admin_action s w executor proposal_id = do
    require_auth env executor
    cfg ← require_multisig peers s
    require_signer cfg executor
    proposal ← load_proposal s proposal_id
    refuse_if proposal.executed KoraError.parameter_proposal_already_executed
    refuse_if (ltb (length proposal.approvals) cfg.threshold) KoraError.governance_threshold_not_met
    let s1 = record s {
      admin_proposal = update s.admin_proposal proposal_id (record proposal { executed = true });
    }
    config ← load_config s1
    apply_action s1 w config.admin proposal.action
