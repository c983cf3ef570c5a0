-- ===== src/Marketplace/Admin.antt =====
-- The initialisation and the configuration of the marketplace.
use kora_contract.Prelude.{
  ℕ, Bool, true, false, Option, none, some, List, [], ◌∷◌, ◌++◌, ◌==◌, if◌then◌else◌, unwrap_or,
  is_some,
}
use kora_contract.Prelude.Int.{ℤ, pos, ltb_ℤ}
use kora_contract.Prelude.Results.{ok, ◌>>=◌, ◌>>◌, guard, refuse_if, ok_or, lift_err}
use kora_contract.Prelude.Store.{update, remove}
use kora_contract.Shared.Host.{Env, Address, Symbol, require_auth}
use kora_contract.Shared.Errors.{KoraError, kora_error}
use kora_contract.Shared.Types.{Listing, RiskTier}
use kora_contract.Shared.Validation.{require_valid_fee_bps}
use kora_contract.Marketplace.State.{
  Call, MarketplaceConfig, MarketState, Peers, AdminProposal, PriorityWindow,
}
use kora_contract.Marketplace.Guards.{
  load_config, require_admin, contains, min_contribution_floor, tier_ordinal, exposure_of,
  base_fee_bps, load_proposal,
}
use kora_contract.Marketplace.Multisig.{require_elapsed}

unfoldable pub initialize :
    MarketState
    → Address
    → Address
    → Address
    → Address
    → Address
    → Address
    → Address
    → Address
    → ℕ
    → ℕ
    → Call MarketState
initialize s admin invoice_nft financing_pool treasury access_control price_oracle risk_registry
      parameter_registry fee_bps referrer_split_bps =
    do
      refuse_if (is_some s.config) KoraError.already_initialized
      lift_err kora_error (require_valid_fee_bps fee_bps)
      lift_err kora_error (require_valid_fee_bps referrer_split_bps)
      let config : MarketplaceConfig = record {
        admin = admin;
        invoice_nft = invoice_nft;
        financing_pool = financing_pool;
        treasury = treasury;
        access_control = access_control;
        price_oracle = price_oracle;
        risk_registry = risk_registry;
        parameter_registry = parameter_registry;
        fee_bps = fee_bps;
        referrer_split_bps = referrer_split_bps;
      }
      ok (record s { config = some config; access_control = some access_control })

-- Only the admin.
abbrev pub as_admin : Env → MarketState → Address → Call (Unit {0})
as_admin env s admin = do require_auth env admin; require_admin s admin

unfoldable pub set_min_contribution : Env → MarketState → Address → ℤ → Call MarketState
set_min_contribution env s admin min_contribution = do
  as_admin env s admin
  refuse_if (ltb_ℤ min_contribution (pos 0)) KoraError.invalid_amount
  ok (record s { min_contribution_amount = some min_contribution })

unfoldable pub set_max_investor_share_bps : Env → MarketState → Address → ℕ → Call MarketState
set_max_investor_share_bps env s admin max_bps = do
  as_admin env s admin
  lift_err kora_error (require_valid_fee_bps max_bps)
  ok (record s { max_investor_share_bps = some max_bps })

unfoldable pub set_investor_accredited :
    Env → MarketState → Address → Address → Bool → Call MarketState
set_investor_accredited env s admin investor accredited = do
  as_admin env s admin
  ok (record s { investor_accredited = update s.investor_accredited investor accredited })

unfoldable pub propose_token_whitelist : Env → MarketState → Address → Address → Call MarketState
propose_token_whitelist env s admin token = do
  as_admin env s admin
  ok (record s { token_whitelist_proposal = update s.token_whitelist_proposal token env.now })

-- The list of the tokens, each of them once.
unfoldable pub add_to_whitelist_registry : MarketState → Address → MarketState
add_to_whitelist_registry s token =
    let list = unwrap_or s.whitelisted_token_list [] in
    if contains list token
    then s
    else record s { whitelisted_token_list = some (list ++ token ∷ []) }

abbrev pub without : Address → List Address → List Address
without token [] = []
without token (existing ∷ list) =
    if existing == token then without token list else existing ∷ without token list

unfoldable pub remove_from_whitelist_registry : MarketState → Address → MarketState
remove_from_whitelist_registry s token = record s {
  whitelisted_token_list = some (without token (unwrap_or s.whitelisted_token_list []));
}

unfoldable pub execute_token_whitelist : Env → MarketState → Address → Address → Call MarketState
execute_token_whitelist env s admin token = do
  as_admin env s admin
  proposed_at ← ok_or (s.token_whitelist_proposal token) KoraError.no_token_whitelist_proposed
  require_elapsed env proposed_at KoraError.token_whitelist_timelock_not_elapsed
  ok (
      add_to_whitelist_registry
        (record s {
          token_whitelist_proposal = remove s.token_whitelist_proposal token;
          whitelisted_token = update s.whitelisted_token token true;
        })
        token)

unfoldable pub remove_token_whitelist : Env → MarketState → Address → Address → Call MarketState
remove_token_whitelist env s admin token = do
  as_admin env s admin
  guard (unwrap_or (s.whitelisted_token token) false) KoraError.token_not_whitelisted
  ok (
      remove_from_whitelist_registry
        (record s { whitelisted_token = remove s.whitelisted_token token }) token)

unfoldable pub set_token_currency :
    Env → MarketState → Address → Address → Symbol → Call MarketState
set_token_currency env s admin token currency = do
  as_admin env s admin
  ok (record s { token_currency = update s.token_currency token currency })

unfoldable pub set_token_exposure_cap : Env → MarketState → Address → Address → ℤ → Call MarketState
set_token_exposure_cap env s admin token cap = do
  as_admin env s admin
  refuse_if (ltb_ℤ cap (pos 0)) KoraError.invalid_amount
  ok (record s { token_exposure_cap = update s.token_exposure_cap token cap })

unfoldable pub set_debtor_attestation :
    Env → MarketState → Address → Option Address → Call MarketState
set_debtor_attestation env s admin attestation = do
  as_admin env s admin
  ok (record s { debtor_attestation = attestation })

unfoldable pub set_priority_window :
    Env → MarketState → Address → ℕ → List Address → ℕ → Call MarketState
set_priority_window env s admin listing_id whitelist window_end = do
  as_admin env s admin
  let window : PriorityWindow = record { whitelist = whitelist; window_end = window_end }
  ok (record s { priority_window = update s.priority_window listing_id window })

unfoldable pub get_min_contribution : MarketState → ℤ
unfolding min_contribution_floor
get_min_contribution s = min_contribution_floor s

unfoldable pub get_max_investor_share_bps : MarketState → ℕ
get_max_investor_share_bps s = unwrap_or s.max_investor_share_bps 0

unfoldable pub is_investor_accredited : MarketState → Address → Bool
is_investor_accredited s investor = unwrap_or (s.investor_accredited investor) false

unfoldable pub get_config : MarketState → Call MarketplaceConfig
unfolding load_config
get_config s = load_config s

unfoldable pub get_admin : MarketState → Call Address
unfolding load_config
get_admin s = do config ← load_config s; ok config.admin

unfoldable pub is_token_whitelisted : MarketState → Address → Bool
is_token_whitelisted s token = unwrap_or (s.whitelisted_token token) false

unfoldable pub get_token_currency : MarketState → Address → Option Symbol
get_token_currency s token = s.token_currency token

unfoldable pub get_token_exposure_cap : MarketState → Address → ℤ
get_token_exposure_cap s token = unwrap_or (s.token_exposure_cap token) (pos 0)

unfoldable pub get_token_exposure_current : MarketState → Address → ℤ
get_token_exposure_current s token = exposure_of s token

unfoldable pub get_debtor_attestation : MarketState → Option Address
get_debtor_attestation s = s.debtor_attestation

unfoldable pub get_listing : MarketState → ℕ → Call Listing
get_listing s invoice_id = ok_or (s.listing invoice_id) KoraError.listing_not_found

unfoldable pub get_admin_proposal : MarketState → ℕ → Call AdminProposal
unfolding load_proposal
get_admin_proposal s proposal_id = load_proposal s proposal_id

module _ {W : Type 0} (peers : Peers W) where
  unfoldable pub get_fee_bps : MarketState → W → Call ℕ
  unfolding load_config base_fee_bps
  get_fee_bps s w = do config ← load_config s; base_fee_bps peers w config

  unfoldable pub get_tier_fee_bps : MarketState → W → RiskTier → Call ℕ
  unfolding tier_ordinal get_fee_bps
  get_tier_fee_bps s w tier = elim (s.tier_fee_bps (tier_ordinal tier)) [
    | none ↦ get_fee_bps s w
    | some tier_fee ↦ ok tier_fee
  ]
