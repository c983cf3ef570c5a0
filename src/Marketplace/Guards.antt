-- ===== src/Marketplace/Guards.antt =====
-- The private helpers of the marketplace.
use kora_contract.Prelude.{
  ℕ, Bool, true, false, not, ◌&&◌, ◌||◌, Option, none, some, List, [], ◌∷◌, ltb, leb, ◌==◌,
  if◌then◌else◌, unwrap_or,
}
use kora_contract.Prelude.Int.{ℤ, pos, ltb_ℤ, eq_ℤ}
use kora_contract.Prelude.Int128.{saturating_sub, as_u32}
use kora_contract.Prelude.Results.{ok, err, ◌>>=◌, ◌>>◌, guard, refuse_if, ok_or, unwrap, lift_err}
use kora_contract.Prelude.Store.{update}
use kora_contract.Shared.Host.{Env, Address, Bytes}
use kora_contract.Shared.Errors.{KoraError, kora_error}
use kora_contract.Shared.Types.{MultisigConfig, RiskTier, aaa, aa, a, b, c}
use kora_contract.Shared.Validation.{safe_add, require_valid_fee_bps}
use kora_contract.Marketplace.State.{
  Call, MarketplaceConfig, MarketState, Peers, RegistryParamKey, AttestationStatus, AdminProposal,
}

unfoldable pub load_config : MarketState → Call MarketplaceConfig
load_config s = ok_or s.config KoraError.not_initialized

unfoldable pub require_admin : MarketState → Address → Call (Unit {0})
unfolding load_config
require_admin s admin = do config ← load_config s; guard (config.admin == admin) KoraError.not_admin

unfoldable pub require_not_paused : Env → MarketState → Call (Unit {0})
require_not_paused env s = elim s.access_control [
  | none ↦ ok tt
  | some ac ↦ refuse_if (env.is_paused ac) KoraError.protocol_paused
]

unfoldable pub acquire_guard : MarketState → Call MarketState
acquire_guard s = do refuse_if s.locked KoraError.reentrancy; ok (record s { locked = true })

unfoldable pub release_guard : MarketState → MarketState
release_guard s = record s { locked = false }

abbrev pub contains : List Address → Address → Bool
contains [] x = false
contains (y ∷ l) x = y == x || contains l x

-- `DEFAULT_MIN_CONTRIBUTION`
abbrev pub default_min_contribution : ℤ
default_min_contribution = pos 10_000_000

unfoldable pub min_contribution_floor : MarketState → ℤ
min_contribution_floor s = unwrap_or s.min_contribution_amount default_min_contribution

unfoldable pub tier_ordinal : RiskTier → ℕ
tier_ordinal aaa = 0
tier_ordinal aa = 1
tier_ordinal a = 2
tier_ordinal b = 3
tier_ordinal c = 4

unfoldable pub require_whitelisted_token : MarketState → Address → Call (Unit {0})
require_whitelisted_token s token =
    guard (unwrap_or (s.whitelisted_token token) false) KoraError.token_not_whitelisted

unfoldable pub require_investor_accredited : MarketState → Address → Call (Unit {0})
require_investor_accredited s investor =
    guard (unwrap_or (s.investor_accredited investor) false) KoraError.investor_not_accredited

unfoldable pub require_priority_window_allowed : Env → MarketState → ℕ → Address → Call (Unit {0})
require_priority_window_allowed env s listing_id investor = elim (s.priority_window listing_id) [
  | none ↦ ok tt
  | some window ↦
      refuse_if (leb env.now window.window_end && not (contains window.whitelist investor))
        KoraError.unauthorized
]

-- `current`, 0 where nothing is stored
abbrev pub exposure_of : MarketState → Address → ℤ
exposure_of s token = unwrap_or (s.token_exposure_current token) (pos 0)

unfoldable pub add_token_exposure : MarketState → Address → ℤ → Call MarketState
add_token_exposure s token amount = do
  let cap = unwrap_or (s.token_exposure_cap token) (pos 0)
  new_total ← lift_err kora_error (safe_add (exposure_of s token) amount)
  refuse_if (not (eq_ℤ cap (pos 0)) && ltb_ℤ cap new_total) KoraError.exceeds_funding_target
  ok (record s { token_exposure_current = update s.token_exposure_current token new_total })

unfoldable pub remove_token_exposure : MarketState → Address → ℤ → MarketState
remove_token_exposure s token amount = record s {
  token_exposure_current =
      update s.token_exposure_current token (saturating_sub (exposure_of s token) amount);
}

unfoldable pub load_proposal : MarketState → ℕ → Call AdminProposal
load_proposal s proposal_id =
    ok_or (s.admin_proposal proposal_id) KoraError.parameter_proposal_not_found

unfoldable pub require_signer : MultisigConfig → Address → Call (Unit {0})
require_signer cfg who = guard (contains cfg.signers who) KoraError.not_multisig_signer

module _ {W : Type 0} (peers : Peers W) where
  unfoldable pub require_compliance_attested : MarketState → Address → Call (Unit {0})
  unfolding load_config
  require_compliance_attested s sme = do
    config ← load_config s
    attested ← unwrap (peers.is_compliance_attested config.risk_registry sme)
    guard attested KoraError.compliance_not_attested

  unfoldable pub require_debtor_verified : MarketState → Bytes → Call (Unit {0})
  unfolding load_config
  require_debtor_verified s debtor_hash = do
    config ← load_config s
    verified ← unwrap (peers.is_debtor_verified config.risk_registry debtor_hash)
    guard verified KoraError.compliance_not_attested

  -- The second question is only asked where the answer to the first is no.
  unfoldable pub require_circuit_breaker_not_tripped :
      MarketState → Bytes → RiskTier → Call (Unit {0})
  unfolding load_config
  require_circuit_breaker_not_tripped s debtor_hash tier = do
    config ← load_config s
    debtor_paused ← unwrap (peers.is_debtor_paused config.risk_registry debtor_hash)
    refuse_if debtor_paused KoraError.circuit_breaker_tripped
    tier_paused ← unwrap (peers.is_tier_paused config.risk_registry tier)
    refuse_if tier_paused KoraError.circuit_breaker_tripped

  abbrev pub missing_attestation : AttestationStatus → KoraError
  missing_attestation AttestationStatus.confirmed = KoraError.attestation_amount_mismatch
  missing_attestation _ = KoraError.debtor_not_attested

  -- By whether the attestation is confirmed.
  abbrev pub unless_confirmed : Address → ℕ → Bool → Call (Unit {0})
  unless_confirmed attestation invoice_id true = ok tt
  unless_confirmed attestation invoice_id false =
      unwrap (peers.attestation_status attestation invoice_id) >>= λ status.
      err (missing_attestation status)

  unfoldable pub require_attestation : Address → ℕ → ℤ → Call (Unit {0})
  require_attestation attestation invoice_id face_value = do
    confirmed ← unwrap (peers.is_confirmed attestation invoice_id face_value)
    unless_confirmed attestation invoice_id confirmed

  unfoldable pub require_debtor_attestation_if_needed :
      MarketState → ℕ → ℤ → RiskTier → Call (Unit {0})
  unfolding require_attestation
  require_debtor_attestation_if_needed s invoice_id face_value RiskTier.c =
      elim s.debtor_attestation [
        | none ↦ ok tt
        | some attestation ↦ require_attestation attestation invoice_id face_value
      ]
  require_debtor_attestation_if_needed s invoice_id face_value _ = ok tt

  unfoldable pub multisig_config : MarketState → Option MultisigConfig
  multisig_config s = elim s.access_control [ none ↦ none | some ac ↦ peers.get_multisig_config ac ]

  unfoldable pub require_multisig : MarketState → Call MultisigConfig
  unfolding multisig_config
  require_multisig s = ok_or (multisig_config s) KoraError.multisig_not_configured

  unfoldable pub is_multisig_required : MarketState → Bool
  unfolding multisig_config
  is_multisig_required s = elim (multisig_config s) [
    | none ↦ false
    | some cfg ↦ ltb 1 cfg.threshold
  ]

  unfoldable pub require_direct_admin_allowed : MarketState → Call (Unit {0})
  unfolding multisig_config
  require_direct_admin_allowed s = elim (multisig_config s) [
    | none ↦ ok tt
    | some cfg ↦ refuse_if (ltb 1 cfg.threshold) KoraError.multisig_approval_required
  ]

  -- `v as u32` of the value of the registry, where that is more than 0
  abbrev pub governed_bps : ℤ → ℕ → Call ℕ
  governed_bps v local =
      if ltb_ℤ (pos 0) v
      then (lift_err kora_error (require_valid_fee_bps (as_u32 v)) >>= λ u. ok (as_u32 v))
      else ok local

  unfoldable pub base_fee_bps : W → MarketplaceConfig → Call ℕ
  unfolding require_valid_fee_bps
  base_fee_bps w config = do
    v ← unwrap (peers.get_value w config.parameter_registry RegistryParamKey.marketplace_fee_bps)
    governed_bps v config.fee_bps

  unfoldable pub referrer_split_bps : W → MarketplaceConfig → Call ℕ
  unfolding require_valid_fee_bps
  referrer_split_bps w config = do
    v ← unwrap (peers.get_value w config.parameter_registry RegistryParamKey.referrer_split_bps)
    governed_bps v config.referrer_split_bps
