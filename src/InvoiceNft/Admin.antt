-- ===== src/InvoiceNft/Admin.antt =====
-- Initialisation, wiring and configuration of the invoice contract.
use kora_contract.Prelude.{
  ℕ, Bool, true, false, ◌||◌, Option, none, some, List, [], ◌∷◌, ◌==◌, if◌then◌else◌, is_some,
}
use kora_contract.Prelude.Int.{ℤ, pos, ltb_ℤ}
use kora_contract.Prelude.Results.{ok, ◌>>◌, refuse_if, lift_err}
use kora_contract.Shared.Host.{Env, Address, require_auth}
use kora_contract.Shared.Types.{RiskTier, aaa, aa, a, b, c, ProtocolConfig}
use kora_contract.Shared.Validation.{require_not_self, require_distinct, require_valid_risk_score}
use kora_contract.InvoiceNft.State.{
  InvoiceNftError, from_common, MintRateLimit, AuditAction, NftState,
}
use kora_contract.InvoiceNft.Guards.{Call, require_admin, append_audit_entry}

abbrev pub schema_version : ℕ
schema_version = 2

unfoldable pub initialize : Env → NftState → Address → Address → Call NftState
unfolding require_not_self require_distinct
initialize env s admin access_control = do
  refuse_if (is_some s.admin) InvoiceNftError.already_initialized
  lift_err from_common (require_not_self env admin)
  lift_err from_common (require_not_self env access_control)
  lift_err from_common (require_distinct admin access_control)
  ok (record s {
    admin = some admin;
    access_control = some access_control;
    next_id = some 1;
    migration_version = some schema_version;
  })

unfoldable pub set_risk_registry : Env → NftState → Address → Address → Call NftState
unfolding require_admin require_not_self append_audit_entry
set_risk_registry env s admin risk_registry = do
  require_auth env admin
  require_admin s admin
  lift_err from_common (require_not_self env risk_registry)
  append_audit_entry env (record s { risk_registry = some risk_registry }) admin
      AuditAction.set_risk_registry

abbrev is_same : Option Address → Address → Bool
is_same none x = false
is_same (some y) x = y == x

unfoldable pub set_debtor_attestation : Env → NftState → Address → Address → Call NftState
unfolding require_admin require_not_self append_audit_entry
set_debtor_attestation env s admin attestation = do
  require_auth env admin
  require_admin s admin
  lift_err from_common (require_not_self env attestation)
  (if is_same s.debtor_attestation attestation
      then ok s
      else append_audit_entry env (record s { debtor_attestation = some attestation }) admin
          AuditAction.set_debtor_attestation)

-- The loop over the addresses already wired: both new callers must differ from each.
unfoldable pub require_unwired : Address → Address → List (Option Address) → Call (Unit {0})
unfolding require_distinct
require_unwired marketplace financing_pool [] = ok tt
require_unwired marketplace financing_pool (none ∷ rest) =
    require_unwired marketplace financing_pool rest
require_unwired marketplace financing_pool (some existing ∷ rest) = do
  lift_err from_common (require_distinct marketplace existing)
  lift_err from_common (require_distinct financing_pool existing)
  require_unwired marketplace financing_pool rest

unfoldable pub set_authorized_callers : Env → NftState → Address → Address → Address → Call NftState
unfolding require_admin require_not_self require_distinct require_unwired append_audit_entry
set_authorized_callers env s admin marketplace financing_pool = do
  require_auth env admin
  require_admin s admin
  lift_err from_common (require_not_self env marketplace)
  lift_err from_common (require_not_self env financing_pool)
  lift_err from_common (require_distinct marketplace financing_pool)
  require_unwired marketplace financing_pool (s.admin ∷ s.access_control ∷ s.risk_registry ∷ [])
  let s1 = record s { marketplace = some marketplace; financing_pool = some financing_pool }
  append_audit_entry env s1 admin AuditAction.set_authorized_callers

unfoldable pub set_protocol_config : Env → NftState → Address → ProtocolConfig → Call NftState
unfolding require_admin require_valid_risk_score
set_protocol_config env s admin config = do
  require_auth env admin
  require_admin s admin
  lift_err from_common (require_valid_risk_score config.max_risk_score)
  ok (record s { protocol_config = some config })

unfoldable pub get_protocol_config : NftState → ProtocolConfig
get_protocol_config s = elim s.protocol_config [
  | none ↦ record {
    fee_bps = 0;
    late_penalty_bps = 0;
    max_risk_score = 100;
    min_funding_period = 0;
  }
  | some config ↦ config
]

abbrev pub eq_tier : RiskTier → RiskTier → Bool
eq_tier aaa aaa = true
eq_tier aa aa = true
eq_tier a a = true
eq_tier b b = true
eq_tier c c = true
eq_tier _ _ = false

unfoldable pub set_amount_bounds : Env → NftState → Address → RiskTier → ℤ → ℤ → Call NftState
unfolding require_admin
set_amount_bounds env s admin tier min_amount max_amount = do
  require_auth env admin
  require_admin s admin
  refuse_if (ltb_ℤ min_amount (pos 0) || (ltb_ℤ max_amount (pos 0) || ltb_ℤ max_amount min_amount))
      InvoiceNftError.invalid_amount
  ok (record s {
    amount_bounds = λ t.
        if eq_tier tier t
        then some (record { min = min_amount; max = max_amount })
        else s.amount_bounds t;
  })

unfoldable pub set_mint_rate_limit : Env → NftState → Address → ℕ → ℕ → Call NftState
unfolding require_admin append_audit_entry
set_mint_rate_limit env s admin max_mints window_secs = do
  require_auth env admin
  require_admin s admin
  refuse_if (max_mints == 0 || window_secs == 0) InvoiceNftError.invalid_parameter_value
  let limit : MintRateLimit = record { max_mints = max_mints; window_secs = window_secs }
  append_audit_entry env (record s { mint_rate_limit = some limit }) admin
      AuditAction.set_mint_rate_limit
