-- ===== src/Shared/Errors.antt =====
-- contracts/shared/src/errors.rs: the errors of the shared checks, and those of the whole protocol.
pub data CommonError : Type 0 where
  invalid_amount : CommonError
  invalid_due_date : CommonError
  invalid_risk_score : CommonError
  invalid_cid : CommonError
  invalid_fee_rate : CommonError
  invalid_address : CommonError
  empty_string : CommonError
  empty_bytes : CommonError
  field_too_long : CommonError
  arithmetic_overflow : CommonError
  arithmetic_underflow : CommonError
  reentrancy : CommonError
  invalid_length : CommonError
  batch_size_exceeded : CommonError

pub data KoraError : Type 0 where
  unauthorized not_admin not_verifier protocol_paused : KoraError
  already_paused not_paused role_not_assigned invoice_not_found : KoraError
  invoice_already_exists invalid_invoice_status invoice_expired invalid_amount : KoraError
  invalid_due_date invalid_risk_score invalid_cid invoice_frozen : KoraError
  batch_size_exceeded listing_not_found listing_already_cancelled funding_deadline_passed :
      KoraError
  insufficient_funds exceeds_funding_target listing_fully_funded funding_not_expired : KoraError
  pool_not_found pool_already_closed repayment_already_made insufficient_pool_balance : KoraError
  position_not_found sale_already_listed sale_not_found invalid_fee_rate : KoraError
  token_not_whitelisted withdrawal_rate_limit_exceeded sme_not_registered compliance_not_attested :
      KoraError
  sme_not_verified no_pending_admin_proposal not_pending_admin arithmetic_overflow : KoraError
  arithmetic_underflow invalid_address empty_string already_initialized : KoraError
  no_contribution not_initialized empty_bytes reentrancy : KoraError
  invalid_length field_too_long no_upgrade_proposed upgrade_timelock_not_elapsed : KoraError
  parameter_proposal_not_found parameter_proposal_already_executed not_multisig_signer
        already_voted :
      KoraError
  governance_threshold_not_met governance_timelock_not_elapsed score_update_cooldown_not_elapsed
        cancellation_pending :
      KoraError
  no_cancellation_pending not_invoice_owner credit_limit_exceeded currency_not_allowed : KoraError
  investor_concentration_exceeded investor_not_accredited listing_already_funded already_approved :
      KoraError
  proposal_not_found proposal_already_executed proposal_expired threshold_not_met : KoraError
  signer_not_found multisig_not_configured multisig_approval_required quorum_required : KoraError
  unauthorized_caller dependency_update_timelock_not_elapsed no_dependency_update_proposed
        token_whitelist_timelock_not_elapsed :
      KoraError
  no_token_whitelist_proposed contribution_below_minimum insufficient_reserve_balance
        reserve_caller_not_authorized :
      KoraError
  emergency_not_declared recipient_not_allowed no_recipient_proposed
        recipient_timelock_not_elapsed :
      KoraError
  mint_rate_limit_exceeded sweep_splits_not_configured invalid_sweep_splits
        circuit_breaker_tripped :
      KoraError
  invalid_parameter_value debtor_not_attested attestation_amount_mismatch : KoraError

-- `impl From<CommonError> for KoraError`
abbrev pub kora_error : CommonError → KoraError
kora_error CommonError.invalid_due_date = KoraError.invalid_due_date
kora_error CommonError.invalid_risk_score = KoraError.invalid_risk_score
kora_error CommonError.invalid_cid = KoraError.invalid_cid
kora_error CommonError.invalid_fee_rate = KoraError.invalid_fee_rate
kora_error CommonError.invalid_address = KoraError.invalid_address
kora_error CommonError.arithmetic_overflow = KoraError.arithmetic_overflow
kora_error CommonError.arithmetic_underflow = KoraError.arithmetic_underflow
kora_error CommonError.reentrancy = KoraError.reentrancy
kora_error CommonError.batch_size_exceeded = KoraError.batch_size_exceeded
kora_error _ = KoraError.invalid_amount
