-- ===== src/InvoiceNft/State.antt =====
-- The storage of the invoice contract (contracts/invoice_nft/src/lib.rs), its records and errors.
-- A key that has not been written is `none`; events and the extension of lifetimes are left out.
use kora_contract.Prelude.{none, false, ℕ, Bool, Option, List}
use kora_contract.Prelude.Int.{ℤ}
use kora_contract.Prelude.Store.{Store}
use kora_contract.Shared.Host.{Address, Symbol, Bytes}
use kora_contract.Shared.Errors.{CommonError}
use kora_contract.Shared.Types.{InvoiceStatus, RiskTier, AmountBounds, ProtocolConfig}

pub data InvoiceNftError : Type 0 where
  already_initialized arithmetic_overflow batch_size_exceeded : InvoiceNftError
  credit_limit_exceeded currency_not_allowed empty_bytes empty_string : InvoiceNftError
  field_too_long invalid_address invalid_amount invalid_due_date : InvoiceNftError
  invalid_invoice_status invalid_risk_score invoice_not_found : InvoiceNftError
  no_upgrade_proposed not_admin not_initialized not_invoice_owner : InvoiceNftError
  protocol_paused reentrancy sme_not_registered unauthorized : InvoiceNftError
  upgrade_timelock_not_elapsed mint_rate_limit_exceeded : InvoiceNftError
  invalid_parameter_value invalid_migration_target invalid_referrer : InvoiceNftError
  referral_already_locked : InvoiceNftError

-- `impl From<CommonError> for InvoiceNftError`
abbrev pub from_common : CommonError → InvoiceNftError
from_common CommonError.invalid_amount = InvoiceNftError.invalid_amount
from_common CommonError.invalid_due_date = InvoiceNftError.invalid_due_date
from_common CommonError.invalid_risk_score = InvoiceNftError.invalid_risk_score
from_common CommonError.invalid_address = InvoiceNftError.invalid_address
from_common CommonError.empty_string = InvoiceNftError.empty_string
from_common CommonError.empty_bytes = InvoiceNftError.empty_bytes
from_common CommonError.field_too_long = InvoiceNftError.field_too_long
from_common CommonError.arithmetic_overflow = InvoiceNftError.arithmetic_overflow
from_common CommonError.reentrancy = InvoiceNftError.reentrancy
from_common _ = InvoiceNftError.invalid_amount

-- Read on every transition.
pub record InvoiceHot : Type 0 where
  pub id : ℕ
  pub sme : Address
  pub amount : ℤ
  pub currency : Symbol
  pub due_date : ℕ
  pub risk_score : ℕ
  pub risk_tier : RiskTier
  pub status : InvoiceStatus
  pub created_at : ℕ
  pub funded_at : Option ℕ
  pub repaid_at : Option ℕ

-- Read only with the metadata.
pub record InvoiceCold : Type 0 where
  pub debtor_hash : Bytes
  pub ipfs_cid : Bytes
  pub metadata_hash : Bytes
  pub notes : Option Bytes

pub record MetadataDispute : Type 0 where
  pub challenger : Address
  pub evidence_hash : Bytes
  pub raised_at : ℕ
  pub resolved : Bool
  pub upheld : Bool

pub record MintRateLimit : Type 0 where
  pub max_mints : ℕ
  pub window_secs : ℕ

pub record BatchInvoiceInput : Type 0 where
  pub debtor_hash : Bytes
  pub amount : ℤ
  pub currency : Symbol
  pub due_date : ℕ
  pub ipfs_cid : Bytes
  pub risk_score : ℕ
  pub notes : Option Bytes

-- The administrative actions that this contract records.
pub data AuditAction : Type 0 where
  set_risk_registry set_debtor_attestation set_authorized_callers : AuditAction
  set_mint_rate_limit set_defaulted freeze_invoice unfreeze_invoice : AuditAction
  correct_metadata_hash add_allowed_currency remove_allowed_currency : AuditAction

-- An entry of the audit log; its source is always this contract, its token and amount are unset.
pub record AuditEntry : Type 0 where
  pub sequence : ℕ
  pub timestamp : ℕ
  pub actor : Address
  pub action : AuditAction

pub record NftState : Type 0 where
  pub next_id : Option ℕ
  pub admin : Option Address
  pub access_control : Option Address
  pub migration_version : Option ℕ
  pub marketplace : Option Address
  pub financing_pool : Option Address
  pub risk_registry : Option Address
  pub debtor_attestation : Option Address
  pub protocol_config : Option ProtocolConfig
  pub audit_head : Option ℕ
  pub audit_total : Option ℕ
  pub next_batch_id : Option ℕ
  pub mint_rate_limit : Option MintRateLimit
  pub amount_bounds : RiskTier → Option AmountBounds
  pub hot : Store InvoiceHot
  pub cold : Store InvoiceCold
  pub exposure : Store ℤ
  pub frozen : Store Bool
  pub audit_entries : Store AuditEntry
  pub sme_invoice_ids : Store (List ℕ)
  pub mint_window : Store (ℕ × ℕ)
  pub cid_history : Store (List Bytes)
  pub first_mint : Store ℕ
  pub sme_referrer : Store Address
  pub metadata_disputes : Store MetadataDispute
  pub currency_allowlist : Store Bool
  -- The lock of contracts/shared/src/reentrancy.rs: whether its key is present.
  pub locked : Bool

-- The storage before `initialize`.
abbrev pub empty_storage : NftState
empty_storage = record {
  next_id = none;
  admin = none;
  access_control = none;
  migration_version = none;
  marketplace = none;
  financing_pool = none;
  risk_registry = none;
  debtor_attestation = none;
  protocol_config = none;
  audit_head = none;
  audit_total = none;
  next_batch_id = none;
  mint_rate_limit = none;
  amount_bounds = λ tier. none;
  hot = λ id. none;
  cold = λ id. none;
  exposure = λ sme. none;
  frozen = λ id. none;
  audit_entries = λ slot. none;
  sme_invoice_ids = λ sme. none;
  mint_window = λ sme. none;
  cid_history = λ id. none;
  first_mint = λ sme. none;
  sme_referrer = λ sme. none;
  metadata_disputes = λ id. none;
  currency_allowlist = λ currency. none;
  locked = false;
}
