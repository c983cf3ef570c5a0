-- ===== src/Shared/Types.antt =====
-- contracts/shared/src/types.rs: the records that the contracts store and exchange.
use kora_contract.Prelude.{ℕ, Bool, true, false, Option, List, leb, if◌then◌else◌}
use kora_contract.Prelude.Int.{ℤ}
use kora_contract.Shared.Host.{Address, Symbol, Bytes}

pub data InvoiceStatus : Type 0 where
  created listed funded repaid defaulted : InvoiceStatus

-- `==` on statuses
abbrev pub eq_status : InvoiceStatus → InvoiceStatus → Bool
eq_status created created = true
eq_status listed listed = true
eq_status funded funded = true
eq_status repaid repaid = true
eq_status defaulted defaulted = true
eq_status _ _ = false

pub data RiskTier : Type 0 where
  aaa aa a b c : RiskTier

unfoldable pub from_score : ℕ → RiskTier
from_score score =
    if leb score 20
    then aaa
    else if leb score 40
    then aa
    else if leb score 60
    then a
    else if leb score 80
    then b
    else c

pub record Invoice : Type 0 where
  pub id : ℕ
  pub sme : Address
  pub debtor_hash : Bytes
  pub amount : ℤ
  pub currency : Symbol
  pub due_date : ℕ
  pub ipfs_cid : Bytes
  pub metadata_hash : Bytes
  pub risk_score : ℕ
  pub risk_tier : RiskTier
  pub status : InvoiceStatus
  pub created_at : ℕ
  pub funded_at : Option ℕ
  pub repaid_at : Option ℕ
  pub notes : Option Bytes

pub record Installment : Type 0 where
  pub amount : ℤ
  pub due_date : ℕ
  pub paid : Bool

pub record InstallmentSchedule : Type 0 where
  pub installments : List Installment
  pub next_index : ℕ

pub record ProtocolStats : Type 0 where
  pub pools_opened : ℕ
  pub total_repaid : ℤ
  pub pools_defaulted : ℕ
  pub active_pools : ℕ

pub record Position : Type 0 where
  pub investor : Address
  pub invoice_id : ℕ
  pub contributed : ℤ
  pub share_bps : ℕ
  pub yield_claimed : ℤ

pub record Pool : Type 0 where
  pub invoice_id : ℕ
  pub token : Address
  pub total_funded : ℤ
  pub face_value : ℤ
  pub repaid_amount : ℤ
  pub is_closed : Bool
  pub late_penalty_bps : ℕ
  pub total_owed : ℤ
  pub penalty_applied : Bool

pub record AmountBounds : Type 0 where
  pub min : ℤ
  pub max : ℤ

pub record ProtocolConfig : Type 0 where
  pub fee_bps : ℕ
  pub late_penalty_bps : ℕ
  pub max_risk_score : ℕ
  pub min_funding_period : ℕ

pub record PositionSaleOffer : Type 0 where
  pub seller : Address
  pub invoice_id : ℕ
  pub token : Address
  pub price : ℤ

pub record EarlySettlementOffer : Type 0 where
  pub invoice_id : ℕ
  pub amount : ℤ
  pub accepted_bps : ℕ
  pub accepted : List Address

pub record RepaymentApproval : Type 0 where
  pub invoice_id : ℕ
  pub amount : ℤ
  pub approvals : List Address
  pub executed : Bool

pub record PositionShare : Type 0 where
  pub invoice_id : ℕ
  pub original_investor : Address
  pub share_index : ℕ
  pub amount : ℤ
  pub owner : Address

pub record ShareSaleOffer : Type 0 where
  pub seller : Address
  pub invoice_id : ℕ
  pub original_investor : Address
  pub share_index : ℕ
  pub token : Address
  pub price : ℤ

pub record Listing : Type 0 where
  pub invoice_id : ℕ
  pub seller : Address
  pub asking_price : ℤ
  pub face_value : ℤ
  pub token : Address
  pub funded_amount : ℤ
  pub funding_deadline : ℕ
  pub is_active : Bool
  pub bidding_deadline : Option ℕ

pub record MultisigConfig : Type 0 where
  pub threshold : ℕ
  pub signers : List Address
