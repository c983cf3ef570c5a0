-- ===== src/FinancingPool/State.antt =====
-- The storage of the financing pool (contracts/financing_pool/src/lib.rs), its errors, and the
-- contracts that it calls. The invoice contract is the model of its own module; the others are
-- arguments, by their address.
use kora_contract.Prelude.{ℕ, Bool, Option}
use kora_contract.Prelude.Int.{ℤ}
use kora_contract.Prelude.Store.{Store, Map}
use kora_contract.Prelude.Results.{Result}
use kora_contract.Shared.Host.{Address, Symbol, Bytes}
use kora_contract.Shared.Errors.{CommonError}
use kora_contract.Shared.Token.{Token}
use kora_contract.Shared.Types.{
  Pool, Position, InstallmentSchedule, ProtocolStats, PositionSaleOffer, EarlySettlementOffer,
  RepaymentApproval, PositionShare, ShareSaleOffer,
}
use kora_contract.InvoiceNft.State.{NftState}

pub data FinancingPoolError : Type 0 where
  already_initialized arithmetic_overflow exceeds_funding_target invalid_address invalid_amount :
      FinancingPoolError
  invalid_due_date invalid_fee_rate invoice_frozen no_upgrade_proposed not_admin not_initialized :
      FinancingPoolError
  pool_already_closed pool_not_found position_not_found protocol_paused repayment_already_made :
      FinancingPoolError
  sale_already_listed sale_not_found unauthorized upgrade_timelock_not_elapsed : FinancingPoolError
  share_not_found invalid_share_amount already_split not_position_owner : FinancingPoolError
  dispute_not_found dispute_already_open dispute_already_resolved dispute_window_expired :
      FinancingPoolError
  not_dispute_challenger not_governance dispute_not_open partial_repay_invalid : FinancingPoolError
  approval_pending approval_threshold_not_met grace_period_active escrow_pending :
      FinancingPoolError
  escrow_already_configured too_many_investors batch_size_exceeded invalid_migration_target :
      FinancingPoolError
  marketplace_only : FinancingPoolError

-- `From<CommonError>`
abbrev pub from_common : CommonError → FinancingPoolError
from_common CommonError.invalid_amount = FinancingPoolError.invalid_amount
from_common CommonError.invalid_address = FinancingPoolError.invalid_address
from_common CommonError.invalid_fee_rate = FinancingPoolError.invalid_fee_rate
from_common CommonError.invalid_due_date = FinancingPoolError.invalid_due_date
from_common CommonError.arithmetic_overflow = FinancingPoolError.arithmetic_overflow
from_common _ = FinancingPoolError.invalid_amount

abbrev pub Call : Type 0 → Type 0
Call A = Result FinancingPoolError A

-- The keys of the registry that this contract reads.
pub data RegistryParamKey : Type 0 where
  late_penalty_bps max_position_bps : RegistryParamKey

-- The entries of the storage. The shares of a position are a map by their index, as the other two parts
-- of their key are those of the entry.
pub record PoolState : Type 0 where
  pub admin : Option Address
  pub invoice_nft : Option Address
  pub risk_registry : Option Address
  pub treasury : Option Address
  pub access_control : Option Address
  pub price_oracle : Option Address
  pub parameter_registry : Option Address
  pub marketplace : Option Address
  pub dispute_resolution : Option Address
  pub late_penalty_bps : Option ℕ
  pub late_penalty_treasury_split_bps : Option ℕ
  pub max_position_bps : Option ℕ
  pub grace_period : Option ℕ
  pub schema_version : Option ℕ
  pub protocol_stats : Option ProtocolStats
  pub upgrade_proposal : Option (Bytes × ℕ)
  pub aggregate_funded : Store ℤ
  pub pool : Store Pool
  pub positions : Store (Map Position)
  pub penalty_treasury_cut : Store ℤ
  pub repayment_lock : Store Bool
  pub installment_schedule : Store InstallmentSchedule
  pub repayment_approval : Store RepaymentApproval
  pub escrow_pending : Store Bool
  pub escrow_credited : Store Bool
  pub early_settlement : Store EarlySettlementOffer
  pub sale_offer : ℕ → Address → Option PositionSaleOffer
  pub position_shares : ℕ → Address → Option (Map PositionShare)
  pub position_share_counter : ℕ → Address → Option ℕ
  pub share_sale_offer : ℕ → Address → ℕ → Option ShareSaleOffer

-- The contracts that the pool calls, apart from the invoice contract.
pub record Peers (W : Type 0) : Type 0 where
  pub token : Token W
  -- `symbol()` of a token, and the host's symbol for a text
  pub token_symbol : Address → Bytes
  pub symbol : Bytes → Symbol
  -- `try_get_parameter(key)` of the registry: the value, where it answers with one
  pub parameter : Address → RegistryParamKey → Option ℤ
  -- `convert(amount, from, to)` of the oracle
  pub convert : Address → ℤ → Symbol → Symbol → Option ℤ
  -- `try_has_open_dispute(invoice_id)`, where it answers
  pub has_open_dispute : Address → ℕ → Option Bool

-- What a call reads and writes: the storage, the ledgers of the tokens, and the invoice contract.
pub record World (W : Type 0) : Type 0 where
  pub state : PoolState
  pub ledger : W
  pub nft : NftState
