-- ===== src/Marketplace/State.antt =====
-- The storage of the marketplace (contracts/marketplace/src/lib.rs), its records, and the contracts that it calls.
-- The keys of deployments from before `Config` are not kept: `initialize` writes `Config`.
use kora_contract.Prelude.{ℕ, Bool, Option, List}
use kora_contract.Prelude.Int.{ℤ}
use kora_contract.Prelude.Results.{Result}
use kora_contract.Prelude.Store.{Store}
use kora_contract.Shared.Host.{Address, Symbol, Bytes}
use kora_contract.Shared.Errors.{KoraError}
use kora_contract.Shared.Types.{Listing, MultisigConfig, RiskTier}
use kora_contract.InvoiceNft.State.{NftState}
use kora_contract.FinancingPool.State.{PoolState}
use kora_contract.FinancingPool.State as Pool
use kora_contract.Treasury.Fees.{TreasuryState}

abbrev pub Call : Type 0 → Type 0
Call A = Result KoraError A

pub data DependencyField : Type 0 where
  invoice_nft financing_pool treasury access_control risk_registry parameter_registry :
      DependencyField
  debtor_attestation : DependencyField

pub data MarketplaceAction : Type 0 where
  set_fee_bps set_referrer_split_bps : ℕ → MarketplaceAction
  set_tier_fee_bps : ℕ → ℕ → MarketplaceAction
  whitelist_token remove_token_whitelist : Address → MarketplaceAction
  propose_upgrade : Bytes → MarketplaceAction
  execute_upgrade : MarketplaceAction

pub record AdminProposal : Type 0 where
  pub id : ℕ
  pub action : MarketplaceAction
  pub approvals : List Address
  pub executed : Bool
  pub created_at : ℕ

pub record MarketplaceConfig : Type 0 where
  pub admin : Address
  pub invoice_nft : Address
  pub financing_pool : Address
  pub treasury : Address
  pub access_control : Address
  pub price_oracle : Address
  pub risk_registry : Address
  pub parameter_registry : Address
  pub fee_bps : ℕ
  pub referrer_split_bps : ℕ

-- `error_code` is `none` for the code's 0, and otherwise the error that the code gives the number of.
pub record BatchAllocationResult : Type 0 where
  pub invoice_id : ℕ
  pub success : Bool
  pub error_code : Option KoraError

pub record PriorityWindow : Type 0 where
  pub whitelist : List Address
  pub window_end : ℕ

pub record MarketState : Type 0 where
  pub config : Option MarketplaceConfig
  pub access_control : Option Address
  pub listing : Store Listing
  pub whitelisted_token : Store Bool
  pub whitelisted_token_list : Option (List Address)
  pub token_whitelist_proposal : Store ℕ
  pub upgrade_proposal : Option (Bytes × ℕ)
  pub tier_fee_bps : Store ℕ
  pub min_contribution_amount : Option ℤ
  pub contribution : ℕ → Address → Option ℤ
  pub refund_claimed : ℕ → Address → Option Bool
  pub referrer : Store Address
  pub cancellation_request : Store Address
  pub cancellation_confirmed : Store Bool
  pub priority_window : Store PriorityWindow
  pub token_exposure_cap : Store ℤ
  pub token_exposure_current : Store ℤ
  pub fee_contribution : ℕ → Address → Option ℤ
  pub token_currency : Store Symbol
  pub max_investor_share_bps : Option ℕ
  pub gross_contribution : ℕ → Address → Option ℤ
  pub investor_accredited : Store Bool
  pub listing_investors : Store (List Address)
  pub admin_proposal : Store AdminProposal
  pub next_admin_proposal_id : Option ℕ
  pub dependency_update_proposal : Store (Address × ℕ)
  pub debtor_attestation : Option Address
  pub expiry_emitted : Store Bool
  -- The lock of contracts/shared/src/reentrancy.rs: whether its key is present.
  pub locked : Bool

-- The answers of contracts/debtor_attestation.
pub data AttestationStatus : Type 0 where
  pending confirmed rejected expired : AttestationStatus

-- The keys of the parameter registry that this contract uses.
pub data RegistryParamKey : Type 0 where
  marketplace_fee_bps referrer_split_bps : RegistryParamKey

-- The contracts that the marketplace calls, apart from the invoice contract, the pool and the treasury's fees: their
-- answers by their address, `none` where the call fails. What is changed there is part of the ledger `W`.
pub record Peers (W : Type 0) : Type 0 where
  pub pool : Pool.Peers W
  pub is_compliance_attested : Address → Address → Option Bool
  pub is_debtor_verified : Address → Bytes → Option Bool
  pub is_debtor_paused : Address → Bytes → Option Bool
  pub is_tier_paused : Address → RiskTier → Option Bool
  pub is_confirmed : Address → ℕ → ℤ → Option Bool
  pub attestation_status : Address → ℕ → Option AttestationStatus
  pub get_multisig_config : Address → Option MultisigConfig
  pub get_value : W → Address → RegistryParamKey → Option ℤ
  pub set_parameter : W → Address → Address → RegistryParamKey → ℤ → Option W
  pub convert_with_decimals : Address → ℤ → Symbol → Symbol → ℕ → ℕ → Option ℤ
  -- Whether bytes are UTF-8, and the host's symbol for a text, which fails on other characters than those of a symbol
  pub is_utf8 : Bytes → Bool
  pub new_symbol : Bytes → Option Symbol
  -- The code calls these three and the repository declares them nowhere.
  pub check_debtor_cap : W → Bytes → ℤ → Call (Unit {0})
  pub add_debtor_exposure : W → Bytes → ℕ → ℤ → Call W
  pub remove_debtor_exposure : W → Bytes → ℕ → ℤ → Call W

-- What a call reads and writes: the storage of the four contracts, and the ledger.
pub record Protocol (W : Type 0) : Type 0 where
  pub market : MarketState
  pub pool : PoolState
  pub nft : NftState
  pub treasury : TreasuryState
  pub ledger : W
