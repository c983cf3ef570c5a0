-- ===== src/FinancingPool/Admin.antt =====
-- The configuration of the pool, and its views.
use kora_contract.Prelude.{
  ℕ, ◌+◌, Option, none, some, List, [], ◌∷◌, length, ltb, ◌==◌, unwrap_or, is_some,
}
use kora_contract.Prelude.Int.{pos}
use kora_contract.Prelude.Int128.{u64_limit}
use kora_contract.Prelude.Results.{ok, ◌>>=◌, ◌>>◌, refuse_if, ok_or, lift_err, assert_host}
use kora_contract.Prelude.Store.{lookup, values}
use kora_contract.Shared.Host.{Env, Address, Bytes, require_auth}
use kora_contract.Shared.Types.{
  Pool, Position, ProtocolStats, EarlySettlementOffer, InstallmentSchedule,
}
use kora_contract.Shared.Validation.{
  require_valid_fee_bps, require_valid_bps_range, require_not_self,
}
use kora_contract.FinancingPool.State.{FinancingPoolError, Call, PoolState, from_common}
use kora_contract.FinancingPool.Guards.{require_admin, load_pool, positions_of, stats_of}

-- `env.current_contract_address()` is none of the addresses.
abbrev require_none_self : Env → List Address → Call (Unit {0})
require_none_self env [] = ok tt
require_none_self env (a ∷ addresses) = do
  lift_err from_common (require_not_self env a)
  require_none_self env addresses

-- The range is checked twice, the second time with this contract's own error.
abbrev require_position_cap : ℕ → Call (Unit {0})
require_position_cap max_position_bps = do
  lift_err from_common (require_valid_bps_range max_position_bps 1 10_000)
  refuse_if (max_position_bps == 0) FinancingPoolError.invalid_fee_rate
  refuse_if (ltb 10_000 max_position_bps) FinancingPoolError.invalid_fee_rate

unfoldable pub initialize :
    Env
    → PoolState
    → Address
    → Address
    → Address
    → Address
    → Address
    → ℕ
    → Address
    → ℕ
    → ℕ
    → Address
    → Call PoolState
initialize env s admin invoice_nft risk_registry treasury access_control late_penalty_bps
      price_oracle max_position_bps grace_period dispute_resolution =
    do
      refuse_if (is_some s.admin) FinancingPoolError.already_initialized
      lift_err from_common (require_valid_fee_bps late_penalty_bps)
      require_position_cap max_position_bps
      require_none_self env (
          admin ∷ invoice_nft ∷ risk_registry ∷ treasury ∷ access_control ∷ dispute_resolution ∷ [])
      ok (record s {
        admin = some admin;
        invoice_nft = some invoice_nft;
        risk_registry = some risk_registry;
        treasury = some treasury;
        access_control = some access_control;
        late_penalty_bps = some late_penalty_bps;
        price_oracle = some price_oracle;
        max_position_bps = some max_position_bps;
        grace_period = some grace_period;
        dispute_resolution = some dispute_resolution;
        schema_version = some 1;
      })

unfoldable pub set_max_position_bps : Env → PoolState → Address → ℕ → Call PoolState
unfolding require_admin
set_max_position_bps env s admin max_position_bps = do
  require_auth env admin
  require_admin s admin
  require_position_cap max_position_bps
  ok (record s { max_position_bps = some max_position_bps })

unfoldable pub set_parameter_registry : Env → PoolState → Address → Address → Call PoolState
unfolding require_admin
set_parameter_registry env s admin registry = do
  require_auth env admin
  require_admin s admin
  lift_err from_common (require_not_self env registry)
  ok (record s { parameter_registry = some registry })

unfoldable pub get_parameter_registry : PoolState → Option Address
get_parameter_registry s = s.parameter_registry

unfoldable pub set_late_penalty_split : Env → PoolState → Address → ℕ → Call PoolState
unfolding require_admin
set_late_penalty_split env s admin split_bps = do
  require_auth env admin
  require_admin s admin
  lift_err from_common (require_valid_bps_range split_bps 0 10_000)
  ok (record s { late_penalty_treasury_split_bps = some split_bps })

unfoldable pub get_late_penalty_split : PoolState → ℕ
get_late_penalty_split s = unwrap_or s.late_penalty_treasury_split_bps 5_000

unfoldable pub get_max_position_bps : PoolState → ℕ
get_max_position_bps s = unwrap_or s.max_position_bps 5_000

unfoldable pub get_grace_period : PoolState → ℕ
get_grace_period s = unwrap_or s.grace_period 0

unfoldable pub set_marketplace : Env → PoolState → Address → Address → Call PoolState
unfolding require_admin
set_marketplace env s admin marketplace = do
  require_auth env admin
  require_admin s admin
  lift_err from_common (require_not_self env marketplace)
  ok (record s { marketplace = some marketplace })

unfoldable pub get_price_oracle : PoolState → Call Address
get_price_oracle s = ok_or s.price_oracle FinancingPoolError.not_initialized

unfoldable pub get_early_settlement : PoolState → ℕ → Call EarlySettlementOffer
get_early_settlement s invoice_id =
    ok_or (s.early_settlement invoice_id) FinancingPoolError.pool_not_found

unfoldable pub get_pool : PoolState → ℕ → Call Pool
get_pool s invoice_id = load_pool s invoice_id

unfoldable pub get_positions : PoolState → ℕ → List Position
get_positions s invoice_id = values (positions_of s invoice_id)

unfoldable pub get_positions_count : PoolState → ℕ → ℕ
get_positions_count s invoice_id = length (positions_of s invoice_id)

unfoldable pub get_protocol_stats : PoolState → ProtocolStats
get_protocol_stats s = stats_of s

unfoldable pub get_installment_schedule : PoolState → ℕ → Option InstallmentSchedule
get_installment_schedule s invoice_id = s.installment_schedule invoice_id

-- The position, or an empty one.
unfoldable pub get_position : PoolState → ℕ → Address → Position
get_position s invoice_id investor =
    unwrap_or (lookup investor (positions_of s invoice_id)) (record {
      investor = investor;
      invoice_id = invoice_id;
      contributed = pos 0;
      share_bps = 0;
      yield_claimed = pos 0;
    })

unfoldable pub propose_upgrade : Env → PoolState → Address → Bytes → Call PoolState
unfolding require_admin
propose_upgrade env s admin new_wasm_hash = do
  require_auth env admin
  require_admin s admin
  ok (record s { upgrade_proposal = some (new_wasm_hash, env.now) })

abbrev upgrade_timelock_delay : ℕ
upgrade_timelock_delay = 86_400

-- The storage, and the code that the contract runs from then on.
unfoldable pub execute_upgrade : Env → PoolState → Address → Call (PoolState × Bytes)
unfolding require_admin
execute_upgrade env s admin = do
  require_auth env admin
  require_admin s admin
  (wasm_hash, proposed_at) ← ok_or s.upgrade_proposal FinancingPoolError.no_upgrade_proposed
  assert_host (ltb (proposed_at + upgrade_timelock_delay) u64_limit)
  refuse_if (ltb env.now (proposed_at + upgrade_timelock_delay))
      FinancingPoolError.upgrade_timelock_not_elapsed
  ok (record s { upgrade_proposal = none }, wasm_hash)
