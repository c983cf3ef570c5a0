-- ===== src/FinancingPool/Guards.antt =====
-- The guards and the reads that the pool's calls share.
use kora_contract.Prelude.{
  ℕ, Bool, true, false, ◌&&◌, ◌||◌, Option, none, some, [], ◌∷◌, length, leb, ltb, ◌==◌,
  if◌then◌else◌, unwrap_or, is_some,
}
use kora_contract.Prelude.Int.{ℤ, pos, negsuc, leb_ℤ, ltb_ℤ}
use kora_contract.Prelude.Results.{ok, ◌>>=◌, ◌>>◌, guard, refuse_if, ok_or, unwrap, call}
use kora_contract.Shared.Host.{Env, Address, Symbol, Bytes}
use kora_contract.Shared.Types.{Invoice, Pool, Position, ProtocolStats}
use kora_contract.Shared.Validation.{max_amount}
use kora_contract.Prelude.Store.{Map}
use kora_contract.InvoiceNft.State.{NftState}
use kora_contract.InvoiceNft.Views.{get_invoice}
use kora_contract.FinancingPool.State.{FinancingPoolError, Call, RegistryParamKey, PoolState, Peers}

unfoldable pub require_no_escrow : PoolState → ℕ → Call (Unit {0})
require_no_escrow s invoice_id =
    refuse_if (is_some (s.escrow_pending invoice_id)) FinancingPoolError.escrow_pending

unfoldable pub require_no_escrow_credit : PoolState → ℕ → Call (Unit {0})
require_no_escrow_credit s invoice_id =
    refuse_if (is_some (s.escrow_credited invoice_id)) FinancingPoolError.partial_repay_invalid

unfoldable pub require_not_paused : Env → PoolState → Call (Unit {0})
require_not_paused env s = do
  ac ← ok_or s.access_control FinancingPoolError.not_initialized
  refuse_if (env.is_paused ac) FinancingPoolError.protocol_paused

unfoldable pub require_admin : PoolState → Address → Call (Unit {0})
require_admin s caller = do
  admin ← ok_or s.admin FinancingPoolError.not_initialized
  guard (admin == caller) FinancingPoolError.not_admin

-- The environment of a call that this contract makes: it signs for itself, and the signatures that
-- the transaction carries are still there.
abbrev pub callee : Env → Address → Env
callee env contract = record env {
  contract = contract;
  invoker = env.contract;
  signed = λ a. (a == env.contract) || env.signed a;
}

-- `amount <= 0 || amount > MAX_AMOUNT`
abbrev pub is_out_of_range : ℤ → Bool
is_out_of_range amount = leb_ℤ amount (pos 0) || ltb_ℤ max_amount amount

abbrev pub load_pool : PoolState → ℕ → Call Pool
load_pool s invoice_id = ok_or (s.pool invoice_id) FinancingPoolError.pool_not_found

-- The pool, unless it is closed.
abbrev pub load_open_pool : PoolState → ℕ → Call Pool
load_open_pool s invoice_id = do
  pool ← load_pool s invoice_id
  refuse_if pool.is_closed FinancingPoolError.pool_already_closed
  ok pool

abbrev pub positions_of : PoolState → ℕ → Map Position
positions_of s invoice_id = unwrap_or (s.positions invoice_id) []

abbrev pub no_stats : ProtocolStats
no_stats = record { pools_opened = 0; total_repaid = pos 0; pools_defaulted = 0; active_pools = 0 }

abbrev pub stats_of : PoolState → ProtocolStats
stats_of s = unwrap_or s.protocol_stats no_stats

unfoldable pub load_invoice : PoolState → NftState → ℕ → Call Invoice
load_invoice s nft invoice_id = do
  nft_contract ← ok_or s.invoice_nft FinancingPoolError.not_initialized
  call (get_invoice nft invoice_id)

-- `u32::try_from`, then the range of basis points
abbrev pub as_bps : ℤ → Option ℕ
as_bps (pos n) = if leb n 10_000 then some n else none
as_bps (negsuc n) = none

-- ASCII letters, digits and `_`
abbrev is_symbol_byte : ℕ → Bool
is_symbol_byte b =
    (leb 48 b && leb b 57) || (leb 65 b && leb b 90) || (leb 97 b && leb b 122) || (b == 95)

abbrev all_symbol_bytes : Bytes → Bool
all_symbol_bytes [] = true
all_symbol_bytes (b ∷ bs) = is_symbol_byte b && all_symbol_bytes bs

module _ {W : Type 0} (peers : Peers W) where
  unfoldable pub get_registry_bps : PoolState → RegistryParamKey → Option ℕ
  get_registry_bps s key = elim s.parameter_registry [
    | none ↦ none
    | some registry ↦ elim (peers.parameter registry key) [
      | none ↦ none
      | some value ↦ as_bps value
    ]
  ]

  unfoldable pub get_late_penalty_bps : PoolState → ℕ
  get_late_penalty_bps s =
      unwrap_or (get_registry_bps s RegistryParamKey.late_penalty_bps)
        (unwrap_or s.late_penalty_bps 500)

  unfoldable pub max_position_bps_of : PoolState → ℕ
  max_position_bps_of s =
      unwrap_or (get_registry_bps s RegistryParamKey.max_position_bps)
        (unwrap_or s.max_position_bps 5_000)

  unfoldable pub pool_token_currency : Address → Call Symbol
  pool_token_currency asset = do
    let symbol = peers.token_symbol asset
    refuse_if (length symbol == 0 || ltb 32 (length symbol)) FinancingPoolError.invalid_amount
    guard (all_symbol_bytes symbol) FinancingPoolError.invalid_amount
    ok (peers.symbol symbol)

  -- "USDC"
  abbrev usdc : Symbol
  usdc = peers.symbol (85 ∷ 83 ∷ 68 ∷ 67 ∷ [])

  abbrev is_currency : Symbol → Call Symbol → Bool
  is_currency currency (ok actual) = currency == actual
  is_currency currency _ = false

  unfoldable pub convert_if_needed : PoolState → ℤ → Symbol → Address → Call ℤ
  unfolding pool_token_currency
  convert_if_needed s amount invoice_currency pool_token = elim s.price_oracle [
    | none ↦ ok amount
    | some oracle ↦
        if invoice_currency == usdc || is_currency invoice_currency (pool_token_currency pool_token)
        then ok amount
        else unwrap (peers.convert oracle amount invoice_currency usdc)
  ]
