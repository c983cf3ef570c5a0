-- ===== src/Treasury/Fees.antt =====
-- contracts/treasury/src/lib.rs: the fees that the marketplace brings and takes back. The rest of that contract is
-- not modelled, so its storage here has the entries that these two calls touch.
use kora_contract.Prelude.{ℕ, Bool, false, ◌&&◌, Option, ltb, leb, ◌==◌, if◌then◌else◌, unwrap_or}
use kora_contract.Prelude.Int.{ℤ, pos, ltb_ℤ, leb_ℤ}
use kora_contract.Prelude.Int128.{checked_add, checked_sub, checked_mul, checked_div}
use kora_contract.Prelude.Results.{Result, ok, ◌>>=◌, ◌>>◌, guard, refuse_if, ok_or}
use kora_contract.Prelude.Store.{Store, update}
use kora_contract.Shared.Host.{Env, Address}
use kora_contract.Shared.Token.{Token, transfer}

pub data TreasuryError : Type 0 where
  already_initialized arithmetic_overflow insufficient_pool_balance invalid_address : TreasuryError
  invalid_amount invalid_fee_rate no_cap_change_proposed no_upgrade_proposed : TreasuryError
  not_admin not_initialized reentrancy token_not_whitelisted : TreasuryError
  upgrade_timelock_not_elapsed withdrawal_cap_timelock_not_elapsed : TreasuryError
  withdrawal_rate_limit_exceeded not_eligible_stakeholder no_share_available : TreasuryError
  invalid_distribution_config distribution_proposal_not_found sweep_splits_not_configured :
      TreasuryError
  invalid_sweep_splits invalid_grant grant_not_found token_decimals_not_registered : TreasuryError

abbrev pub Call : Type 0 → Type 0
Call A = Result TreasuryError A

pub record TreasuryState : Type 0 where
  pub marketplace : Option Address
  pub collected : Store ℤ
  pub whitelisted_token : Store Bool
  pub reserve_balance : Store ℤ
  pub reserve_allocation_bps : Option ℕ

unfoldable pub require_whitelisted_token : TreasuryState → Address → Call (Unit {0})
require_whitelisted_token s token =
    guard (unwrap_or (s.whitelisted_token token) false) TreasuryError.token_not_whitelisted

unfoldable pub get_reserve_allocation_bps : TreasuryState → ℕ
get_reserve_allocation_bps s = unwrap_or s.reserve_allocation_bps 0

unfoldable pub add_reserve : TreasuryState → Address → ℤ → Call TreasuryState
add_reserve s token reserve_amount = do
  new_reserve ←
      ok_or (checked_add (unwrap_or (s.reserve_balance token) (pos 0)) reserve_amount)
        TreasuryError.arithmetic_overflow
  ok (record s { reserve_balance = update s.reserve_balance token new_reserve })

-- The share of the reserve is put aside, if it is more than nothing.
unfoldable pub put_aside : TreasuryState → Address → ℤ → ℕ → Call TreasuryState
unfolding add_reserve
put_aside s token amount reserve_bps = do
  product ← ok_or (checked_mul amount (pos reserve_bps)) TreasuryError.arithmetic_overflow
  reserve_amount ← ok_or (checked_div product (pos 10_000)) TreasuryError.arithmetic_overflow
  if ltb_ℤ (pos 0) reserve_amount then add_reserve s token reserve_amount else ok s

unfoldable pub collect_fee : TreasuryState → Address → ℤ → Call TreasuryState
unfolding require_whitelisted_token get_reserve_allocation_bps
collect_fee s token amount = do
  refuse_if (leb_ℤ amount (pos 0)) TreasuryError.invalid_amount
  require_whitelisted_token s token
  let reserve_bps = get_reserve_allocation_bps s
  s1 ←
      if ltb 0 reserve_bps && leb reserve_bps 10_000
      then put_aside s token amount reserve_bps
      else ok s
  new_total ←
      ok_or (checked_add (unwrap_or (s1.collected token) (pos 0)) amount)
        TreasuryError.arithmetic_overflow
  ok (record s1 { collected = update s1.collected token new_total })

-- The storage and the ledger after the refund.
unfoldable pub refund_fee :
    {W : Type 0}
    → Token W
    → Env
    → TreasuryState
    → W
    → Address
    → Address
    → ℤ
    → Address
    → Call (TreasuryState × W)
unfolding require_whitelisted_token
refund_fee t env s w caller token amount investor = do
  refuse_if (leb_ℤ amount (pos 0)) TreasuryError.invalid_amount
  marketplace ← ok_or s.marketplace TreasuryError.not_initialized
  guard (caller == marketplace) TreasuryError.not_admin
  require_whitelisted_token s token
  let live_balance = pos (t.balance w token env.contract)
  refuse_if (ltb_ℤ live_balance amount) TreasuryError.insufficient_pool_balance
  new_collected ←
      ok_or (checked_sub (unwrap_or (s.collected token) (pos 0)) amount)
        TreasuryError.arithmetic_overflow
  w' ← transfer t w token env.contract investor amount
  ok (record s { collected = update s.collected token new_collected }, w')
