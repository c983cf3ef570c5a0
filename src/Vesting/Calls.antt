-- ===== src/Vesting/Calls.antt =====
-- contracts/vesting/src/lib.rs: grants that vest over time. The token is an argument. The code calls
-- `calculate_vested_at(grant, at_time)` and declares its body as the first `calculate_vested`, which
-- reads an `at_time` that it does not have: the body stands here under the name that is called.
use kora_contract.Prelude.{
  ℕ, ◌+◌, ◌-◌, Bool, true, false, Option, none, some, ltb, leb, ◌==◌, if◌then◌else◌, unwrap_or,
  is_some,
}
use kora_contract.Prelude.Int.{ℤ, pos, leb_ℤ}
use kora_contract.Prelude.Int128.{checked_mul, checked_div, checked_add, checked_sub, u64_limit}
use kora_contract.Prelude.Results.{
  Result, ok, ◌>>=◌, ◌>>◌, guard, refuse_if, ok_or, lift_err, assert_host,
}
use kora_contract.Prelude.Store.{Store, update}
use kora_contract.Shared.Host.{Env, Address, Bytes, require_auth}
use kora_contract.Shared.Errors.{CommonError}
use kora_contract.Shared.Token.{Token, transfer}
use kora_contract.Shared.Validation.{require_non_negative_amount, require_not_self}

pub data VestingError : Type 0 where
  already_initialized not_admin not_initialized invalid_address invalid_amount
        invalid_vesting_schedule :
      VestingError
  grant_already_exists grant_not_found insufficient_vested_balance grant_already_revoked :
      VestingError
  arithmetic_overflow no_upgrade_proposed upgrade_timelock_not_elapsed : VestingError

abbrev vesting_error : CommonError → VestingError
vesting_error CommonError.invalid_amount = VestingError.invalid_amount
vesting_error CommonError.invalid_address = VestingError.invalid_address
vesting_error CommonError.arithmetic_overflow = VestingError.arithmetic_overflow
vesting_error _ = VestingError.invalid_amount

abbrev pub Call : Type 0 → Type 0
Call A = Result VestingError A

pub record VestingGrant : Type 0 where
  pub beneficiary : Address
  pub total_amount : ℤ
  pub start_time : ℕ
  pub cliff_duration : ℕ
  pub vesting_duration : ℕ
  pub released_amount : ℤ
  pub revoked : Bool
  pub revoked_at : Option ℕ

pub record VestingState : Type 0 where
  pub admin : Option Address
  pub token_address : Option Address
  pub grant : Store VestingGrant
  pub upgrade_proposal : Option (Bytes × ℕ)

unfoldable pub require_admin : VestingState → Address → Call (Unit {0})
require_admin s addr = do
  admin ← ok_or s.admin VestingError.not_initialized
  guard (admin == addr) VestingError.not_admin

-- A grant that is revoked vests no further.
abbrev pub effective_time : VestingGrant → ℕ → ℕ
effective_time grant at_time = if grant.revoked then unwrap_or grant.revoked_at at_time else at_time

abbrev pub proportion : ℤ → ℕ → ℕ → Option ℤ
proportion total elapsed duration = elim (checked_mul total (pos elapsed)) [
  | none ↦ none
  | some v ↦ checked_div v (pos duration)
]

unfoldable pub calculate_vested_at : VestingGrant → ℕ → Call ℤ
calculate_vested_at grant at_time =
    let time = effective_time grant at_time in
    let elapsed = time - grant.start_time in
    if ltb time grant.start_time
    then ok (pos 0)
    else if ltb elapsed grant.cliff_duration
    then ok (pos 0)
    else if leb grant.vesting_duration elapsed
    then ok grant.total_amount
    else ok_or (proportion grant.total_amount elapsed grant.vesting_duration)
        VestingError.arithmetic_overflow

unfoldable pub initialize : Env → VestingState → Address → Address → Call VestingState
initialize env s admin token = do
  refuse_if (is_some s.admin) VestingError.already_initialized
  lift_err vesting_error (require_not_self env admin)
  lift_err vesting_error (require_not_self env token)
  ok (record s { admin = some admin; token_address = some token })

unfoldable pub create_grant :
    Env → VestingState → Address → Address → ℤ → ℕ → ℕ → ℕ → Call VestingState
unfolding require_admin
create_grant env s admin beneficiary total_amount start_time cliff_duration vesting_duration = do
  require_auth env admin
  require_admin s admin
  lift_err vesting_error (require_not_self env beneficiary)
  lift_err vesting_error (require_non_negative_amount total_amount)
  refuse_if (leb_ℤ total_amount (pos 0)) VestingError.invalid_amount
  refuse_if (leb vesting_duration cliff_duration) VestingError.invalid_vesting_schedule
  refuse_if (is_some (s.grant beneficiary)) VestingError.grant_already_exists
  let grant : VestingGrant = record {
    beneficiary = beneficiary;
    total_amount = total_amount;
    start_time = start_time;
    cliff_duration = cliff_duration;
    vesting_duration = vesting_duration;
    released_amount = pos 0;
    revoked = false;
    revoked_at = none;
  }
  ok (record s { grant = update s.grant beneficiary grant })

-- The storage and the ledger after the release.
unfoldable pub release :
    {W : Type 0} → Token W → Env → VestingState → W → Address → Call (VestingState × W)
release t env s w beneficiary = do
  grant ← ok_or (s.grant beneficiary) VestingError.grant_not_found
  vested ← calculate_vested_at grant env.now
  releasable ← ok_or (checked_sub vested grant.released_amount) VestingError.arithmetic_overflow
  refuse_if (leb_ℤ releasable (pos 0)) VestingError.insufficient_vested_balance
  released ← ok_or (checked_add grant.released_amount releasable) VestingError.arithmetic_overflow
  token ← ok_or s.token_address VestingError.not_initialized
  w' ← transfer t w token env.contract beneficiary releasable
  ok (
    record s { grant = update s.grant beneficiary (record grant { released_amount = released }) },
    w',
  )

unfoldable pub revoke_grant : Env → VestingState → Address → Address → Call VestingState
unfolding require_admin
revoke_grant env s admin beneficiary = do
  require_auth env admin
  require_admin s admin
  grant ← ok_or (s.grant beneficiary) VestingError.grant_not_found
  refuse_if grant.revoked VestingError.grant_already_revoked
  let grant' = record grant { revoked = true; revoked_at = some env.now }
  ok (record s { grant = update s.grant beneficiary grant' })

unfoldable pub get_vested_balance_at : VestingState → Address → ℕ → Call ℤ
get_vested_balance_at s beneficiary at_time = elim (s.grant beneficiary) [
  | none ↦ ok (pos 0)
  | some grant ↦ calculate_vested_at grant at_time
]

unfoldable pub get_vested_balance : Env → VestingState → Address → Call ℤ
get_vested_balance env s beneficiary = elim (s.grant beneficiary) [
  | none ↦ ok (pos 0)
  | some grant ↦ calculate_vested_at grant env.now
]

unfoldable pub get_unvested_balance : Env → VestingState → Address → Call ℤ
get_unvested_balance env s beneficiary = elim (s.grant beneficiary) [
  | none ↦ ok (pos 0)
  | some grant ↦ calculate_vested_at grant env.now >>= λ vested.
      ok_or (checked_sub grant.total_amount vested) VestingError.arithmetic_overflow
]

unfoldable pub get_grant : VestingState → Address → Option VestingGrant
get_grant s beneficiary = s.grant beneficiary

unfoldable pub get_admin : VestingState → Call Address
get_admin s = ok_or s.admin VestingError.not_initialized

unfoldable pub get_token : VestingState → Call Address
get_token s = ok_or s.token_address VestingError.not_initialized

unfoldable pub propose_upgrade : Env → VestingState → Address → Bytes → Call VestingState
unfolding require_admin
propose_upgrade env s admin new_wasm_hash = do
  require_auth env admin
  require_admin s admin
  ok (record s { upgrade_proposal = some (new_wasm_hash, env.now) })

-- The storage, and the code that the contract runs from then on.
unfoldable pub execute_upgrade : Env → VestingState → Address → Call (VestingState × Bytes)
unfolding require_admin
execute_upgrade env s admin = do
  require_auth env admin
  require_admin s admin
  (wasm_hash, proposed_at) ← ok_or s.upgrade_proposal VestingError.no_upgrade_proposed
  assert_host (ltb (proposed_at + 86_400) u64_limit)
  refuse_if (ltb env.now (proposed_at + 86_400)) VestingError.upgrade_timelock_not_elapsed
  ok (record s { upgrade_proposal = none }, wasm_hash)
