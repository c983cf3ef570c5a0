-- ===== src/FinancingPool/Repayment/Penalty.antt =====
-- The late penalty: who owes it, and who is paid it.
use kora_contract.Prelude.{ℕ, ◌+◌, ◌*◌, ◌≤◌, ◌<◌, ◌≡◌, true, false, none, unwrap_or}
use kora_contract.Prelude.Int.{ℤ, pos}
use kora_contract.Prelude.Int128.{i128_half}
use kora_contract.Prelude.Results.{ok}
use kora_contract.Prelude.Store.{update}
use kora_contract.Shared.Host.{Env, Address}
use kora_contract.Shared.Token.{Token}
use kora_contract.FinancingPool.Guards.{positions_of}
use kora_contract.FinancingPool.Distribution.{pay_treasury, pay_positions}
use kora_contract.Shared.Types.{Pool}
use kora_contract.FinancingPool.State.{PoolState}

abbrev pub split_of : PoolState → ℕ
split_of s = unwrap_or s.late_penalty_treasury_split_bps 5_000

-- A late pool whose penalty is not applied yet, with its amounts.
pub record IsLate (env : Env) (s : PoolState) (id : ℕ) (pool : Pool)
    (penalty_bps due_date face owed : ℕ) : Type 0 where
  pub face_is : pool.face_value ≡ pos face
  pub owed_is : pool.total_owed ≡ pos owed
  pub no_cut : s.penalty_treasury_cut id ≡ none
  pub fresh : pool.penalty_applied ≡ false
  pub positive : 1 ≤ penalty_bps
  pub rate : penalty_bps ≤ 10_000
  pub split : split_of s ≤ 10_000
  pub late : due_date < env.now
  pub face_small : face * 10_000 < i128_half
  pub owed_small : owed + face < i128_half

-- The storage and the pool with a penalty `p`, of which the treasury gets `c`.
abbrev pub with_cut : PoolState → ℕ → ℕ → PoolState
with_cut s id c = record s { penalty_treasury_cut = update s.penalty_treasury_cut id (pos c) }

abbrev pub with_penalty : Pool → ℕ → Pool
with_penalty pool owed = record pool { total_owed = pos owed; penalty_applied = true }

-- A distribution of `n` for a pool whose treasury's cut is `c` and that leaves `rest` for the investors.
pub record IsDivided {W : Type 0} (t : Token W) (me token : Address) (s : PoolState) (w : W)
    (id c rest : ℕ) (s' : PoolState) (w' : W) : Type 0 where
  pub between : W
  pub contributed : ℤ
  pub to_treasury : pay_treasury t me token s (pos c) w ≡ ok between
  pub to_investors :
      pay_positions t me token s.position_shares id (pos rest) (positions_of s id) between (pos 0)
      ≡ ok (w', contributed)
  pub cleared : s'.penalty_treasury_cut id ≡ none
