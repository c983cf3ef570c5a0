-- ===== src/FinancingPool/Distribution/Bounds.antt =====
-- What `distribute_yield` can take from the contract.
use kora_contract.Prelude.{ℕ, ◌+◌, ◌-◌, ◌*◌, ◌≤◌, ◌<◌, ◌≡◌, ap, ◌∙◌, unwrap_or, arith}
use native.Mathlib.Nat.{mul-le-mul_left}
use kora_contract.Prelude.Int.{ℤ, pos, ltb_ℤ}
use kora_contract.Prelude.Int128.{i128_half, saturating_sub}
use kora_contract.Prelude.Results.{Ensures, Ensures-bind, Ensures-step, Ensures-if, ok_or}
use kora_contract.Shared.Host.{Address}
use kora_contract.Shared.Token.{Token, IsToken}
use kora_contract.FinancingPool.State.{PoolState, FinancingPoolError}
use kora_contract.FinancingPool.Guards.{positions_of}
use kora_contract.FinancingPool.Distribution.{pay_positions, pay_treasury, distribute_yield}
use kora_contract.FinancingPool.Distribution.Payouts.{
  bps_total, AreSplit, paid-le, saturating_sub-rest, pay_positions-le,
}

-- The positions of a pool share no more than the whole, and each has a contribution, of which its
-- shares are parts.
pub record IsShared (s : PoolState) (invoice_id : ℕ) : Type 0 where
  pub total : bps_total (positions_of s invoice_id) ≤ 10_000
  pub split : AreSplit s.position_shares invoice_id (positions_of s invoice_id)

abbrev cut_of : PoolState → ℕ → ℤ
cut_of s invoice_id = unwrap_or (s.penalty_treasury_cut invoice_id) (pos 0)

pay_treasury-le :
    {W : Type 0} (t : Token W) (law : IsToken t) (me token : Address) (s : PoolState) (k : ℕ)
    (w : W)
    → Ensures
        (λ w'. t.balance w token me ≤ t.balance w' token me + k)
        (pay_treasury t me token s (pos k) w)
unfolding pay_treasury
pay_treasury-le t law me token s k w =
    Ensures-if _ (ltb_ℤ (pos 0) (pos k)) _ _
      (λ some_cut.
        Ensures-step _ (ok_or s.treasury FinancingPoolError.not_initialized) _
          (λ a e. paid-le t law me token w a (pos k)))
      (λ no_cut. omega arith)

-- For a token that moves what it is asked to: where the positions of the pool share at most ten
-- thousand basis points, the shares of each amount to at most its contribution, which is positive, and
-- the treasury's cut is at most the amount to be distributed, which is an i128, a distribution takes from the
-- contract at most that amount.
pub distribute_yield-le :
    {W : Type 0} (t : Token W) (law : IsToken t) (me token : Address) (s : PoolState) (w : W)
    (invoice_id n k : ℕ)
    → IsShared s invoice_id
    → cut_of s invoice_id ≡ pos k
    → k ≤ n
    → n < i128_half
    → Ensures
        (λ q. t.balance w token me ≤ t.balance q.1 token me + n)
        (distribute_yield t me token s w invoice_id (pos n))
unfolding distribute_yield
distribute_yield-le t law me token s w invoice_id n k h cut le small =
    let left : saturating_sub (pos n) (cut_of s invoice_id) ≡ pos (n - k) =
      ap (saturating_sub (pos n)) cut ∙ saturating_sub-rest t law me token n k le small in
    Ensures-bind (λ w1. t.balance w token me ≤ t.balance w1 token me + k) _
      (pay_treasury t me token s (cut_of s invoice_id) w) _
      (λ w1 paid.
        Ensures-bind
          (λ q.
            t.balance w1 token me * 10_000
            ≤ t.balance q.0 token me * 10_000 + (n - k) * bps_total (positions_of s invoice_id))
          _
          (pay_positions t me token s.position_shares invoice_id
            (saturating_sub (pos n) (cut_of s invoice_id)) (positions_of s invoice_id) w1 (pos 0))
          _
          (λ q rest.
            let whole : (n - k) * bps_total (positions_of s invoice_id) ≤ (n - k) * 10_000 =
              mul-le-mul_left (n - k) h.total in
            omega (arith, paid, rest, whole, le))
          (rw left (
            pay_positions-le t law me token s.position_shares invoice_id (n - k)
              (positions_of s invoice_id) w1 (pos 0) (omega (arith, small)) h.total h.split)))
      (rw cut (pay_treasury-le t law me token s k w))
