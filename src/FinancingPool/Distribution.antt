-- ===== src/FinancingPool/Distribution.antt =====
-- `distribute_yield`: what a pool pays to the treasury and to its investors.
pub mod Rounding
pub mod Payouts
pub mod Bounds
use kora_contract.Prelude.{
  ℕ, Bool, true, false, Option, none, some, List, [], ◌∷◌, if◌then◌else◌, unwrap_or,
}
use kora_contract.Prelude.Int.{ℤ, pos, ltb_ℤ}
use kora_contract.Prelude.Int128.{
  checked_mul, checked_div, checked_sub, saturating_add, saturating_sub,
}
use kora_contract.Prelude.Results.{ok, err, ◌>>=◌, ◌>>◌, ok_or, lift_err}
use kora_contract.Prelude.Store.{Map, update, remove, values}
use kora_contract.Shared.Host.{Address}
use kora_contract.Shared.Token.{Token, transfer}
use kora_contract.Shared.Types.{Position, PositionShare}
use kora_contract.Shared.Decimals.{bps_of_normalized}
use kora_contract.FinancingPool.State.{FinancingPoolError, Call, PoolState, from_common}
use kora_contract.FinancingPool.Guards.{positions_of}

-- A part of the payout of a position, by the amount of the share.
abbrev pub part_of : ℤ → ℤ → ℤ → Option ℤ
part_of amount payout contributed = elim (checked_mul amount payout) [
  | none ↦ none
  | some v ↦ checked_div v contributed
]

abbrev pub total_amount : List PositionShare → ℤ → ℤ
total_amount [] total = total
total_amount (share ∷ shares) total = total_amount shares (saturating_add total share.amount)

-- The token `token` of the ledger, paid by the contract `me`.
module _ {W : Type 0} (t : Token W) (me token : Address) where
  -- The loop over the shares of a position, on the ledger and the sum of what was paid.
  unfoldable pub pay_shares : List PositionShare → ℤ → ℤ → W → ℤ → Call (W × ℤ)
  pay_shares [] payout contributed w distributed = ok (w, distributed)
  pay_shares (share ∷ shares) payout contributed w distributed = do
    share_payout ←
        ok_or (part_of share.amount payout contributed) FinancingPoolError.arithmetic_overflow
    w' ← transfer t w token me share.owner share_payout
    pay_shares shares payout contributed w' (saturating_add distributed share_payout)

  -- The payment of one investor: to the owners of the shares, with what is left to the investor, or all
  -- of it to the investor.
  unfoldable pub pay_investor : Address → List PositionShare → ℤ → ℤ → W → Call W
  pay_investor investor shares payout contributed w =
      if ltb_ℤ (pos 0) (total_amount shares (pos 0))
      then (do
        (w', distributed) ← pay_shares shares payout contributed w (pos 0)
        (if ltb_ℤ (pos 0) (saturating_sub payout distributed)
            then transfer t w' token me investor (saturating_sub payout distributed)
            else ok w'))
      else transfer t w token me investor payout

  -- The loop over the positions, on the ledger and the sum of the contributions.
  unfoldable pub pay_positions :
      (ℕ → Address → Option (Map PositionShare)) → ℕ → ℤ → Map Position → W → ℤ → Call (W × ℤ)
  pay_positions shares invoice_id investor_total [] w total_contributed = ok (w, total_contributed)
  pay_positions shares invoice_id investor_total ((investor, position) ∷ positions) w
        total_contributed =
      do
        payout ←
            lift_err from_common
              (bps_of_normalized investor_total position.share_bps (t.decimals token))
        yield_amount ←
            ok_or (checked_sub payout position.contributed) FinancingPoolError.arithmetic_overflow
        w' ←
            pay_investor investor (values (unwrap_or (shares invoice_id investor) [])) payout
              position.contributed w
        pay_positions shares invoice_id investor_total positions w'
            (saturating_add total_contributed position.contributed)

  -- The treasury's part of the late penalties. The treasury's own account of its fees is not kept here.
  unfoldable pub pay_treasury : PoolState → ℤ → W → Call W
  pay_treasury s treasury_cut w =
      if ltb_ℤ (pos 0) treasury_cut
      then (do
        treasury ← ok_or s.treasury FinancingPoolError.not_initialized
        transfer t w token me treasury treasury_cut)
      else ok w

  -- The storage and the ledger after the payments.
  unfoldable pub distribute_yield : PoolState → W → ℕ → ℤ → Call (PoolState × W)
  distribute_yield s w invoice_id total_repaid = do
    let treasury_cut = unwrap_or (s.penalty_treasury_cut invoice_id) (pos 0)
    w1 ← pay_treasury s treasury_cut w
    (w2, total_contributed) ←
        pay_positions s.position_shares invoice_id (saturating_sub total_repaid treasury_cut)
          (positions_of s invoice_id) w1 (pos 0)
    ok (
      record s {
        penalty_treasury_cut = remove s.penalty_treasury_cut invoice_id;
        aggregate_funded =
            update s.aggregate_funded token
              (saturating_sub (unwrap_or (s.aggregate_funded token) (pos 0)) total_contributed);
      },
      w2,
    )
