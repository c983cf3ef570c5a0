-- ===== src/FinancingPool/Distribution/Payouts.antt =====
-- What the payouts of the positions take from the contract (pay_positions, pay_investor and pay_shares).
use kora_contract.Prelude.{
  ℕ, ◌+◌, ◌-◌, ◌*◌, ◌≤◌, ◌<◌, ◌≡◌, refl, ap, ◌∙◌, Option, some, List, [], ◌∷◌, if◌then◌else◌,
  unwrap_or, arith,
}
use native.Mathlib.Nat.{mul-le-mul_left, mul-le-mul_right, le_of_mul-le-mul_right}
use kora_contract.Prelude.Int.{ℤ, pos, pos_part, ltb_ℤ}
use kora_contract.Prelude.Int128.{i128_half, checked_sub, saturating_add, saturating_sub}
use kora_contract.Prelude.Results.{
  Ensures, Ensures-bind, Ensures-mono, Ensures-intro, Ensures-step, Ensures-if, unwrap-ok, ok_or-ok,
  ok_or, lift_err, lift_err-ok, ok,
}
use kora_contract.Prelude.Store.{Map, values}
use kora_contract.Shared.Host.{Address}
use kora_contract.Shared.Token.{Token, IsToken, transfer}
use kora_contract.Shared.Types.{Position, PositionShare}
use kora_contract.Shared.Decimals.{bps_of_normalized}
use kora_contract.FinancingPool.State.{FinancingPoolError, from_common}
use kora_contract.FinancingPool.Distribution.{
  part_of, pay_shares, pay_investor, pay_positions, total_amount,
}
use kora_contract.FinancingPool.Distribution.Rounding.{part_of-le, bps_of_normalized-le}

-- The sum of the amounts of the shares.
abbrev pub sum_of : List PositionShare → ℕ
sum_of [] = 0
sum_of (share ∷ shares) = pos_part share.amount + sum_of shares

-- The positions, with the shares of basis points in all.
abbrev pub bps_total : Map Position → ℕ
bps_total [] = 0
bps_total ((investor, position) ∷ positions) = position.share_bps + bps_total positions

-- Each position has a contribution, of which its shares are parts.
pub data AreSplit (shares : ℕ → Address → Option (Map PositionShare)) (invoice_id : ℕ)
    : Map Position → Type 0 where
  none_left : AreSplit shares invoice_id []
  one_more :
      {investor : Address} {position : Position} {positions : Map Position} (c : ℕ)
      → position.contributed ≡ pos c
      → 1 ≤ c
      → sum_of (values (unwrap_or (shares invoice_id investor) [])) ≤ c
      → AreSplit shares invoice_id positions
      → AreSplit shares invoice_id ((investor, position) ∷ positions)

module _ {W : Type 0} (t : Token W) (law : IsToken t) (me token : Address) where
  -- A transfer out takes at most its amount.
  transfer-le :
      (w w' : W) (b : Address) (n : ℤ)
      → t.transfer w token me b n ≡ some w'
      → t.balance w token me ≤ t.balance w' token me + pos_part n
  transfer-le w w' b n e = let moved = law.moved w w' token me b n e me in ground (arith, moved)

  -- After the shares that amount to `a`, with `dist` distributed.
  record Shared (p c a dist : ℕ) (w w' : W) (d' : ℤ) : Type 0 where
    out : ℕ
    is : d' ≡ pos out
    proportion : out * c ≤ a * p
    kept : t.balance w token me + dist ≤ t.balance w' token me + out

  -- One more part does not exceed the payout.
  part_fits :
      (p c a dist n amount rest : ℕ)
      → 1 ≤ c
      → a + (amount + rest) ≤ c
      → dist * c ≤ a * p
      → n * c ≤ amount * p
      → (dist + n ≤ p) × ((dist + n) * c ≤ (a + amount) * p)
  part_fits p c a dist n amount rest one le d e =
      let bound : (a + amount) * p ≤ c * p = mul-le-mul_right p (omega (arith, le)) in
      let sum : (dist + n) * c ≤ (a + amount) * p = omega (arith, d, e) in
      (le_of_mul-le-mul_right {k = c} (omega (arith, bound, sum)) one, sum)

  saturating_add-sum :
      (dist n p : ℕ) (v : ℤ)
      → v ≡ pos n
      → dist + n ≤ p
      → p < i128_half
      → saturating_add (pos dist) v ≡ pos (dist + n)
  saturating_add-sum dist n p v e le small = ground (arith, e)

  next-Shared :
      (p c a a' dist n : ℕ) (w w1 w' : W) (d' : ℤ)
      → a ≡ a'
      → t.balance w token me ≤ t.balance w1 token me + n
      → Shared p c a (dist + n) w1 w' d'
      → Shared p c a' dist w w' d'
  next-Shared p c a a' dist n w w1 w' d' same paid h = record {
    out = h.out;
    is = h.is;
    proportion = omega (arith, h.proportion, ap (λ (x : ℕ). x * p) same);
    kept = omega (arith, paid, h.kept);
  }

  pay_shares-Shared :
      (shares : List PositionShare) (p c a dist : ℕ) (w : W)
      → 1 ≤ c
      → p < i128_half
      → a + sum_of shares ≤ c
      → dist * c ≤ a * p
      → Ensures
          (λ q. Shared p c (a + sum_of shares) dist w q.0 q.1)
          (pay_shares t me token shares (pos p) (pos c) w (pos dist))
  unfolding pay_shares
  pay_shares-Shared [] p c a dist w one small le d = record {
    out = dist;
    is = refl;
    proportion = omega (arith, d);
    kept = omega arith;
  }
  pay_shares-Shared (share ∷ shares) p c a dist w one small le d =
      Ensures-step _
        (ok_or (part_of share.amount (pos p) (pos c)) FinancingPoolError.arithmetic_overflow) _
        (λ v e1. Ensures-step _ (transfer t w token me share.owner v) _ (λ w' e2.
          let sent = unwrap-ok (t.transfer w token me share.owner v) e2 in
          let part =
            part_of-le share.amount p c v (ok_or-ok (part_of share.amount (pos p) (pos c)) _ e1)
              (law.nonneg w w' token me share.owner v sent) in
          let fits =
            part_fits p c a dist (pos_part v) (pos_part share.amount) (sum_of shares) one le d
              part.1 in
          let sum = saturating_add-sum dist (pos_part v) p v part.0 fits.0 small in
          let rest =
            pay_shares-Shared shares p c (a + pos_part share.amount) (dist + pos_part v) w' one
              small (omega (arith, le)) fits.1 in
          Ensures-mono
            (λ q.
              Shared p c (a + pos_part share.amount + sum_of shares) (dist + pos_part v) w' q.0 q.1)
            _ _
            (λ q.
              next-Shared p c _ _ dist (pos_part v) w w' q.0 q.1 (omega arith)
                (transfer-le w w' share.owner v sent))
            (rw sum rest)))

  pub paid-le :
      (w : W) (b : Address) (n : ℤ)
      → Ensures {E = FinancingPoolError}
          (λ w'. t.balance w token me ≤ t.balance w' token me + pos_part n)
          (transfer t w token me b n)
  paid-le w b n =
      Ensures-intro _ _ (λ w' e. transfer-le w w' b n (unwrap-ok (t.transfer w token me b n) e))

  pub saturating_sub-rest :
      (p out : ℕ) → out ≤ p → p < i128_half → saturating_sub (pos p) (pos out) ≡ pos (p - out)
  saturating_sub-rest p out le small = ground arith

  -- What the shares left is paid to the investor.
  pay_rest-le :
      (shares : List PositionShare) (investor : Address) (p c : ℕ) (w w1 : W) (d : ℤ)
      → 1 ≤ c
      → p < i128_half
      → sum_of shares ≤ c
      → Shared p c (0 + sum_of shares) 0 w w1 d
      → Ensures {E = FinancingPoolError}
          (λ w'. t.balance w token me ≤ t.balance w' token me + p)
          (if ltb_ℤ (pos 0) (saturating_sub (pos p) d)
            then transfer t w1 token me investor (saturating_sub (pos p) d)
            else ok w1)
  pay_rest-le shares investor p c w w1 d one small le h =
      let bound : (0 + sum_of shares) * p ≤ c * p = mul-le-mul_right p (omega (arith, le)) in
      let fits : h.out ≤ p =
        le_of_mul-le-mul_right {k = c} (omega (arith, bound, h.proportion)) one in
      let left : saturating_sub (pos p) d ≡ pos (p - h.out) =
        ap (saturating_sub (pos p)) h.is ∙ saturating_sub-rest p h.out fits small in
      Ensures-if _ (ltb_ℤ (pos 0) (saturating_sub (pos p) d)) _ _
        (λ some_left.
          Ensures-mono
            (λ w'.
              t.balance w1 token me ≤ t.balance w' token me + pos_part (saturating_sub (pos p) d))
            _ _ (λ w' paid. omega (arith, paid, ap pos_part left, h.kept, fits))
            (paid-le w1 investor (saturating_sub (pos p) d)))
        (λ none_left. omega (arith, h.kept, fits))

  -- A position is paid at most its payout, where its shares amount to at most its contribution.
  pay_investor-le :
      (investor : Address) (shares : List PositionShare) (p c : ℕ) (w : W)
      → 1 ≤ c
      → p < i128_half
      → sum_of shares ≤ c
      → Ensures
          (λ w'. t.balance w token me ≤ t.balance w' token me + p)
          (pay_investor t me token investor shares (pos p) (pos c) w)
  unfolding pay_investor
  pay_investor-le investor shares p c w one small le =
      Ensures-if _ (ltb_ℤ (pos 0) (total_amount shares (pos 0))) _ _
        (λ split.
          Ensures-bind (λ q. Shared p c (0 + sum_of shares) 0 w q.0 q.1) _ _ _
            (λ q h. pay_rest-le shares investor p c w q.0 q.1 one small le h)
            (pay_shares-Shared shares p c 0 0 w one small (omega (arith, le)) (omega arith)))
        (λ whole. paid-le w investor (pos p))

  payout_fits : (n bps p : ℕ) → n < i128_half → bps ≤ 10_000 → p * 10_000 ≤ n * bps → p < i128_half
  payout_fits n bps p small le e =
      let bound = mul-le-mul_left n le in omega (arith, bound, small, e)

  pub pay_positions-le :
      (shares : ℕ → Address → Option (Map PositionShare)) (invoice_id n : ℕ)
      (positions : Map Position) (w : W) (contributed : ℤ)
      → n < i128_half
      → bps_total positions ≤ 10_000
      → AreSplit shares invoice_id positions
      → Ensures
          (λ q.
            t.balance w token me * 10_000
            ≤ t.balance q.0 token me * 10_000 + n * bps_total positions)
          (pay_positions t me token shares invoice_id (pos n) positions w contributed)
  unfolding pay_positions
  pay_positions-le shares invoice_id n [] w contributed small all h = omega arith
  pay_positions-le shares invoice_id n ((investor, position) ∷ positions) w contributed small all
        (one_more c is one le h) =
      Ensures-step _
        (lift_err from_common (bps_of_normalized (pos n) position.share_bps (t.decimals token))) _
        (λ v e1.
          Ensures-step _
            (ok_or (checked_sub v position.contributed) FinancingPoolError.arithmetic_overflow) _
            (λ y e2.
              let share =
                bps_of_normalized-le n position.share_bps (t.decimals token) v
                  (lift_err-ok from_common _ e1) in
              let fits =
                payout_fits n position.share_bps (pos_part v) small (omega (arith, all)) share.1 in
              Ensures-bind (λ w'. t.balance w token me ≤ t.balance w' token me + pos_part v) _
                (pay_investor t me token investor
                  (values (unwrap_or (shares invoice_id investor) [])) v position.contributed w)
                _
                (λ w' paid.
                  Ensures-mono
                    (λ q.
                      t.balance w' token me * 10_000
                      ≤ t.balance q.0 token me * 10_000 + n * bps_total positions)
                    _ _ (λ q rest. omega (arith, paid, rest, share.1))
                    (pay_positions-le shares invoice_id n positions w'
                      (saturating_add contributed position.contributed) small (omega (arith, all))
                      h))
                (rw (share.0, is)
                  (pay_investor-le investor (values (unwrap_or (shares invoice_id investor) []))
                    (pos_part v) c w one fits le))))
