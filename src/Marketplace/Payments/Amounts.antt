-- ===== src/Marketplace/Payments/Amounts.antt =====
-- The fee and the rest of a payment are the payment.
use mathlib.Core.Path.{◌≡◌}
use kora_contract.Prelude.{ℕ, zero, suc, ◌+◌, ◌*◌, ◌/◌, ◌≤◌, refl, Bool, true, false, some, arith}
use native.Mathlib.Nat.{
  mul-le-mul_left, le_of_mul-le-mul_right, div-mul-le_self, mul-div_cancel_left,
}
use kora_contract.Prelude.Int.{ℤ, pos, negsuc, pos_part}
use kora_contract.Prelude.Int128.{checked_sub}
use kora_contract.Prelude.Results.{ok}
use kora_contract.Shared.Validation.{safe_add, safe_mul, safe_div, safe_sub}
use kora_contract.Shared.Decimals.{bps_of_normalized}
use kora_contract.FinancingPool.Distribution.Rounding.{bps_of_normalized-le}
use kora_contract.Marketplace.Lifecycle.{◌<ℤ◌}
use kora_contract.Marketplace.Funding.{split_payment}

-- A fee at a rate of at most the whole is at most the amount.
pub fee_within :
    (m bps d : ℕ) (fee : ℤ)
    → bps ≤ 10_000
    → bps_of_normalized (pos m) bps d ≡ ok fee
    → (fee ≡ pos (pos_part fee)) × (pos_part fee ≤ m)
fee_within m bps d fee le e =
    let h = bps_of_normalized-le m bps d fee e in
    (
      h.0,
      le_of_mul-le-mul_right {k = 10_000} (omega (arith, h.1, mul-le-mul_left m le)) (omega arith),
    )

share_le : (n f m : ℕ) → f ≤ m → 1 ≤ m → n * f / m ≤ n
share_le n f m le one =
    le_of_mul-le-mul_right {k = m} (omega (arith, div-mul-le_self (n * f) m, mul-le-mul_left n le))
      one

-- The two parts of a payment.
pub split_payment_sum :
    (same : Bool) (n m f : ℕ) (net : ℤ) (q : ℤ × ℤ)
    → (same ≡ true → m ≡ n)
    → 1 ≤ m
    → f ≤ m
    → checked_sub (pos m) (pos f) ≡ some net
    → split_payment same (pos n) (pos m) (pos f) net ≡ ok q
    → pos_part (q.0) + pos_part (q.1) ≡ n
unfolding split_payment safe_mul safe_div safe_sub
split_payment_sum true n m f net q h one le e e' = ground (arith, e, e', h refl)
split_payment_sum false n (suc m) f net q h one le e e' =
    ground (arith, e', share_le n f (suc m) le one)
split_payment_sum false n zero f net q h one le e e' = absurd (omega arith)

-- The two parts of what is paid, whatever the token of the payment is.
pub payment_whole :
    (same : Bool) (n : ℕ) (la : ℤ) (b d : ℕ) (fee net : ℤ) (q : ℤ × ℤ)
    → (same ≡ true → la ≡ pos n)
    → pos 0 <ℤ la
    → b ≤ 10_000
    → bps_of_normalized la b d ≡ ok fee
    → checked_sub la fee ≡ some net
    → split_payment same (pos n) la fee net ≡ ok q
    → pos_part (q.0) + pos_part (q.1) ≡ n
payment_whole same n (pos m) b d fee net q h lt le e e1 e2 =
    let f = fee_within m b d fee le e in
    split_payment_sum same n m (pos_part fee) net q (λ t. ground (arith, h t)) (omega (arith, lt))
      f.1 (rw f.0 at e1) (rw f.0 at e2)
payment_whole same n (negsuc m) b d fee net q h lt le e e1 e2 = absurd (omega (arith, lt))

pub split_payment_same :
    (n la fee net : ℤ) (q : ℤ × ℤ)
    → split_payment true n la fee net ≡ ok q
    → (q.0 ≡ fee) × (q.1 ≡ net)
unfolding split_payment
split_payment_same n la fee net q e = ground (arith, e)

-- The first entry of a book.
pub first_entry : (n m : ℤ) → safe_add (pos 0) n ≡ ok m → m ≡ n
unfolding safe_add
first_entry (pos n) m e = ground (arith, e)
first_entry (negsuc n) m e = ground (arith, e)

-- The fee in the token of the payment, in proportion to that in the token of the listing.
pub split_payment_fee :
    (same : Bool) (n m f : ℕ) (net : ℤ) (q : ℤ × ℤ)
    → (same ≡ true → m ≡ n)
    → 1 ≤ m
    → split_payment same (pos n) (pos m) (pos f) net ≡ ok q
    → pos_part (q.0) ≡ n * f / m
unfolding split_payment safe_mul safe_div safe_sub
split_payment_fee true n m f net q h one e =
    ground (arith, e, h refl, mul-div_cancel_left f {n = m} (omega (arith, one)))
split_payment_fee false n (suc m) f net q h one e = ground (arith, e)
split_payment_fee false n zero f net q h one e = absurd (omega arith)

pub payment_fee :
    (same : Bool) (n : ℕ) (la : ℤ) (b d : ℕ) (fee net : ℤ) (q : ℤ × ℤ)
    → (same ≡ true → la ≡ pos n)
    → pos 0 <ℤ la
    → b ≤ 10_000
    → bps_of_normalized la b d ≡ ok fee
    → split_payment same (pos n) la fee net ≡ ok q
    → pos_part (q.0) ≡ n * pos_part fee / pos_part la
payment_fee same n (pos m) b d fee net q h lt le e e2 =
    let f = fee_within m b d fee le e in
    split_payment_fee same n m (pos_part fee) net q (λ t. ground (arith, h t)) (omega (arith, lt))
      (rw f.0 at e2)
payment_fee same n (negsuc m) b d fee net q h lt le e e2 = absurd (omega (arith, lt))
