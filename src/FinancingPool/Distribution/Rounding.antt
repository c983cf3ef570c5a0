-- ===== src/FinancingPool/Distribution/Rounding.antt =====
-- How the shares of a payout are rounded (part_of, bps_of_normalized).
use kora_contract.Prelude.{
  ℕ, zero, suc, ◌-◌, ◌*◌, ◌/◌, ◌^◌, ◌≤◌, ◌≡◌, some, ◌==◌, arith, ltb, Bool-cases, inl, inr,
}
use native.Mathlib.Nat.{mul-le-mul_right, le_of_mul-le-mul_right, div-mul-le_self, one-le-pow}
use kora_contract.Prelude.Int.{ℤ, pos, negsuc, pos_part, ◌≤ℤ◌}
use kora_contract.Prelude.Results.{ok}
use kora_contract.Shared.Decimals.{
  bps_of_normalized, normalize_amount, denormalize_amount, scale_up, scale_down,
}
use kora_contract.FinancingPool.Distribution.{part_of}

-- A part that can be transferred is at most its proportion of the payout.
pub part_of-le :
    (amount : ℤ) (p c : ℕ) (v : ℤ)
    → part_of amount (pos p) (pos c) ≡ some v
    → pos 0 ≤ℤ v
    → (v ≡ pos (pos_part v)) × (pos_part v * c ≤ pos_part amount * p)
part_of-le (pos a) p zero v e nonneg = ground arith
part_of-le (pos a) p (suc c) v e nonneg = ground (arith, div-mul-le_self (a * p) (suc c))
part_of-le (negsuc a) p zero v e nonneg = ground arith
part_of-le (negsuc a) p (suc c) v e nonneg = ground arith

scale_up-product : (n e : ℕ) (v : ℤ) → scale_up (pos n) e ≡ ok v → v ≡ pos (n * 10 ^ e)
scale_up-product n e v h = ground arith

scale_down-quotient : (n e : ℕ) (v : ℤ) → scale_down (pos n) e ≡ ok v → v ≡ pos (n / 10 ^ e)
scale_down-quotient n e v h = ground (arith, one-le-pow e 10 (omega arith))

-- Rounding down between two scalings does not gain.
round_up-le : (n b k : ℕ) → 1 ≤ k → n * k * b / 10_000 / k * 10_000 ≤ n * b
round_up-le n b k small =
    let outer = div-mul-le_self (n * k * b / 10_000) k in
    let inner = div-mul-le_self (n * k * b) 10_000 in
    le_of_mul-le-mul_right {k = k} (omega (arith, outer, inner)) small

round_down-le : (n b k : ℕ) → n / k * b / 10_000 * k * 10_000 ≤ n * b
round_down-le n b k =
    let inner = mul-le-mul_right k (div-mul-le_self (n / k * b) 10_000) in
    let outer = mul-le-mul_right b (div-mul-le_self n k) in omega (arith, outer, inner)

-- The scaled amount, its share and the share scaled back.
pub bps_of_normalized-le :
    (n bps d : ℕ) (v : ℤ)
    → bps_of_normalized (pos n) bps d ≡ ok v
    → (v ≡ pos (pos_part v)) × (pos_part v * 10_000 ≤ n * bps)
unfolding bps_of_normalized normalize_amount denormalize_amount
bps_of_normalized-le n bps d v e = elim (Bool-cases (d == 7)) [
  | inl same ↦ ground (arith, same, div-mul-le_self (n * bps) 10_000)
  | inr other ↦ elim (Bool-cases (ltb d 7)) [
    | inl below ↦ ground (
      arith,
      below,
      one-le-pow (7 - d) 10 (omega arith),
      round_up-le n bps (10 ^ (7 - d)) (one-le-pow (7 - d) 10 (omega arith)),
    )
    | inr above ↦ ground (
      arith,
      above,
      other,
      one-le-pow (d - 7) 10 (omega arith),
      round_down-le n bps (10 ^ (d - 7)),
    )
  ]
]
