-- ===== src/Vesting/Shares.antt =====
-- The share of a grant that has vested, and the arithmetic of the machine that computes it (proportion).
use kora_contract.Prelude.{
  ℕ, zero, suc, ◌*◌, ◌/◌, ◌≤◌, ◌<◌, ◌≡◌, refl, Bool, true, false, some, ltb, leb, if◌then◌else◌,
  arith, inl, inr, Bool-cases,
}
use native.Mathlib.Nat.{
  mul-le-mul_left, div-mul-le_self, div-le_self, le-div_iff_mul-le, le_of_mul-le-mul_right,
}
use kora_contract.Prelude.Int.{ℤ, pos}
use kora_contract.Prelude.Int128.{i128_half}
use kora_contract.Prelude.Results.{ok, ok_or}
use kora_contract.Vesting.Calls.{VestingError, proportion, Call}

-- The schedule, without the arithmetic of the machine: nothing before the cliff, then the share of the
-- time that has passed, rounded down, and all of it from the end on.
unfoldable pub vested_share : ℕ → ℕ → ℕ → ℕ → ℕ
vested_share total cliff zero elapsed = if ltb elapsed cliff then 0 else total
vested_share total cliff (suc d) elapsed =
    if ltb elapsed cliff then 0 else if leb (suc d) elapsed then total else total * elapsed / suc d

pub vested_share-le :
    (total cliff duration elapsed : ℕ) → vested_share total cliff duration elapsed ≤ total
unfolding vested_share
vested_share-le total cliff zero elapsed = ground arith
vested_share-le total cliff (suc d) elapsed = elim (Bool-cases (leb (suc d) elapsed)) [
  | inl past ↦ ground (arith, past)
  | inr before ↦
      let product : total * elapsed ≤ total * suc d =
        mul-le-mul_left total (ground (arith, before)) in
      let quotient : total * elapsed / suc d ≤ total =
        le_of_mul-le-mul_right {k = suc d}
          (omega (arith, product, div-mul-le_self (total * elapsed) (suc d))) (omega arith) in
      ground (arith, before, quotient)
]

pub vested_share-whole :
    (total cliff duration elapsed : ℕ)
    → cliff ≤ duration
    → duration ≤ elapsed
    → vested_share total cliff duration elapsed ≡ total
unfolding vested_share
vested_share-whole total cliff zero elapsed c d = ground arith
vested_share-whole total cliff (suc e) elapsed c d = ground arith

pub vested_share_mono :
    (total cliff duration a b : ℕ)
    → a ≤ b
    → vested_share total cliff duration a ≤ vested_share total cliff duration b
unfolding vested_share
vested_share_mono total cliff zero a b le = ground arith
vested_share_mono total cliff (suc d) a b le =
    let product : total * a ≤ total * b = mul-le-mul_left total le in
    let quotient : total * a / suc d ≤ total * b / suc d =
      (le-div_iff_mul-le {k = suc d} (omega arith)).1
        (omega (arith, product, div-mul-le_self (total * a) (suc d))) in
    let most = vested_share-le total cliff (suc d) a in ground (arith, quotient, most)

-- The arithmetic of the machine, between the cliff and the end.
proportion-small :
    (total elapsed d : ℕ)
    → elapsed ≤ suc d
    → total * suc d < i128_half
    → proportion (pos total) elapsed (suc d) ≡ some (pos (total * elapsed / suc d))
proportion-small total elapsed d le small =
    let product : total * elapsed ≤ total * suc d = mul-le-mul_left total le in
    let quotient = div-le_self (total * elapsed) (suc d) in ground (arith, product, quotient)

unfoldable pub vested_by : ℤ → ℕ → ℕ → ℕ → Call ℤ
vested_by total cliff duration elapsed =
    if ltb elapsed cliff
    then ok (pos 0)
    else if leb duration elapsed
    then ok total
    else ok_or (proportion total elapsed duration) VestingError.arithmetic_overflow

pub vested_by-share :
    (total cliff duration elapsed : ℕ)
    → total * duration < i128_half
    → vested_by (pos total) cliff duration elapsed
      ≡ ok (pos (vested_share total cliff duration elapsed))
unfolding vested_by vested_share
vested_by-share total cliff zero elapsed small = ground arith
vested_by-share total cliff (suc d) elapsed small = elim (Bool-cases (leb (suc d) elapsed)) [
  | inl past ↦ ground (arith, past)
  | inr before ↦
      ground (arith, before, proportion-small total elapsed d (ground (arith, before)) small)
]

pub if_ok :
    (b : Bool) (m : Call ℤ) (n : ℕ)
    → m ≡ ok (pos n)
    → (if b then ok (pos 0) else m) ≡ ok (pos (if b then 0 else n))
if_ok true m n e = refl
if_ok false m n e = e
