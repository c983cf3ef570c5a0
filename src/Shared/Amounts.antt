-- ===== src/Shared/Amounts.antt =====
-- Amounts: the shares by basis points and the conversions between decimals.
use kora_contract.Prelude.{
  ℕ, ◌+◌, ◌-◌, ◌*◌, ◌/◌, ◌^◌, ◌≤◌, ◌<◌, ◌≡◌, ◌∙◌, sym, ap, inl, inr, arith, true, ltb, ◌==◌,
  Bool-cases,
}
use native.Mathlib.Nat.{
  mul-le-mul_left, mul-add, pow-le-pow_right, div-mul-le_self, lt-div-mul-add, mul-div_cancel,
  one-le-pow, div-le_self,
}
use kora_contract.Prelude.Int.{ℤ, pos}
use kora_contract.Prelude.Int128.{i128_half}
use kora_contract.Prelude.Results.{Result, ok, err}
use kora_contract.Shared.Errors.{CommonError}
use kora_contract.Shared.Validation.{bps_of, require_within_max_amount}
use kora_contract.Shared.Decimals.{normalize_amount, denormalize_amount, scale_up, scale_down}

-- A share of at most the whole of an amount whose ten-thousandfold is an i128 is computed, is at most
-- the amount, and is the exact share rounded down.
pub bps_of-floor :
    (n bps : ℕ)
    → bps ≤ 10_000
    → n * 10_000 < i128_half
    → (f : ℕ) × (bps_of (pos n) bps ≡ ok (pos f))
      × (f ≤ n)
      × (f * 10_000 ≤ n * bps)
      × (n * bps < f * 10_000 + 10_000)
unfolding bps_of
bps_of-floor n bps le small =
    let product : n * bps ≤ n * 10_000 = mul-le-mul_left n le in
    (n * bps / 10_000, ground (arith, product), omega (arith, product), omega arith, omega arith)

-- An amount that the ceiling for amounts lets pass, although its ten-thousandfold is not an i128: the
-- whole share of it, which is the amount, is refused as an overflow.
pub bps_of-overflow :
    (n : ℕ)
    → i128_half ≤ n * 10_000
    → require_within_max_amount (pos n) ≡ ok tt
    → bps_of (pos n) 10_000 ≡ err CommonError.arithmetic_overflow
unfolding bps_of
bps_of-overflow n large pass = ground arith

-- Two shares that are rounded on their own never exceed the share of both, and miss it by at most one.
pub bps_of-split :
    (n a b : ℕ)
    → a + b ≤ 10_000
    → n * 10_000 < i128_half
    → (x : ℕ) × (y : ℕ) × (z : ℕ) × (bps_of (pos n) a ≡ ok (pos x))
      × (bps_of (pos n) b ≡ ok (pos y))
      × (bps_of (pos n) (a + b) ≡ ok (pos z))
      × (x + y ≤ z)
      × (z ≤ x + y + 1)
bps_of-split n a b le small =
    let (x, ex, x-le, x-lo, x-hi) = bps_of-floor n a (omega arith) small in
    let (y, ey, y-le, y-lo, y-hi) = bps_of-floor n b (omega arith) small in
    let (z, ez, z-le, z-lo, z-hi) = bps_of-floor n (a + b) le small in
    let product : n * (a + b) ≡ n * a + n * b = mul-add n a b in
    (x, y, z, ex, ey, ez, omega (arith, product), omega (arith, product))

scale_small : (e : ℕ) → e ≤ 38 → (1 ≤ 10 ^ e) × (10 ^ e < i128_half)
scale_small e le =
    let hi : 10 ^ e ≤ 10 ^ 38 = pow-le-pow_right {n = 10} (omega arith) {i = e} {j = 38} le in
    (one-le-pow e 10 (omega arith), omega (arith, hi))

-- The two conversions by a power of ten that is an i128.
module _ (e : ℕ) (le : e ≤ 38) (n : ℕ) where
  scale_up-ok :
      (v : ℤ) → scale_up (pos n) e ≡ ok v → (v ≡ pos (n * 10 ^ e)) × (n * 10 ^ e < i128_half)
  scale_up-ok v h = let small = (scale_small e le).1 in ground (arith, small)

  scale_up-small : n * 10 ^ e < i128_half → scale_up (pos n) e ≡ ok (pos (n * 10 ^ e))
  scale_up-small small' = let small = (scale_small e le).1 in ground (arith, small)

  scale_down-small : n < i128_half → scale_down (pos n) e ≡ ok (pos (n / 10 ^ e))
  scale_down-small h =
      let small = scale_small e le in
      let less = div-le_self n (10 ^ e) in ground (arith, small, less)

same_decimals :
    (n d : ℕ) (v : ℤ)
    → (d == 7) ≡ true
    → normalize_amount (pos n) d ≡ ok v
    → denormalize_amount v d ≡ ok (pos n)
unfolding normalize_amount denormalize_amount
same_decimals n d v same e = ground arith

module _ (a : ℤ) (d : ℕ) where
  normalize_below : ltb d 7 ≡ true → normalize_amount a d ≡ scale_up a (7 - d)
  unfolding normalize_amount
  normalize_below h = ground arith

  denormalize_below : ltb d 7 ≡ true → denormalize_amount a d ≡ scale_down a (7 - d)
  unfolding denormalize_amount
  denormalize_below h = ground arith

  normalize_above : 7 < d → normalize_amount a d ≡ scale_down a (d - 7)
  unfolding normalize_amount
  normalize_above h = ground arith

  denormalize_above : 7 < d → denormalize_amount a d ≡ scale_up a (d - 7)
  unfolding denormalize_amount
  denormalize_above h = ground arith

ok-injective : {x y : ℤ} (m : Result CommonError ℤ) → m ≡ ok x → m ≡ ok y → x ≡ y
ok-injective m e e' = ground arith

-- What `normalize_amount` turns into stroops comes back, up to what seven decimals cannot hold: the
-- amount that comes back is not more, and misses less than one unit of the seventh decimal.
pub denormalize_amount-normalize_amount :
    (n d : ℕ) (v : ℤ)
    → n < i128_half
    → d ≤ 45
    → normalize_amount (pos n) d ≡ ok v
    → (k : ℕ) × (denormalize_amount v d ≡ ok (pos k)) × (k ≤ n) × (n < k + 10 ^ (d - 7))
denormalize_amount-normalize_amount n d v small le e = elim (Bool-cases (d == 7)) [
  | inl same ↦ (
    n,
    same_decimals n d v same e,
    omega arith,
    omega (arith, one-le-pow (d - 7) 10 (omega arith)),
  )
  | inr other ↦ elim (Bool-cases (ltb d 7)) [
    | inl below ↦
        let up =
          scale_up-ok (7 - d) (omega arith) n v (sym (normalize_below (pos n) d below) ∙ e) in
        (
          n,
          denormalize_below v d below
              ∙ ap (λ (x : ℤ). scale_down x (7 - d)) up.0
              ∙ scale_down-small (7 - d) (omega arith) (n * 10 ^ (7 - d)) up.1
              ∙ ap (λ (x : ℕ). ok (pos x)) (mul-div_cancel n (one-le-pow (7 - d) 10 (omega arith))),
          omega arith,
          omega (arith, one-le-pow (d - 7) 10 (omega arith)),
        )
    | inr above ↦
        let over : 7 < d = ground arith in
        let down = sym (normalize_above (pos n) d over) ∙ e in
        let down' = scale_down-small (d - 7) (omega arith) n small in
        let lo = div-mul-le_self n (10 ^ (d - 7)) in
        (
          n / 10 ^ (d - 7) * 10 ^ (d - 7),
          denormalize_above v d over
              ∙ ap (λ (x : ℤ). scale_up x (d - 7))
                  (ok-injective (scale_down (pos n) (d - 7)) down down')
              ∙ scale_up-small (d - 7) (omega arith) (n / 10 ^ (d - 7)) (omega (arith, lo)),
          lo,
          lt-div-mul-add (one-le-pow (d - 7) 10 (omega arith)),
        )
  ]
]
