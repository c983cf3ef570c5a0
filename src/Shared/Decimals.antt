-- ===== src/Shared/Decimals.antt =====
-- contracts/shared/src/validation.rs: amounts between a token's decimals and the seven of a stroop.
use kora_contract.Prelude.{ℕ, ◌-◌, ◌^◌, ltb, ◌==◌, if◌then◌else◌}
use kora_contract.Prelude.Int.{ℤ, pos, ltb_ℤ}
use kora_contract.Prelude.Int128.{checked, checked_mul, checked_div}
use kora_contract.Prelude.Results.{Result, ok, ◌>>=◌, ◌>>◌, refuse_if, ok_or}
use kora_contract.Shared.Errors.{CommonError}

abbrev pub standard_decimals : ℕ
standard_decimals = 7

-- `10i128.checked_pow(e).ok_or(..)`
abbrev pub scale_of : ℕ → Result CommonError ℤ
scale_of e = ok_or (checked (pos (10 ^ e))) CommonError.arithmetic_overflow

abbrev pub scale_up : ℤ → ℕ → Result CommonError ℤ
scale_up amount e = do
  scale ← scale_of e
  ok_or (checked_mul amount scale) CommonError.arithmetic_overflow

abbrev pub scale_down : ℤ → ℕ → Result CommonError ℤ
scale_down amount e = do
  scale ← scale_of e
  ok_or (checked_div amount scale) CommonError.arithmetic_overflow

unfoldable pub normalize_amount : ℤ → ℕ → Result CommonError ℤ
normalize_amount amount token_decimals =
    if token_decimals == standard_decimals
    then ok amount
    else if ltb token_decimals standard_decimals
    then scale_up amount (standard_decimals - token_decimals)
    else scale_down amount (token_decimals - standard_decimals)

unfoldable pub denormalize_amount : ℤ → ℕ → Result CommonError ℤ
denormalize_amount amount token_decimals =
    if token_decimals == standard_decimals
    then ok amount
    else if ltb token_decimals standard_decimals
    then scale_down amount (standard_decimals - token_decimals)
    else scale_up amount (token_decimals - standard_decimals)

unfoldable pub bps_of_normalized : ℤ → ℕ → ℕ → Result CommonError ℤ
unfolding normalize_amount denormalize_amount
bps_of_normalized amount bps token_decimals = do
  refuse_if (ltb_ℤ amount (pos 0)) CommonError.invalid_amount
  normalized ← normalize_amount amount token_decimals
  product ← ok_or (checked_mul normalized (pos bps)) CommonError.arithmetic_overflow
  result ← ok_or (checked_div product (pos 10_000)) CommonError.arithmetic_overflow
  denormalize_amount result token_decimals
