-- ===== src/Shared/Validation.antt =====
-- contracts/shared/src/validation.rs: the guards on amounts, times, rates and lengths, and the
-- overflow-safe arithmetic.
use kora_contract.Prelude.{ℕ, ◌-◌, ◌/◌, ◌^◌, ltb, leb, ◌==◌, length}
use kora_contract.Prelude.Int.{ℤ, pos, ltb_ℤ, leb_ℤ, eq_ℤ}
use kora_contract.Prelude.Int128.{checked_add, checked_sub, checked_mul, checked_div}
use kora_contract.Prelude.Results.{Result, ◌>>=◌, ◌>>◌, refuse_if, ok_or}
use kora_contract.Shared.Host.{Env, Address, Bytes}
use kora_contract.Shared.Errors.{CommonError}

abbrev Check : Type 0
Check = Result CommonError (Unit {0})

-- `i128::MAX / 2`
abbrev pub max_amount : ℤ
max_amount = pos ((2 ^ 127 - 1) / 2)

unfoldable pub require_within_max_amount : ℤ → Check
require_within_max_amount amount = refuse_if (ltb_ℤ max_amount amount) CommonError.invalid_amount

unfoldable pub require_non_zero_amount : ℤ → Check
require_non_zero_amount amount = refuse_if (leb_ℤ amount (pos 0)) CommonError.invalid_amount

unfoldable pub require_non_negative_amount : ℤ → Check
require_non_negative_amount amount = refuse_if (ltb_ℤ amount (pos 0)) CommonError.invalid_amount

unfoldable pub require_amount_within_bounds : ℤ → ℤ → ℤ → Check
require_amount_within_bounds amount min max = do
  refuse_if (ltb_ℤ amount min) CommonError.invalid_amount
  refuse_if (ltb_ℤ max amount) CommonError.invalid_amount

unfoldable pub require_future_timestamp : Env → ℕ → Check
require_future_timestamp env ts = refuse_if (leb ts env.now) CommonError.invalid_due_date

unfoldable pub require_valid_risk_score : ℕ → Check
require_valid_risk_score score = refuse_if (ltb 100 score) CommonError.invalid_risk_score

unfoldable pub require_valid_risk_score_with_max : ℕ → ℕ → Check
require_valid_risk_score_with_max score max_score =
    refuse_if (ltb max_score score) CommonError.invalid_risk_score

unfoldable pub require_risk_score_within_ceiling : ℕ → ℕ → Check
require_risk_score_within_ceiling score ceiling =
    refuse_if (ltb ceiling score) CommonError.invalid_risk_score

unfoldable pub require_valid_fee_bps : ℕ → Check
require_valid_fee_bps bps = refuse_if (ltb 10_000 bps) CommonError.invalid_fee_rate

unfoldable pub require_valid_bps_range : ℕ → ℕ → ℕ → Check
require_valid_bps_range bps min_bps max_bps = do
  refuse_if (ltb bps min_bps) CommonError.invalid_fee_rate
  refuse_if (ltb max_bps bps) CommonError.invalid_fee_rate

unfoldable pub require_non_empty_string : Bytes → Check
require_non_empty_string s = refuse_if (length s == 0) CommonError.empty_string

unfoldable pub require_non_empty_bytes : Bytes → Check
require_non_empty_bytes b = refuse_if (length b == 0) CommonError.empty_bytes

unfoldable pub require_max_length_string : Bytes → ℕ → Check
require_max_length_string s max_bytes =
    refuse_if (ltb max_bytes (length s)) CommonError.field_too_long

unfoldable pub require_max_length_bytes : Bytes → ℕ → Check
require_max_length_bytes b max_bytes =
    refuse_if (ltb max_bytes (length b)) CommonError.field_too_long

abbrev pub max_ipfs_cid_len : ℕ
max_ipfs_cid_len = 128

abbrev pub max_debtor_hash_len : ℕ
max_debtor_hash_len = 64

abbrev pub max_batch_mint_size : ℕ
max_batch_mint_size = 25

unfoldable pub require_batch_size_within_limit : ℕ → Check
require_batch_size_within_limit batch_size =
    refuse_if (ltb max_batch_mint_size batch_size) CommonError.invalid_amount

-- The product is checked before the division, so a large amount overflows although its share of
-- it would fit.
unfoldable pub bps_of : ℤ → ℕ → Result CommonError ℤ
bps_of amount bps = do
  refuse_if (ltb_ℤ amount (pos 0)) CommonError.invalid_amount
  v ← ok_or (checked_mul amount (pos bps)) CommonError.arithmetic_overflow
  ok_or (checked_div v (pos 10_000)) CommonError.arithmetic_overflow

unfoldable pub safe_add : ℤ → ℤ → Result CommonError ℤ
safe_add a b = ok_or (checked_add a b) CommonError.arithmetic_overflow

unfoldable pub safe_sub : ℤ → ℤ → Result CommonError ℤ
safe_sub a b = ok_or (checked_sub a b) CommonError.arithmetic_underflow

unfoldable pub require_not_self : Env → Address → Check
require_not_self env addr = refuse_if (addr == env.contract) CommonError.invalid_address

unfoldable pub require_distinct : Address → Address → Check
require_distinct a b = refuse_if (a == b) CommonError.invalid_address

unfoldable pub safe_mul : ℤ → ℤ → Result CommonError ℤ
safe_mul a b = ok_or (checked_mul a b) CommonError.arithmetic_overflow

unfoldable pub safe_div : ℤ → ℤ → Result CommonError ℤ
safe_div a b = do
  refuse_if (eq_ℤ b (pos 0)) CommonError.invalid_amount
  ok_or (checked_div a b) CommonError.arithmetic_overflow
