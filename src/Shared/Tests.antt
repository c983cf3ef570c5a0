-- ===== src/Shared/Tests.antt =====
-- The shared arithmetic on concrete amounts.
use kora_contract.Prelude.{[], ◌∷◌, length, ◌≢◌, ℕ, ◌+◌, ◌-◌, ◌*◌, ◌^◌, ◌≤◌, ◌<◌, ◌≡◌, refl, arith}
use kora_contract.Prelude.Int.{pos}
use kora_contract.Prelude.Results.{ok, err}
use kora_contract.Shared.Errors.{CommonError}
use kora_contract.Shared.Validation.{bps_of, require_within_max_amount}
use kora_contract.Shared.Decimals.{normalize_amount, denormalize_amount}
use kora_contract.Shared.Host.{Bytes}
use kora_contract.Shared.Cid.{require_valid_ipfs_cid}
use kora_contract.Shared.CidFormat.{require_valid_ipfs_cid-version_0}
use kora_contract.Shared.Amounts.{
  bps_of-floor, bps_of-split, bps_of-overflow, denormalize_amount-normalize_amount,
}

bps_of-floor_example :
    (f : ℕ) × (bps_of (pos 999) 250 ≡ ok (pos f))
    × (f ≤ 999)
    × (f * 10_000 ≤ 999 * 250)
    × (999 * 250 < f * 10_000 + 10_000)
bps_of-floor_example = bps_of-floor 999 250 (omega arith) (omega arith)

bps_of-split_example :
    (x : ℕ) × (y : ℕ) × (z : ℕ) × (bps_of (pos 999) 250 ≡ ok (pos x))
    × (bps_of (pos 999) 50 ≡ ok (pos y))
    × (bps_of (pos 999) (250 + 50) ≡ ok (pos z))
    × (x + y ≤ z)
    × (z ≤ x + y + 1)
bps_of-split_example = bps_of-split 999 250 50 (omega arith) (omega arith)

-- 2 ^ 125 passes the ceiling.
bps_of-overflow_example : bps_of (pos (2 ^ 125)) 10_000 ≡ err CommonError.arithmetic_overflow
unfolding require_within_max_amount
bps_of-overflow_example = bps_of-overflow (2 ^ 125) (omega arith) refl

denormalize_amount-normalize_amount_example :
    (k : ℕ) × (denormalize_amount (pos 123) 9 ≡ ok (pos k))
    × (k ≤ 12_345)
    × (12_345 < k + 10 ^ (9 - 7))
unfolding normalize_amount
denormalize_amount-normalize_amount_example =
    denormalize_amount-normalize_amount 12_345 9 (pos 123) (omega arith) (omega arith) refl

abbrev digit : ℕ
digit = b'1'

-- 'Q', 'm' and 44 times '1'.
abbrev ones : Bytes
ones =
    49 ∷ 49 ∷ 49 ∷ 49 ∷ 49 ∷ 49 ∷ 49 ∷ 49 ∷ 49 ∷ 49 ∷ 49 ∷ 49 ∷ 49 ∷ 49 ∷ 49 ∷ 49 ∷ 49 ∷ 49 ∷ 49
    ∷ 49 ∷ 49 ∷ 49 ∷ 49 ∷ 49 ∷ 49 ∷ 49 ∷ 49 ∷ 49 ∷ 49 ∷ 49 ∷ 49 ∷ 49 ∷ 49 ∷ 49 ∷ 49 ∷ 49 ∷ 49 ∷ 49
    ∷ 49 ∷ 49 ∷ 49 ∷ 49 ∷ 49 ∷ 49 ∷ []

require_valid_ipfs_cid-version_0_example :
    (length (b'Q' ∷ b'm' ∷ ones) ≡ 46)
    × (digit ≢ b'0')
    × (digit ≢ b'O')
    × (digit ≢ b'I')
    × (digit ≢ b'l')
unfolding require_valid_ipfs_cid
require_valid_ipfs_cid-version_0_example = require_valid_ipfs_cid-version_0 ones digit refl refl
