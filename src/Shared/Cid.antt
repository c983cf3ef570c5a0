-- ===== src/Shared/Cid.antt =====
-- contracts/shared/src/validation.rs: the check of an IPFS content identifier.
use kora_contract.Prelude.{
  ℕ, Bool, true, ◌&&◌, ◌||◌, [], ◌∷◌, leb, ltb, ◌==◌, if◌then◌else◌, length,
}
use kora_contract.Prelude.Results.{Result, err, ◌>>◌, refuse_if, guard}
use kora_contract.Shared.Host.{Bytes}
use kora_contract.Shared.Errors.{CommonError}

abbrev pub cid_max_len : ℕ
cid_max_len = 128

-- A byte in a range, both ends included.
abbrev in_range : ℕ → ℕ → ℕ → Bool
in_range lo hi c = leb lo c && leb c hi

unfoldable pub is_base58_char : ℕ → Bool
is_base58_char c =
    in_range b'1' b'9' c
    || in_range b'A' b'H' c
    || in_range b'J' b'N' c
    || in_range b'P' b'Z' c
    || in_range b'a' b'k' c
    || in_range b'm' b'z' c

-- The loop over the bytes of a version 0 identifier.
unfoldable pub all_base58 : Bytes → Bool
unfolding is_base58_char
all_base58 [] = true
all_base58 (c ∷ cs) = is_base58_char c && all_base58 cs

abbrev is_multibase_prefix : ℕ → Bool
is_multibase_prefix c =
    c == b'b'
    || c == b'B'
    || c == b'z'
    || c == b'f'
    || c == b'F'
    || c == b'u'
    || c == b'U'
    || c == b'k'
    || c == b'K'

-- The checks on the first two bytes, once the length lies in its range.
abbrev check_prefix : ℕ → ℕ → Bytes → Result CommonError (Unit {0})
check_prefix first second cid =
    if first == b'Q' && second == b'm'
    then (do
      guard (length cid == 46) CommonError.invalid_cid
      guard (all_base58 cid) CommonError.invalid_cid)
    else if is_multibase_prefix first
    then refuse_if (ltb (length cid) 10) CommonError.invalid_cid
    else err CommonError.invalid_cid

unfoldable pub require_valid_ipfs_cid : Bytes → Result CommonError (Unit {0})
unfolding all_base58
require_valid_ipfs_cid [] = err CommonError.invalid_cid
require_valid_ipfs_cid (first ∷ []) = err CommonError.invalid_cid
require_valid_ipfs_cid (first ∷ second ∷ rest) = do
  refuse_if (ltb cid_max_len (length (first ∷ second ∷ rest))) CommonError.invalid_cid
  check_prefix first second (first ∷ second ∷ rest)
