-- ===== src/Shared/CidFormat.antt =====
-- What an accepted content identifier looks like.
use kora_contract.Prelude.{
  ℕ, ◌≡◌, ◌≢◌, Bool, true, false, [], ◌∷◌, arith, ◌==◌, if◌then◌else◌, length,
}
use kora_contract.Prelude.Results.{ok}
use kora_contract.Shared.Host.{Bytes}
use kora_contract.Shared.Cid.{is_base58_char, all_base58, require_valid_ipfs_cid}

abbrev pub has_byte : ℕ → Bytes → Bool
has_byte c [] = false
has_byte c (x ∷ xs) = if x == c then true else has_byte c xs

all_base58-has_byte :
    (cs : Bytes) (c : ℕ) → all_base58 cs ≡ true → has_byte c cs ≡ true → is_base58_char c ≡ true
unfolding all_base58
all_base58-has_byte [] c a h = absurd (cc (h))
all_base58-has_byte (x ∷ xs) c a h = ground (arith, all_base58-has_byte xs c)

ambiguous : (c : ℕ) → is_base58_char c ≡ true → (c ≢ b'0') × (c ≢ b'O') × (c ≢ b'I') × (c ≢ b'l')
unfolding is_base58_char
ambiguous c h = ground arith

accepted :
    (rest : Bytes)
    → require_valid_ipfs_cid (b'Q' ∷ b'm' ∷ rest) ≡ ok tt
    → (length (b'Q' ∷ b'm' ∷ rest) ≡ 46) × (all_base58 (b'Q' ∷ b'm' ∷ rest) ≡ true)
unfolding require_valid_ipfs_cid
accepted rest e = grind arith

-- A version 0 identifier that is accepted has 46 bytes, and none of them is one of the four characters
-- that base58 leaves out as ambiguous.
pub require_valid_ipfs_cid-version_0 :
    (rest : Bytes) (c : ℕ)
    → require_valid_ipfs_cid (b'Q' ∷ b'm' ∷ rest) ≡ ok tt
    → has_byte c (b'Q' ∷ b'm' ∷ rest) ≡ true
    → (length (b'Q' ∷ b'm' ∷ rest) ≡ 46) × (c ≢ b'0') × (c ≢ b'O') × (c ≢ b'I') × (c ≢ b'l')
require_valid_ipfs_cid-version_0 rest c e h =
    let (len, base58) = accepted rest e in
    let (not_0, not_o, not_i, not_l) =
      ambiguous c (all_base58-has_byte (b'Q' ∷ b'm' ∷ rest) c base58 h) in
    (len, not_0, not_o, not_i, not_l)
