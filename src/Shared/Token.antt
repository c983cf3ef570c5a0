-- ===== src/Shared/Token.antt =====
-- The token contracts that hold the money. They are not part of the repository: a contract's code
-- takes them as a parameter, with the ledger of all balances as a type that it knows nothing of.
use kora_contract.Prelude.{ℕ, ◌+◌, ◌≤◌, ◌≡◌, ◌≢◌, Option, some, ◌==◌, if◌then◌else◌}
use kora_contract.Prelude.Int.{ℤ, pos, ◌≤ℤ◌, pos_part}
use kora_contract.Prelude.Results.{Result, unwrap}
use kora_contract.Shared.Host.{Address}

-- The calls, by the address of the token. A balance is not negative. A transfer that fails gives `none`.
pub record Token (W : Type 0) : Type 0 where
  pub decimals : Address → ℕ
  pub balance : W → Address → Address → ℕ
  -- ledger, token, from, to, amount
  pub transfer : W → Address → Address → Address → ℤ → Option W

-- `token_client.transfer(from, to, amount)`: a failure there is a trap here.
abbrev pub transfer : {E W : Type 0} → Token W → W → Address → Address → Address → ℤ → Result E W
transfer t w token from to amount = unwrap (t.transfer w token from to amount)

-- `n` if the two are the same.
abbrev pub share_of : Address → Address → ℕ → ℕ
share_of a x n = if a == x then n else 0

-- The documented behaviour: a transfer that succeeds takes an amount that is not negative and that the
-- sender has from the sender, and gives it to the receiver; no other balance changes.
pub record IsToken {W : Type 0} (t : Token W) : Type 0 where
  pub nonneg : (w w' : W) (k a b : Address) (n : ℤ) → t.transfer w k a b n ≡ some w' → pos 0 ≤ℤ n
  pub covered :
      (w w' : W) (k a b : Address) (n : ℤ)
      → t.transfer w k a b n ≡ some w'
      → pos_part n ≤ t.balance w k a
  pub moved :
      (w w' : W) (k a b : Address) (n : ℤ)
      → t.transfer w k a b n ≡ some w'
      → (x : Address)
      → t.balance w' k x + share_of a x (pos_part n) ≡ t.balance w k x + share_of b x (pos_part n)
  pub others :
      (w w' : W) (k a b : Address) (n : ℤ)
      → t.transfer w k a b n ≡ some w'
      → (j : Address) → j ≢ k
      → (x : Address) → t.balance w' j x ≡ t.balance w j x
