-- ===== src/Shared/Ledger.antt =====
-- A token that keeps its balances in a table, and behaves as the assumptions on tokens ask. The tests
-- use it.
use kora_contract.Prelude.{
  ℕ, ◌+◌, ◌-◌, ◌≤◌, ◌≡◌, refl, sym, ap, Bool, true, false, Option, none, some, ◌==◌, leb,
  if◌then◌else◌, arith,
}
use kora_contract.Prelude.Int.{ℤ, pos, negsuc, pos_part, ◌≤ℤ◌}
use kora_contract.Shared.Host.{Address}
use kora_contract.Shared.Token.{Token, IsToken, share_of}

-- The balances, by token and holder.
abbrev pub Ledger : Type 0
Ledger = Address → Address → ℕ

abbrev pub moved_to : Ledger → Address → Address → Address → ℕ → Ledger
moved_to w k a b n j x = if j == k then w k x + share_of b x n - share_of a x n else w j x

abbrev pub ledger_transfer : Ledger → Address → Address → Address → ℤ → Option Ledger
ledger_transfer w k a b (negsuc n) = none
ledger_transfer w k a b (pos n) = if leb n (w k a) then some (moved_to w k a b n) else none

abbrev pub ledger : Token Ledger
ledger = record { decimals = λ k. 7; balance = λ w k x. w k x; transfer = ledger_transfer }

some_if :
    {A : Type 0} (b : Bool) (x y : A) → (if b then some x else none) ≡ some y → (b ≡ true) × (x ≡ y)
some_if true x y e = (refl, cc (e))
some_if false x y e = cc (e)

-- What a transfer that succeeds has done, at each entry.
ledger_transfer-sent :
    (w w' : Ledger) (k a b : Address) (n : ℤ)
    → ledger_transfer w k a b n ≡ some w'
    → (pos 0 ≤ℤ n)
      × (pos_part n ≤ w k a)
      × ((j x : Address) → w' j x ≡ moved_to w k a b (pos_part n) j x)
ledger_transfer-sent w w' k a b (negsuc n) e = cc (e)
ledger_transfer-sent w w' k a b (pos n) e =
    let (t, h) = some_if (leb n (w k a)) (moved_to w k a b n) w' e in
    (omega arith, ground (arith, t), λ j x. sym (ap (λ f. f j x) h))

pub ledger-IsToken : IsToken ledger
ledger-IsToken = record {
  nonneg = λ w w' k a b n e. (ledger_transfer-sent w w' k a b n e).0;
  covered = λ w w' k a b n e. (ledger_transfer-sent w w' k a b n e).1;
  moved = λ w w' k a b n e x.
      let h = ledger_transfer-sent w w' k a b n e in ground (arith, h.1, h.2 k x);
  others = λ w w' k a b n e j ne x.
      let h = ledger_transfer-sent w w' k a b n e in ground (arith, h.2 j x);
}
