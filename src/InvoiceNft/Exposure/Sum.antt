-- ===== src/InvoiceNft/Exposure/Sum.antt =====
-- The sum of the face values of an SME's open invoices over a range of identifiers.
use kora_contract.Prelude.{
  ℕ, zero, suc, ◌+◌, ◌≤◌, ◌<◌, ◌≡◌, refl, ◌≢◌, ◌⊎◌, inl, ap, Option, none, some, arith,
  if◌then◌else◌,
}
use native.Mathlib.Decide.{ℕ_discrete}
use kora_contract.Prelude.Int.{pos_part}
use kora_contract.Prelude.Store.{Store}
use kora_contract.Shared.Host.{Address}
use kora_contract.InvoiceNft.State.{InvoiceHot}
use kora_contract.InvoiceNft.Views.{counts_for}

-- What one record adds.
unfoldable pub weight : Address → Option InvoiceHot → ℕ
weight sme none = 0
weight sme (some hot) = if counts_for sme hot then pos_part hot.amount else 0

-- The sum over `id`, ..., `id + rounds - 1`.
unfoldable pub owed : Store InvoiceHot → Address → ℕ → ℕ → ℕ
owed hot sme id zero = 0
owed hot sme id (suc rounds) = weight sme (hot id) + owed hot sme (id + 1) rounds

pub owed-snoc :
    (hot : Store InvoiceHot) (sme : Address) (id n : ℕ)
    → owed hot sme id (suc n) ≡ owed hot sme id n + weight sme (hot (id + n))
unfolding owed
owed-snoc hot sme id zero = let e : id + 0 ≡ id = omega arith in rw e (omega arith)
owed-snoc hot sme id (suc n) =
    let e : id + suc n ≡ id + 1 + n = omega arith in
    rw e (omega (arith, owed-snoc hot sme (id + 1) n))

module _ (hot hot' : Store InvoiceHot) (sme : Address) (k : ℕ)
    (same : (j : ℕ) → j ≢ k → hot' j ≡ hot j) where
  same_weight : (j : ℕ) → j ≢ k → weight sme (hot' j) ≡ weight sme (hot j)
  same_weight j h = ap (weight sme) (same j h)

  -- A change outside the range is not seen.
  pub owed-outside : (id n : ℕ) → (k < id) ⊎ (id + n ≤ k) → owed hot' sme id n ≡ owed hot sme id n
  unfolding owed
  owed-outside id zero h = refl
  owed-outside id (suc n) h =
      omega (arith, same_weight id (omega arith), owed-outside (id + 1) n (omega arith))

  -- A change at one identifier of the range changes the sum by the difference of the weights.
  pub owed-change :
      (id n : ℕ)
      → id ≤ k
      → k < id + n
      → owed hot' sme id n + weight sme (hot k) ≡ owed hot sme id n + weight sme (hot' k)
  unfolding owed
  owed-change id zero lo hi = absurd (omega arith)
  owed-change id (suc n) lo hi = elim (ℕ_discrete id k) [
    | yes here ↦ rw here (omega (arith, owed-outside (k + 1) n (inl (omega arith))))
    | no later ↦
        omega (arith, same_weight id later, owed-change (id + 1) n (omega arith) (omega arith))
  ]

-- One record counts for no more than the sum over a range that holds it.
pub weight-le-owed :
    (hot : Store InvoiceHot) (sme : Address) (k id n : ℕ)
    → id ≤ k
    → k < id + n
    → weight sme (hot k) ≤ owed hot sme id n
unfolding owed
weight-le-owed hot sme k id zero lo hi = absurd (omega arith)
weight-le-owed hot sme k id (suc n) lo hi = elim (ℕ_discrete id k) [
  | yes here ↦ rw here (omega arith)
  | no later ↦ omega (arith, weight-le-owed hot sme k (id + 1) n (omega arith) (omega arith))
]
