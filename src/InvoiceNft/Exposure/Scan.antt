-- ===== src/InvoiceNft/Exposure/Scan.antt =====
-- The scan over all records, against the sum and against the cache.
use kora_contract.Prelude.{
  ℕ, zero, suc, ◌+◌, ◌-◌, ◌<◌, ◌≡◌, inl, inr, sym, ap, ◌∙◌, some, arith, Option-cases,
}
use kora_contract.Prelude.Int.{pos, ◌≤ℤ◌}
use kora_contract.Prelude.Int128.{i128_half}
use kora_contract.Shared.Host.{Address}
use kora_contract.InvoiceNft.State.{InvoiceHot, NftState}
use kora_contract.InvoiceNft.Views.{
  reconcile_step, reconcile_loop, reconcile_outstanding_exposure, get_outstanding_exposure,
}
use kora_contract.InvoiceNft.Lifecycle.{next_of}
use kora_contract.InvoiceNft.Exposure.Sum.{weight, owed}
use kora_contract.InvoiceNft.Exposure.Balance.{owed_by, IsBalanced}

module _ (s : NftState) (sme : Address)
    (priced : (j : ℕ) (h : InvoiceHot) → s.hot j ≡ some h → pos 0 ≤ℤ h.amount) where
  step-weight :
      (id t : ℕ)
      → t + weight sme (s.hot id) < i128_half
      → reconcile_step s sme id (pos t) ≡ pos (t + weight sme (s.hot id))
  unfolding weight
  step-weight id t small = elim (Option-cases (s.hot id)) [
    | inl e ↦ ground arith
    | inr (h, e) ↦ ground (arith, priced id h e)
  ]

  loop-owed :
      (rounds id t : ℕ)
      → t + owed s.hot sme id rounds < i128_half
      → reconcile_loop s sme rounds id (pos t) ≡ pos (t + owed s.hot sme id rounds)
  unfolding reconcile_loop owed
  loop-owed zero id t small = ground arith
  loop-owed (suc rounds) id t small =
      rw (step-weight id t (omega arith))
        (loop-owed rounds (id + 1) (t + weight sme (s.hot id)) (omega arith) ∙ ap pos (omega arith))

-- In a balanced state the scan and the cache give the same exposure.
pub reconcile-eq-cached :
    (s : NftState) (sme : Address)
    → IsBalanced s
    → reconcile_outstanding_exposure s sme ≡ get_outstanding_exposure s sme
unfolding reconcile_outstanding_exposure
reconcile-eq-cached s sme b =
    let e : 0 + owed_by s sme ≡ owed_by s sme = omega arith in
    loop-owed s sme b.priced (next_of s - 1) 1 0 (omega (arith, b.bounded sme))
    ∙ ap pos e
    ∙ sym (b.cached sme)
