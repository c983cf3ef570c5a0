-- ===== src/InvoiceNft/Exposure/Balance.antt =====
-- The states whose cached exposures are right, and the changes of one record that keep them so.
use kora_contract.Prelude.{
  ℕ, ◌+◌, ◌-◌, ◌≤◌, ◌<◌, ◌≡◌, ◌≢◌, sym, ap, ◌∙◌, true, none, some, arith, unwrap_or, ==-refl, ==-ne,
}
use native.Mathlib.Decide.{ℕ_discrete, dec_lt}
use kora_contract.Prelude.Int.{ℤ, pos, ◌≤ℤ◌, pos_part}
use kora_contract.Prelude.Int128.{i128_half, saturating_sub}
use kora_contract.Prelude.Store.{update}
use kora_contract.Shared.Host.{Address}
use kora_contract.InvoiceNft.State.{InvoiceHot, NftState}
use kora_contract.InvoiceNft.Views.{is_open, get_outstanding_exposure}
use kora_contract.InvoiceNft.Lifecycle.{next_of}
use kora_contract.InvoiceNft.Exposure.Sum.{weight, owed, owed-change, weight-le-owed}

-- The sum over every identifier that was allocated.
abbrev pub owed_by : NftState → Address → ℕ
owed_by s sme = owed s.hot sme 1 (next_of s - 1)

-- No negative face value is stored, no record stands at an identifier that is not allocated, and the
-- cache of every SME is the sum over its open invoices, an i128.
pub record IsBalanced (s : NftState) : Type 0 where
  pub started : 1 ≤ next_of s
  pub unused_zero : s.hot 0 ≡ none
  pub fresh : (j : ℕ) → next_of s ≤ j → s.hot j ≡ none
  pub priced : (j : ℕ) (h : InvoiceHot) → s.hot j ≡ some h → pos 0 ≤ℤ h.amount
  pub cached : (sme : Address) → get_outstanding_exposure s sme ≡ pos (owed_by s sme)
  pub bounded : (sme : Address) → owed_by s sme < i128_half

-- A record that is stored lies between 1 and the next identifier.
pub allocated :
    (s : NftState) (k : ℕ) (h : InvoiceHot)
    → IsBalanced s
    → s.hot k ≡ some h
    → (1 ≤ k) × (k < next_of s)
allocated s k h b e = (
  elim (ℕ_discrete k 0) [
    | yes z ↦ absurd (cc (b.unused_zero, ap s.hot z, e))
    | no nz ↦ omega arith
  ],
  elim (dec_lt k (next_of s)) [ yes lt ↦ lt | no ge ↦ absurd (cc (b.fresh k (omega arith), e)) ],
)

-- A reduction of the cache that the saturating subtraction makes exact.
exact_reduction :
    (x : ℕ) (a : ℤ)
    → pos 0 ≤ℤ a
    → pos_part a ≤ x
    → x < i128_half
    → saturating_sub (pos x) a ≡ pos (x - pos_part a)
exact_reduction x a nonneg le small = ground arith

-- One record changes, and the cache of each SME follows.
module _ (s s' : NftState) (k : ℕ) (h : InvoiceHot) (b : IsBalanced s) (stored : s.hot k ≡ some h)
    (same_next : s'.next_id ≡ s.next_id) (same : (j : ℕ) → j ≢ k → s'.hot j ≡ s.hot j)
    (priced : (h' : InvoiceHot) → s'.hot k ≡ some h' → pos 0 ≤ℤ h'.amount) where
  next_eq : next_of s' ≡ next_of s
  next_eq = ap (λ o. unwrap_or o 1) same_next

  change :
      (sme : Address)
      → owed_by s' sme + weight sme (s.hot k) ≡ owed_by s sme + weight sme (s'.hot k)
  change sme = rw next_eq (
      owed-change s.hot s'.hot sme k same 1 (next_of s - 1) (allocated s k h b stored).0
        (omega (arith, allocated s k h b stored)))

  priced_all : (j : ℕ) (h' : InvoiceHot) → s'.hot j ≡ some h' → pos 0 ≤ℤ h'.amount
  priced_all j h' e = elim (ℕ_discrete j k) [
    | yes eq ↦ priced h' (sym (ap s'.hot eq) ∙ e)
    | no ne ↦ b.priced j h' (sym (same j ne) ∙ e)
  ]

  unused_above : (j : ℕ) → next_of s ≤ j → s'.hot j ≡ none
  unused_above j le = same j (omega (arith, allocated s k h b stored)) ∙ b.fresh j le

  pub change-IsBalanced :
      ((sme : Address)
        → (x : ℕ) × (get_outstanding_exposure s' sme ≡ pos x)
          × (x + weight sme (s.hot k) ≡ owed_by s sme + weight sme (s'.hot k))
          × (x < i128_half))
      → IsBalanced s'
  change-IsBalanced moved = record {
    started = omega (arith, b.started, next_eq);
    unused_zero = same 0 (omega (arith, allocated s k h b stored)) ∙ b.unused_zero;
    fresh = λ j le. unused_above j (omega (arith, next_eq));
    priced = priced_all;
    cached = λ sme. (moved sme).1 ∙ ap pos (exact sme (moved sme).0 (moved sme).2);
    bounded = λ sme. rw (← exact sme (moved sme).0 (moved sme).2) (moved sme).3;
  }
    where
      exact :
          (sme : Address) (x : ℕ)
          → x + weight sme (s.hot k) ≡ owed_by s sme + weight sme (s'.hot k)
          → x ≡ owed_by s' sme
      exact sme x e = omega (arith, change sme)

  -- Nothing that counts has changed.
  pub keep-IsBalanced :
      s'.exposure ≡ s.exposure
      → ((sme : Address) → weight sme (s'.hot k) ≡ weight sme (s.hot k))
      → IsBalanced s'
  unfolding get_outstanding_exposure
  keep-IsBalanced same_cache same_weight = change-IsBalanced λ sme. (
    owed_by s sme,
    ap (λ e. unwrap_or (e sme) (pos 0)) same_cache ∙ b.cached sme,
    omega (arith, same_weight sme),
    b.bounded sme,
  )

  weight_le : (sme : Address) → weight sme (s.hot k) ≤ owed_by s sme
  weight_le sme =
      weight-le-owed s.hot sme k 1 (next_of s - 1) (allocated s k h b stored).0
        (omega (arith, allocated s k h b stored))

  -- An open invoice stops counting, and the cache of its SME is reduced by its face value.
  pub release-IsBalanced :
      is_open h ≡ true
      → ((sme : Address) → weight sme (s'.hot k) ≡ 0)
      → s'.exposure
        ≡ update s.exposure h.sme (saturating_sub (unwrap_or (s.exposure h.sme) (pos 0)) h.amount)
      → IsBalanced s'
  unfolding get_outstanding_exposure weight
  release-IsBalanced counts gone reduced = change-IsBalanced λ sme. (
    owed_by s sme - weight sme (s.hot k),
    reduced_cache sme,
    omega (arith, weight_le sme, gone sme),
    omega (arith, b.bounded sme),
  )
    where
      reduced_cache :
          (sme : Address)
          → unwrap_or (s'.exposure sme) (pos 0) ≡ pos (owed_by s sme - weight sme (s.hot k))
      reduced_cache sme =
          rw (reduced, stored)
            (elim (ℕ_discrete h.sme sme) [
              | yes mine ↦
                  rw (← mine, ==-refl h.sme, b.cached h.sme, counts)
                    (exact_reduction (owed_by s h.sme) h.amount (b.priced k h stored)
                      (ground (arith, weight_le h.sme, stored)) (b.bounded h.sme))
              | no other ↦ rw (==-ne h.sme sme other) (b.cached sme ∙ ap pos (omega arith))
            ])
