-- ===== src/InvoiceNft/Exposure/Growth.antt =====
-- New records at the identifiers above those allocated, and what they add to each SME's sum.
use kora_contract.Prelude.{
  ℕ, suc, ◌+◌, ◌-◌, ◌≤◌, ◌<◌, ◌≡◌, ◌≢◌, inr, sym, ap, ◌∙◌, true, none, some, arith, unwrap_or, ◌==◌,
  ==-refl, ==-ne, if◌then◌else◌,
}
use native.Mathlib.Decide.{ℕ_discrete}
use kora_contract.Prelude.Int.{ℤ, pos, ◌≤ℤ◌, pos_part}
use kora_contract.Prelude.Int128.{i128_half}
use kora_contract.Prelude.Store.{Store, update}
use kora_contract.Shared.Host.{Address}
use kora_contract.InvoiceNft.State.{InvoiceHot, NftState}
use kora_contract.InvoiceNft.Views.{is_open, get_outstanding_exposure}
use kora_contract.InvoiceNft.Lifecycle.{next_of}
use kora_contract.InvoiceNft.Exposure.Sum.{weight, owed, owed-snoc, owed-outside}
use kora_contract.InvoiceNft.Exposure.Balance.{IsBalanced, owed_by}

-- The part of a balanced state that does not speak of the cache: records `hot` below `n`.
pub record IsSound (hot : Store InvoiceHot) (n : ℕ) : Type 0 where
  pub started : 1 ≤ n
  pub unused_zero : hot 0 ≡ none
  pub fresh : (j : ℕ) → n ≤ j → hot j ≡ none
  pub priced : (j : ℕ) (h : InvoiceHot) → hot j ≡ some h → pos 0 ≤ℤ h.amount

-- What `sme` has taken on, as far as `x` is concerned.
abbrev pub added : Address → Address → ℕ → ℕ
added sme x d = if sme == x then d else 0

pub record Extends (hot : Store InvoiceHot) (n : ℕ) (sme : Address) (d : ℕ)
    (hot' : Store InvoiceHot) (n' : ℕ) : Type 0 where
  pub sound : IsSound hot' n'
  pub sums : (x : Address) → owed hot' x 1 (n' - 1) ≡ owed hot x 1 (n - 1) + added sme x d

pub Extends-refl :
    (hot : Store InvoiceHot) (n : ℕ) (sme : Address) → IsSound hot n → Extends hot n sme 0 hot n
Extends-refl hot n sme s = record { sound = s; sums = λ x. ground arith }

pub Extends-trans :
    (hot : Store InvoiceHot) (n : ℕ) (sme : Address) (d d' : ℕ) (hot' : Store InvoiceHot) (n' : ℕ)
    (hot'' : Store InvoiceHot) (n'' : ℕ)
    → Extends hot n sme d hot' n'
    → Extends hot' n' sme d' hot'' n''
    → Extends hot n sme (d + d') hot'' n''
Extends-trans hot n sme d d' hot' n' hot'' n'' e e' = record {
  sound = e'.sound;
  sums = λ x. ground (arith, e.sums x, e'.sums x);
}

module _ (hot : Store InvoiceHot) (n : ℕ) (v : InvoiceHot) (s : IsSound hot n)
    (is_open_v : is_open v ≡ true) (positive : pos 0 ≤ℤ v.amount) where
  elsewhere : (j : ℕ) → j ≢ n → update hot n v j ≡ hot j
  elsewhere j ne = ground arith

  at_new : update hot n v n ≡ some v
  at_new = ground arith

  new_weight : (x : Address) → weight x (update hot n v n) ≡ added v.sme x (pos_part v.amount)
  unfolding weight
  new_weight x = rw at_new (ground arith)

  new_priced : (j : ℕ) (h : InvoiceHot) → update hot n v j ≡ some h → pos 0 ≤ℤ h.amount
  new_priced j h e = elim (ℕ_discrete j n) [
    | yes eq ↦ ground (arith)
    | no ne ↦ s.priced j h (sym (elsewhere j ne) ∙ e)
  ]

  new_sums :
      (x : Address)
      → owed (update hot n v) x 1 (n + 1 - 1)
        ≡ owed hot x 1 (n - 1) + added v.sme x (pos_part v.amount)
  new_sums x =
      let e : n + 1 - 1 ≡ suc (n - 1) = omega (arith, s.started) in
      let e' : 1 + (n - 1) ≡ n = omega (arith, s.started) in
      rw (e, owed-snoc (update hot n v) x 1 (n - 1), e', new_weight x)
        (ap (λ (y : ℕ). y + added v.sme x (pos_part v.amount))
          (owed-outside hot (update hot n v) x n elsewhere 1 (n - 1)
            (inr (omega (arith, s.started)))))

  -- One new record.
  pub Extends-one : Extends hot n v.sme (pos_part v.amount) (update hot n v) (n + 1)
  Extends-one = record {
    sound = record {
      started = omega arith;
      unused_zero = elsewhere 0 (omega (arith, s.started)) ∙ s.unused_zero;
      fresh = λ j le. elsewhere j (omega arith) ∙ s.fresh j (omega arith);
      priced = new_priced;
    };
    sums = new_sums;
  }

pub IsBalanced-IsSound : (s : NftState) → IsBalanced s → IsSound s.hot (next_of s)
IsBalanced-IsSound s b = record {
  started = b.started;
  unused_zero = b.unused_zero;
  fresh = b.fresh;
  priced = b.priced;
}

-- The records grow, and the cache of the one SME with them.
pub Extends-IsBalanced :
    (s s' : NftState) (sme : Address) (d : ℕ)
    → Extends s.hot (next_of s) sme d s'.hot (next_of s')
    → ((x : Address) → get_outstanding_exposure s' x ≡ pos (owed_by s x + added sme x d))
    → ((x : Address) → owed_by s x + added sme x d < i128_half)
    → IsBalanced s'
Extends-IsBalanced s s' sme d e cached bounded = record {
  started = e.sound.started;
  unused_zero = e.sound.unused_zero;
  fresh = e.sound.fresh;
  priced = e.sound.priced;
  cached = λ x. cached x ∙ ap pos (sym (e.sums x));
  bounded = λ x. rw (e.sums x) (bounded x);
}

-- The cache of the one SME is raised by what was added.
pub raise-IsBalanced :
    (s s' : NftState) (sme : Address) (d : ℕ) (e : ℤ)
    → IsBalanced s
    → Extends s.hot (next_of s) sme d s'.hot (next_of s')
    → s'.exposure ≡ update s.exposure sme e
    → (e ≡ pos (owed_by s sme + d)) × (owed_by s sme + d < i128_half)
    → IsBalanced s'
unfolding get_outstanding_exposure
raise-IsBalanced s s' sme d e b grown raised exact =
    Extends-IsBalanced s s' sme d grown cached bounded
  where
    cached : (x : Address) → unwrap_or (s'.exposure x) (pos 0) ≡ pos (owed_by s x + added sme x d)
    cached x =
        rw (raised, exact.0)
          (elim (ℕ_discrete sme x) [
            | yes eq ↦ rw (← eq, ==-refl sme)
            | no ne ↦ rw (==-ne sme x ne) (b.cached x ∙ ap pos (omega arith))
          ])

    bounded : (x : Address) → owed_by s x + added sme x d < i128_half
    bounded x = elim (ℕ_discrete sme x) [
      | yes eq ↦ rw (← eq, ==-refl sme) exact.1
      | no ne ↦ rw (==-ne sme x ne) (omega (arith, b.bounded x))
    ]
