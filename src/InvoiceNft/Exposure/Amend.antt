-- ===== src/InvoiceNft/Exposure/Amend.antt =====
-- What an amendment does to the cached exposures.
use kora_contract.Prelude.{
  ℕ, ◌+◌, ◌-◌, ◌≤◌, ◌<◌, ◌≡◌, refl, ◌≢◌, ap, true, Option, some, arith, unwrap_or,
}
use kora_contract.Prelude.Int.{pos, ◌≤ℤ◌, pos_part}
use kora_contract.Prelude.Results.{ok}
use kora_contract.Prelude.Store.{update}
use kora_contract.Shared.Host.{Env, Address}
use kora_contract.Shared.Types.{from_score}
use kora_contract.InvoiceNft.State.{NftState, InvoiceHot}
use kora_contract.InvoiceNft.Edit.{amend_invoice, Amendment}
use kora_contract.InvoiceNft.Views.{get_outstanding_exposure, is_open}
use kora_contract.InvoiceNft.Lifecycle.{next_of}
use kora_contract.InvoiceNft.Exposure.Sum.{weight, owed-change}
use kora_contract.InvoiceNft.Exposure.Calls.{Relabels, Relabels-IsBalanced}
use kora_contract.InvoiceNft.Exposure.Balance.{IsBalanced, owed_by, allocated}

-- The record with the new terms.
unfoldable amended : InvoiceHot → Amendment → InvoiceHot
unfolding from_score
amended h new = record h {
  amount = new.amount;
  due_date = new.due_date;
  risk_score = new.risk_score;
  risk_tier = from_score new.risk_score;
}

record Amended (s s' : NftState) (id : ℕ) (h : InvoiceHot) (new : Amendment) : Type 0 where
  replaced : s'.hot ≡ update s.hot id (amended h new)
  same_next : s'.next_id ≡ s.next_id
  same_cache : s'.exposure ≡ s.exposure
  positive : pos 0 ≤ℤ new.amount
  was_open : is_open h ≡ true

amend_invoice-Amended :
    (env : Env) (s : NftState) (sme : Address) (id : ℕ) (new : Amendment) (s' : NftState)
    (h : InvoiceHot)
    → s.hot id ≡ some h
    → amend_invoice env s sme id new ≡ ok s'
    → Amended s s' id h new
unfolding amend_invoice amended
amend_invoice-Amended env s sme id new s' h stored e = ground arith

module _ (s s' : NftState) (id : ℕ) (h : InvoiceHot) (new : Amendment) (stored : s.hot id ≡ some h)
    (a : Amended s s' id h new) where
  elsewhere : (j : ℕ) → j ≢ id → s'.hot j ≡ s.hot j
  elsewhere j ne = rw a.replaced (ground arith)

  old_weight : weight h.sme (s.hot id) ≡ pos_part h.amount
  unfolding weight
  old_weight = rw stored (ground (arith, a.was_open))

  new_weight : weight h.sme (s'.hot id) ≡ pos_part new.amount
  unfolding weight amended
  new_weight = rw a.replaced (ground (arith, a.was_open))

  sums :
      (1 ≤ id)
      → (id < next_of s)
      → owed_by s' h.sme + pos_part h.amount ≡ owed_by s h.sme + pos_part new.amount
  sums lo hi =
      let e : unwrap_or s'.next_id 1 ≡ next_of s =
        ap (λ (o : Option ℕ). unwrap_or o 1) a.same_next in
      rw (e, ← old_weight, ← new_weight)
        (owed-change s.hot s'.hot h.sme id elsewhere 1 (next_of s - 1) lo (omega arith))

  same_owed : IsBalanced s → IsBalanced s' → owed_by s' h.sme ≡ owed_by s h.sme
  unfolding get_outstanding_exposure
  same_owed b b' = ground (arith, b.cached h.sme, b'.cached h.sme, a.same_cache)

only_same_amount :
    (env : Env) (s : NftState) (sme : Address) (id : ℕ) (new : Amendment) (s' : NftState)
    (h : InvoiceHot)
    → IsBalanced s
    → s.hot id ≡ some h
    → amend_invoice env s sme id new ≡ ok s'
    → IsBalanced s'
    → new.amount ≡ h.amount
only_same_amount env s sme id new s' h b stored e b' =
    let a = amend_invoice-Amended env s sme id new s' h stored e in
    let range = allocated s id h b stored in
    ground (
      arith,
      a.positive,
      b.priced id h stored,
      sums s s' id h new stored a range.0 range.1,
      same_owed s s' id h new stored a b b',
    )

Amended-Relabels :
    (s s' : NftState) (id : ℕ) (h : InvoiceHot) (new : Amendment)
    → s.hot id ≡ some h
    → Amended s s' id h new
    → new.amount ≡ h.amount
    → Relabels s s' id h (amended h new)
unfolding amended
Amended-Relabels s s' id h new stored a same = record {
  stored = stored;
  replaced = a.replaced;
  same_next = a.same_next;
  same_cache = a.same_cache;
  same_sme = refl;
  same_amount = same;
  same_open = refl;
}

-- In a state whose cached exposures are right, an amendment that succeeds leaves them right exactly if
-- the new face value is the old one: any other face value makes the SME's cached exposure wrong.
pub amend_invoice-IsBalanced :
    (env : Env) (s : NftState) (sme : Address) (id : ℕ) (new : Amendment) (s' : NftState)
    (h : InvoiceHot)
    → IsBalanced s
    → s.hot id ≡ some h
    → amend_invoice env s sme id new ≡ ok s'
    → (IsBalanced s' → new.amount ≡ h.amount) × (new.amount ≡ h.amount → IsBalanced s')
amend_invoice-IsBalanced env s sme id new s' h b stored e = (
  only_same_amount env s sme id new s' h b stored e,
  λ same. Relabels-IsBalanced s s' id h (amended h new) b (
      Amended-Relabels s s' id h new stored (amend_invoice-Amended env s sme id new s' h stored e)
        same),
)
