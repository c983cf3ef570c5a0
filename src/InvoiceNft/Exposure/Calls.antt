-- ===== src/InvoiceNft/Exposure/Calls.antt =====
-- The calls that change one invoice, and the cached exposures after them.
use kora_contract.Prelude.{
  ℕ, ◌≡◌, refl, ◌≢◌, inl, inr, sym, ap, ◌∙◌, Bool, true, false, Option, none, some, arith,
  Option-cases, unwrap_or, is_some, not, ◌==◌, if◌then◌else◌, ◌⊎◌,
}
use kora_contract.Prelude.Int.{ℤ, pos, ◌≤ℤ◌}
use kora_contract.Prelude.Int128.{saturating_sub}
use kora_contract.Prelude.Results.{ok}
use kora_contract.Prelude.Store.{Store, update}
use kora_contract.Shared.Host.{Env, Address}
use kora_contract.Shared.Types.{created, listed, funded, repaid, defaulted, from_score}
use kora_contract.InvoiceNft.State.{InvoiceHot, NftState}
use kora_contract.InvoiceNft.Views.{is_open}
use kora_contract.InvoiceNft.Status.{
  set_created, set_listed, set_funded, set_repaid, set_defaulted, archive_invoice,
}
use kora_contract.InvoiceNft.Edit.{withdraw_invoice}
use kora_contract.InvoiceNft.Freeze.{refresh_risk_score}
use kora_contract.InvoiceNft.Exposure.Sum.{weight}
use kora_contract.InvoiceNft.Exposure.Balance.{IsBalanced, keep-IsBalanced, release-IsBalanced}

-- The record at `k` is replaced by one that counts as much.
pub record Relabels (s s' : NftState) (k : ℕ) (h h' : InvoiceHot) : Type 0 where
  pub stored : s.hot k ≡ some h
  pub replaced : s'.hot ≡ update s.hot k h'
  pub same_next : s'.next_id ≡ s.next_id
  pub same_cache : s'.exposure ≡ s.exposure
  pub same_sme : h'.sme ≡ h.sme
  pub same_amount : h'.amount ≡ h.amount
  pub same_open : is_open h' ≡ is_open h

update_elsewhere :
    (s s' : NftState) (k : ℕ) (h' : InvoiceHot)
    → s'.hot ≡ update s.hot k h'
    → (j : ℕ) → j ≢ k
    → s'.hot j ≡ s.hot j
update_elsewhere s s' k h' e j ne = rw e (ground arith)

pub Relabels-IsBalanced :
    (s s' : NftState) (k : ℕ) (h h' : InvoiceHot)
    → IsBalanced s
    → Relabels s s' k h h'
    → IsBalanced s'
unfolding weight
Relabels-IsBalanced s s' k h h' b r =
    keep-IsBalanced s s' k h b r.stored r.same_next (update_elsewhere s s' k h' r.replaced) priced
      r.same_cache λ sme. ground arith
  where
    priced : (g : InvoiceHot) → s'.hot k ≡ some g → pos 0 ≤ℤ g.amount
    priced g e = ground (arith, b.priced k h r.stored)

relabelled :
    (s s' : NftState) (k : ℕ) (f : InvoiceHot → InvoiceHot)
    → IsBalanced s
    → is_some (s.hot k) ≡ true
    → ((h : InvoiceHot) → s.hot k ≡ some h → Relabels s s' k h (f h))
    → IsBalanced s'
relabelled s s' k f b found r = elim (Option-cases (s.hot k)) [
  | inl missing ↦ absurd (ground arith)
  | inr (h, stored) ↦ Relabels-IsBalanced s s' k h (f h) b (r h stored)
]

-- What stands at one identifier is replaced, or removed.
abbrev put : Store InvoiceHot → ℕ → Option InvoiceHot → Store InvoiceHot
put hot k o j = if k == j then o else hot j

abbrev is_closed : Option InvoiceHot → Bool
is_closed none = true
is_closed (some h) = not (is_open h)

-- The face value, 0 where there is no record.
abbrev price : Option InvoiceHot → ℤ
price none = pos 0
price (some h) = h.amount

-- The record at `k` is closed or removed.
record Closes (s s' : NftState) (k : ℕ) (h : InvoiceHot) (o : Option InvoiceHot) : Type 0 where
  replaced : s'.hot ≡ put s.hot k o
  closed : is_closed o ≡ true
  same_price : (price o ≡ pos 0) ⊎ (price o ≡ h.amount)
  same_next : s'.next_id ≡ s.next_id

weight_of_closed : (sme : Address) (o : Option InvoiceHot) → is_closed o ≡ true → weight sme o ≡ 0
unfolding weight
weight_of_closed sme none c = refl
weight_of_closed sme (some h) c = ground arith

module _ (s s' : NftState) (k : ℕ) (h : InvoiceHot) (o : Option InvoiceHot) (b : IsBalanced s)
    (stored : s.hot k ≡ some h) (c : Closes s s' k h o) where
  here : s'.hot k ≡ o
  here = rw c.replaced (ground arith)

  elsewhere : (j : ℕ) → j ≢ k → s'.hot j ≡ s.hot j
  elsewhere j ne = rw c.replaced (ground arith)

  still_priced : (g : InvoiceHot) → s'.hot k ≡ some g → pos 0 ≤ℤ g.amount
  still_priced g e =
      let p : price (some g) ≡ price o = ap price (sym e ∙ here) in
      ground (arith, b.priced k h stored, c.same_price)

  gone : (sme : Address) → weight sme (s'.hot k) ≡ 0
  gone sme = rw here (weight_of_closed sme o c.closed)

  -- It was open, and the cache of its SME is reduced by its face value.
  Closes-release :
      is_open h ≡ true
      → s'.exposure
        ≡ update s.exposure h.sme (saturating_sub (unwrap_or (s.exposure h.sme) (pos 0)) h.amount)
      → IsBalanced s'
  Closes-release counted reduced =
      release-IsBalanced s s' k h b stored c.same_next elsewhere still_priced counted gone reduced

  -- It was closed before.
  Closes-keep : is_open h ≡ false → s'.exposure ≡ s.exposure → IsBalanced s'
  Closes-keep closed same_cache =
      keep-IsBalanced s s' k h b stored c.same_next elsewhere still_priced same_cache λ sme.
        gone sme ∙ sym (ap (weight sme) stored ∙ weight_of_closed sme (some h) (ground arith))

released :
    (s s' : NftState) (k : ℕ) (f : InvoiceHot → Option InvoiceHot)
    → IsBalanced s
    → is_some (s.hot k) ≡ true
    → ((h : InvoiceHot)
        → s.hot k ≡ some h
        → Closes s s' k h (f h)
          × (is_open h ≡ true)
          × (s'.exposure
              ≡ update s.exposure h.sme
                  (saturating_sub (unwrap_or (s.exposure h.sme) (pos 0)) h.amount)))
    → IsBalanced s'
released s s' k f b found r = elim (Option-cases (s.hot k)) [
  | inl missing ↦ absurd (ground arith)
  | inr (h, stored) ↦
      Closes-release s s' k h (f h) b stored (r h stored).0 (r h stored).1 (r h stored).2
]

module _ (env : Env) (s : NftState) (a : Address) (id : ℕ) (s' : NftState) (b : IsBalanced s) where
  pub set_created-IsBalanced : set_created env s a id ≡ ok s' → IsBalanced s'
  unfolding set_created
  set_created-IsBalanced e =
      relabelled s s' id (λ h. record h { status = created }) b (ground arith)
        λ h stored. ground arith

  pub set_listed-IsBalanced : set_listed env s a id ≡ ok s' → IsBalanced s'
  unfolding set_listed
  set_listed-IsBalanced e =
      relabelled s s' id (λ h. record h { status = listed }) b (ground arith)
        λ h stored. ground arith

  pub set_funded-IsBalanced : set_funded env s a id ≡ ok s' → IsBalanced s'
  unfolding set_funded
  set_funded-IsBalanced e =
      relabelled s s' id (λ h. record h { status = funded; funded_at = some env.now }) b
        (ground arith) λ h stored. ground arith

  pub set_repaid-IsBalanced : set_repaid env s a id ≡ ok s' → IsBalanced s'
  unfolding set_repaid
  set_repaid-IsBalanced e =
      released s s' id (λ h. some (record h { status = repaid; repaid_at = some env.now })) b
        (ground arith) λ h stored. ground arith

  pub set_defaulted-IsBalanced : set_defaulted env s a id ≡ ok s' → IsBalanced s'
  unfolding set_defaulted
  set_defaulted-IsBalanced e =
      released s s' id (λ h. some (record h { status = defaulted })) b (ground arith)
        λ h stored. ground arith

  pub withdraw_invoice-IsBalanced : withdraw_invoice env s a id ≡ ok s' → IsBalanced s'
  unfolding withdraw_invoice
  withdraw_invoice-IsBalanced e =
      released s s' id (λ h. none) b (ground arith) λ h stored. ground arith

  pub archive_invoice-IsBalanced : archive_invoice env s a id ≡ ok s' → IsBalanced s'
  unfolding archive_invoice
  archive_invoice-IsBalanced e = elim (Option-cases (s.hot id)) [
    | inl missing ↦ absurd (ground arith)
    | inr (h, stored) ↦
        Closes-keep s s' id h none b stored (ground arith) (ground arith) (ground arith)
  ]

  refreshed : InvoiceHot → InvoiceHot
  refreshed h = elim s.risk_registry [
    | none ↦ h
    | some r ↦ elim (env.sme_profile r h.sme) [
      | none ↦ h
      | some p ↦ record h { risk_score = p.risk_score; risk_tier = from_score p.risk_score }
    ]
  ]

  pub refresh_risk_score-IsBalanced : refresh_risk_score env s a id ≡ ok s' → IsBalanced s'
  unfolding refresh_risk_score refreshed
  refresh_risk_score-IsBalanced e =
      relabelled s s' id refreshed b (ground arith) λ h stored. ground arith
