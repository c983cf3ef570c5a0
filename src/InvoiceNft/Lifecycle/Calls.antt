-- ===== src/InvoiceNft/Lifecycle/Calls.antt =====
-- The calls that change one invoice, against the diagram.
use kora_contract.Prelude.{ℕ, arith}
use kora_contract.Prelude.Results.{Ensures}
use kora_contract.Shared.Host.{Env, Address, Bytes}
use kora_contract.InvoiceNft.State.{NftState}
use kora_contract.InvoiceNft.Status.{
  set_created, set_listed, set_funded, set_repaid, set_defaulted, archive_invoice,
}
use kora_contract.InvoiceNft.Edit.{Amendment, amend_invoice, update_metadata_cid, withdraw_invoice}
use kora_contract.InvoiceNft.Freeze.{refresh_risk_score}
use kora_contract.InvoiceNft.Lifecycle.Diagram.{IsFresh, Advances, edges}

module _ (env : Env) (s : NftState) (j : ℕ) (fresh : IsFresh s j) (a : Address) (id : ℕ) where
  pub set_created-Advances : Ensures (λ s'. Advances s s' j) (set_created env s a id)
  unfolding set_created
  set_created-Advances = grind (arith, edges)

  pub set_listed-Advances : Ensures (λ s'. Advances s s' j) (set_listed env s a id)
  unfolding set_listed
  set_listed-Advances = grind (arith, edges)

  pub set_funded-Advances : Ensures (λ s'. Advances s s' j) (set_funded env s a id)
  unfolding set_funded
  set_funded-Advances = grind (arith, edges)

  pub set_repaid-Advances : Ensures (λ s'. Advances s s' j) (set_repaid env s a id)
  unfolding set_repaid
  set_repaid-Advances = grind (arith, edges)

  pub set_defaulted-Advances : Ensures (λ s'. Advances s s' j) (set_defaulted env s a id)
  unfolding set_defaulted
  set_defaulted-Advances = grind (arith, edges)

  pub archive_invoice-Advances : Ensures (λ s'. Advances s s' j) (archive_invoice env s a id)
  unfolding archive_invoice
  archive_invoice-Advances = grind (arith, edges)

  pub withdraw_invoice-Advances : Ensures (λ s'. Advances s s' j) (withdraw_invoice env s a id)
  unfolding withdraw_invoice
  withdraw_invoice-Advances = grind (arith, edges)

  pub amend_invoice-Advances :
      (n : Amendment) → Ensures (λ s'. Advances s s' j) (amend_invoice env s a id n)
  unfolding amend_invoice
  amend_invoice-Advances n = grind (arith, edges)

  pub update_metadata_cid-Advances :
      (n : Bytes) → Ensures (λ s'. Advances s s' j) (update_metadata_cid env s a id n)
  unfolding update_metadata_cid
  update_metadata_cid-Advances n = grind (arith, edges)

  pub refresh_risk_score-Advances : Ensures (λ s'. Advances s s' j) (refresh_risk_score env s a id)
  unfolding refresh_risk_score
  refresh_risk_score-Advances = grind (arith, edges)
