-- ===== src/InvoiceNft/Access/Calls.antt =====
-- Whom each call asks to have signed.
use kora_contract.Prelude.{Bool, ℕ, ◌≡◌, true, Option, some, List, arith}
use kora_contract.Prelude.Int.{ℤ}
use kora_contract.Prelude.Results.{Ensures}
use kora_contract.Shared.Host.{Env, Address}
use kora_contract.Shared.Host.{Bytes, Symbol}
use kora_contract.Shared.Types.{ProtocolConfig, RiskTier}
use kora_contract.InvoiceNft.Edit.{Amendment}
use kora_contract.InvoiceNft.State.{NftState, BatchInvoiceInput}
use kora_contract.InvoiceNft.Admin
use kora_contract.InvoiceNft.Mint
use kora_contract.InvoiceNft.Edit
use kora_contract.InvoiceNft.Status
use kora_contract.InvoiceNft.Freeze
use kora_contract.InvoiceNft.Metadata

module _ (env : Env) (s : NftState) (a : Address) where
  abbrev pub ByAdmin : Type 0
  ByAdmin = (env.signed a ≡ true) × (s.admin ≡ some a)

  pub set_risk_registry-ByAdmin :
      (r : Address) → Ensures (λ s'. ByAdmin) (Admin.set_risk_registry env s a r)
  unfolding Admin.set_risk_registry
  set_risk_registry-ByAdmin r = ground arith

  pub set_debtor_attestation-ByAdmin :
      (r : Address) → Ensures (λ s'. ByAdmin) (Admin.set_debtor_attestation env s a r)
  unfolding Admin.set_debtor_attestation
  set_debtor_attestation-ByAdmin r = ground arith

  pub set_authorized_callers-ByAdmin :
      (m f : Address) → Ensures (λ s'. ByAdmin) (Admin.set_authorized_callers env s a m f)
  unfolding Admin.set_authorized_callers
  set_authorized_callers-ByAdmin m f = ground arith

  pub set_protocol_config-ByAdmin :
      (c : ProtocolConfig) → Ensures (λ s'. ByAdmin) (Admin.set_protocol_config env s a c)
  unfolding Admin.set_protocol_config
  set_protocol_config-ByAdmin c = ground arith

  pub set_amount_bounds-ByAdmin :
      (t : RiskTier) (lo hi : ℤ) → Ensures (λ s'. ByAdmin) (Admin.set_amount_bounds env s a t lo hi)
  unfolding Admin.set_amount_bounds
  set_amount_bounds-ByAdmin t lo hi = ground arith

  pub set_mint_rate_limit-ByAdmin :
      (m w : ℕ) → Ensures (λ s'. ByAdmin) (Admin.set_mint_rate_limit env s a m w)
  unfolding Admin.set_mint_rate_limit
  set_mint_rate_limit-ByAdmin m w = ground arith

  pub set_defaulted-ByAdmin : (id : ℕ) → Ensures (λ s'. ByAdmin) (Status.set_defaulted env s a id)
  unfolding Status.set_defaulted
  set_defaulted-ByAdmin id = ground arith

  pub archive_invoice-ByAdmin :
      (id : ℕ) → Ensures (λ s'. ByAdmin) (Status.archive_invoice env s a id)
  unfolding Status.archive_invoice
  archive_invoice-ByAdmin id = ground arith

  pub freeze_invoice-ByAdmin : (id : ℕ) → Ensures (λ s'. ByAdmin) (Freeze.freeze_invoice env s a id)
  unfolding Freeze.freeze_invoice
  freeze_invoice-ByAdmin id = ground arith

  pub unfreeze_invoice-ByAdmin :
      (id : ℕ) → Ensures (λ s'. ByAdmin) (Freeze.unfreeze_invoice env s a id)
  unfolding Freeze.unfreeze_invoice
  unfreeze_invoice-ByAdmin id = ground arith

  pub refresh_risk_score-ByAdmin :
      (id : ℕ) → Ensures (λ s'. ByAdmin) (Freeze.refresh_risk_score env s a id)
  unfolding Freeze.refresh_risk_score
  refresh_risk_score-ByAdmin id = ground arith

  pub freeze_sme_invoices-ByAdmin :
      (sme : Address) (n : ℕ) → Ensures (λ p. ByAdmin) (Freeze.freeze_sme_invoices env s a sme n)
  unfolding Freeze.freeze_sme_invoices
  freeze_sme_invoices-ByAdmin sme n = ground arith

  pub unfreeze_sme_invoices-ByAdmin :
      (sme : Address) (n : ℕ) → Ensures (λ p. ByAdmin) (Freeze.unfreeze_sme_invoices env s a sme n)
  unfolding Freeze.unfreeze_sme_invoices
  unfreeze_sme_invoices-ByAdmin sme n = ground arith

  pub set_created-ByKeeper :
      (id : ℕ)
      → Ensures
          (λ s'. (env.signed a ≡ true) × (s.marketplace ≡ some a))
          (Status.set_created env s a id)
  unfolding Status.set_created
  set_created-ByKeeper id = ground arith

  pub set_listed-ByKeeper :
      (id : ℕ)
      → Ensures
          (λ s'. (env.signed a ≡ true) × (s.marketplace ≡ some a))
          (Status.set_listed env s a id)
  unfolding Status.set_listed
  set_listed-ByKeeper id = ground arith

  pub set_funded-ByKeeper :
      (id : ℕ)
      → Ensures
          (λ s'. (env.signed a ≡ true) × (s.financing_pool ≡ some a))
          (Status.set_funded env s a id)
  unfolding Status.set_funded
  set_funded-ByKeeper id = ground arith

  pub set_repaid-ByKeeper :
      (id : ℕ)
      → Ensures
          (λ s'. (env.signed a ≡ true) × (s.financing_pool ≡ some a))
          (Status.set_repaid env s a id)
  unfolding Status.set_repaid
  set_repaid-ByKeeper id = ground arith

  pub mint_invoice-BySme :
      (i : BatchInvoiceInput) → Ensures (λ p. env.signed a ≡ true) (Mint.mint_invoice env s a i)
  unfolding Mint.mint_invoice
  mint_invoice-BySme i = grind (arith)

  pub mint_invoices_batch-BySme :
      (is : List BatchInvoiceInput)
      → Ensures (λ p. env.signed a ≡ true) (Mint.mint_invoices_batch env s a is)
  unfolding Mint.mint_invoices_batch
  mint_invoices_batch-BySme is = grind (arith)

  pub mint_invoice_with_referrer-BySme :
      (i : BatchInvoiceInput) (r : Option Address)
      → Ensures (λ p. env.signed a ≡ true) (Mint.mint_invoice_with_referrer env s a i r)
  unfolding Mint.mint_invoice_with_referrer
  mint_invoice_with_referrer-BySme i r = grind (arith, mint_invoice-BySme i)

  pub amend_invoice-BySme :
      (id : ℕ) (n : Amendment)
      → Ensures (λ s'. env.signed a ≡ true) (Edit.amend_invoice env s a id n)
  unfolding Edit.amend_invoice
  amend_invoice-BySme id n = grind (arith)

  pub update_metadata_cid-BySme :
      (id : ℕ) (n : Bytes)
      → Ensures (λ s'. env.signed a ≡ true) (Edit.update_metadata_cid env s a id n)
  unfolding Edit.update_metadata_cid
  update_metadata_cid-BySme id n = grind (arith)

  pub withdraw_invoice-BySme :
      (id : ℕ) → Ensures (λ s'. env.signed a ≡ true) (Edit.withdraw_invoice env s a id)
  unfolding Edit.withdraw_invoice
  withdraw_invoice-BySme id = grind (arith)

  pub commit_metadata_hash-BySme :
      (id : ℕ) (h : Bytes)
      → Ensures (λ s'. (env.signed a ≡ true)) (Metadata.commit_metadata_hash env s a id h)
  unfolding Metadata.commit_metadata_hash
  commit_metadata_hash-BySme id h = ground arith

  pub flag_metadata_mismatch-BySme :
      (id : ℕ) (h : Bytes)
      → Ensures (λ s'. (env.signed a ≡ true)) (Metadata.flag_metadata_mismatch env s a id h)
  unfolding Metadata.flag_metadata_mismatch
  flag_metadata_mismatch-BySme id h = ground arith

  pub admin_correct_metadata_hash-ByAdmin :
      (id : ℕ) (h : Bytes)
      → Ensures (λ s'. ByAdmin) (Metadata.admin_correct_metadata_hash env s a id h)
  unfolding Metadata.admin_correct_metadata_hash
  admin_correct_metadata_hash-ByAdmin id h = ground arith

  pub resolve_metadata_dispute-ByAdmin :
      (id : ℕ) (u : Bool) → Ensures (λ s'. ByAdmin) (Metadata.resolve_metadata_dispute env s a id u)
  unfolding Metadata.resolve_metadata_dispute
  resolve_metadata_dispute-ByAdmin id u = ground arith

  pub add_allowed_currency-ByAdmin :
      (c : Symbol) → Ensures (λ s'. ByAdmin) (Metadata.add_allowed_currency env s a c)
  unfolding Metadata.add_allowed_currency
  add_allowed_currency-ByAdmin c = ground arith

  pub remove_allowed_currency-ByAdmin :
      (c : Symbol) → Ensures (λ s'. ByAdmin) (Metadata.remove_allowed_currency env s a c)
  unfolding Metadata.remove_allowed_currency
  remove_allowed_currency-ByAdmin c = ground arith
