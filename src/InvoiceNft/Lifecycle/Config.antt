-- ===== src/InvoiceNft/Lifecycle/Config.antt =====
-- The calls that touch no invoice record: wiring, configuration and freezing.
use kora_contract.Prelude.{Bool, ℕ, ◌+◌, true, List, [], ◌∷◌, arith}
use kora_contract.Prelude.Int.{ℤ}
use kora_contract.Prelude.Results.{Ensures}
use kora_contract.Prelude.Store.{update, remove}
use kora_contract.Shared.Host.{Env, Address}
use kora_contract.Shared.Types.{RiskTier, ProtocolConfig}
use kora_contract.InvoiceNft.State.{NftState}
use kora_contract.InvoiceNft.Admin.{
  set_risk_registry, set_debtor_attestation, set_authorized_callers, set_protocol_config,
  set_amount_bounds, set_mint_rate_limit,
}
use kora_contract.InvoiceNft.Freeze.{
  freeze_invoice, unfreeze_invoice, freeze_loop, unfreeze_loop, freeze_sme_invoices,
  unfreeze_sme_invoices,
}
use kora_contract.Shared.Host.{Symbol, Bytes}
use kora_contract.InvoiceNft.Metadata.{
  commit_metadata_hash, flag_metadata_mismatch, admin_correct_metadata_hash,
  resolve_metadata_dispute, add_allowed_currency, remove_allowed_currency,
}
use kora_contract.InvoiceNft.Lifecycle.Diagram.{Agrees}

module _ (env : Env) (s : NftState) (a : Address) where
  pub set_risk_registry-Agrees : (r : Address) → Ensures (Agrees s) (set_risk_registry env s a r)
  unfolding set_risk_registry
  set_risk_registry-Agrees r = ground arith

  pub set_debtor_attestation-Agrees :
      (r : Address) → Ensures (Agrees s) (set_debtor_attestation env s a r)
  unfolding set_debtor_attestation
  set_debtor_attestation-Agrees r = ground arith

  pub set_authorized_callers-Agrees :
      (m f : Address) → Ensures (Agrees s) (set_authorized_callers env s a m f)
  unfolding set_authorized_callers
  set_authorized_callers-Agrees m f = ground arith

  pub set_protocol_config-Agrees :
      (c : ProtocolConfig) → Ensures (Agrees s) (set_protocol_config env s a c)
  unfolding set_protocol_config
  set_protocol_config-Agrees c = ground arith

  pub set_amount_bounds-Agrees :
      (t : RiskTier) (lo hi : ℤ) → Ensures (Agrees s) (set_amount_bounds env s a t lo hi)
  unfolding set_amount_bounds
  set_amount_bounds-Agrees t lo hi = ground arith

  pub set_mint_rate_limit-Agrees : (m w : ℕ) → Ensures (Agrees s) (set_mint_rate_limit env s a m w)
  unfolding set_mint_rate_limit
  set_mint_rate_limit-Agrees m w = ground arith

  pub freeze_invoice-Agrees : (id : ℕ) → Ensures (Agrees s) (freeze_invoice env s a id)
  unfolding freeze_invoice
  freeze_invoice-Agrees id = ground arith

  pub unfreeze_invoice-Agrees : (id : ℕ) → Ensures (Agrees s) (unfreeze_invoice env s a id)
  unfolding unfreeze_invoice
  unfreeze_invoice-Agrees id = ground arith

  pub commit_metadata_hash-Agrees :
      (id : ℕ) (h : Bytes) → Ensures (Agrees s) (commit_metadata_hash env s a id h)
  unfolding commit_metadata_hash
  commit_metadata_hash-Agrees id h = ground arith

  pub flag_metadata_mismatch-Agrees :
      (id : ℕ) (h : Bytes) → Ensures (Agrees s) (flag_metadata_mismatch env s a id h)
  unfolding flag_metadata_mismatch
  flag_metadata_mismatch-Agrees id h = ground arith

  pub admin_correct_metadata_hash-Agrees :
      (id : ℕ) (h : Bytes) → Ensures (Agrees s) (admin_correct_metadata_hash env s a id h)
  unfolding admin_correct_metadata_hash
  admin_correct_metadata_hash-Agrees id h = ground arith

  pub resolve_metadata_dispute-Agrees :
      (id : ℕ) (u : Bool) → Ensures (Agrees s) (resolve_metadata_dispute env s a id u)
  unfolding resolve_metadata_dispute
  resolve_metadata_dispute-Agrees id u = ground arith

  pub add_allowed_currency-Agrees :
      (c : Symbol) → Ensures (Agrees s) (add_allowed_currency env s a c)
  unfolding add_allowed_currency
  add_allowed_currency-Agrees c = ground arith

  pub remove_allowed_currency-Agrees :
      (c : Symbol) → Ensures (Agrees s) (remove_allowed_currency env s a c)
  unfolding remove_allowed_currency
  remove_allowed_currency-Agrees c = ground arith

freeze_loop-Agrees : (s : NftState) (n m : ℕ) (ids : List ℕ) → Agrees s (freeze_loop s n m ids).0
unfolding freeze_loop
freeze_loop-Agrees s n m [] = ground arith
freeze_loop-Agrees s n m (id ∷ ids) = ground (
  arith,
  freeze_loop-Agrees s n m ids,
  freeze_loop-Agrees (record s { frozen = update s.frozen id true }) (n + 1) m ids,
)

unfreeze_loop-Agrees :
    (s : NftState) (n m : ℕ) (ids : List ℕ) → Agrees s (unfreeze_loop s n m ids).0
unfolding unfreeze_loop
unfreeze_loop-Agrees s n m [] = ground arith
unfreeze_loop-Agrees s n m (id ∷ ids) = ground (
  arith,
  unfreeze_loop-Agrees s n m ids,
  unfreeze_loop-Agrees (record s { frozen = remove s.frozen id }) (n + 1) m ids,
)

module _ (env : Env) (s : NftState) (a sme : Address) (n : ℕ) where
  pub freeze_sme_invoices-Agrees : Ensures (λ p. Agrees s p.0) (freeze_sme_invoices env s a sme n)
  unfolding freeze_sme_invoices
  freeze_sme_invoices-Agrees = grind (arith, freeze_loop-Agrees)

  pub unfreeze_sme_invoices-Agrees :
      Ensures (λ p. Agrees s p.0) (unfreeze_sme_invoices env s a sme n)
  unfolding unfreeze_sme_invoices
  unfreeze_sme_invoices-Agrees = grind (arith, unfreeze_loop-Agrees)
