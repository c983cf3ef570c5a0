-- ===== src/InvoiceNft/Hashes/Calls.antt =====
-- A document's hash that is committed stays committed, call by call.
use kora_contract.Prelude.{
  ℕ, ◌+◌, ◌<◌, ◌≡◌, Bool, true, false, Option, none, some, List, [], ◌∷◌, length, ◌==◌, arith,
}
use kora_contract.Prelude.Int.{ℤ}
use kora_contract.Prelude.Results.{Ensures}
use kora_contract.Prelude.Store.{update, remove}
use kora_contract.Shared.Host.{Env, Address, Symbol, Bytes}
use kora_contract.Shared.Types.{RiskTier, ProtocolConfig}
use kora_contract.InvoiceNft.State.{NftState, InvoiceCold}
use kora_contract.InvoiceNft.Admin.{
  set_risk_registry, set_debtor_attestation, set_authorized_callers, set_protocol_config,
  set_amount_bounds, set_mint_rate_limit,
}
use kora_contract.InvoiceNft.Edit.{amend_invoice, update_metadata_cid, withdraw_invoice, Amendment}
use kora_contract.InvoiceNft.Status.{
  set_created, set_listed, set_funded, set_repaid, set_defaulted, archive_invoice,
}
use kora_contract.InvoiceNft.Freeze.{
  freeze_invoice, unfreeze_invoice, refresh_risk_score, freeze_loop, unfreeze_loop,
  freeze_sme_invoices, unfreeze_sme_invoices,
}
use kora_contract.InvoiceNft.Metadata.{
  commit_metadata_hash, flag_metadata_mismatch, admin_correct_metadata_hash,
  resolve_metadata_dispute, add_allowed_currency, remove_allowed_currency,
}
use kora_contract.InvoiceNft.Lifecycle.{next_of}

-- Whether a record waits for the hash of its document.
abbrev pub is_uncommitted : Option InvoiceCold → Bool
is_uncommitted none = false
is_uncommitted (some cold) = length cold.metadata_hash == 0

-- The identifier is allocated, and no record of it waits for a hash.
pub record IsCommitted (j : ℕ) (s : NftState) : Type 0 where
  pub allocated : j < next_of s
  pub taken : is_uncommitted (s.cold j) ≡ false

-- Two states with the same documents and the same next identifier.
abbrev pub SameDocuments : NftState → NftState → Type 0
SameDocuments s s' = (s'.cold ≡ s.cold) × (s'.next_id ≡ s.next_id)

pub same-IsCommitted :
    (j : ℕ) (s s' : NftState) → IsCommitted j s → SameDocuments s s' → IsCommitted j s'
same-IsCommitted j s s' h same = ground (arith, h.allocated, h.taken, same.0, same.1)

freeze_loop-SameDocuments :
    (s : NftState) (n m : ℕ) (ids : List ℕ) → SameDocuments s (freeze_loop s n m ids).0
unfolding freeze_loop
freeze_loop-SameDocuments s n m [] = ground arith
freeze_loop-SameDocuments s n m (id ∷ ids) = ground (
  arith,
  freeze_loop-SameDocuments s n m ids,
  freeze_loop-SameDocuments (record s { frozen = update s.frozen id true }) (n + 1) m ids,
)

unfreeze_loop-SameDocuments :
    (s : NftState) (n m : ℕ) (ids : List ℕ) → SameDocuments s (unfreeze_loop s n m ids).0
unfolding unfreeze_loop
unfreeze_loop-SameDocuments s n m [] = ground arith
unfreeze_loop-SameDocuments s n m (id ∷ ids) = ground (
  arith,
  unfreeze_loop-SameDocuments s n m ids,
  unfreeze_loop-SameDocuments (record s { frozen = remove s.frozen id }) (n + 1) m ids,
)

module _ (env : Env) (j : ℕ) (s : NftState) (h : IsCommitted j s) (a : Address) where
  pub set_risk_registry-IsCommitted :
      (r : Address) → Ensures (IsCommitted j) (set_risk_registry env s a r)
  unfolding set_risk_registry
  set_risk_registry-IsCommitted r = ground (arith, h.allocated, h.taken)

  pub set_debtor_attestation-IsCommitted :
      (r : Address) → Ensures (IsCommitted j) (set_debtor_attestation env s a r)
  unfolding set_debtor_attestation
  set_debtor_attestation-IsCommitted r = ground (arith, h.allocated, h.taken)

  pub set_authorized_callers-IsCommitted :
      (m f : Address) → Ensures (IsCommitted j) (set_authorized_callers env s a m f)
  unfolding set_authorized_callers
  set_authorized_callers-IsCommitted m f = ground (arith, h.allocated, h.taken)

  pub set_protocol_config-IsCommitted :
      (c : ProtocolConfig) → Ensures (IsCommitted j) (set_protocol_config env s a c)
  unfolding set_protocol_config
  set_protocol_config-IsCommitted c = ground (arith, h.allocated, h.taken)

  pub set_amount_bounds-IsCommitted :
      (t : RiskTier) (lo hi : ℤ) → Ensures (IsCommitted j) (set_amount_bounds env s a t lo hi)
  unfolding set_amount_bounds
  set_amount_bounds-IsCommitted t lo hi = ground (arith, h.allocated, h.taken)

  pub set_mint_rate_limit-IsCommitted :
      (m w : ℕ) → Ensures (IsCommitted j) (set_mint_rate_limit env s a m w)
  unfolding set_mint_rate_limit
  set_mint_rate_limit-IsCommitted m w = ground (arith, h.allocated, h.taken)

  pub amend_invoice-IsCommitted :
      (id : ℕ) (n : Amendment) → Ensures (IsCommitted j) (amend_invoice env s a id n)
  unfolding amend_invoice
  amend_invoice-IsCommitted id n = ground (arith, h.allocated, h.taken)

  pub update_metadata_cid-IsCommitted :
      (id : ℕ) (n : Bytes) → Ensures (IsCommitted j) (update_metadata_cid env s a id n)
  unfolding update_metadata_cid
  update_metadata_cid-IsCommitted id n = ground (arith, h.allocated, h.taken)

  pub withdraw_invoice-IsCommitted :
      (id : ℕ) → Ensures (IsCommitted j) (withdraw_invoice env s a id)
  unfolding withdraw_invoice
  withdraw_invoice-IsCommitted id = ground (arith, h.allocated, h.taken)

  pub set_created-IsCommitted : (id : ℕ) → Ensures (IsCommitted j) (set_created env s a id)
  unfolding set_created
  set_created-IsCommitted id = ground (arith, h.allocated, h.taken)

  pub set_listed-IsCommitted : (id : ℕ) → Ensures (IsCommitted j) (set_listed env s a id)
  unfolding set_listed
  set_listed-IsCommitted id = ground (arith, h.allocated, h.taken)

  pub set_funded-IsCommitted : (id : ℕ) → Ensures (IsCommitted j) (set_funded env s a id)
  unfolding set_funded
  set_funded-IsCommitted id = ground (arith, h.allocated, h.taken)

  pub set_repaid-IsCommitted : (id : ℕ) → Ensures (IsCommitted j) (set_repaid env s a id)
  unfolding set_repaid
  set_repaid-IsCommitted id = ground (arith, h.allocated, h.taken)

  pub set_defaulted-IsCommitted : (id : ℕ) → Ensures (IsCommitted j) (set_defaulted env s a id)
  unfolding set_defaulted
  set_defaulted-IsCommitted id = ground (arith, h.allocated, h.taken)

  pub archive_invoice-IsCommitted : (id : ℕ) → Ensures (IsCommitted j) (archive_invoice env s a id)
  unfolding archive_invoice
  archive_invoice-IsCommitted id = ground (arith, h.allocated, h.taken)

  pub freeze_invoice-IsCommitted : (id : ℕ) → Ensures (IsCommitted j) (freeze_invoice env s a id)
  unfolding freeze_invoice
  freeze_invoice-IsCommitted id = ground (arith, h.allocated, h.taken)

  pub unfreeze_invoice-IsCommitted :
      (id : ℕ) → Ensures (IsCommitted j) (unfreeze_invoice env s a id)
  unfolding unfreeze_invoice
  unfreeze_invoice-IsCommitted id = ground (arith, h.allocated, h.taken)

  pub refresh_risk_score-IsCommitted :
      (id : ℕ) → Ensures (IsCommitted j) (refresh_risk_score env s a id)
  unfolding refresh_risk_score
  refresh_risk_score-IsCommitted id = ground (arith, h.allocated, h.taken)

  pub commit_metadata_hash-IsCommitted :
      (id : ℕ) (x : Bytes) → Ensures (IsCommitted j) (commit_metadata_hash env s a id x)
  unfolding commit_metadata_hash
  commit_metadata_hash-IsCommitted id x = ground (arith, h.allocated, h.taken)

  pub flag_metadata_mismatch-IsCommitted :
      (id : ℕ) (x : Bytes) → Ensures (IsCommitted j) (flag_metadata_mismatch env s a id x)
  unfolding flag_metadata_mismatch
  flag_metadata_mismatch-IsCommitted id x = ground (arith, h.allocated, h.taken)

  pub admin_correct_metadata_hash-IsCommitted :
      (id : ℕ) (x : Bytes) → Ensures (IsCommitted j) (admin_correct_metadata_hash env s a id x)
  unfolding admin_correct_metadata_hash
  admin_correct_metadata_hash-IsCommitted id x = ground (arith, h.allocated, h.taken)

  pub resolve_metadata_dispute-IsCommitted :
      (id : ℕ) (u : Bool) → Ensures (IsCommitted j) (resolve_metadata_dispute env s a id u)
  unfolding resolve_metadata_dispute
  resolve_metadata_dispute-IsCommitted id u = ground (arith, h.allocated, h.taken)

  pub add_allowed_currency-IsCommitted :
      (c : Symbol) → Ensures (IsCommitted j) (add_allowed_currency env s a c)
  unfolding add_allowed_currency
  add_allowed_currency-IsCommitted c = ground (arith, h.allocated, h.taken)

  pub remove_allowed_currency-IsCommitted :
      (c : Symbol) → Ensures (IsCommitted j) (remove_allowed_currency env s a c)
  unfolding remove_allowed_currency
  remove_allowed_currency-IsCommitted c = ground (arith, h.allocated, h.taken)

  pub freeze_sme_invoices-IsCommitted :
      (sme : Address) (n : ℕ) → Ensures (λ p. IsCommitted j p.0) (freeze_sme_invoices env s a sme n)
  unfolding freeze_sme_invoices
  freeze_sme_invoices-IsCommitted sme n =
      grind (arith, h, freeze_loop-SameDocuments, same-IsCommitted)

  pub unfreeze_sme_invoices-IsCommitted :
      (sme : Address) (n : ℕ)
      → Ensures (λ p. IsCommitted j p.0) (unfreeze_sme_invoices env s a sme n)
  unfolding unfreeze_sme_invoices
  unfreeze_sme_invoices-IsCommitted sme n =
      grind (arith, h, unfreeze_loop-SameDocuments, same-IsCommitted)
