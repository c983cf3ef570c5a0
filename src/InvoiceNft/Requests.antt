-- ===== src/InvoiceNft/Requests.antt =====
-- The calls of the invoice contract as data, and a history of calls. A call that fails leaves the
-- storage as it was, as the host undoes its writes.
use kora_contract.Prelude.{ℕ, Bool, Option, List, [], ◌∷◌}
use kora_contract.Prelude.Int.{ℤ}
use kora_contract.Prelude.Results.{ok, err, trap, ◌>>=◌}
use kora_contract.Shared.Host.{Env, Address, Symbol, Bytes}
use kora_contract.Shared.Types.{RiskTier, ProtocolConfig}
use kora_contract.InvoiceNft.State.{BatchInvoiceInput, NftState}
use kora_contract.InvoiceNft.Guards.{Call}
use kora_contract.InvoiceNft.Admin
use kora_contract.InvoiceNft.Mint
use kora_contract.InvoiceNft.Edit
use kora_contract.InvoiceNft.Edit.{Amendment}
use kora_contract.InvoiceNft.Status
use kora_contract.InvoiceNft.Freeze
use kora_contract.InvoiceNft.Metadata

pub data Request : Type 0 where
  set_risk_registry : Address → Address → Request
  set_debtor_attestation : Address → Address → Request
  set_authorized_callers : Address → Address → Address → Request
  set_protocol_config : Address → ProtocolConfig → Request
  set_amount_bounds : Address → RiskTier → ℤ → ℤ → Request
  set_mint_rate_limit : Address → ℕ → ℕ → Request
  mint_invoice : Address → BatchInvoiceInput → Request
  mint_invoice_with_referrer : Address → BatchInvoiceInput → Option Address → Request
  mint_invoices_batch : Address → List BatchInvoiceInput → Request
  amend_invoice : Address → ℕ → Amendment → Request
  update_metadata_cid : Address → ℕ → Bytes → Request
  withdraw_invoice : Address → ℕ → Request
  set_created set_listed set_funded set_repaid set_defaulted : Address → ℕ → Request
  archive_invoice freeze_invoice unfreeze_invoice : Address → ℕ → Request
  freeze_sme_invoices unfreeze_sme_invoices : Address → Address → ℕ → Request
  refresh_risk_score : Address → ℕ → Request
  commit_metadata_hash flag_metadata_mismatch admin_correct_metadata_hash :
      Address → ℕ → Bytes → Request
  resolve_metadata_dispute : Address → ℕ → Bool → Request
  add_allowed_currency remove_allowed_currency : Address → Symbol → Request

-- The storage that a call with a value leaves.
abbrev pub state_of : {A : Type 0} → Call (NftState × A) → Call NftState
state_of r = r >>= λ p. ok p.0

unfoldable pub execute : Env → NftState → Request → Call NftState
execute env s (Request.set_risk_registry a r) = Admin.set_risk_registry env s a r
execute env s (Request.set_debtor_attestation a r) = Admin.set_debtor_attestation env s a r
execute env s (Request.set_authorized_callers a m f) = Admin.set_authorized_callers env s a m f
execute env s (Request.set_protocol_config a c) = Admin.set_protocol_config env s a c
execute env s (Request.set_amount_bounds a t lo hi) = Admin.set_amount_bounds env s a t lo hi
execute env s (Request.set_mint_rate_limit a m w) = Admin.set_mint_rate_limit env s a m w
execute env s (Request.mint_invoice a i) = state_of (Mint.mint_invoice env s a i)
execute env s (Request.mint_invoice_with_referrer a i r) =
    state_of (Mint.mint_invoice_with_referrer env s a i r)
execute env s (Request.mint_invoices_batch a is) = state_of (Mint.mint_invoices_batch env s a is)
execute env s (Request.amend_invoice a id n) = Edit.amend_invoice env s a id n
execute env s (Request.update_metadata_cid a id n) = Edit.update_metadata_cid env s a id n
execute env s (Request.withdraw_invoice a id) = Edit.withdraw_invoice env s a id
execute env s (Request.set_created a id) = Status.set_created env s a id
execute env s (Request.set_listed a id) = Status.set_listed env s a id
execute env s (Request.set_funded a id) = Status.set_funded env s a id
execute env s (Request.set_repaid a id) = Status.set_repaid env s a id
execute env s (Request.set_defaulted a id) = Status.set_defaulted env s a id
execute env s (Request.archive_invoice a id) = Status.archive_invoice env s a id
execute env s (Request.freeze_invoice a id) = Freeze.freeze_invoice env s a id
execute env s (Request.unfreeze_invoice a id) = Freeze.unfreeze_invoice env s a id
execute env s (Request.freeze_sme_invoices a sme n) =
    state_of (Freeze.freeze_sme_invoices env s a sme n)
execute env s (Request.unfreeze_sme_invoices a sme n) =
    state_of (Freeze.unfreeze_sme_invoices env s a sme n)
execute env s (Request.refresh_risk_score a id) = Freeze.refresh_risk_score env s a id
execute env s (Request.commit_metadata_hash a id h) = Metadata.commit_metadata_hash env s a id h
execute env s (Request.flag_metadata_mismatch a id h) = Metadata.flag_metadata_mismatch env s a id h
execute env s (Request.admin_correct_metadata_hash a id h) =
    Metadata.admin_correct_metadata_hash env s a id h
execute env s (Request.resolve_metadata_dispute a id u) =
    Metadata.resolve_metadata_dispute env s a id u
execute env s (Request.add_allowed_currency a c) = Metadata.add_allowed_currency env s a c
execute env s (Request.remove_allowed_currency a c) = Metadata.remove_allowed_currency env s a c

abbrev pub committed : NftState → Call NftState → NftState
committed s (ok s') = s'
committed s (err e) = s
committed s trap = s

unfoldable pub step : NftState → Env × Request → NftState
unfolding execute
step s (env, r) = committed s (execute env s r)

unfoldable pub run : NftState → List (Env × Request) → NftState
unfolding step
run s [] = s
run s (c ∷ cs) = run (step s c) cs
