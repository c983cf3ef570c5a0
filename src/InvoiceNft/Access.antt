-- ===== src/InvoiceNft/Access.antt =====
-- Who may make which call.
mod Calls
use kora_contract.Prelude.{Bool, ℕ, ◌≡◌, refl, true, Option, some, List, arith}
use kora_contract.Prelude.Int.{ℤ}
use kora_contract.Prelude.Results.{Ensures, Ensures-ok, ok, err, trap}
use kora_contract.Shared.Host.{Env, Address}
use kora_contract.Shared.Host.{Bytes, Symbol}
use kora_contract.Shared.Types.{ProtocolConfig, RiskTier}
use kora_contract.InvoiceNft.Edit.{Amendment}
use kora_contract.InvoiceNft.State.{NftState, BatchInvoiceInput}
use kora_contract.InvoiceNft.Guards.{Call}
use kora_contract.InvoiceNft.Admin
use kora_contract.InvoiceNft.Mint
use kora_contract.InvoiceNft.Edit
use kora_contract.InvoiceNft.Status
use kora_contract.InvoiceNft.Freeze
use kora_contract.InvoiceNft.Metadata
use kora_contract.InvoiceNft.Requests.{Request, execute, state_of}
use Calls.*

-- The address that a call says it comes from.
abbrev pub caller_of : Request → Address
caller_of (Request.set_risk_registry a r) = a
caller_of (Request.set_debtor_attestation a r) = a
caller_of (Request.set_authorized_callers a m f) = a
caller_of (Request.set_protocol_config a c) = a
caller_of (Request.set_amount_bounds a t lo hi) = a
caller_of (Request.set_mint_rate_limit a m w) = a
caller_of (Request.mint_invoice a i) = a
caller_of (Request.mint_invoice_with_referrer a i r) = a
caller_of (Request.mint_invoices_batch a is) = a
caller_of (Request.amend_invoice a id n) = a
caller_of (Request.update_metadata_cid a id n) = a
caller_of (Request.withdraw_invoice a id) = a
caller_of (Request.set_created a id) = a
caller_of (Request.set_listed a id) = a
caller_of (Request.set_funded a id) = a
caller_of (Request.set_repaid a id) = a
caller_of (Request.set_defaulted a id) = a
caller_of (Request.archive_invoice a id) = a
caller_of (Request.freeze_invoice a id) = a
caller_of (Request.unfreeze_invoice a id) = a
caller_of (Request.freeze_sme_invoices a sme n) = a
caller_of (Request.unfreeze_sme_invoices a sme n) = a
caller_of (Request.refresh_risk_score a id) = a
caller_of (Request.commit_metadata_hash a id h) = a
caller_of (Request.flag_metadata_mismatch a id h) = a
caller_of (Request.admin_correct_metadata_hash a id h) = a
caller_of (Request.resolve_metadata_dispute a id u) = a
caller_of (Request.add_allowed_currency a c) = a
caller_of (Request.remove_allowed_currency a c) = a

-- Who the caller must be: the admin, the wired marketplace, the wired pool, or, for the calls of an
-- SME, whoever signs.
abbrev pub keeper_of : NftState → Request → Option Address
keeper_of s (Request.mint_invoice a i) = some a
keeper_of s (Request.mint_invoice_with_referrer a i r) = some a
keeper_of s (Request.mint_invoices_batch a is) = some a
keeper_of s (Request.amend_invoice a id n) = some a
keeper_of s (Request.update_metadata_cid a id n) = some a
keeper_of s (Request.withdraw_invoice a id) = some a
keeper_of s (Request.set_created a id) = s.marketplace
keeper_of s (Request.set_listed a id) = s.marketplace
keeper_of s (Request.set_funded a id) = s.financing_pool
keeper_of s (Request.set_repaid a id) = s.financing_pool
keeper_of s (Request.commit_metadata_hash a id h) = some a
keeper_of s (Request.flag_metadata_mismatch a id h) = some a
keeper_of s _ = s.admin

pub record IsAuthorized (env : Env) (s : NftState) (r : Request) : Type 0 where
  pub signed : env.signed (caller_of r) ≡ true
  pub kept : keeper_of s r ≡ some (caller_of r)

by_state :
    {A : Type 0} (P : Type 0) (m : Call (NftState × A))
    → Ensures (λ p. P) m
    → Ensures (λ s'. P) (state_of m)
by_state P (ok p) h = h
by_state P (err e) h = tt
by_state P trap h = tt

weaken : (P Q : Type 0) (m : Call NftState) → (P → Q) → Ensures (λ a. P) m → Ensures (λ a. Q) m
weaken P Q (ok a) f h = f h
weaken P Q (err e) f h = tt
weaken P Q trap f h = tt

module _ (env : Env) (s : NftState) (r : Request) where
  by_sme :
      (m : Call NftState)
      → keeper_of s r ≡ some (caller_of r)
      → Ensures (λ s'. env.signed (caller_of r) ≡ true) m
      → Ensures (λ s'. IsAuthorized env s r) m
  by_sme m k h =
      weaken (env.signed (caller_of r) ≡ true) (IsAuthorized env s r) m
        (λ g. record { signed = g; kept = k }) h

  by_keeper :
      (m : Call NftState)
      → Ensures (λ s'. (env.signed (caller_of r) ≡ true) × (keeper_of s r ≡ some (caller_of r))) m
      → Ensures (λ s'. IsAuthorized env s r) m
  by_keeper m h =
      weaken ((env.signed (caller_of r) ≡ true) × (keeper_of s r ≡ some (caller_of r)))
        (IsAuthorized env s r) m (λ g. record { signed = g.0; kept = g.1 }) h

execute-IsAuthorized :
    (env : Env) (s : NftState) (r : Request)
    → Ensures (λ s'. IsAuthorized env s r) (execute env s r)
unfolding execute
execute-IsAuthorized env s (Request.set_risk_registry a r) =
    by_keeper env s (Request.set_risk_registry a r) _ (set_risk_registry-ByAdmin env s a r)
execute-IsAuthorized env s (Request.set_debtor_attestation a r) =
    by_keeper env s (Request.set_debtor_attestation a r) _
      (set_debtor_attestation-ByAdmin env s a r)
execute-IsAuthorized env s (Request.set_authorized_callers a m f) =
    by_keeper env s (Request.set_authorized_callers a m f) _
      (set_authorized_callers-ByAdmin env s a m f)
execute-IsAuthorized env s (Request.set_protocol_config a c) =
    by_keeper env s (Request.set_protocol_config a c) _ (set_protocol_config-ByAdmin env s a c)
execute-IsAuthorized env s (Request.set_amount_bounds a t lo hi) =
    by_keeper env s (Request.set_amount_bounds a t lo hi) _
      (set_amount_bounds-ByAdmin env s a t lo hi)
execute-IsAuthorized env s (Request.set_mint_rate_limit a m w) =
    by_keeper env s (Request.set_mint_rate_limit a m w) _ (set_mint_rate_limit-ByAdmin env s a m w)
execute-IsAuthorized env s (Request.mint_invoice a i) =
    by_sme env s (Request.mint_invoice a i) _ refl
      (by_state (env.signed a ≡ true) _ (mint_invoice-BySme env s a i))
execute-IsAuthorized env s (Request.mint_invoice_with_referrer a i r) =
    by_sme env s (Request.mint_invoice_with_referrer a i r) _ refl
      (by_state (env.signed a ≡ true) _ (mint_invoice_with_referrer-BySme env s a i r))
execute-IsAuthorized env s (Request.mint_invoices_batch a is) =
    by_sme env s (Request.mint_invoices_batch a is) _ refl
      (by_state (env.signed a ≡ true) _ (mint_invoices_batch-BySme env s a is))
execute-IsAuthorized env s (Request.amend_invoice a id n) =
    by_sme env s (Request.amend_invoice a id n) _ refl (amend_invoice-BySme env s a id n)
execute-IsAuthorized env s (Request.update_metadata_cid a id n) =
    by_sme env s (Request.update_metadata_cid a id n) _ refl
      (update_metadata_cid-BySme env s a id n)
execute-IsAuthorized env s (Request.withdraw_invoice a id) =
    by_sme env s (Request.withdraw_invoice a id) _ refl (withdraw_invoice-BySme env s a id)
execute-IsAuthorized env s (Request.set_created a id) =
    by_keeper env s (Request.set_created a id) _ (set_created-ByKeeper env s a id)
execute-IsAuthorized env s (Request.set_listed a id) =
    by_keeper env s (Request.set_listed a id) _ (set_listed-ByKeeper env s a id)
execute-IsAuthorized env s (Request.set_funded a id) =
    by_keeper env s (Request.set_funded a id) _ (set_funded-ByKeeper env s a id)
execute-IsAuthorized env s (Request.set_repaid a id) =
    by_keeper env s (Request.set_repaid a id) _ (set_repaid-ByKeeper env s a id)
execute-IsAuthorized env s (Request.set_defaulted a id) =
    by_keeper env s (Request.set_defaulted a id) _ (set_defaulted-ByAdmin env s a id)
execute-IsAuthorized env s (Request.archive_invoice a id) =
    by_keeper env s (Request.archive_invoice a id) _ (archive_invoice-ByAdmin env s a id)
execute-IsAuthorized env s (Request.freeze_invoice a id) =
    by_keeper env s (Request.freeze_invoice a id) _ (freeze_invoice-ByAdmin env s a id)
execute-IsAuthorized env s (Request.unfreeze_invoice a id) =
    by_keeper env s (Request.unfreeze_invoice a id) _ (unfreeze_invoice-ByAdmin env s a id)
execute-IsAuthorized env s (Request.freeze_sme_invoices a sme n) =
    by_keeper env s (Request.freeze_sme_invoices a sme n) _ (
      by_state ((env.signed a ≡ true) × (s.admin ≡ some a)) _
        (freeze_sme_invoices-ByAdmin env s a sme n))
execute-IsAuthorized env s (Request.unfreeze_sme_invoices a sme n) =
    by_keeper env s (Request.unfreeze_sme_invoices a sme n) _ (
      by_state ((env.signed a ≡ true) × (s.admin ≡ some a)) _
        (unfreeze_sme_invoices-ByAdmin env s a sme n))
execute-IsAuthorized env s (Request.refresh_risk_score a id) =
    by_keeper env s (Request.refresh_risk_score a id) _ (refresh_risk_score-ByAdmin env s a id)
execute-IsAuthorized env s (Request.commit_metadata_hash a id h) =
    by_sme env s (Request.commit_metadata_hash a id h) _ refl
      (commit_metadata_hash-BySme env s a id h)
execute-IsAuthorized env s (Request.flag_metadata_mismatch a id h) =
    by_sme env s (Request.flag_metadata_mismatch a id h) _ refl
      (flag_metadata_mismatch-BySme env s a id h)
execute-IsAuthorized env s (Request.admin_correct_metadata_hash a id h) =
    by_keeper env s (Request.admin_correct_metadata_hash a id h) _
      (admin_correct_metadata_hash-ByAdmin env s a id h)
execute-IsAuthorized env s (Request.resolve_metadata_dispute a id u) =
    by_keeper env s (Request.resolve_metadata_dispute a id u) _
      (resolve_metadata_dispute-ByAdmin env s a id u)
execute-IsAuthorized env s (Request.add_allowed_currency a c) =
    by_keeper env s (Request.add_allowed_currency a c) _ (add_allowed_currency-ByAdmin env s a c)
execute-IsAuthorized env s (Request.remove_allowed_currency a c) =
    by_keeper env s (Request.remove_allowed_currency a c) _
      (remove_allowed_currency-ByAdmin env s a c)

-- A call that succeeds was signed by the address it names, and that address is the stored admin for
-- the administrative calls, the wired marketplace for listing and taking back, and the wired pool for
-- funding and repayment.
pub execute-ok-IsAuthorized :
    (env : Env) (s : NftState) (r : Request) (s' : NftState)
    → execute env s r ≡ ok s'
    → IsAuthorized env s r
execute-ok-IsAuthorized env s r s' e =
    Ensures-ok (λ s'. IsAuthorized env s r) _ (execute-IsAuthorized env s r) e
