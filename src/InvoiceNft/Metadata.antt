-- ===== src/InvoiceNft/Metadata.antt =====
-- The commitment to a document's hash, its disputes, and the list of allowed currencies.
use kora_contract.Prelude.{ℕ, Bool, true, false, if◌then◌else◌, length, ◌==◌, unwrap_or, is_some}
use kora_contract.Prelude.Results.{ok, ◌>>=◌, ◌>>◌, guard, refuse_if, ok_or, lift_err}
use kora_contract.Prelude.Store.{update, remove}
use kora_contract.Shared.Host.{Env, Address, Symbol, Bytes, require_auth}
use kora_contract.Shared.Types.{created, eq_status}
use kora_contract.Shared.Validation.{require_non_empty_bytes}
use kora_contract.InvoiceNft.State.{
  InvoiceNftError, from_common, MetadataDispute, AuditAction, NftState,
}
use kora_contract.InvoiceNft.Guards.{
  Call, acquire_guard, release_guard, load_hot, load_cold, require_admin, require_not_paused,
  append_audit_entry,
}

unfoldable pub commit_metadata_hash : Env → NftState → Address → ℕ → Bytes → Call NftState
unfolding require_not_paused acquire_guard release_guard require_non_empty_bytes load_hot load_cold
commit_metadata_hash env s sme id metadata_hash = do
  require_auth env sme
  require_not_paused env s
  s1 ← acquire_guard s
  lift_err from_common (require_non_empty_bytes metadata_hash)
  hot ← load_hot s1 id
  guard (hot.sme == sme) InvoiceNftError.unauthorized
  guard (eq_status hot.status created) InvoiceNftError.invalid_invoice_status
  cold ← load_cold s1 id
  guard (length cold.metadata_hash == 0) InvoiceNftError.already_initialized
  ok (
      release_guard
        (record s1 { cold = update s1.cold id (record cold { metadata_hash = metadata_hash }) }))

unfoldable pub flag_metadata_mismatch : Env → NftState → Address → ℕ → Bytes → Call NftState
unfolding require_not_paused acquire_guard release_guard require_non_empty_bytes load_cold
flag_metadata_mismatch env s challenger id evidence_hash = do
  require_auth env challenger
  require_not_paused env s
  s1 ← acquire_guard s
  lift_err from_common (require_non_empty_bytes evidence_hash)
  cold ← load_cold s1 id
  refuse_if (length cold.metadata_hash == 0) InvoiceNftError.invalid_invoice_status
  refuse_if (is_some (s1.metadata_disputes id)) InvoiceNftError.already_initialized
  let dispute : MetadataDispute = record {
    challenger = challenger;
    evidence_hash = evidence_hash;
    raised_at = env.now;
    resolved = false;
    upheld = false;
  }
  ok (
      release_guard (record s1 {
        metadata_disputes = update s1.metadata_disputes id dispute;
        frozen = update s1.frozen id true;
      }))

unfoldable pub resolve_metadata_dispute : Env → NftState → Address → ℕ → Bool → Call NftState
unfolding require_admin
resolve_metadata_dispute env s admin id upheld = do
  require_auth env admin
  require_admin s admin
  dispute ← ok_or (s.metadata_disputes id) InvoiceNftError.invalid_invoice_status
  refuse_if dispute.resolved InvoiceNftError.invalid_invoice_status
  let s1 = record s {
    metadata_disputes =
        update s.metadata_disputes id (record dispute { resolved = true; upheld = upheld });
  }
  ok (if upheld then s1 else record s1 { frozen = remove s1.frozen id })

unfoldable pub admin_correct_metadata_hash : Env → NftState → Address → ℕ → Bytes → Call NftState
unfolding require_admin require_non_empty_bytes load_hot load_cold append_audit_entry
admin_correct_metadata_hash env s admin id new_hash = do
  require_auth env admin
  require_admin s admin
  lift_err from_common (require_non_empty_bytes new_hash)
  hot ← load_hot s id
  guard (eq_status hot.status created) InvoiceNftError.invalid_invoice_status
  cold ← load_cold s id
  let s1 = record s { cold = update s.cold id (record cold { metadata_hash = new_hash }) }
  append_audit_entry env s1 admin AuditAction.correct_metadata_hash

unfoldable pub add_allowed_currency : Env → NftState → Address → Symbol → Call NftState
unfolding require_admin append_audit_entry
add_allowed_currency env s admin currency = do
  require_auth env admin
  require_admin s admin
  append_audit_entry env
      (record s { currency_allowlist = update s.currency_allowlist currency true }) admin
      AuditAction.add_allowed_currency

unfoldable pub remove_allowed_currency : Env → NftState → Address → Symbol → Call NftState
unfolding require_admin append_audit_entry
remove_allowed_currency env s admin currency = do
  require_auth env admin
  require_admin s admin
  append_audit_entry env (record s { currency_allowlist = remove s.currency_allowlist currency })
      admin AuditAction.remove_allowed_currency

unfoldable pub is_currency_allowed : NftState → Symbol → Bool
is_currency_allowed s currency = unwrap_or (s.currency_allowlist currency) false
