-- ===== src/InvoiceNft/Edit.antt =====
-- Amending, re-pointing and withdrawing an invoice that is not listed yet.
use kora_contract.Prelude.{ℕ, List, [], ◌∷◌, ◌++◌, length, leb, ◌==◌, if◌then◌else◌, unwrap_or}
use kora_contract.Prelude.Int.{ℤ}
use kora_contract.Prelude.Results.{ok, ◌>>=◌, ◌>>◌, guard, lift_err}
use kora_contract.Prelude.Store.{update, remove}
use kora_contract.Shared.Host.{Env, Address, Bytes, require_auth}
use kora_contract.Shared.Types.{created, eq_status, from_score}
use kora_contract.Shared.Validation.{
  require_non_zero_amount, require_future_timestamp, require_valid_risk_score,
  require_non_empty_bytes, require_non_empty_string, require_max_length_string, max_ipfs_cid_len,
}
use kora_contract.InvoiceNft.State.{InvoiceNftError, from_common, NftState}
use kora_contract.InvoiceNft.Guards.{
  Call, load_hot, load_cold, require_not_paused, remove_sme_invoice_id,
}
use kora_contract.InvoiceNft.Status.{release_exposure}

-- The new values of an amendment.
pub record Amendment : Type 0 where
  pub debtor_hash : Bytes
  pub amount : ℤ
  pub due_date : ℕ
  pub ipfs_cid : Bytes
  pub risk_score : ℕ

unfoldable pub amend_invoice : Env → NftState → Address → ℕ → Amendment → Call NftState
unfolding require_not_paused require_non_zero_amount require_future_timestamp
    require_valid_risk_score require_non_empty_bytes require_non_empty_string load_hot load_cold
    from_score
amend_invoice env s sme id new = do
  require_auth env sme
  require_not_paused env s
  lift_err from_common (require_non_zero_amount new.amount)
  lift_err from_common (require_future_timestamp env new.due_date)
  lift_err from_common (require_valid_risk_score new.risk_score)
  lift_err from_common (require_non_empty_bytes new.debtor_hash)
  lift_err from_common (require_non_empty_string new.ipfs_cid)
  hot ← load_hot s id
  guard (eq_status hot.status created) InvoiceNftError.invalid_invoice_status
  guard (hot.sme == sme) InvoiceNftError.unauthorized
  let hot' = record hot {
    amount = new.amount;
    due_date = new.due_date;
    risk_score = new.risk_score;
    risk_tier = from_score new.risk_score;
  }
  cold ← load_cold s id
  let cold' = record cold { debtor_hash = new.debtor_hash; ipfs_cid = new.ipfs_cid }
  ok (record s { hot = update s.hot id hot'; cold = update s.cold id cold' })

abbrev pub max_metadata_cid_history : ℕ
max_metadata_cid_history = 20

-- `history.remove(0)`
abbrev drop_oldest : List Bytes → List Bytes
drop_oldest [] = []
drop_oldest (x ∷ xs) = xs

abbrev pub push_history : List Bytes → Bytes → List Bytes
push_history history cid =
    (if leb max_metadata_cid_history (length history) then drop_oldest history else history)
    ++ cid ∷ []

unfoldable pub update_metadata_cid : Env → NftState → Address → ℕ → Bytes → Call NftState
unfolding require_not_paused require_non_empty_string require_max_length_string load_hot load_cold
update_metadata_cid env s sme id new_cid = do
  require_auth env sme
  require_not_paused env s
  lift_err from_common (require_non_empty_string new_cid)
  lift_err from_common (require_max_length_string new_cid max_ipfs_cid_len)
  hot ← load_hot s id
  guard (hot.sme == sme) InvoiceNftError.not_invoice_owner
  guard (eq_status hot.status created) InvoiceNftError.invalid_invoice_status
  cold ← load_cold s id
  let history = push_history (unwrap_or (s.cid_history id) []) cold.ipfs_cid
  ok (record s {
    cid_history = update s.cid_history id history;
    cold = update s.cold id (record cold { ipfs_cid = new_cid });
  })

unfoldable pub withdraw_invoice : Env → NftState → Address → ℕ → Call NftState
unfolding require_not_paused load_hot remove_sme_invoice_id
withdraw_invoice env s sme id = do
  require_auth env sme
  require_not_paused env s
  hot ← load_hot s id
  guard (eq_status hot.status created) InvoiceNftError.invalid_invoice_status
  guard (hot.sme == sme) InvoiceNftError.unauthorized
  let s1 = record s { hot = remove s.hot id; cold = remove s.cold id }
  ok (remove_sme_invoice_id (release_exposure s1 sme hot.amount) sme id)
