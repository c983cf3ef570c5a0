-- ===== src/InvoiceNft/Mint.antt =====
-- Minting invoices, one at a time or in a batch. The arguments that describe an invoice are grouped
-- in the record that the batch call takes.
use kora_contract.Prelude.{
  ℕ, zero, suc, Bool, false, ◌&&◌, Option, none, some, List, [], ◌∷◌, length, if◌then◌else◌,
  unwrap_or, ◌==◌, is_some,
}
use kora_contract.Prelude.Int.{ℤ, pos, ltb_ℤ, eq_ℤ}
use kora_contract.Prelude.Int128.{checked_add, checked_add_u, u64_limit}
use kora_contract.Prelude.Results.{Result, ok, err, ◌>>=◌, ◌>>◌, refuse_if, ok_or, lift_err}
use kora_contract.Prelude.Store.{update}
use kora_contract.Shared.Host.{Env, Address, SmeProfile, require_auth}
use kora_contract.Shared.Errors.{CommonError}
use kora_contract.Shared.Types.{created, from_score}
use kora_contract.Shared.Validation.{
  require_non_zero_amount, require_future_timestamp, require_valid_risk_score,
  require_risk_score_within_ceiling, require_amount_within_bounds, require_non_empty_bytes,
  require_max_length_bytes, require_non_empty_string, require_max_length_string,
  require_batch_size_within_limit, max_debtor_hash_len, max_ipfs_cid_len,
}
use kora_contract.InvoiceNft.State.{
  InvoiceNftError, from_common, InvoiceHot, InvoiceCold, BatchInvoiceInput, NftState,
}
use kora_contract.InvoiceNft.Guards.{
  Call, acquire_guard, release_guard, require_not_paused, consume_mint_quota, append_sme_invoice_id,
  append_sme_invoice_ids,
}
use kora_contract.InvoiceNft.Admin.{get_protocol_config}

-- The checks on the amount, the date and the score.
unfoldable pub check_terms : Env → ℕ → BatchInvoiceInput → Result CommonError (Unit {0})
unfolding require_non_zero_amount require_future_timestamp require_valid_risk_score
    require_risk_score_within_ceiling
check_terms env max_risk_score input = do
  require_non_zero_amount input.amount
  require_future_timestamp env input.due_date
  require_valid_risk_score input.risk_score
  require_risk_score_within_ceiling input.risk_score max_risk_score

-- The checks on the hash and the identifier of the document.
unfoldable pub check_document : BatchInvoiceInput → Result CommonError (Unit {0})
unfolding require_non_empty_bytes require_max_length_bytes require_non_empty_string
    require_max_length_string
check_document input = do
  require_non_empty_bytes input.debtor_hash
  require_max_length_bytes input.debtor_hash max_debtor_hash_len
  require_non_empty_string input.ipfs_cid
  require_max_length_string input.ipfs_cid max_ipfs_cid_len

unfoldable pub check_tier_bounds : NftState → BatchInvoiceInput → Result CommonError (Unit {0})
unfolding require_amount_within_bounds from_score
check_tier_bounds s input = elim (s.amount_bounds (from_score input.risk_score)) [
  | none ↦ ok tt
  | some bounds ↦ require_amount_within_bounds input.amount bounds.min bounds.max
]

abbrev over_limit : ℤ → SmeProfile → Bool
over_limit exposure profile =
    ltb_ℤ (pos 0) profile.credit_limit && ltb_ℤ profile.credit_limit exposure

-- The credit limit of the wired registry; a failed lookup lets the mint pass.
unfoldable pub check_credit : Env → NftState → Address → ℤ → Call (Unit {0})
check_credit env s sme exposure = elim s.risk_registry [
  | none ↦ ok tt
  | some registry ↦ elim (env.sme_profile registry sme) [
    | none ↦ ok tt
    | some profile ↦ refuse_if (over_limit exposure profile) InvoiceNftError.credit_limit_exceeded
  ]
]

unfoldable pub new_hot : Env → ℕ → Address → BatchInvoiceInput → InvoiceHot
unfolding from_score
new_hot env id sme input = record {
  id = id;
  sme = sme;
  amount = input.amount;
  currency = input.currency;
  due_date = input.due_date;
  risk_score = input.risk_score;
  risk_tier = from_score input.risk_score;
  status = created;
  created_at = env.now;
  funded_at = none;
  repaid_at = none;
}

unfoldable pub new_cold : BatchInvoiceInput → InvoiceCold
new_cold input = record {
  debtor_hash = input.debtor_hash;
  ipfs_cid = input.ipfs_cid;
  metadata_hash = [];
  notes = input.notes;
}

-- The hot and the cold record of a new invoice.
unfoldable pub store_invoice : Env → NftState → ℕ → Address → BatchInvoiceInput → NftState
unfolding new_hot new_cold
store_invoice env s id sme input = record s {
  hot = update s.hot id (new_hot env id sme input);
  cold = update s.cold id (new_cold input);
}

unfoldable pub set_first_mint : NftState → Address → ℕ → NftState
set_first_mint s sme id =
    if is_some (s.first_mint sme) then s else record s { first_mint = update s.first_mint sme id }

-- The writes of a mint, once every check has passed.
unfoldable pub mint_writes : Env → NftState → Address → BatchInvoiceInput → ℤ → Call (NftState × ℕ)
unfolding store_invoice append_sme_invoice_id set_first_mint release_guard
mint_writes env s sme input exposure = do
  let id = unwrap_or s.next_id 1
  next ← ok_or (checked_add_u u64_limit id 1) InvoiceNftError.arithmetic_overflow
  let s1 = record (store_invoice env s id sme input) {
    next_id = some next;
    exposure = update s.exposure sme exposure;
  }
  let s2 = set_first_mint (append_sme_invoice_id s1 sme id) sme id
  ok (release_guard s2, id)

-- The SME's exposure with the new face value.
unfoldable pub new_exposure : NftState → Address → ℤ → Call ℤ
new_exposure s sme amount =
    ok_or (checked_add (unwrap_or (s.exposure sme) (pos 0)) amount)
      InvoiceNftError.arithmetic_overflow

-- The quota is charged twice, before and after the credit check.
unfoldable pub mint_invoice : Env → NftState → Address → BatchInvoiceInput → Call (NftState × ℕ)
mint_invoice env s sme input = do
  require_auth env sme
  require_not_paused env s
  s1 ← acquire_guard s
  lift_err from_common (check_terms env (get_protocol_config s1).max_risk_score input)
  lift_err from_common (check_tier_bounds s1 input)
  lift_err from_common (check_document input)
  s2 ← consume_mint_quota env s1 sme 1
  exposure ← new_exposure s2 sme input.amount
  check_credit env s2 sme exposure
  s3 ← consume_mint_quota env s2 sme 1
  mint_writes env s3 sme input exposure

-- The walk up the chain of referrers: at most 32 hops, refused where it meets the SME or has not
-- ended by then.
unfoldable pub check_referrer_chain : ℕ → NftState → Address → Address → Call (Unit {0})
check_referrer_chain zero s sme curr = err InvoiceNftError.invalid_referrer
check_referrer_chain (suc hops) s sme curr =
    if curr == sme then err InvoiceNftError.invalid_referrer else elim (s.sme_referrer curr) [
      | none ↦ ok tt
      | some next_ref ↦ check_referrer_chain hops s sme next_ref
    ]

unfoldable pub check_referrer : Env → NftState → Address → Option Address → Call (Unit {0})
unfolding check_referrer_chain
check_referrer env s sme none = ok tt
check_referrer env s sme (some referrer) = do
  refuse_if (referrer == sme) InvoiceNftError.invalid_referrer
  refuse_if (referrer == env.contract) InvoiceNftError.invalid_referrer
  refuse_if (is_some (s.first_mint sme)) InvoiceNftError.referral_already_locked
  check_referrer_chain 32 s sme referrer

abbrev pub lock_referrer : Bool → NftState → Address → Option Address → NftState
lock_referrer false s sme (some referrer) = record s {
  sme_referrer = update s.sme_referrer sme referrer;
}
lock_referrer _ s sme _ = s

unfoldable pub mint_invoice_with_referrer :
    Env → NftState → Address → BatchInvoiceInput → Option Address → Call (NftState × ℕ)
mint_invoice_with_referrer env s sme input referrer = do
  check_referrer env s sme referrer
  (s1, id) ← mint_invoice env s sme input
  ok (lock_referrer (is_some (s.first_mint sme)) s1 sme referrer, id)

-- The first loop of the batch.
unfoldable pub check_batch : Env → ℕ → List BatchInvoiceInput → Result CommonError (Unit {0})
unfolding check_terms check_document
check_batch env max_risk_score [] = ok tt
check_batch env max_risk_score (input ∷ rest) = do
  check_terms env max_risk_score input
  check_document input
  check_batch env max_risk_score rest

-- The second loop: the state with its new records, the identifiers, the next one, and the sum of the
-- amounts.
unfoldable pub mint_batch_loop :
    Env → NftState → Address → ℕ → ℤ → List BatchInvoiceInput → Call (NftState × List ℕ × ℕ × ℤ)
unfolding store_invoice
mint_batch_loop env s sme next_id delta [] = ok (s, [], next_id, delta)
mint_batch_loop env s sme next_id delta (input ∷ rest) = do
  delta' ← ok_or (checked_add delta input.amount) InvoiceNftError.arithmetic_overflow
  next ← ok_or (checked_add_u u64_limit next_id 1) InvoiceNftError.arithmetic_overflow
  (s', ids, last, total) ←
      mint_batch_loop env (store_invoice env s next_id sme input) sme next delta' rest
  ok (s', next_id ∷ ids, last, total)

unfoldable pub add_exposure : NftState → Address → ℤ → Call NftState
add_exposure s sme delta =
    if eq_ℤ delta (pos 0)
    then ok s
    else (do sum ← new_exposure s sme delta; ok (record s { exposure = update s.exposure sme sum }))

abbrev first_of_batch : NftState → Address → List ℕ → NftState
first_of_batch s sme [] = s
first_of_batch s sme (id ∷ ids) = set_first_mint s sme id

-- The last writes of a batch: the index, the first mint and the batch number.
unfoldable pub close_batch : NftState → Address → List ℕ → Call (NftState × List ℕ)
unfolding append_sme_invoice_ids set_first_mint release_guard
close_batch s sme ids = do
  let s1 = first_of_batch (append_sme_invoice_ids s sme ids) sme ids
  next_batch ←
      ok_or (checked_add_u u64_limit (unwrap_or s1.next_batch_id 1) 1)
        InvoiceNftError.arithmetic_overflow
  ok (release_guard (record s1 { next_batch_id = some next_batch }), ids)

-- The writes of a batch after its records: the counter, the exposure, and the last ones.
unfoldable pub finish_batch : NftState → Address → List ℕ → ℕ → ℤ → Call (NftState × List ℕ)
finish_batch s sme ids next delta = do
  s1 ← add_exposure (record s { next_id = some next }) sme delta
  close_batch s1 sme ids

unfoldable pub mint_invoices_batch :
    Env → NftState → Address → List BatchInvoiceInput → Call (NftState × List ℕ)
mint_invoices_batch env s sme inputs = do
  require_auth env sme
  require_not_paused env s
  s1 ← acquire_guard s
  lift_err from_common (require_batch_size_within_limit (length inputs))
  lift_err from_common (check_batch env (get_protocol_config s1).max_risk_score inputs)
  s2 ← consume_mint_quota env s1 sme (length inputs)
  (s3, ids, next, delta) ← mint_batch_loop env s2 sme (unwrap_or s2.next_id 1) (pos 0) inputs
  finish_batch s3 sme ids next delta
