-- ===== src/InvoiceNft/Views.antt =====
-- The views of the invoice contract.
use Prim.Native.Nat.{min}
use kora_contract.Prelude.{
  Option, List, [], ◌∷◌, leb, length, ℕ, zero, suc, ◌+◌, ◌-◌, Bool, not, ◌&&◌, none, some, ◌==◌,
  if◌then◌else◌, unwrap_or,
}
use kora_contract.Prelude.Int.{ℤ, pos}
use kora_contract.Prelude.Int128.{saturating_add_u, u32_limit, saturating_add}
use kora_contract.Prelude.Results.{ok, ◌>>=◌}
use kora_contract.Shared.Host.{Address, Bytes}
use kora_contract.Shared.Types.{Invoice, repaid, defaulted, eq_status}
use kora_contract.InvoiceNft.State.{InvoiceHot, NftState}
use kora_contract.InvoiceNft.Guards.{Call, load_hot, load_cold}

-- An invoice is merged from its two records.
unfoldable pub get_invoice : NftState → ℕ → Call Invoice
unfolding load_hot load_cold
get_invoice s id = do
  hot ← load_hot s id
  cold ← load_cold s id
  ok (record {
    id = hot.id;
    sme = hot.sme;
    debtor_hash = cold.debtor_hash;
    amount = hot.amount;
    currency = hot.currency;
    due_date = hot.due_date;
    ipfs_cid = cold.ipfs_cid;
    metadata_hash = cold.metadata_hash;
    risk_score = hot.risk_score;
    risk_tier = hot.risk_tier;
    status = hot.status;
    created_at = hot.created_at;
    funded_at = hot.funded_at;
    repaid_at = hot.repaid_at;
    notes = cold.notes;
  })

unfoldable pub invoice_count : NftState → ℕ
invoice_count s = unwrap_or s.next_id 1 - 1

unfoldable pub get_outstanding_exposure : NftState → Address → ℤ
get_outstanding_exposure s sme = unwrap_or (s.exposure sme) (pos 0)

-- Neither repaid nor defaulted.
abbrev pub is_open : InvoiceHot → Bool
is_open hot = not (eq_status hot.status repaid) && not (eq_status hot.status defaulted)

abbrev pub counts_for : Address → InvoiceHot → Bool
counts_for sme hot = hot.sme == sme && is_open hot

-- The body of the scan, on the running total.
abbrev pub reconcile_step : NftState → Address → ℕ → ℤ → ℤ
reconcile_step s sme id total = elim (s.hot id) [
  | none ↦ total
  | some hot ↦ if counts_for sme hot then saturating_add total hot.amount else total
]

-- The scan over the identifiers `id`, `id + 1`, ..., `id + rounds - 1`.
unfoldable pub reconcile_loop : NftState → Address → ℕ → ℕ → ℤ → ℤ
reconcile_loop s sme zero id total = total
reconcile_loop s sme (suc rounds) id total =
    reconcile_loop s sme rounds (id + 1) (reconcile_step s sme id total)

unfoldable pub reconcile_outstanding_exposure : NftState → Address → ℤ
unfolding reconcile_loop
reconcile_outstanding_exposure s sme = reconcile_loop s sme (unwrap_or s.next_id 1 - 1) 1 (pos 0)

abbrev pub max_sme_invoice_page : ℕ
max_sme_invoice_page = 100

-- `ids.slice(start..end)`
abbrev pub slice : ℕ → ℕ → List ℕ → List ℕ
slice start end [] = []
slice zero zero (x ∷ xs) = []
slice zero (suc end) (x ∷ xs) = x ∷ slice zero end xs
slice (suc start) end (x ∷ xs) = slice start (end - 1) xs

unfoldable pub get_sme_invoice_ids : NftState → Address → ℕ → ℕ → List ℕ
get_sme_invoice_ids s sme start limit =
    let ids = unwrap_or (s.sme_invoice_ids sme) [] in
    let len = length ids in
    let end = min (saturating_add_u u32_limit start (min limit max_sme_invoice_page)) len in
    if leb len start then [] else slice start end ids

unfoldable pub get_sme_referrer : NftState → Address → Option Address
get_sme_referrer s sme = s.sme_referrer sme

unfoldable pub get_first_mint : NftState → Address → Option ℕ
get_first_mint s sme = s.first_mint sme

unfoldable pub get_sme_mint_window : NftState → Address → ℕ × ℕ
get_sme_mint_window s sme = unwrap_or (s.mint_window sme) (0, 0)

unfoldable pub get_metadata_cid_history : NftState → ℕ → List Bytes
get_metadata_cid_history s id = unwrap_or (s.cid_history id) []

unfoldable pub next_id : NftState → ℕ
next_id s = unwrap_or s.next_id 1
