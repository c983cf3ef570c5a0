-- ===== src/InvoiceNft/Guards.antt =====
-- The private helpers of the invoice contract, and the reentrancy lock of
-- contracts/shared/src/reentrancy.rs.
use kora_contract.Prelude.{
  ℕ, ◌+◌, ◌-◌, ◌%◌, Bool, true, false, Option, none, some, List, [], ◌∷◌, ◌++◌, ltb, leb, ◌==◌,
  if◌then◌else◌, unwrap_or,
}
use kora_contract.Prelude.Int128.{u32_limit, u64_limit, checked_add_u}
use kora_contract.Prelude.Results.{
  Result, ok, err, ◌>>=◌, ◌>>◌, guard, refuse_if, ok_or, assert_host,
}
use kora_contract.Prelude.Store.{update}
use kora_contract.Shared.Host.{Env, Address}
use kora_contract.InvoiceNft.State.{InvoiceNftError, InvoiceHot, InvoiceCold, AuditAction, NftState}

abbrev pub Call : Type 0 → Type 0
Call A = Result InvoiceNftError A

unfoldable pub acquire_guard : NftState → Call NftState
acquire_guard s = do refuse_if s.locked InvoiceNftError.reentrancy; ok (record s { locked = true })

unfoldable pub release_guard : NftState → NftState
release_guard s = record s { locked = false }

unfoldable pub load_hot : NftState → ℕ → Call InvoiceHot
load_hot s id = ok_or (s.hot id) InvoiceNftError.invoice_not_found

unfoldable pub load_cold : NftState → ℕ → Call InvoiceCold
load_cold s id = ok_or (s.cold id) InvoiceNftError.invoice_not_found

unfoldable pub require_admin : NftState → Address → Call (Unit {0})
require_admin s caller = do
  admin ← ok_or s.admin InvoiceNftError.not_initialized
  guard (admin == caller) InvoiceNftError.not_admin

unfoldable pub require_not_paused : Env → NftState → Call (Unit {0})
require_not_paused env s = do
  ac ← ok_or s.access_control InvoiceNftError.not_initialized
  refuse_if (env.is_paused ac) InvoiceNftError.protocol_paused

abbrev is_address : Option Address → Address → Bool
is_address none caller = false
is_address (some a) caller = a == caller

-- The list holds the addresses stored under the allowed keys.
unfoldable pub require_authorized_caller : Address → List (Option Address) → Call (Unit {0})
require_authorized_caller caller [] = err InvoiceNftError.unauthorized
require_authorized_caller caller (a ∷ rest) =
    if is_address a caller then ok tt else require_authorized_caller caller rest

abbrev pub max_audit_log_size : ℕ
max_audit_log_size = 500

-- The counter's `+ 1` traps on overflow; the head stays below the size of the log.
unfoldable pub append_audit_entry : Env → NftState → Address → AuditAction → Call NftState
append_audit_entry env s actor action = do
  let total = unwrap_or s.audit_total 0
  let head = unwrap_or s.audit_head 0
  assert_host (ltb (head + 1) u64_limit)
  assert_host (ltb (total + 1) u64_limit)
  ok (record s {
    audit_entries =
        update s.audit_entries head
          (record { sequence = total; timestamp = env.now; actor = actor; action = action });
    audit_head = some ((head + 1) % max_audit_log_size);
    audit_total = some (total + 1);
  })

-- The window that a mint at `now` is charged to: a fresh one once the last has run out. A saturating
-- difference of u64 is the difference on the naturals.
unfoldable pub current_window : ℕ → ℕ → ℕ × ℕ → ℕ × ℕ
current_window now window_secs (start, used) =
    if leb window_secs (now - start) then (now, 0) else (start, used)

unfoldable pub consume_mint_quota : Env → NftState → Address → ℕ → Call NftState
unfolding current_window
consume_mint_quota env s sme count = elim s.mint_rate_limit [
  | none ↦ ok s
  | some cfg ↦ do
    let (start, used) =
        current_window env.now cfg.window_secs (unwrap_or (s.mint_window sme) (env.now, 0))
    new_used ← ok_or (checked_add_u u32_limit used count) InvoiceNftError.arithmetic_overflow
    refuse_if (ltb cfg.max_mints new_used) InvoiceNftError.mint_rate_limit_exceeded
    ok (record s { mint_window = update s.mint_window sme (start, new_used) })
]

unfoldable pub append_sme_invoice_ids : NftState → Address → List ℕ → NftState
append_sme_invoice_ids s sme new_ids = record s {
  sme_invoice_ids = update s.sme_invoice_ids sme (unwrap_or (s.sme_invoice_ids sme) [] ++ new_ids);
}

unfoldable pub append_sme_invoice_id : NftState → Address → ℕ → NftState
append_sme_invoice_id s sme id = record s {
  sme_invoice_ids = update s.sme_invoice_ids sme (unwrap_or (s.sme_invoice_ids sme) [] ++ id ∷ []);
}

-- `first_index_of` and `remove`: the list without the first occurrence.
abbrev remove_first : ℕ → List ℕ → List ℕ
remove_first id [] = []
remove_first id (x ∷ xs) = if x == id then xs else x ∷ remove_first id xs

unfoldable pub remove_sme_invoice_id : NftState → Address → ℕ → NftState
remove_sme_invoice_id s sme id = elim (s.sme_invoice_ids sme) [
  | none ↦ s
  | some ids ↦ record s { sme_invoice_ids = update s.sme_invoice_ids sme (remove_first id ids) }
]
