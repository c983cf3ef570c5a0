-- ===== src/InvoiceNft/Status.antt =====
-- The status transitions of the invoice contract, and the archiving of settled invoices.
use kora_contract.Prelude.{ℕ, ◌||◌, some, [], ◌∷◌, leb, unwrap_or}
use kora_contract.Prelude.Int.{ℤ, pos}
use kora_contract.Prelude.Int128.{saturating_sub}
use kora_contract.Prelude.Results.{ok, ◌>>=◌, ◌>>◌, guard, refuse_if}
use kora_contract.Prelude.Store.{update, remove}
use kora_contract.Shared.Host.{Env, Address, require_auth}
use kora_contract.Shared.Types.{
  InvoiceStatus, created, listed, funded, repaid, defaulted, eq_status,
}
use kora_contract.InvoiceNft.State.{InvoiceNftError, InvoiceHot, AuditAction, NftState}
use kora_contract.InvoiceNft.Guards.{
  Call, acquire_guard, release_guard, load_hot, require_admin, require_not_paused,
  require_authorized_caller, append_audit_entry,
}

abbrev expect_status : InvoiceStatus → InvoiceHot → Call (Unit {0})
expect_status status hot =
    guard (eq_status hot.status status) InvoiceNftError.invalid_invoice_status

-- The SME's exposure falls by the face value of an invoice that is settled or taken back.
abbrev pub release_exposure : NftState → Address → ℤ → NftState
release_exposure s sme amount = record s {
  exposure = update s.exposure sme (saturating_sub (unwrap_or (s.exposure sme) (pos 0)) amount);
}

unfoldable pub set_created : Env → NftState → Address → ℕ → Call NftState
unfolding require_authorized_caller require_not_paused acquire_guard release_guard load_hot
set_created env s caller id = do
  require_auth env caller
  require_authorized_caller caller (s.marketplace ∷ [])
  require_not_paused env s
  s1 ← acquire_guard s
  hot ← load_hot s1 id
  expect_status listed hot
  let s2 = record s1 { hot = update s1.hot id (record hot { status = created }) }
  ok (release_guard s2)

unfoldable pub set_listed : Env → NftState → Address → ℕ → Call NftState
unfolding require_authorized_caller require_not_paused acquire_guard release_guard load_hot
set_listed env s caller id = do
  require_auth env caller
  require_authorized_caller caller (s.marketplace ∷ [])
  require_not_paused env s
  s1 ← acquire_guard s
  hot ← load_hot s1 id
  expect_status created hot
  let s2 = record s1 { hot = update s1.hot id (record hot { status = listed }) }
  ok (release_guard s2)

unfoldable pub set_funded : Env → NftState → Address → ℕ → Call NftState
unfolding require_authorized_caller require_not_paused acquire_guard release_guard load_hot
set_funded env s caller id = do
  require_auth env caller
  require_authorized_caller caller (s.financing_pool ∷ [])
  require_not_paused env s
  s1 ← acquire_guard s
  hot ← load_hot s1 id
  expect_status listed hot
  let hot' = record hot { status = funded; funded_at = some env.now }
  ok (release_guard (record s1 { hot = update s1.hot id hot' }))

unfoldable pub set_repaid : Env → NftState → Address → ℕ → Call NftState
unfolding require_authorized_caller require_not_paused load_hot
set_repaid env s caller id = do
  require_auth env caller
  require_authorized_caller caller (s.financing_pool ∷ [])
  require_not_paused env s
  hot ← load_hot s id
  expect_status funded hot
  let hot' = record hot { status = repaid; repaid_at = some env.now }
  ok (release_exposure (record s { hot = update s.hot id hot' }) hot.sme hot.amount)

unfoldable pub set_defaulted : Env → NftState → Address → ℕ → Call NftState
unfolding require_admin acquire_guard release_guard load_hot append_audit_entry
set_defaulted env s caller id = do
  require_auth env caller
  require_admin s caller
  s1 ← acquire_guard s
  hot ← load_hot s1 id
  expect_status funded hot
  refuse_if (leb env.now hot.due_date) InvoiceNftError.invalid_invoice_status
  let s2 = record s1 { hot = update s1.hot id (record hot { status = defaulted }) }
  s3 ←
      append_audit_entry env (release_exposure s2 hot.sme hot.amount) caller
        AuditAction.set_defaulted
  ok (release_guard s3)

unfoldable pub archive_invoice : Env → NftState → Address → ℕ → Call NftState
unfolding require_admin load_hot
archive_invoice env s admin id = do
  require_auth env admin
  require_admin s admin
  hot ← load_hot s id
  guard (eq_status hot.status repaid || eq_status hot.status defaulted)
      InvoiceNftError.invalid_invoice_status
  ok (record s { hot = remove s.hot id; cold = remove s.cold id })
