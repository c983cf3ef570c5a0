-- ===== src/InvoiceNft/Freeze.antt =====
-- Freezing invoices, one by one or all of an SME, and the refresh of a funded invoice's score.
use kora_contract.Prelude.{
  ℕ, ◌+◌, Bool, true, false, ◌||◌, none, some, List, [], ◌∷◌, leb, if◌then◌else◌, unwrap_or,
  is_some,
}
use kora_contract.Prelude.Results.{ok, ◌>>=◌, ◌>>◌, guard, ok_or}
use kora_contract.Prelude.Store.{update, remove}
use kora_contract.Shared.Host.{Env, Address, require_auth}
use kora_contract.Shared.Types.{funded, repaid, defaulted, eq_status, from_score}
use kora_contract.InvoiceNft.State.{InvoiceNftError, InvoiceHot, AuditAction, NftState}
use kora_contract.InvoiceNft.Guards.{
  Call, acquire_guard, release_guard, load_hot, require_admin, require_not_paused,
  append_audit_entry,
}

unfoldable pub freeze_invoice : Env → NftState → Address → ℕ → Call NftState
unfolding require_admin load_hot append_audit_entry
freeze_invoice env s admin id = do
  require_auth env admin
  require_admin s admin
  hot ← load_hot s id
  append_audit_entry env (record s { frozen = update s.frozen id true }) admin
      AuditAction.freeze_invoice

unfoldable pub unfreeze_invoice : Env → NftState → Address → ℕ → Call NftState
unfolding require_admin load_hot append_audit_entry
unfreeze_invoice env s admin id = do
  require_auth env admin
  require_admin s admin
  hot ← load_hot s id
  append_audit_entry env (record s { frozen = remove s.frozen id }) admin
      AuditAction.unfreeze_invoice

unfoldable pub is_invoice_frozen : NftState → ℕ → Bool
is_invoice_frozen s id = unwrap_or (s.frozen id) false

abbrev is_settled : InvoiceHot → Bool
is_settled hot = eq_status hot.status repaid || eq_status hot.status defaulted

-- Whether the bulk freeze passes over an invoice: it is gone, settled, or frozen already.
abbrev pub skips_freeze : NftState → ℕ → Bool
skips_freeze s id = elim (s.hot id) [
  | none ↦ true
  | some hot ↦ is_settled hot || is_some (s.frozen id)
]

unfoldable pub freeze_loop : NftState → ℕ → ℕ → List ℕ → NftState × ℕ
freeze_loop s processed max [] = (s, processed)
freeze_loop s processed max (id ∷ ids) =
    let skip = freeze_loop s processed max ids in
    let next =
      freeze_loop (record s { frozen = update s.frozen id true }) (processed + 1) max ids in
    if leb max processed then (s, processed) else if skips_freeze s id then skip else next

unfoldable pub freeze_sme_invoices : Env → NftState → Address → Address → ℕ → Call (NftState × ℕ)
unfolding require_admin
freeze_sme_invoices env s admin sme max_to_process = do
  require_auth env admin
  require_admin s admin
  ok (freeze_loop s 0 max_to_process (unwrap_or (s.sme_invoice_ids sme) []))

unfoldable pub unfreeze_loop : NftState → ℕ → ℕ → List ℕ → NftState × ℕ
unfreeze_loop s processed max [] = (s, processed)
unfreeze_loop s processed max (id ∷ ids) =
    let skip = unfreeze_loop s processed max ids in
    let next = unfreeze_loop (record s { frozen = remove s.frozen id }) (processed + 1) max ids in
    if leb max processed then (s, processed) else if is_some (s.frozen id) then next else skip

unfoldable pub unfreeze_sme_invoices : Env → NftState → Address → Address → ℕ → Call (NftState × ℕ)
unfolding require_admin
unfreeze_sme_invoices env s admin sme max_to_process = do
  require_auth env admin
  require_admin s admin
  ok (unfreeze_loop s 0 max_to_process (unwrap_or (s.sme_invoice_ids sme) []))

unfoldable pub refresh_risk_score : Env → NftState → Address → ℕ → Call NftState
unfolding require_admin require_not_paused acquire_guard release_guard load_hot from_score
refresh_risk_score env s caller id = do
  require_auth env caller
  require_admin s caller
  require_not_paused env s
  s1 ← acquire_guard s
  hot ← load_hot s1 id
  guard (eq_status hot.status funded) InvoiceNftError.invalid_invoice_status
  registry ← ok_or s1.risk_registry InvoiceNftError.not_initialized
  profile ← ok_or (env.sme_profile registry hot.sme) InvoiceNftError.sme_not_registered
  let hot' = record hot {
    risk_score = profile.risk_score;
    risk_tier = from_score profile.risk_score;
  }
  ok (release_guard (record s1 { hot = update s1.hot id hot' }))
