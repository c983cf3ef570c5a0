-- ===== src/InvoiceNft/Audit.antt =====
-- The audit log as a ring of 500 entries.
use kora_contract.Prelude.{ℕ, ◌+◌, ◌%◌, ◌≤◌, ◌<◌, ◌≡◌, ◌≢◌, Option, none, some, arith, unwrap_or}
use native.Mathlib.Decide.{ℕ_discrete}
use kora_contract.Prelude.Results.{Ensures, Ensures-ok, ok}
use kora_contract.Shared.Host.{Env, Address}
use kora_contract.InvoiceNft.State.{NftState, AuditAction, AuditEntry}
use kora_contract.InvoiceNft.Guards.{append_audit_entry, max_audit_log_size}

-- The number of entries written so far.
abbrev pub audit_total : NftState → ℕ
audit_total s = unwrap_or s.audit_total 0

abbrev pub sequence_of : Option AuditEntry → Option ℕ
sequence_of none = none
sequence_of (some entry) = some entry.sequence

-- The head is the place of the next entry, and each of the last 500 entries stands at its place.
pub record IsRing (s : NftState) : Type 0 where
  pub at_head : unwrap_or s.audit_head 0 ≡ audit_total s % max_audit_log_size
  pub kept :
      (j : ℕ)
      → j < audit_total s
      → audit_total s ≤ j + max_audit_log_size
      → sequence_of (s.audit_entries (j % max_audit_log_size)) ≡ some j

record Appended (s s' : NftState) : Type 0 where
  new_head : unwrap_or s'.audit_head 0 ≡ (unwrap_or s.audit_head 0 + 1) % max_audit_log_size
  new_total : audit_total s' ≡ audit_total s + 1
  written : sequence_of (s'.audit_entries (unwrap_or s.audit_head 0)) ≡ some (audit_total s)
  elsewhere : (k : ℕ) → k ≢ unwrap_or s.audit_head 0 → s'.audit_entries k ≡ s.audit_entries k

append-Appended :
    (env : Env) (s : NftState) (a : Address) (action : AuditAction)
    → Ensures (Appended s) (append_audit_entry env s a action)
unfolding append_audit_entry
append-Appended env s a action = ground arith

Appended-IsRing : (s s' : NftState) → IsRing s → Appended s s' → IsRing s'
Appended-IsRing s s' r p = record {
  at_head = omega (arith, p.new_head, p.new_total, r.at_head);
  kept = λ j lt le. elim (ℕ_discrete j (audit_total s)) [
    | yes last ↦ rw (last, ← r.at_head) p.written
    | no older ↦
        let ne : j % max_audit_log_size ≢ unwrap_or s.audit_head 0 = omega (arith, r.at_head) in
        rw (p.elsewhere _ ne) (r.kept j (omega (arith, p.new_total)) (omega (arith, p.new_total)))
  ];
}

-- Where the last 500 entries of the audit log stand at the places of their sequence numbers, an entry
-- more keeps it so, and the log's head is the place of the next entry.
pub append_audit_entry-IsRing :
    (env : Env) (s : NftState) (a : Address) (action : AuditAction) (s' : NftState)
    → IsRing s
    → append_audit_entry env s a action ≡ ok s'
    → IsRing s'
append_audit_entry-IsRing env s a action s' r e =
    Appended-IsRing s s' r (Ensures-ok (Appended s) _ (append-Appended env s a action) e)
