-- ===== src/InvoiceNft/Hashes.antt =====
-- The hash that an SME commits for a document.
mod Calls
mod Mints
use kora_contract.Prelude.{ℕ, ◌≡◌, ◌≢◌, ◌<◌, ◌≤◌, false, List, [], ◌∷◌, arith}
use kora_contract.Prelude.Results.{Result, ok, err, trap, Ensures, Ensures-bind, Ensures-ok}
use kora_contract.Shared.Host.{Env, Address, Bytes}
use kora_contract.InvoiceNft.State.{NftState}
use kora_contract.InvoiceNft.Guards.{Call}
use kora_contract.InvoiceNft.Metadata.{commit_metadata_hash}
use kora_contract.InvoiceNft.Requests.{Request, execute, step, run, committed, state_of}
use kora_contract.InvoiceNft.Lifecycle.{IsFresh, next_of}
use Calls.{IsCommitted}
use Calls
use Mints

state_of-IsCommitted :
    {A : Type 0} (j : ℕ) (m : Call (NftState × A))
    → Ensures (λ p. IsCommitted j p.0) m
    → Ensures (IsCommitted j) (state_of m)
state_of-IsCommitted j (ok p) h = h
state_of-IsCommitted j (err e) h = tt
state_of-IsCommitted j trap h = tt

execute-IsCommitted :
    (env : Env) (j : ℕ) (s : NftState)
    → IsCommitted j s
    → (r : Request) → Ensures (IsCommitted j) (execute env s r)
unfolding execute
execute-IsCommitted env j s h (Request.set_risk_registry a r) =
    Calls.set_risk_registry-IsCommitted env j s h a r
execute-IsCommitted env j s h (Request.set_debtor_attestation a r) =
    Calls.set_debtor_attestation-IsCommitted env j s h a r
execute-IsCommitted env j s h (Request.set_authorized_callers a m f) =
    Calls.set_authorized_callers-IsCommitted env j s h a m f
execute-IsCommitted env j s h (Request.set_protocol_config a c) =
    Calls.set_protocol_config-IsCommitted env j s h a c
execute-IsCommitted env j s h (Request.set_amount_bounds a t lo hi) =
    Calls.set_amount_bounds-IsCommitted env j s h a t lo hi
execute-IsCommitted env j s h (Request.set_mint_rate_limit a m w) =
    Calls.set_mint_rate_limit-IsCommitted env j s h a m w
execute-IsCommitted env j s h (Request.amend_invoice a id n) =
    Calls.amend_invoice-IsCommitted env j s h a id n
execute-IsCommitted env j s h (Request.update_metadata_cid a id n) =
    Calls.update_metadata_cid-IsCommitted env j s h a id n
execute-IsCommitted env j s h (Request.withdraw_invoice a id) =
    Calls.withdraw_invoice-IsCommitted env j s h a id
execute-IsCommitted env j s h (Request.set_created a id) =
    Calls.set_created-IsCommitted env j s h a id
execute-IsCommitted env j s h (Request.set_listed a id) =
    Calls.set_listed-IsCommitted env j s h a id
execute-IsCommitted env j s h (Request.set_funded a id) =
    Calls.set_funded-IsCommitted env j s h a id
execute-IsCommitted env j s h (Request.set_repaid a id) =
    Calls.set_repaid-IsCommitted env j s h a id
execute-IsCommitted env j s h (Request.set_defaulted a id) =
    Calls.set_defaulted-IsCommitted env j s h a id
execute-IsCommitted env j s h (Request.archive_invoice a id) =
    Calls.archive_invoice-IsCommitted env j s h a id
execute-IsCommitted env j s h (Request.freeze_invoice a id) =
    Calls.freeze_invoice-IsCommitted env j s h a id
execute-IsCommitted env j s h (Request.unfreeze_invoice a id) =
    Calls.unfreeze_invoice-IsCommitted env j s h a id
execute-IsCommitted env j s h (Request.refresh_risk_score a id) =
    Calls.refresh_risk_score-IsCommitted env j s h a id
execute-IsCommitted env j s h (Request.commit_metadata_hash a id x) =
    Calls.commit_metadata_hash-IsCommitted env j s h a id x
execute-IsCommitted env j s h (Request.flag_metadata_mismatch a id x) =
    Calls.flag_metadata_mismatch-IsCommitted env j s h a id x
execute-IsCommitted env j s h (Request.admin_correct_metadata_hash a id x) =
    Calls.admin_correct_metadata_hash-IsCommitted env j s h a id x
execute-IsCommitted env j s h (Request.resolve_metadata_dispute a id u) =
    Calls.resolve_metadata_dispute-IsCommitted env j s h a id u
execute-IsCommitted env j s h (Request.add_allowed_currency a c) =
    Calls.add_allowed_currency-IsCommitted env j s h a c
execute-IsCommitted env j s h (Request.remove_allowed_currency a c) =
    Calls.remove_allowed_currency-IsCommitted env j s h a c
execute-IsCommitted env j s h (Request.freeze_sme_invoices a sme n) =
    state_of-IsCommitted j _ (Calls.freeze_sme_invoices-IsCommitted env j s h a sme n)
execute-IsCommitted env j s h (Request.unfreeze_sme_invoices a sme n) =
    state_of-IsCommitted j _ (Calls.unfreeze_sme_invoices-IsCommitted env j s h a sme n)
execute-IsCommitted env j s h (Request.mint_invoice a i) =
    state_of-IsCommitted j _ (Mints.mint_invoice-IsCommitted env j s h a i)
execute-IsCommitted env j s h (Request.mint_invoice_with_referrer a i r) =
    state_of-IsCommitted j _ (Mints.mint_invoice_with_referrer-IsCommitted env j s h a i r)
execute-IsCommitted env j s h (Request.mint_invoices_batch a is) =
    state_of-IsCommitted j _ (Mints.mint_invoices_batch-IsCommitted env j s h a is)

committed-IsCommitted :
    (j : ℕ) (s : NftState) (m : Call NftState)
    → IsCommitted j s
    → Ensures (IsCommitted j) m
    → IsCommitted j (committed s m)
committed-IsCommitted j s (ok s') h e = e
committed-IsCommitted j s (err x) h e = h
committed-IsCommitted j s trap h e = h

run-IsCommitted :
    (j : ℕ) (s : NftState) (cs : List (Env × Request)) → IsCommitted j s → IsCommitted j (run s cs)
unfolding run step
run-IsCommitted j s [] h = h
run-IsCommitted j s ((env, r) ∷ cs) h =
    run-IsCommitted j (step s (env, r)) cs
      (committed-IsCommitted j s (execute env s r) h (execute-IsCommitted env j s h r))

commit-IsCommitted :
    (env : Env) (s : NftState) (sme : Address) (id : ℕ) (hash : Bytes)
    → IsFresh s id
    → Ensures (IsCommitted id) (commit_metadata_hash env s sme id hash)
unfolding commit_metadata_hash
commit-IsCommitted env s sme id hash fresh = grind (arith, fresh)

commit_after :
    (env : Env) (s : NftState) (sme : Address) (id : ℕ) (hash : Bytes)
    → IsCommitted id s
    → Ensures (λ s'. ⊥) (commit_metadata_hash env s sme id hash)
unfolding commit_metadata_hash
commit_after env s sme id hash h = grind (arith, h.taken)

-- For an identifier that has no record unless it was allocated: after a commitment that succeeds, no further one to
-- the same invoice succeeds, whoever makes it, whatever the hash, and whatever is called in between.
pub commit_metadata_hash-commit_metadata_hash :
    (env env' : Env) (s s' s'' : NftState) (cs : List (Env × Request)) (sme sme' : Address) (id : ℕ)
    (hash hash' : Bytes)
    → IsFresh s id
    → commit_metadata_hash env s sme id hash ≡ ok s'
    → commit_metadata_hash env' (run s' cs) sme' id hash' ≢ ok s''
commit_metadata_hash-commit_metadata_hash env env' s s' s'' cs sme sme' id hash hash' fresh e e' =
    let now =
      Ensures-ok (IsCommitted id) (commit_metadata_hash env s sme id hash)
        (commit-IsCommitted env s sme id hash fresh) e in
    Ensures-ok (λ (s : NftState). ⊥) (commit_metadata_hash env' (run s' cs) sme' id hash')
      (commit_after env' (run s' cs) sme' id hash' (run-IsCommitted id s' cs now)) e'
