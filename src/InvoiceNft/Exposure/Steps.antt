-- ===== src/InvoiceNft/Exposure/Steps.antt =====
-- The cached exposures over every call and over every history of calls.
use kora_contract.Prelude.{
  ℕ, ◌≡◌, refl, Bool, true, false, Option, none, some, List, [], ◌∷◌, arith, is_some,
}
use kora_contract.Prelude.Results.{
  Ensures, Ensures-intro, Ensures-mono, Ensures-bind, Ensures-map, Result, ok, err, trap,
}
use kora_contract.Shared.Host.{Env, Address, Bytes}
use kora_contract.InvoiceNft.State.{NftState, BatchInvoiceInput}
use kora_contract.InvoiceNft.Guards.{Call}
use kora_contract.InvoiceNft.Edit.{update_metadata_cid}
use kora_contract.InvoiceNft.Mint.{
  mint_invoice_with_referrer, mint_invoice, check_referrer, lock_referrer,
}
use kora_contract.InvoiceNft.Requests.{Request, execute, step, run, committed, state_of}
use kora_contract.InvoiceNft.Lifecycle.{Agrees}
use kora_contract.InvoiceNft.Lifecycle.Config
use kora_contract.InvoiceNft.Exposure.Balance.{IsBalanced}
use kora_contract.InvoiceNft.Exposure.Calls
use kora_contract.InvoiceNft.Exposure.Mints.{mint_invoice-IsBalanced}
use kora_contract.InvoiceNft.Exposure.Batch.{mint_invoices_batch-IsBalanced, Agrees-IsBalanced}

abbrev pub is_amendment : Request → Bool
is_amendment (Request.amend_invoice a id n) = true
is_amendment _ = false

update_metadata_cid-Agrees :
    (env : Env) (s : NftState) (a : Address) (id : ℕ) (n : Bytes)
    → Ensures (Agrees s) (update_metadata_cid env s a id n)
unfolding update_metadata_cid
update_metadata_cid-Agrees env s a id n = ground arith

mint_invoice-Ensures :
    (env : Env) (s : NftState) (a : Address) (i : BatchInvoiceInput)
    → IsBalanced s
    → Ensures (λ p. IsBalanced p.0) (mint_invoice env s a i)
mint_invoice-Ensures env s a i b =
    Ensures-intro _ (mint_invoice env s a i) λ p e. mint_invoice-IsBalanced env s a i p.0 p.1 b e

lock_referrer-Agrees :
    (l : Bool) (s : NftState) (sme : Address) (r : Option Address)
    → Agrees s (lock_referrer l s sme r)
lock_referrer-Agrees true s sme r = record { same_hot = refl; same_next = refl; same_cache = refl }
lock_referrer-Agrees false s sme none = record {
  same_hot = refl;
  same_next = refl;
  same_cache = refl;
}
lock_referrer-Agrees false s sme (some x) = record {
  same_hot = refl;
  same_next = refl;
  same_cache = refl;
}

with_referrer-Agrees :
    (env : Env) (s : NftState) (a : Address) (i : BatchInvoiceInput) (r : Option Address)
    → (Q : NftState → Type 0) → Ensures (λ p. Q p.0) (mint_invoice env s a i)
    → ((s1 s2 : NftState) → Q s1 → Agrees s1 s2 → Q s2)
    → Ensures (λ p. Q p.0) (mint_invoice_with_referrer env s a i r)
unfolding mint_invoice_with_referrer
with_referrer-Agrees env s a i r Q h k =
    Ensures-bind (λ x. Unit) _ (check_referrer env s a r) _
      (λ x u.
        Ensures-map (λ p. Q p.0) _ (mint_invoice env s a i)
          (λ p. (lock_referrer (is_some (s.first_mint a)) p.0 a r, p.1))
          (λ p q. k p.0 _ q (lock_referrer-Agrees (is_some (s.first_mint a)) p.0 a r)) h)
      (Ensures-intro (λ x. Unit) (check_referrer env s a r) λ x e. tt)

by_state :
    {A : Type 0} (Q : NftState → Type 0) (m : Call (NftState × A))
    → Ensures (λ p. Q p.0) m
    → Ensures Q (state_of m)
by_state Q (ok p) h = h
by_state Q (err e) h = tt
by_state Q trap h = tt

module _ (s : NftState) (b : IsBalanced s) where
  config : {E : Type 0} (m : Result E NftState) → Ensures (Agrees s) m → Ensures IsBalanced m
  config m h = Ensures-mono (Agrees s) IsBalanced m (λ s' a. Agrees-IsBalanced s s' b a) h

  returns :
      {E : Type 0} (m : Result E NftState)
      → ((s' : NftState) → IsBalanced s → m ≡ ok s' → IsBalanced s')
      → Ensures IsBalanced m
  returns m h = Ensures-intro IsBalanced m λ s' e. h s' b e

execute-IsBalanced :
    (env : Env) (s : NftState) (r : Request)
    → is_amendment r ≡ false
    → IsBalanced s
    → Ensures IsBalanced (execute env s r)
unfolding execute
execute-IsBalanced env s (Request.set_risk_registry a r) n b =
    config s b _ (Config.set_risk_registry-Agrees env s a r)
execute-IsBalanced env s (Request.set_debtor_attestation a r) n b =
    config s b _ (Config.set_debtor_attestation-Agrees env s a r)
execute-IsBalanced env s (Request.set_authorized_callers a m f) n b =
    config s b _ (Config.set_authorized_callers-Agrees env s a m f)
execute-IsBalanced env s (Request.set_protocol_config a c) n b =
    config s b _ (Config.set_protocol_config-Agrees env s a c)
execute-IsBalanced env s (Request.set_amount_bounds a t lo hi) n b =
    config s b _ (Config.set_amount_bounds-Agrees env s a t lo hi)
execute-IsBalanced env s (Request.set_mint_rate_limit a m w) n b =
    config s b _ (Config.set_mint_rate_limit-Agrees env s a m w)
execute-IsBalanced env s (Request.mint_invoice a i) n b =
    by_state IsBalanced _ (mint_invoice-Ensures env s a i b)
execute-IsBalanced env s (Request.mint_invoice_with_referrer a i r) n b = by_state IsBalanced _ (
    with_referrer-Agrees env s a i r IsBalanced (mint_invoice-Ensures env s a i b)
      Agrees-IsBalanced)
execute-IsBalanced env s (Request.mint_invoices_batch a is) n b =
    by_state IsBalanced _ (mint_invoices_batch-IsBalanced env s a is b)
execute-IsBalanced env s (Request.amend_invoice a id new) n b = absurd (cc (n))
execute-IsBalanced env s (Request.update_metadata_cid a id new) n b =
    config s b _ (update_metadata_cid-Agrees env s a id new)
execute-IsBalanced env s (Request.withdraw_invoice a id) n b =
    returns s b _ (Calls.withdraw_invoice-IsBalanced env s a id)
execute-IsBalanced env s (Request.set_created a id) n b =
    returns s b _ (Calls.set_created-IsBalanced env s a id)
execute-IsBalanced env s (Request.set_listed a id) n b =
    returns s b _ (Calls.set_listed-IsBalanced env s a id)
execute-IsBalanced env s (Request.set_funded a id) n b =
    returns s b _ (Calls.set_funded-IsBalanced env s a id)
execute-IsBalanced env s (Request.set_repaid a id) n b =
    returns s b _ (Calls.set_repaid-IsBalanced env s a id)
execute-IsBalanced env s (Request.set_defaulted a id) n b =
    returns s b _ (Calls.set_defaulted-IsBalanced env s a id)
execute-IsBalanced env s (Request.archive_invoice a id) n b =
    returns s b _ (Calls.archive_invoice-IsBalanced env s a id)
execute-IsBalanced env s (Request.freeze_invoice a id) n b =
    config s b _ (Config.freeze_invoice-Agrees env s a id)
execute-IsBalanced env s (Request.unfreeze_invoice a id) n b =
    config s b _ (Config.unfreeze_invoice-Agrees env s a id)
execute-IsBalanced env s (Request.freeze_sme_invoices a sme m) n b =
    config s b _ (by_state (Agrees s) _ (Config.freeze_sme_invoices-Agrees env s a sme m))
execute-IsBalanced env s (Request.unfreeze_sme_invoices a sme m) n b =
    config s b _ (by_state (Agrees s) _ (Config.unfreeze_sme_invoices-Agrees env s a sme m))
execute-IsBalanced env s (Request.refresh_risk_score a id) n b =
    returns s b _ (Calls.refresh_risk_score-IsBalanced env s a id)
execute-IsBalanced env s (Request.commit_metadata_hash a id h) n b =
    config s b _ (Config.commit_metadata_hash-Agrees env s a id h)
execute-IsBalanced env s (Request.flag_metadata_mismatch a id h) n b =
    config s b _ (Config.flag_metadata_mismatch-Agrees env s a id h)
execute-IsBalanced env s (Request.admin_correct_metadata_hash a id h) n b =
    config s b _ (Config.admin_correct_metadata_hash-Agrees env s a id h)
execute-IsBalanced env s (Request.resolve_metadata_dispute a id u) n b =
    config s b _ (Config.resolve_metadata_dispute-Agrees env s a id u)
execute-IsBalanced env s (Request.add_allowed_currency a c) n b =
    config s b _ (Config.add_allowed_currency-Agrees env s a c)
execute-IsBalanced env s (Request.remove_allowed_currency a c) n b =
    config s b _ (Config.remove_allowed_currency-Agrees env s a c)

committed-IsBalanced :
    (s : NftState) (r : Call NftState)
    → IsBalanced s
    → Ensures IsBalanced r
    → IsBalanced (committed s r)
committed-IsBalanced s (ok s') b e = e
committed-IsBalanced s (err x) b e = b
committed-IsBalanced s trap b e = b

step-IsBalanced :
    (s : NftState) (env : Env) (r : Request)
    → is_amendment r ≡ false
    → IsBalanced s
    → IsBalanced (step s (env, r))
unfolding step
step-IsBalanced s env r n b =
    committed-IsBalanced s (execute env s r) b (execute-IsBalanced env s r n b)

abbrev pub NoAmendment : List (Env × Request) → Type 0
NoAmendment [] = Unit
NoAmendment ((env, r) ∷ cs) = (is_amendment r ≡ false) × NoAmendment cs

-- In a state where the cached exposure of every SME is the sum of the face values of its open
-- invoices, any history of calls without an amendment, whether the calls succeed or fail, leaves the
-- cache equal to that sum.
pub run-IsBalanced :
    (s : NftState) (cs : List (Env × Request))
    → NoAmendment cs
    → IsBalanced s
    → IsBalanced (run s cs)
unfolding run
run-IsBalanced s [] n b = b
run-IsBalanced s ((env, r) ∷ cs) (n, ns) b =
    run-IsBalanced (step s (env, r)) cs ns (step-IsBalanced s env r n b)
