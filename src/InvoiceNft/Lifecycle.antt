-- ===== src/InvoiceNft/Lifecycle.antt =====
-- The life cycle of an invoice, over every call of the contract and over every history of calls.
mod Diagram
mod Calls
mod Mints
pub mod Config
pub use Diagram.*
pub use Mints.{acquire_guard-Agrees, consume_mint_quota-Agrees}
use kora_contract.Prelude.{
  ℕ, ◌≤◌, ◌<◌, ◌≡◌, refl, ◌⊎◌, inl, inr, Bool, true, false, Option, none, some, List, [], ◌∷◌,
  arith,
}
use kora_contract.Prelude.Results.{Ensures, Ensures-mono, Result, ok, err, trap}
use kora_contract.Shared.Host.{Env, Address}
use kora_contract.Shared.Types.{InvoiceStatus, created, listed, funded, repaid, defaulted}
use kora_contract.InvoiceNft.State.{NftState}
use kora_contract.InvoiceNft.Requests.{Request, execute, step, run, committed}
use Calls
use Mints
use Config

execute-Advances :
    (env : Env) (s : NftState) (j : ℕ)
    → IsFresh s j
    → (r : Request) → Ensures (λ s'. Advances s s' j) (execute env s r)
unfolding execute
execute-Advances env s j h (Request.set_risk_registry a r) =
    grind (arith, Agrees-Advances, Config.set_risk_registry-Agrees env s a r)
execute-Advances env s j h (Request.set_debtor_attestation a r) =
    grind (arith, Agrees-Advances, Config.set_debtor_attestation-Agrees env s a r)
execute-Advances env s j h (Request.set_authorized_callers a m f) =
    grind (arith, Agrees-Advances, Config.set_authorized_callers-Agrees env s a m f)
execute-Advances env s j h (Request.set_protocol_config a c) =
    grind (arith, Agrees-Advances, Config.set_protocol_config-Agrees env s a c)
execute-Advances env s j h (Request.set_amount_bounds a t lo hi) =
    grind (arith, Agrees-Advances, Config.set_amount_bounds-Agrees env s a t lo hi)
execute-Advances env s j h (Request.set_mint_rate_limit a m w) =
    grind (arith, Agrees-Advances, Config.set_mint_rate_limit-Agrees env s a m w)
execute-Advances env s j h (Request.mint_invoice a i) =
    ground (arith, Mints.mint_invoice-Advances env s j h a i)
execute-Advances env s j h (Request.mint_invoice_with_referrer a i r) =
    ground (arith, Mints.mint_invoice_with_referrer-Advances env s j h a i r)
execute-Advances env s j h (Request.mint_invoices_batch a is) =
    ground (arith, Mints.mint_invoices_batch-Advances env s j h a is)
execute-Advances env s j h (Request.amend_invoice a id n) =
    Calls.amend_invoice-Advances env s j h a id n
execute-Advances env s j h (Request.update_metadata_cid a id n) =
    Calls.update_metadata_cid-Advances env s j h a id n
execute-Advances env s j h (Request.withdraw_invoice a id) =
    Calls.withdraw_invoice-Advances env s j h a id
execute-Advances env s j h (Request.set_created a id) = Calls.set_created-Advances env s j h a id
execute-Advances env s j h (Request.set_listed a id) = Calls.set_listed-Advances env s j h a id
execute-Advances env s j h (Request.set_funded a id) = Calls.set_funded-Advances env s j h a id
execute-Advances env s j h (Request.set_repaid a id) = Calls.set_repaid-Advances env s j h a id
execute-Advances env s j h (Request.set_defaulted a id) =
    Calls.set_defaulted-Advances env s j h a id
execute-Advances env s j h (Request.archive_invoice a id) =
    Calls.archive_invoice-Advances env s j h a id
execute-Advances env s j h (Request.freeze_invoice a id) =
    grind (arith, Agrees-Advances, Config.freeze_invoice-Agrees env s a id)
execute-Advances env s j h (Request.unfreeze_invoice a id) =
    grind (arith, Agrees-Advances, Config.unfreeze_invoice-Agrees env s a id)
execute-Advances env s j h (Request.freeze_sme_invoices a sme n) =
    grind (arith, Agrees-Advances, Config.freeze_sme_invoices-Agrees env s a sme n)
execute-Advances env s j h (Request.unfreeze_sme_invoices a sme n) =
    grind (arith, Agrees-Advances, Config.unfreeze_sme_invoices-Agrees env s a sme n)
execute-Advances env s j h (Request.refresh_risk_score a id) =
    Calls.refresh_risk_score-Advances env s j h a id
execute-Advances env s j h (Request.commit_metadata_hash a id x) =
    grind (arith, Agrees-Advances, Config.commit_metadata_hash-Agrees env s a id x)
execute-Advances env s j h (Request.flag_metadata_mismatch a id x) =
    grind (arith, Agrees-Advances, Config.flag_metadata_mismatch-Agrees env s a id x)
execute-Advances env s j h (Request.admin_correct_metadata_hash a id x) =
    grind (arith, Agrees-Advances, Config.admin_correct_metadata_hash-Agrees env s a id x)
execute-Advances env s j h (Request.resolve_metadata_dispute a id u) =
    grind (arith, Agrees-Advances, Config.resolve_metadata_dispute-Agrees env s a id u)
execute-Advances env s j h (Request.add_allowed_currency a c) =
    grind (arith, Agrees-Advances, Config.add_allowed_currency-Agrees env s a c)
execute-Advances env s j h (Request.remove_allowed_currency a c) =
    grind (arith, Agrees-Advances, Config.remove_allowed_currency-Agrees env s a c)

committed-Advances :
    (s : NftState) (j : ℕ) (r : Result _ NftState)
    → IsFresh s j
    → Ensures (λ s'. Advances s s' j) r
    → Advances s (committed s r) j
committed-Advances s j (ok s') h adv = adv
committed-Advances s j (err e) h adv =
    Agrees-Advances s s j h (record { same_hot = refl; same_next = refl; same_cache = refl })
committed-Advances s j trap h adv =
    Agrees-Advances s s j h (record { same_hot = refl; same_next = refl; same_cache = refl })

-- For an identifier that has no record unless it was allocated, one call, whether it succeeds or
-- fails, moves its status along an edge of the diagram or leaves it, or mints the identifier, if it
-- was not allocated before. The counter of identifiers does not fall, and the identifier still has no
-- record unless it is allocated.
pub step-Advances :
    (s : NftState) (c : Env × Request) (j : ℕ) → IsFresh s j → Advances s (step s c) j
unfolding step
step-Advances s (env, r) j h =
    committed-Advances s j (execute env s r) h (execute-Advances env s j h r)

-- Settled: repaid or defaulted, or gone from the storage for good.
abbrev pub IsSettled : NftState → ℕ → Type 0
IsSettled s j =
    (j < next_of s)
    × ((status_of s j ≡ none) ⊎ (status_of s j ≡ some repaid) ⊎ (status_of s j ≡ some defaulted))

⟶-settled :
    {o o' : Option InvoiceStatus}
    → o ⟶ o'
    → (o ≡ none) ⊎ (o ≡ some repaid) ⊎ (o ≡ some defaulted)
    → (o' ≡ o) ⊎ (o' ≡ none)
⟶-settled stay h = inl refl
⟶-settled list h = ground arith
⟶-settled delist h = ground arith
⟶-settled fund h = ground arith
⟶-settled repay h = ground arith
⟶-settled default h = ground arith
⟶-settled withdraw h = ground arith
⟶-settled archive_repaid h = inr refl
⟶-settled archive_defaulted h = inr refl

step-IsSettled :
    (s : NftState) (c : Env × Request) (j : ℕ)
    → IsFresh s j
    → IsSettled s j
    → IsSettled (step s c) j
      × ((status_of (step s c) j ≡ status_of s j) ⊎ (status_of (step s c) j ≡ none))
step-IsSettled s c j fresh settled = grind (arith, step-Advances s c j fresh, ⟶-settled)

-- An allocated identifier whose invoice is repaid, defaulted or gone stays settled: after any further
-- history of calls it has the same status, or its record is gone, and it is still allocated.
pub run-IsSettled :
    (s : NftState) (cs : List (Env × Request)) (j : ℕ)
    → IsFresh s j
    → IsSettled s j
    → IsSettled (run s cs) j
      × ((status_of (run s cs) j ≡ status_of s j) ⊎ (status_of (run s cs) j ≡ none))
unfolding run
run-IsSettled s [] j fresh settled = (settled, inl refl)
run-IsSettled s (c ∷ cs) j fresh settled = grind (
  arith,
  step-IsSettled s c j fresh settled,
  run-IsSettled (step s c) cs j (step-Advances s c j fresh).fresh
      (step-IsSettled s c j fresh settled).0,
)
