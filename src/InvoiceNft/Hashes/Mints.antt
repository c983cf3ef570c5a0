-- ===== src/InvoiceNft/Hashes/Mints.antt =====
-- The mints leave the documents of former invoices.
use kora_contract.Prelude.{ℕ, ◌+◌, ◌≤◌, ◌<◌, ◌≡◌, Option, some, List, [], ◌∷◌, arith}
use kora_contract.Prelude.Int.{ℤ, pos}
use kora_contract.Prelude.Results.{Ensures, ◌>>=◌, ok}
use kora_contract.Shared.Host.{Env, Address}
use kora_contract.InvoiceNft.State.{NftState, BatchInvoiceInput}
use kora_contract.InvoiceNft.Guards.{acquire_guard, consume_mint_quota}
use kora_contract.InvoiceNft.Mint.{
  mint_invoice, mint_writes, mint_batch_loop, mint_invoices_batch, mint_invoice_with_referrer,
  store_invoice, finish_batch, add_exposure, close_batch,
}
use kora_contract.InvoiceNft.Lifecycle.{next_of}
use kora_contract.InvoiceNft.Hashes.Calls.{IsCommitted, SameDocuments, same-IsCommitted}

consume_mint_quota-SameDocuments :
    (env : Env) (s : NftState) (sme : Address) (n : ℕ) {s' : NftState}
    → consume_mint_quota env s sme n ≡ ok s'
    → SameDocuments s s'
unfolding consume_mint_quota
consume_mint_quota-SameDocuments env s sme n e = ground arith

acquire_guard-SameDocuments :
    (s : NftState) {s' : NftState} → acquire_guard s ≡ ok s' → SameDocuments s s'
unfolding acquire_guard
acquire_guard-SameDocuments s e = ground arith

-- What the second loop of the batch leaves of the document at a former identifier.
abbrev Filled : NftState → ℕ → ℕ → NftState × List ℕ × ℕ × ℤ → Type 0
Filled s n j (s', ids, last, total) = (s'.next_id ≡ s.next_id) × (n ≤ last) × (s'.cold j ≡ s.cold j)

loop-Filled :
    (env : Env) (s : NftState) (sme : Address) (n j : ℕ) (delta : ℤ)
    (inputs : List BatchInvoiceInput)
    → j < n
    → Ensures (Filled s n j) (mint_batch_loop env s sme n delta inputs)
unfolding mint_batch_loop
loop-Filled env s sme n j delta [] lt = ground arith
loop-Filled env s sme n j delta (input ∷ rest) lt =
    let ih = λ (d : ℤ).
      loop-Filled env (store_invoice env s n sme input) sme (n + 1) j d rest (omega (arith, lt)) in
    grind (arith, ih)

finish_batch-documents :
    (s : NftState) (sme : Address) (ids : List ℕ) (next : ℕ) (delta : ℤ)
    → Ensures
        (λ p. (p.0.cold ≡ s.cold) × (p.0.next_id ≡ some next))
        (finish_batch s sme ids next delta)
unfolding finish_batch add_exposure close_batch
finish_batch-documents s sme [] next delta = ground arith
finish_batch-documents s sme (id ∷ ids) next delta = ground arith

module _ (env : Env) (j : ℕ) (s : NftState) (h : IsCommitted j s) (sme : Address) where
  writes_after :
      (s3 : NftState) (input : BatchInvoiceInput) (e : ℤ)
      → SameDocuments s s3
      → Ensures (λ p. IsCommitted j p.0) (mint_writes env s3 sme input e)
  unfolding mint_writes
  writes_after s3 input e same = grind (arith, h.allocated, h.taken)

  pub mint_invoice-IsCommitted :
      (input : BatchInvoiceInput) → Ensures (λ p. IsCommitted j p.0) (mint_invoice env s sme input)
  unfolding mint_invoice
  mint_invoice-IsCommitted input =
      grind (arith, acquire_guard-SameDocuments, consume_mint_quota-SameDocuments, writes_after)

  batch_after :
      (s2 : NftState) (inputs : List BatchInvoiceInput)
      → SameDocuments s s2
      → Ensures
          (λ p. IsCommitted j p.0)
          (mint_batch_loop env s2 sme (next_of s2) (pos 0) inputs >>= λ r.
            finish_batch r.0 sme r.1 r.2 r.3)
  batch_after s2 inputs same =
      let filled =
        loop-Filled env s2 sme (next_of s2) j (pos 0) inputs
          (same-IsCommitted j s s2 h same).allocated in
      grind (arith, filled, finish_batch-documents, h.allocated, h.taken)

  pub mint_invoices_batch-IsCommitted :
      (inputs : List BatchInvoiceInput)
      → Ensures (λ p. IsCommitted j p.0) (mint_invoices_batch env s sme inputs)
  unfolding mint_invoices_batch
  mint_invoices_batch-IsCommitted inputs =
      grind (arith, acquire_guard-SameDocuments, consume_mint_quota-SameDocuments, batch_after)

  pub mint_invoice_with_referrer-IsCommitted :
      (input : BatchInvoiceInput) (r : Option Address)
      → Ensures (λ p. IsCommitted j p.0) (mint_invoice_with_referrer env s sme input r)
  unfolding mint_invoice_with_referrer
  mint_invoice_with_referrer-IsCommitted input r = grind (arith, mint_invoice-IsCommitted)
