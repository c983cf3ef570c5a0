-- ===== src/InvoiceNft/Lifecycle/Mints.antt =====
-- The mints, against the diagram: they take the next identifier, or the next few.
use kora_contract.Prelude.{ℕ, ◌+◌, ◌≤◌, ◌<◌, ◌≡◌, ◌⊎◌, Option, some, List, [], ◌∷◌, arith}
use kora_contract.Prelude.Int.{ℤ, pos}
use kora_contract.Prelude.Results.{Ensures, ◌>>=◌, ok}
use kora_contract.Shared.Types.{created}
use kora_contract.Shared.Host.{Env, Address}
use kora_contract.InvoiceNft.State.{NftState, BatchInvoiceInput}
use kora_contract.InvoiceNft.Guards.{acquire_guard, consume_mint_quota}
use kora_contract.InvoiceNft.Mint.{
  mint_invoice, mint_writes, mint_batch_loop, mint_invoices_batch, mint_invoice_with_referrer,
  store_invoice, finish_batch, add_exposure, close_batch,
}
use kora_contract.InvoiceNft.Lifecycle.Diagram.{
  status_of, next_of, IsFresh, Advances, Agrees, edges,
}

module _ (env : Env) (s : NftState) (j : ℕ) (fresh : IsFresh s j) (sme : Address) where
  mint_writes-Advances :
      (input : BatchInvoiceInput) (e : ℤ)
      → Ensures (λ p. Advances s p.0 j) (mint_writes env s sme input e)
  unfolding mint_writes
  mint_writes-Advances input e = grind (arith, edges)

  quota_same :
      (n : ℕ)
      → Ensures (λ s'. (s'.hot ≡ s.hot) × (s'.next_id ≡ s.next_id)) (consume_mint_quota env s sme n)
  unfolding consume_mint_quota
  quota_same n = ground arith

pub consume_mint_quota-Agrees :
    (env : Env) (s : NftState) (sme : Address) (n : ℕ) {s' : NftState}
    → consume_mint_quota env s sme n ≡ ok s'
    → Agrees s s'
unfolding consume_mint_quota
consume_mint_quota-Agrees env s sme n e = ground arith

pub acquire_guard-Agrees : (s : NftState) {s' : NftState} → acquire_guard s ≡ ok s' → Agrees s s'
unfolding acquire_guard
acquire_guard-Agrees s e = ground arith

module _ (env : Env) (s : NftState) (j : ℕ) (fresh : IsFresh s j) (sme : Address) where
  writes_after :
      (s3 : NftState) (input : BatchInvoiceInput) (e : ℤ)
      → Agrees s s3
      → Ensures (λ p. Advances s p.0 j) (mint_writes env s3 sme input e)
  unfolding mint_writes
  writes_after s3 input e agree = grind (arith, edges)

  pub mint_invoice-Advances :
      (input : BatchInvoiceInput) → Ensures (λ p. Advances s p.0 j) (mint_invoice env s sme input)
  unfolding mint_invoice
  mint_invoice-Advances input =
      grind (arith, acquire_guard-Agrees, consume_mint_quota-Agrees, writes_after)

-- What the second loop of the batch leaves of the record at one identifier.
abbrev Filled : NftState → ℕ → ℕ → NftState × List ℕ × ℕ × ℤ → Type 0
Filled s n j (s', ids, last, total) =
    (s'.next_id ≡ s.next_id)
    × (n ≤ last)
    × ((status_of s' j ≡ status_of s j) ⊎ ((n ≤ j) × (j < last) × (status_of s' j ≡ some created)))

loop-Filled :
    (env : Env) (s : NftState) (sme : Address) (n j : ℕ) (delta : ℤ)
    (inputs : List BatchInvoiceInput)
    → Ensures (Filled s n j) (mint_batch_loop env s sme n delta inputs)
unfolding mint_batch_loop
loop-Filled env s sme n j delta [] = ground arith
loop-Filled env s sme n j delta (input ∷ rest) =
    let ih = λ (d : ℤ). loop-Filled env (store_invoice env s n sme input) sme (n + 1) j d rest in
    grind (arith, ih)

finish_batch_lem :
    (s : NftState) (sme : Address) (ids : List ℕ) (next : ℕ) (delta : ℤ)
    → Ensures
        (λ p. (p.0.hot ≡ s.hot) × (p.0.next_id ≡ some next))
        (finish_batch s sme ids next delta)
unfolding finish_batch add_exposure close_batch
finish_batch_lem s sme [] next delta = ground arith
finish_batch_lem s sme (id ∷ ids) next delta = ground arith

-- The loop and the writes after it, from a state that agrees with `s`.
module _ (env : Env) (s : NftState) (j : ℕ) (fresh : IsFresh s j) (sme : Address) where
  batch_after :
      (s2 : NftState) (inputs : List BatchInvoiceInput)
      → Agrees s s2
      → Ensures
          (λ p. Advances s p.0 j)
          (mint_batch_loop env s2 sme (next_of s2) (pos 0) inputs >>= λ r.
            finish_batch r.0 sme r.1 r.2 r.3)
  batch_after s2 inputs agree =
      grind (arith, edges, loop-Filled env s2 sme (next_of s2) j (pos 0) inputs, finish_batch_lem)

  pub mint_invoices_batch-Advances :
      (inputs : List BatchInvoiceInput)
      → Ensures (λ p. Advances s p.0 j) (mint_invoices_batch env s sme inputs)
  unfolding mint_invoices_batch
  mint_invoices_batch-Advances inputs =
      grind (arith, acquire_guard-Agrees, consume_mint_quota-Agrees, batch_after)

  pub mint_invoice_with_referrer-Advances :
      (input : BatchInvoiceInput) (r : Option Address)
      → Ensures (λ p. Advances s p.0 j) (mint_invoice_with_referrer env s sme input r)
  unfolding mint_invoice_with_referrer
  mint_invoice_with_referrer-Advances input r =
      grind (arith, mint_invoice-Advances env s j fresh sme input)
