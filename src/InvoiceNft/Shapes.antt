-- ===== src/InvoiceNft/Shapes.antt =====
-- The two mints after their checks: what holds of the rest holds of the call.
use kora_contract.Prelude.{ℕ, ◌≡◌, List, arith, length, unwrap_or}
use kora_contract.Prelude.Int.{pos}
use kora_contract.Prelude.Results.{Ensures, ok, ◌>>=◌, ◌>>◌}
use kora_contract.Shared.Host.{Env, Address}
use kora_contract.InvoiceNft.State.{NftState, BatchInvoiceInput}
use kora_contract.InvoiceNft.Guards.{acquire_guard, consume_mint_quota}
use kora_contract.InvoiceNft.Mint.{
  mint_invoice, mint_writes, new_exposure, check_credit, mint_batch_loop, finish_batch,
  mint_invoices_batch,
}

module _ (env : Env) (s : NftState) (sme : Address) where
  -- From the first charge of the quota on.
  pub mint_from :
      (input : BatchInvoiceInput) (Q : NftState × ℕ → Type 0)
      → ((s1 : NftState)
          → acquire_guard s ≡ ok s1
          → Ensures Q (do
            s2 ← consume_mint_quota env s1 sme 1
            exposure ← new_exposure s2 sme input.amount
            check_credit env s2 sme exposure
            s3 ← consume_mint_quota env s2 sme 1
            mint_writes env s3 sme input exposure))
      → Ensures Q (mint_invoice env s sme input)
  unfolding mint_invoice
  mint_from input Q h = grind (arith, h)

  -- From the records on.
  pub batch_from :
      (inputs : List BatchInvoiceInput) (Q : NftState × List ℕ → Type 0)
      → ((s1 s2 : NftState)
          → acquire_guard s ≡ ok s1
          → consume_mint_quota env s1 sme (length inputs) ≡ ok s2
          → Ensures Q (do
            r ← mint_batch_loop env s2 sme (unwrap_or s2.next_id 1) (pos 0) inputs
            finish_batch r.0 sme r.1 r.2 r.3))
      → Ensures Q (mint_invoices_batch env s sme inputs)
  unfolding mint_invoices_batch
  batch_from inputs Q h = grind (arith, h)
