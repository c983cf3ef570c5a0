-- ===== src/InvoiceNft/Exposure/Mints.antt =====
-- The single mint, and the cached exposures after it.
use kora_contract.Prelude.{ℕ, ◌+◌, ◌<◌, ◌≡◌, refl, arith, unwrap_or}
use kora_contract.Prelude.Int.{ℤ, pos, ◌≤ℤ◌, pos_part}
use kora_contract.Prelude.Int128.{i128_half}
use kora_contract.Prelude.Results.{Ensures, Ensures-ok, ok}
use kora_contract.Prelude.Store.{update}
use kora_contract.Shared.Host.{Env, Address}
use kora_contract.InvoiceNft.State.{NftState, BatchInvoiceInput}
use kora_contract.InvoiceNft.Views.{get_outstanding_exposure}
use kora_contract.InvoiceNft.Mint.{check_terms, new_hot, new_exposure, mint_writes, mint_invoice}
use kora_contract.InvoiceNft.Lifecycle.{
  next_of, Agrees, acquire_guard-Agrees, consume_mint_quota-Agrees,
}
use kora_contract.InvoiceNft.Exposure.Balance.{IsBalanced, owed_by}
use kora_contract.InvoiceNft.Exposure.Growth.{Extends-one, raise-IsBalanced, IsBalanced-IsSound}

pub check_terms-positive :
    (env : Env) (m : ℕ) (input : BatchInvoiceInput)
    → check_terms env m input ≡ ok tt
    → pos 1 ≤ℤ input.amount
unfolding check_terms
check_terms-positive env m input e = ground arith

-- What a mint has done, with the exposure that it wrote.
record Minted (env : Env) (s : NftState) (sme : Address) (input : BatchInvoiceInput) (s' : NftState)
    : Type 0 where
  stored : s'.hot ≡ update s.hot (next_of s) (new_hot env (next_of s) sme input)
  counted : next_of s' ≡ next_of s + 1
  cache : s'.exposure ≡ update s.exposure sme (unwrap_or (s'.exposure sme) (pos 0))
  sum : new_exposure s sme input.amount ≡ ok (unwrap_or (s'.exposure sme) (pos 0))
  positive : pos 1 ≤ℤ input.amount

module _ (env : Env) (s : NftState) (sme : Address) (input : BatchInvoiceInput) where
  mint_writes-Minted :
      (s3 : NftState) (e : ℤ)
      → Agrees s s3
      → pos 1 ≤ℤ input.amount
      → new_exposure s sme input.amount ≡ ok e
      → Ensures (λ p. Minted env s sme input p.0) (mint_writes env s3 sme input e)
  unfolding mint_writes
  mint_writes-Minted s3 e agree positive sum = ground arith

  new_exposure-Agrees :
      (s3 : NftState)
      → Agrees s s3
      → new_exposure s3 sme input.amount ≡ new_exposure s sme input.amount
  unfolding new_exposure
  new_exposure-Agrees s3 agree = rw agree.same_cache

  mint_invoice-Minted : Ensures (λ p. Minted env s sme input p.0) (mint_invoice env s sme input)
  unfolding mint_invoice
  mint_invoice-Minted = grind (
    arith, acquire_guard-Agrees, consume_mint_quota-Agrees, check_terms-positive,
    new_exposure-Agrees, mint_writes-Minted,
  )

-- A sum that did not overflow is the exact sum.
pub new_exposure-exact :
    (s : NftState) (sme : Address) (x : ℕ) (a e : ℤ)
    → unwrap_or (s.exposure sme) (pos 0) ≡ pos x
    → pos 0 ≤ℤ a
    → new_exposure s sme a ≡ ok e
    → (e ≡ pos (x + pos_part a)) × (x + pos_part a < i128_half)
unfolding new_exposure
new_exposure-exact s sme x a e c p n = ground arith

Minted-IsBalanced :
    (env : Env) (s : NftState) (sme : Address) (input : BatchInvoiceInput) (s' : NftState)
    → IsBalanced s
    → Minted env s sme input s'
    → IsBalanced s'
unfolding get_outstanding_exposure new_hot
Minted-IsBalanced env s sme input s' b m =
    raise-IsBalanced s s' sme (pos_part input.amount) _ b
      (rw (m.stored, m.counted)
        (Extends-one s.hot (next_of s) (new_hot env (next_of s) sme input) (IsBalanced-IsSound s b)
          refl (omega (arith, m.positive))))
      m.cache
      (new_exposure-exact s sme (owed_by s sme) input.amount _ (b.cached sme)
        (omega (arith, m.positive)) m.sum)

pub mint_invoice-IsBalanced :
    (env : Env) (s : NftState) (sme : Address) (input : BatchInvoiceInput) (s' : NftState) (id : ℕ)
    → IsBalanced s
    → mint_invoice env s sme input ≡ ok (s', id)
    → IsBalanced s'
mint_invoice-IsBalanced env s sme input s' id b e =
    Minted-IsBalanced env s sme input s' b
      (Ensures-ok (λ p. Minted env s sme input p.0) _ (mint_invoice-Minted env s sme input) e)
