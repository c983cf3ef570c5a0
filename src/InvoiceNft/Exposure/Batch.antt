-- ===== src/InvoiceNft/Exposure/Batch.antt =====
-- The batch mint, and the cached exposures after it.
use kora_contract.Prelude.{
  ℕ, ◌+◌, ◌≡◌, refl, sym, subst, ap, ◌∙◌, ◌⊎◌, inl, inr, none, some, List, [], ◌∷◌, arith,
  unwrap_or, Bool-cases, ltb,
}
use native.Mathlib.Nat.{add_assoc}
use kora_contract.Prelude.Int.{ℤ, pos, negsuc, ◌≤ℤ◌, pos_part}
use kora_contract.Prelude.Int128.{u64_limit, checked_add}
use kora_contract.Prelude.Results.{Ensures, Ensures-map, Ensures-mono, Ensures-bind, ok, ◌>>=◌}
use kora_contract.Prelude.Store.{update}
use kora_contract.Shared.Host.{Env, Address}
use kora_contract.InvoiceNft.State.{NftState, BatchInvoiceInput}
use kora_contract.InvoiceNft.Mint.{
  check_batch, new_hot, store_invoice, mint_batch_loop, finish_batch, new_exposure, add_exposure,
  close_batch, mint_invoices_batch,
}
use kora_contract.InvoiceNft.Views.{get_outstanding_exposure}
use kora_contract.InvoiceNft.Lifecycle.{
  next_of, Agrees, acquire_guard-Agrees, consume_mint_quota-Agrees,
}
use kora_contract.InvoiceNft.Exposure.Balance.{IsBalanced, owed_by}
use kora_contract.InvoiceNft.Exposure.Growth.{
  IsSound, Extends, Extends-refl, Extends-trans, Extends-one, raise-IsBalanced, Extends-IsBalanced,
  IsBalanced-IsSound,
}
use kora_contract.InvoiceNft.Exposure.Mints.{check_terms-positive, new_exposure-exact}

abbrev AllPositive : List BatchInvoiceInput → Type 0
AllPositive [] = Unit
AllPositive (input ∷ rest) = (pos 1 ≤ℤ input.amount) × AllPositive rest

abbrev total_of : List BatchInvoiceInput → ℕ
total_of [] = 0
total_of (input ∷ rest) = pos_part input.amount + total_of rest

check_batch-AllPositive :
    (env : Env) (m : ℕ) (inputs : List BatchInvoiceInput)
    → check_batch env m inputs ≡ ok tt
    → AllPositive inputs
unfolding check_batch
check_batch-AllPositive env m [] e = tt
check_batch-AllPositive env m (input ∷ rest) e =
    ground (arith, check_terms-positive env m input, check_batch-AllPositive env m rest)

record Grown (s : NftState) (sme : Address) (n d t : ℕ) (r : NftState × List ℕ × ℕ × ℤ)
    : Type 0 where
  total : r.3 ≡ pos (d + t)
  extends : Extends s.hot n sme t r.0.hot r.2
  same_cache : r.0.exposure ≡ s.exposure

checked_sum :
    (d : ℕ) (a : ℤ)
    → pos 1 ≤ℤ a
    → (checked_add (pos d) a ≡ none) ⊎ (checked_add (pos d) a ≡ some (pos (d + pos_part a)))
checked_sum d (pos n) p = ground arith
checked_sum d (negsuc n) p = absurd (omega arith)

loop-Grown :
    (env : Env) (s : NftState) (sme : Address) (n d : ℕ) (inputs : List BatchInvoiceInput)
    → IsSound s.hot n
    → AllPositive inputs
    → Ensures (Grown s sme n d (total_of inputs)) (mint_batch_loop env s sme n (pos d) inputs)
unfolding mint_batch_loop
loop-Grown env s sme n d [] sound p = record {
  total = ap pos (omega arith);
  extends = Extends-refl s.hot n sme sound;
  same_cache = refl;
}
loop-Grown env s sme n d (input ∷ rest) sound (p, ps) = elim (checked_sum d input.amount p) [
  | inl over ↦ rw over tt
  | inr sum ↦ rw sum (elim (Bool-cases (ltb (n + 1) u64_limit)) [
    | inl fits ↦ rw fits (
        Ensures-map (Grown s1 sme (n + 1) (d + amount) (total_of rest)) _
          (mint_batch_loop env s1 sme (n + 1) (pos (d + amount)) rest) _ later
          (loop-Grown env s1 sme (n + 1) (d + amount) rest one.sound ps))
    | inr over ↦ rw over tt
  ])
]
  where
    amount : ℕ
    amount = pos_part input.amount

    s1 : NftState
    s1 = store_invoice env s n sme input

    one : Extends s.hot n sme amount s1.hot (n + 1)
    one = Extends-one s.hot n (new_hot env n sme input) sound refl (omega (arith, p))

    later :
        (r : NftState × List ℕ × ℕ × ℤ)
        → Grown s1 sme (n + 1) (d + amount) (total_of rest) r
        → Grown s sme n d (amount + total_of rest) (r.0, n ∷ r.1, r.2, r.3)
    later r g = record {
      total = g.total ∙ ap pos (add_assoc d amount (total_of rest));
      extends =
          Extends-trans s.hot n sme amount (total_of rest) s1.hot (n + 1) r.0.hot r.2 one g.extends;
      same_cache = g.same_cache;
    }

-- What the end of a batch has done.
record Finished (s : NftState) (sme : Address) (next : ℕ) (delta : ℤ) (s' : NftState) : Type 0 where
  same_hot : s'.hot ≡ s.hot
  counted : next_of s' ≡ next
  cache :
      ((delta ≡ pos 0) × (s'.exposure ≡ s.exposure))
      ⊎ ((s'.exposure ≡ update s.exposure sme (unwrap_or (s'.exposure sme) (pos 0)))
          × (new_exposure s sme delta ≡ ok (unwrap_or (s'.exposure sme) (pos 0))))

add_exposure-cases :
    (s : NftState) (sme : Address) (delta : ℤ)
    → Ensures (λ s'. Finished s sme (next_of s) delta s') (add_exposure s sme delta)
unfolding add_exposure
add_exposure-cases s sme delta = ground arith

close_batch-Agrees :
    (s : NftState) (sme : Address) (ids : List ℕ)
    → Ensures (λ p. Agrees s p.0) (close_batch s sme ids)
unfolding close_batch
close_batch-Agrees s sme [] = ground arith
close_batch-Agrees s sme (id ∷ ids) = ground arith

Finished-Agrees :
    (s s1 s' : NftState) (sme : Address) (next : ℕ) (delta : ℤ)
    → Finished s sme next delta s1
    → Agrees s1 s'
    → Finished s sme next delta s'
Finished-Agrees s s1 s' sme next delta f a = record {
  same_hot = a.same_hot ∙ f.same_hot;
  counted = rw a.same_next f.counted;
  cache = rw a.same_cache f.cache;
}

finish_batch-Finished :
    (s : NftState) (sme : Address) (ids : List ℕ) (next : ℕ) (delta : ℤ)
    → Ensures (λ p. Finished s sme next delta p.0) (finish_batch s sme ids next delta)
unfolding finish_batch new_exposure
finish_batch-Finished s sme ids next delta =
    Ensures-bind (Finished s sme next delta) _ (add_exposure s1 sme delta)
      (λ s2. close_batch s2 sme ids)
      (λ s2 f.
        Ensures-mono (λ p. Agrees s2 p.0) _ (close_batch s2 sme ids)
          (λ p a. Finished-Agrees s s2 p.0 sme next delta f a) (close_batch-Agrees s2 sme ids))
      (Ensures-mono (Finished s1 sme next delta) _ (add_exposure s1 sme delta)
        (λ s2 f. record { same_hot = f.same_hot; counted = f.counted; cache = f.cache })
        (add_exposure-cases s1 sme delta))
  where
    s1 : NftState
    s1 = record s { next_id = some next }

same_sum :
    (s s3 : NftState) (sme : Address) (d : ℤ)
    → s3.exposure ≡ s.exposure
    → new_exposure s3 sme d ≡ new_exposure s sme d
unfolding new_exposure
same_sum s s3 sme d same = rw same

Finished-IsBalanced :
    (s s3 s' : NftState) (sme : Address) (next t : ℕ)
    → IsBalanced s
    → Extends s.hot (next_of s) sme t s3.hot next
    → s3.exposure ≡ s.exposure
    → Finished s3 sme next (pos t) s'
    → IsBalanced s'
unfolding get_outstanding_exposure
Finished-IsBalanced s s3 s' sme next t b g cache f = elim f.cache [
  | inl (zero, same) ↦ unchanged zero same
  | inr (raised, sum) ↦ raise-IsBalanced s s' sme t _ b grown (rw (← cache) raised) (
      new_exposure-exact s sme (owed_by s sme) (pos t) _ (b.cached sme) (omega arith)
        (sym (same_sum s s3 sme (pos t) cache) ∙ sum))
]
  where
    grown : Extends s.hot (next_of s) sme t s'.hot (next_of s')
    grown = rw (f.same_hot, f.counted) g

    unchanged : pos t ≡ pos 0 → s'.exposure ≡ s3.exposure → IsBalanced s'
    unchanged zero same =
        Extends-IsBalanced s s' sme t grown
          (λ x. rw (same, cache) (b.cached x ∙ ap pos (ground (arith, zero))))
          (λ x. ground (arith, zero, b.bounded x))

pub Agrees-IsBalanced : (s s' : NftState) → IsBalanced s → Agrees s s' → IsBalanced s'
unfolding get_outstanding_exposure
Agrees-IsBalanced s s' b a = record {
  started = rw a.same_next b.started;
  unused_zero = rw a.same_hot b.unused_zero;
  fresh = rw (a.same_next, a.same_hot) b.fresh;
  priced = rw a.same_hot b.priced;
  cached = rw (a.same_next, a.same_hot, a.same_cache) b.cached;
  bounded = rw (a.same_next, a.same_hot) b.bounded;
}

batch_after :
    (env : Env) (s : NftState) (sme : Address) (inputs : List BatchInvoiceInput)
    → AllPositive inputs
    → IsBalanced s
    → Ensures
        (λ p. IsBalanced p.0)
        (mint_batch_loop env s sme (next_of s) (pos 0) inputs >>= λ r.
          finish_batch r.0 sme r.1 r.2 r.3)
batch_after env s sme inputs p b =
    Ensures-bind (Grown s sme (next_of s) 0 (total_of inputs)) _
      (mint_batch_loop env s sme (next_of s) (pos 0) inputs) (λ r. finish_batch r.0 sme r.1 r.2 r.3)
      (λ r g.
        Ensures-mono (λ p. Finished r.0 sme r.2 r.3 p.0) _ (finish_batch r.0 sme r.1 r.2 r.3)
          (λ p f.
            Finished-IsBalanced s r.0 p.0 sme r.2 (total_of inputs) b g.extends g.same_cache
              (subst (λ d. Finished r.0 sme r.2 d p.0) (g.total ∙ ap pos (omega arith)) f))
          (finish_batch-Finished r.0 sme r.1 r.2 r.3))
      (loop-Grown env s sme (next_of s) 0 inputs (IsBalanced-IsSound s b) p)

batch_from :
    (env : Env) (s : NftState) (sme : Address) (inputs : List BatchInvoiceInput)
    → IsBalanced s
    → (s2 : NftState) (m : ℕ) → Agrees s s2
    → check_batch env m inputs ≡ ok tt
    → Ensures
        (λ p. IsBalanced p.0)
        (mint_batch_loop env s2 sme (next_of s2) (pos 0) inputs >>= λ r.
          finish_batch r.0 sme r.1 r.2 r.3)
batch_from env s sme inputs b s2 m a e =
    batch_after env s2 sme inputs (check_batch-AllPositive env m inputs e)
      (Agrees-IsBalanced s s2 b a)

-- The shape of the call: what holds after the loop and the last writes holds of the call.
shape :
    (env : Env) (s : NftState) (sme : Address) (inputs : List BatchInvoiceInput)
    (Q : NftState × List ℕ → Type 0)
    → ((s2 : NftState) (m : ℕ)
        → Agrees s s2
        → check_batch env m inputs ≡ ok tt
        → Ensures Q (
            mint_batch_loop env s2 sme (next_of s2) (pos 0) inputs >>= λ r.
            finish_batch r.0 sme r.1 r.2 r.3))
    → Ensures Q (mint_invoices_batch env s sme inputs)
unfolding mint_invoices_batch
shape env s sme inputs Q h = grind (arith, acquire_guard-Agrees, consume_mint_quota-Agrees, h)

pub mint_invoices_batch-IsBalanced :
    (env : Env) (s : NftState) (sme : Address) (inputs : List BatchInvoiceInput)
    → IsBalanced s
    → Ensures (λ p. IsBalanced p.0) (mint_invoices_batch env s sme inputs)
mint_invoices_batch-IsBalanced env s sme inputs b =
    shape env s sme inputs _ (batch_from env s sme inputs b)
