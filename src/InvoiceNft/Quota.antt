-- ===== src/InvoiceNft/Quota.antt =====
-- The rate limit on mints, as the calls charge it.
use kora_contract.Prelude.{
  ℕ, ◌+◌, ◌≤◌, ◌≡◌, refl, ◌∙◌, some, List, [], ◌∷◌, arith, length, unwrap_or,
}
use kora_contract.Prelude.Int.{ℤ, pos}
use kora_contract.Prelude.Results.{Ensures, Ensures-ok, Ensures-bind, Ensures-mono, ok, ◌>>◌, ◌>>=◌}
use kora_contract.Shared.Host.{Env, Address}
use kora_contract.InvoiceNft.State.{NftState, BatchInvoiceInput}
use kora_contract.InvoiceNft.Guards.{acquire_guard, consume_mint_quota, current_window}
use kora_contract.InvoiceNft.Shapes.{mint_from, batch_from}
use kora_contract.InvoiceNft.Mint.{
  mint_invoice, mint_writes, new_exposure, check_credit, mint_batch_loop, finish_batch,
  add_exposure, close_batch, mint_invoices_batch, store_invoice,
}

-- What the SME has used of the window that a mint now is charged to.
unfoldable pub quota_used : Env → ℕ → NftState → Address → ℕ
unfolding current_window
quota_used env window_secs s sme =
    (current_window env.now window_secs (unwrap_or (s.mint_window sme) (env.now, 0))).1

-- Between `s` and `s'` a mint was charged `n`, under the limit that both have.
record Charged (env : Env) (max_mints window_secs : ℕ) (sme : Address) (s s' : NftState) (n : ℕ)
    : Type 0 where
  pub charged : quota_used env window_secs s' sme ≡ quota_used env window_secs s sme + n
  pub under : quota_used env window_secs s' sme ≤ max_mints

-- The calls around the charge leave the limit and the windows as they are.
record Unmetered (s s' : NftState) : Type 0 where
  same_limit : s'.mint_rate_limit ≡ s.mint_rate_limit
  same_window : s'.mint_window ≡ s.mint_window

Unmetered-trans : (s s1 s2 : NftState) → Unmetered s s1 → Unmetered s1 s2 → Unmetered s s2
Unmetered-trans s s1 s2 u u' = record {
  same_limit = u'.same_limit ∙ u.same_limit;
  same_window = u'.same_window ∙ u.same_window;
}

acquire_guard-Unmetered : (s : NftState) {s' : NftState} → acquire_guard s ≡ ok s' → Unmetered s s'
unfolding acquire_guard
acquire_guard-Unmetered s e = ground arith

loop-Unmetered :
    (env : Env) (s : NftState) (sme : Address) (n : ℕ) (delta : ℤ) (inputs : List BatchInvoiceInput)
    → Ensures (λ r. Unmetered s r.0) (mint_batch_loop env s sme n delta inputs)
unfolding mint_batch_loop
loop-Unmetered env s sme n delta [] = record { same_limit = refl; same_window = refl }
loop-Unmetered env s sme n delta (input ∷ rest) =
    let ih = λ (d : ℤ). loop-Unmetered env (store_invoice env s n sme input) sme (n + 1) d rest in
    grind (arith, ih)

finish_batch-Unmetered :
    (s : NftState) (sme : Address) (ids : List ℕ) (next : ℕ) (delta : ℤ)
    → Ensures (λ p. Unmetered s p.0) (finish_batch s sme ids next delta)
unfolding finish_batch add_exposure close_batch
finish_batch-Unmetered s sme [] next delta = ground arith
finish_batch-Unmetered s sme (id ∷ ids) next delta = ground arith

module _ (env : Env) (sme : Address) (m w : ℕ) (positive : 1 ≤ w) where
  IsLimited : NftState → Type 0
  IsLimited s = s.mint_rate_limit ≡ some (record { max_mints = m; window_secs = w })

  consume_mint_quota-Charged :
      (s : NftState) (n : ℕ)
      → IsLimited s
      → Ensures (λ s'. IsLimited s' × Charged env m w sme s s' n) (consume_mint_quota env s sme n)
  unfolding consume_mint_quota quota_used IsLimited
  consume_mint_quota-Charged s n lim = ground arith

  mint_writes-Unmetered :
      (s : NftState) (input : BatchInvoiceInput) (e : ℤ)
      → Ensures (λ p. Unmetered s p.0) (mint_writes env s sme input e)
  unfolding mint_writes
  mint_writes-Unmetered s input e = ground arith

  used_same : (s s' : NftState) → Unmetered s s' → quota_used env w s' sme ≡ quota_used env w s sme
  unfolding quota_used
  used_same s s' u = rw u.same_window

  Charged-around :
      (s s1 s2 s3 : NftState) (n : ℕ)
      → Unmetered s s1
      → IsLimited s2 × Charged env m w sme s1 s2 n
      → Unmetered s2 s3
      → Charged env m w sme s s3 n
  Charged-around s s1 s2 s3 n u (l, c) u' = record {
    charged = omega (arith, used_same s s1 u, c.charged, used_same s2 s3 u');
    under = omega (arith, c.under, used_same s2 s3 u');
  }

  Charged-trans :
      (s s1 s2 s3 s4 : NftState)
      → Unmetered s s1
      → IsLimited s2 × Charged env m w sme s1 s2 1
      → IsLimited s3 × Charged env m w sme s2 s3 1
      → Unmetered s3 s4
      → Charged env m w sme s s4 2
  Charged-trans s s1 s2 s3 s4 u (l, c) (l', c') u' = record {
    charged = omega (arith, used_same s s1 u, c.charged, c'.charged, used_same s3 s4 u');
    under = omega (arith, c'.under, used_same s3 s4 u');
  }

  IsLimited-after : (s s1 : NftState) → IsLimited s → Unmetered s s1 → IsLimited s1
  unfolding IsLimited
  IsLimited-after s s1 l u = u.same_limit ∙ l

  -- From the first charge on.
  second_charge :
      (s s1 s2 : NftState) (input : BatchInvoiceInput) (e : ℤ)
      → Unmetered s s1
      → IsLimited s2 × Charged env m w sme s1 s2 1
      → Ensures
          (λ p. Charged env m w sme s p.0 2)
          (do s3 ← consume_mint_quota env s2 sme 1; mint_writes env s3 sme input e)
  second_charge s s1 s2 input e u c =
      Ensures-bind (λ s3. IsLimited s3 × Charged env m w sme s2 s3 1) _
        (consume_mint_quota env s2 sme 1) (λ s3. mint_writes env s3 sme input e)
        (λ s3 c'.
          Ensures-mono (λ p. Unmetered s3 p.0) _ (mint_writes env s3 sme input e)
            (λ p u'. Charged-trans s s1 s2 s3 p.0 u c c' u') (mint_writes-Unmetered s3 input e))
        (consume_mint_quota-Charged s2 1 c.0)

  charges :
      (s s1 : NftState) (input : BatchInvoiceInput)
      → IsLimited s
      → Unmetered s s1
      → Ensures
          (λ p. Charged env m w sme s p.0 2)
          (do
            s2 ← consume_mint_quota env s1 sme 1
            exposure ← new_exposure s2 sme input.amount
            check_credit env s2 sme exposure
            s3 ← consume_mint_quota env s2 sme 1
            mint_writes env s3 sme input exposure)
  charges s s1 input l u =
      grind (arith, IsLimited-after s s1 l u, consume_mint_quota-Charged s1 1, second_charge s s1)

  mint_invoice-Charged :
      (s : NftState) (input : BatchInvoiceInput)
      → IsLimited s
      → Ensures (λ p. Charged env m w sme s p.0 2) (mint_invoice env s sme input)
  mint_invoice-Charged s input l =
      mint_from env s sme input _ λ s1 e. charges s s1 input l (acquire_guard-Unmetered s e)

  batch_charges :
      (s s1 s2 : NftState) (inputs : List BatchInvoiceInput) (n : ℕ)
      → Unmetered s s1
      → IsLimited s2 × Charged env m w sme s1 s2 n
      → Ensures
          (λ p. Charged env m w sme s p.0 n)
          (do
            r ← mint_batch_loop env s2 sme (unwrap_or s2.next_id 1) (pos 0) inputs
            finish_batch r.0 sme r.1 r.2 r.3)
  batch_charges s s1 s2 inputs n u c =
      Ensures-bind (λ r. Unmetered s2 r.0) _
        (mint_batch_loop env s2 sme (unwrap_or s2.next_id 1) (pos 0) inputs)
        (λ r. finish_batch r.0 sme r.1 r.2 r.3)
        (λ r ur.
          Ensures-mono (λ p. Unmetered r.0 p.0) _ (finish_batch r.0 sme r.1 r.2 r.3)
            (λ p up. Charged-around s s1 s2 p.0 n u c (Unmetered-trans s2 r.0 p.0 ur up))
            (finish_batch-Unmetered r.0 sme r.1 r.2 r.3))
        (loop-Unmetered env s2 sme (unwrap_or s2.next_id 1) (pos 0) inputs)

  mint_invoices_batch-Charged :
      (s : NftState) (inputs : List BatchInvoiceInput)
      → IsLimited s
      → Ensures
          (λ p. Charged env m w sme s p.0 (length inputs))
          (mint_invoices_batch env s sme inputs)
  mint_invoices_batch-Charged s inputs l = batch_from env s sme inputs _ λ s1 s2 e e'.
      let u = acquire_guard-Unmetered s e in
      batch_charges s s1 s2 inputs (length inputs) u (
        Ensures-ok (λ s2. IsLimited s2 × Charged env m w sme s1 s2 (length inputs)) _
          (consume_mint_quota-Charged s1 (length inputs) (IsLimited-after s s1 l u)) e')

-- Under a rate limit with a window of at least one second, a mint that succeeds uses two of the
-- SME's mints of the window, and leaves the number used at most the maximum.
pub mint_invoice-used :
    (env : Env) (s : NftState) (sme : Address) (input : BatchInvoiceInput) (m w : ℕ) (s' : NftState)
    (id : ℕ)
    → s.mint_rate_limit ≡ some (record { max_mints = m; window_secs = w })
    → 1 ≤ w
    → mint_invoice env s sme input ≡ ok (s', id)
    → (quota_used env w s' sme ≡ quota_used env w s sme + 2) × (quota_used env w s' sme ≤ m)
unfolding IsLimited
mint_invoice-used env s sme input m w s' id limited positive e =
    let c =
      Ensures-ok (λ p. Charged env m w sme s p.0 2) _
        (mint_invoice-Charged env sme m w positive s input limited) e in
    (c.charged, c.under)

-- Under a rate limit with a window of at least one second, a batch that succeeds uses as many of the SME's mints of the window as it has
-- invoices, and leaves the number used at most the maximum.
pub mint_invoices_batch-used :
    (env : Env) (s : NftState) (sme : Address) (inputs : List BatchInvoiceInput) (m w : ℕ)
    (s' : NftState) (ids : List ℕ)
    → s.mint_rate_limit ≡ some (record { max_mints = m; window_secs = w })
    → 1 ≤ w
    → mint_invoices_batch env s sme inputs ≡ ok (s', ids)
    → (quota_used env w s' sme ≡ quota_used env w s sme + length inputs)
      × (quota_used env w s' sme ≤ m)
unfolding IsLimited
mint_invoices_batch-used env s sme inputs m w s' ids limited positive e =
    let c =
      Ensures-ok (λ p. Charged env m w sme s p.0 (length inputs)) _
        (mint_invoices_batch-Charged env sme m w positive s inputs limited) e in
    (c.charged, c.under)
