-- ===== src/InvoiceNft/Referrals.antt =====
-- The chain of referrers that mints lock (mint_invoice_with_referrer in contracts/invoice_nft/src/lib.rs).
use kora_contract.Prelude.{
  ℕ, zero, suc, ◌≡◌, refl, sym, ap, ◌∙◌, ◌≢◌, ◌⊎◌, inl, inr, Bool, true, false, Option, none, some,
  arith, is_some, Option-cases,
}
use native.Mathlib.Decide.{ℕ_discrete}
use kora_contract.Prelude.Int.{ℤ}
use kora_contract.Prelude.Results.{Ensures, Ensures-ok, Ensures-bind, Ensures-map, ok}
use kora_contract.Prelude.Store.{Store, update}
use kora_contract.Shared.Host.{Env, Address}
use kora_contract.InvoiceNft.State.{NftState, BatchInvoiceInput}
use kora_contract.InvoiceNft.Guards.{acquire_guard, consume_mint_quota}
use kora_contract.InvoiceNft.Shapes.{mint_from}
use kora_contract.InvoiceNft.Mint.{
  mint_invoice, mint_writes, mint_invoice_with_referrer, check_referrer, check_referrer_chain,
  lock_referrer,
}

-- The referrer `n` steps up.
abbrev next_up : (Address → Option Address) → Option Address → Option Address
next_up f none = none
next_up f (some b) = f b

unfoldable pub referrer_at : Store Address → ℕ → Address → Option Address
referrer_at r zero a = some a
referrer_at r (suc n) a = next_up (referrer_at r n) (r a)

-- No address is its own referrer's referrer's ... referrer.
abbrev pub IsAcyclic : Store Address → Type 0
IsAcyclic r = (a : Address) (n : ℕ) → referrer_at r (suc n) a ≢ some a

-- `a` does not lead to `b`.
abbrev Misses : Store Address → Address → Address → Type 0
Misses r a b = (n : ℕ) → referrer_at r n a ≢ some b

chain-Misses :
    (hops : ℕ) (s : NftState) (sme curr : Address)
    → check_referrer_chain hops s sme curr ≡ ok tt
    → Misses s.sme_referrer curr sme
unfolding check_referrer_chain referrer_at
chain-Misses zero s sme curr e n = cc (e)
chain-Misses (suc hops) s sme curr e zero = λ same. ground arith
chain-Misses (suc hops) s sme curr e (suc n) = elim (Option-cases (s.sme_referrer curr)) [
  | inl top ↦ rw top (λ same. cc (same))
  | inr (b, up) ↦ rw up (chain-Misses hops s sme b (ground arith) n)
]

module _ (r : Store Address) where
  first_step : (a b : Address) (n : ℕ) → r a ≡ some b → referrer_at r (suc n) a ≡ referrer_at r n b
  unfolding referrer_at
  first_step a b n up = rw up refl

  top_step : (a : Address) (n : ℕ) → r a ≡ none → referrer_at r (suc n) a ≡ none
  unfolding referrer_at
  top_step a n top = rw top refl

  -- Paths compose.
  compose :
      (m k : ℕ) (a b c : Address)
      → referrer_at r m a ≡ some b
      → referrer_at r k b ≡ some c
      → (j : ℕ) × (referrer_at r j a ≡ some c)
  unfolding referrer_at
  compose zero k a b c p q = (k, (let same : a ≡ b = ground (arith, p) in rw same q))
  compose (suc m) k a b c p q = elim (Option-cases (r a)) [
    | inl top ↦ absurd (cc (p, top_step a m top))
    | inr (d, up) ↦
        let (j, path) = compose m k d b c (sym (first_step a d m up) ∙ p) q in
        (suc j, first_step a d j up ∙ path)
  ]

module _ (r : Store Address) (sme ref : Address) (miss : Misses r ref sme) where
  locked : Store Address
  locked = update r sme ref

  at_sme : locked sme ≡ some ref
  unfolding locked
  at_sme = ground arith

  elsewhere : (a : Address) → a ≢ sme → locked a ≡ r a
  unfolding locked
  elsewhere a ne = ground arith

  -- A path that misses the SME is the same as before.
  same_path : (n : ℕ) (a : Address) → Misses r a sme → referrer_at locked n a ≡ referrer_at r n a
  unfolding referrer_at
  same_path zero a away = refl
  same_path (suc n) a away =
      let here : locked a ≡ r a = elsewhere a (λ e. away 0 (ap some e)) in
      elim (Option-cases (r a)) [
        | inl top ↦ rw (here, top) refl
        | inr (b, up) ↦
            rw (here, up) (same_path n b (λ k q. away (suc k) (first_step r a b k up ∙ q)))
      ]

  -- Any other path goes through the SME, and on from its referrer.
  through :
      (n : ℕ) (a b : Address)
      → referrer_at locked n a ≡ some b
      → (referrer_at r n a ≡ some b)
        ⊎ ((k : ℕ) × (m : ℕ) × (referrer_at locked k a ≡ some sme)
            × (referrer_at locked m ref ≡ some b))
  unfolding referrer_at
  through zero a b h = inl h
  through (suc n) a b h = elim (ℕ_discrete a sme) [
    | yes eq ↦ inr (0, n, ap some eq, sym (first_step locked a ref n (ap locked eq ∙ at_sme)) ∙ h)
    | no ne ↦ elim (Option-cases (r a)) [
      | inl top ↦ absurd (cc (h, top_step locked a n (elsewhere a ne ∙ top)))
      | inr (c, up) ↦
          let up' : locked a ≡ some c = elsewhere a ne ∙ up in
          elim (through n c b (sym (first_step locked a c n up') ∙ h)) [
            | inl q ↦ inl (first_step r a c n up ∙ q)
            | inr (k, m, p, q) ↦ inr (suc k, m, first_step locked a c k up' ∙ p, q)
          ]
    ]
  ]

  locked-IsAcyclic : IsAcyclic r → IsAcyclic locked
  locked-IsAcyclic acyclic a n h = elim (through (suc n) a a h) [
    | inl q ↦ acyclic a n q
    | inr (k, m, p, q) ↦
        let (j, path) = compose locked m k ref a sme q p in
        miss j (sym (same_path j ref miss) ∙ path)
  ]

-- The other steps of a mint leave the referrers.
abbrev SameReferrers : NftState → NftState → Type 0
SameReferrers s s' = s'.sme_referrer ≡ s.sme_referrer

consume-SameReferrers :
    (env : Env) (s : NftState) (sme : Address) (n : ℕ)
    → Ensures (SameReferrers s) (consume_mint_quota env s sme n)
unfolding consume_mint_quota
consume-SameReferrers env s sme n = ground arith

acquire-SameReferrers : (s s' : NftState) → acquire_guard s ≡ ok s' → SameReferrers s s'
unfolding acquire_guard
acquire-SameReferrers s s' e = ground arith

writes-SameReferrers :
    (env : Env) (s : NftState) (sme : Address) (input : BatchInvoiceInput) (e : ℤ)
    → Ensures (λ p. SameReferrers s p.0) (mint_writes env s sme input e)
unfolding mint_writes
writes-SameReferrers env s sme input e = ground arith

module _ (env : Env) (s : NftState) (sme : Address) where
  mint_invoice-SameReferrers :
      (input : BatchInvoiceInput)
      → Ensures (λ p. SameReferrers s p.0) (mint_invoice env s sme input)
  mint_invoice-SameReferrers input = mint_from env s sme input _ λ s1 e.
      let same = acquire-SameReferrers s s1 e in
      grind (arith, same, consume-SameReferrers, writes-SameReferrers)

  -- What the check of the referrer has found.
  Checked : Option Address → Type 0
  Checked none = Unit
  Checked (some x) = Misses s.sme_referrer x sme

  check_referrer-Checked :
      (r : Option Address) → Ensures (λ u. Checked r) (check_referrer env s sme r)
  unfolding check_referrer Checked
  check_referrer-Checked none = tt
  check_referrer-Checked (some x) = grind (arith, chain-Misses 32 s sme x)

  lock-IsAcyclic :
      (l : Bool) (s1 : NftState) (r : Option Address)
      → IsAcyclic s.sme_referrer
      → Checked r
      → SameReferrers s s1
      → IsAcyclic (lock_referrer l s1 sme r).sme_referrer
  unfolding Checked locked
  lock-IsAcyclic true s1 r acyclic c same = rw same acyclic
  lock-IsAcyclic false s1 none acyclic c same = rw same acyclic
  lock-IsAcyclic false s1 (some x) acyclic c same =
      rw same (locked-IsAcyclic s.sme_referrer sme x c acyclic)

  with_referrer-IsAcyclic :
      (input : BatchInvoiceInput) (r : Option Address)
      → IsAcyclic s.sme_referrer
      → Ensures (λ p. IsAcyclic p.0.sme_referrer) (mint_invoice_with_referrer env s sme input r)
  unfolding mint_invoice_with_referrer
  with_referrer-IsAcyclic input r acyclic =
      Ensures-bind (λ u. Checked r) _ (check_referrer env s sme r) _
        (λ u c.
          Ensures-map (λ p. SameReferrers s p.0) _ (mint_invoice env s sme input)
            (λ p. (lock_referrer (is_some (s.first_mint sme)) p.0 sme r, p.1))
            (λ p same. lock-IsAcyclic (is_some (s.first_mint sme)) p.0 r acyclic c same)
            (mint_invoice-SameReferrers input))
        (check_referrer-Checked r)

-- Where no address leads to itself by the stored referrers, a mint with a referrer that succeeds,
-- whether it stores the referrer or not, leaves the stored referrers without a cycle.
pub mint_invoice_with_referrer-IsAcyclic :
    (env : Env) (s : NftState) (sme : Address) (input : BatchInvoiceInput) (r : Option Address)
    (s' : NftState) (id : ℕ)
    → IsAcyclic s.sme_referrer
    → mint_invoice_with_referrer env s sme input r ≡ ok (s', id)
    → IsAcyclic s'.sme_referrer
mint_invoice_with_referrer-IsAcyclic env s sme input r s' id acyclic e =
    Ensures-ok (λ p. IsAcyclic p.0.sme_referrer) _
      (with_referrer-IsAcyclic env s sme input r acyclic) e
