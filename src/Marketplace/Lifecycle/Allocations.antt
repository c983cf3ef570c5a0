-- ===== src/Marketplace/Lifecycle/Allocations.antt =====
-- The checks and the computation of a funding (check_funding and allocate): what is funded grows, within the price.
use kora_contract.Prelude.{
  ℕ, zero, suc, ◌≡◌, refl, Bool, true, false, Option, some, ◌==◌, arith, unwrap_or,
}
use kora_contract.Prelude.Int.{ℤ, pos, negsuc, ltb_ℤ, ◌≤ℤ◌}
use kora_contract.Prelude.Int128.{checked_sub}
use kora_contract.Prelude.Results.{
  ok, Ensures, Ensures-step, lift_err, lift_err-ok, ok_or, ok_or-ok, refuse_if, refuse_if-ok,
}
use kora_contract.Shared.Host.{Env, Address}
use kora_contract.Shared.Errors.{KoraError, kora_error}
use kora_contract.Shared.Types.{Listing, Invoice}
use kora_contract.Shared.Validation.{safe_add, safe_sub, safe_div, require_non_zero_amount}
use kora_contract.Shared.Decimals.{bps_of_normalized}
use kora_contract.InvoiceNft.State.{NftState}
use kora_contract.Marketplace.State.{MarketState, MarketplaceConfig, Peers, Protocol}
use kora_contract.Marketplace.Guards.{load_config}
use kora_contract.Marketplace.Listing.{load_active}
use kora_contract.Marketplace.Funding.{
  Allocation, listing_amount_of, effective_fee_bps, split_payment, check_funding, allocate,
}
use kora_contract.Marketplace.Lifecycle.{◌<ℤ◌}

module _ {W : Type 0} (peers : Peers W) (env : Env) where
  pub allocate_shape :
      (x : Protocol W) (i : Address) (id : ℕ) (n : ℤ) (k : Option Address) (l : Listing)
      (c : MarketplaceConfig) (v : Invoice) (Q : Allocation → Type 0)
      → ((a : Allocation) (r fee net : ℤ) (fee_bps : ℕ)
          → a.listing ≡ l
          → a.config ≡ c
          → a.pay_token ≡ unwrap_or k l.token
          → listing_amount_of peers env x.market x.pool n (unwrap_or k l.token) l.token
            ≡ ok a.listing_amount
          → safe_sub l.asking_price l.funded_amount ≡ ok r
          → ltb_ℤ r a.listing_amount ≡ false
          → effective_fee_bps peers env x.market x.ledger c v ≡ ok fee_bps
          → bps_of_normalized a.listing_amount fee_bps (peers.pool.token.decimals l.token) ≡ ok fee
          → checked_sub a.listing_amount fee ≡ some net
          → split_payment (unwrap_or k l.token == l.token) n a.listing_amount fee net
            ≡ ok (a.pay_fee, a.pay_net)
          → safe_add l.funded_amount a.listing_amount ≡ ok a.funded_after
          → safe_add (unwrap_or (x.market.contribution id i) (pos 0)) net ≡ ok a.contrib_after
          → safe_add (unwrap_or (x.market.fee_contribution id i) (pos 0)) fee ≡ ok a.fee_after
          → Q a)
      → Ensures Q (allocate peers env x i id n k (l, c, v))
  unfolding allocate
  allocate_shape x i id n k l c v Q h =
      let pay_token = unwrap_or k l.token in
      let s = x.market in
      let d = peers.pool.token.decimals l.token in
      Ensures-step Q (listing_amount_of peers env s x.pool n pay_token l.token) _ (λ la e1.
        Ensures-step Q (lift_err kora_error (safe_sub l.asking_price l.funded_amount)) _ (λ r e2.
          Ensures-step Q (refuse_if (ltb_ℤ r la) KoraError.exceeds_funding_target) _ (λ u3 e3.
            Ensures-step Q (peers.check_debtor_cap x.ledger v.debtor_hash la) _ (λ u4 e4.
              Ensures-step Q (effective_fee_bps peers env s x.ledger c v) _ (λ b e5.
                Ensures-step Q (lift_err kora_error (bps_of_normalized la b d)) _ (λ fee e6.
                  Ensures-step Q (ok_or (checked_sub la fee) KoraError.arithmetic_overflow) _
                    (λ net e7.
                      Ensures-step Q (split_payment (pay_token == l.token) n la fee net) _ (λ q e8.
                        Ensures-step Q (lift_err kora_error (safe_add l.funded_amount la)) _
                          (λ fa e9.
                            Ensures-step Q
                              (lift_err kora_error
                                (safe_add (unwrap_or (s.contribution id i) (pos 0)) net))
                              _
                              (λ ca e10.
                                Ensures-step Q
                                  (lift_err kora_error
                                    (safe_add (unwrap_or (s.fee_contribution id i) (pos 0)) fee))
                                  _
                                  (λ fe e11.
                                    h _ r fee net b refl refl refl e1
                                      (lift_err-ok kora_error
                                        (safe_sub l.asking_price l.funded_amount) e2)
                                      (refuse_if-ok (ltb_ℤ r la) KoraError.exceeds_funding_target
                                        e3)
                                      e5 (lift_err-ok kora_error (bps_of_normalized la b d) e6)
                                      (ok_or-ok (checked_sub la fee) KoraError.arithmetic_overflow
                                        e7)
                                      e8 (lift_err-ok kora_error (safe_add l.funded_amount la) e9)
                                      (lift_err-ok kora_error
                                        (safe_add (unwrap_or (s.contribution id i) (pos 0)) net)
                                        e10)
                                      (lift_err-ok kora_error
                                        (safe_add (unwrap_or (s.fee_contribution id i) (pos 0)) fee)
                                        e11))))))))))))

-- What is funded grows and stays within the price.
pub record Grows (l : Listing) (a : Allocation) : Type 0 where
  pub listing : a.listing ≡ l
  pub more : l.funded_amount <ℤ a.funded_after
  pub fits : a.funded_after ≤ℤ l.asking_price

sum_fits :
    (f p n r g : ℤ)
    → pos 0 <ℤ n
    → safe_sub p f ≡ ok r
    → ltb_ℤ r n ≡ false
    → safe_add f n ≡ ok g
    → (f <ℤ g) × (g ≤ℤ p)
unfolding safe_sub safe_add
sum_fits (pos f) (pos p) (pos n) r g lt e1 e2 e3 = ground (arith, e1, e2, e3)
sum_fits (pos f) (negsuc p) (pos n) r g lt e1 e2 e3 = ground (arith, e1, e2, e3)
sum_fits (negsuc f) (pos p) (pos n) r g lt e1 e2 e3 = ground (arith, e1, e2, e3)
sum_fits (negsuc f) (negsuc p) (pos n) r g lt e1 e2 e3 = ground (arith, e1, e2, e3)
sum_fits f p (negsuc n) r g lt e1 e2 e3 = absurd (omega (arith, lt))

-- What is paid in another token counts, if the split of the payment succeeds.
pub split_payment-pos :
    (same : Bool) (n la fee net : ℤ) (q : ℤ × ℤ) (b d : ℕ)
    → (same ≡ true → la ≡ n)
    → pos 0 <ℤ n
    → bps_of_normalized la b d ≡ ok fee
    → split_payment same n la fee net ≡ ok q
    → pos 0 <ℤ la
unfolding split_payment bps_of_normalized safe_div
split_payment-pos true n la fee net q b d h lt e e' = rw (h refl) lt
split_payment-pos false n (pos zero) fee net q b d h lt e e' = ground (arith, e')
split_payment-pos false n (pos (suc la)) fee net q b d h lt e e' = omega arith
split_payment-pos false n (negsuc la) fee net q b d h lt e e' = ground (arith, e)

pub listing_amount_of-same :
    {W : Type 0} (peers : Peers W) (env : Env) (x : Protocol W) (n la : ℤ) (k t : Address)
    → listing_amount_of peers env x.market x.pool n k t ≡ ok la
    → (k == t) ≡ true
    → la ≡ n
unfolding listing_amount_of
listing_amount_of-same peers env x n la k t e same = ground (arith, e, same)

-- Something is paid.
non_zero : (n : ℤ) → Ensures (λ u. pos 0 <ℤ n) (require_non_zero_amount n)
unfolding require_non_zero_amount
non_zero (pos n) = grind arith
non_zero (negsuc n) = grind arith

module _ {W : Type 0} (peers : Peers W) (env : Env) where
  pub allocate-Grows :
      (x : Protocol W) (i : Address) (id : ℕ) (n : ℤ) (k : Option Address) (l : Listing)
      (c : MarketplaceConfig) (v : Invoice)
      → pos 0 <ℤ n
      → Ensures (Grows l) (allocate peers env x i id n k (l, c, v))
  allocate-Grows x i id n k l c v lt =
      allocate_shape peers env x i id n k l c v (Grows l)
        (λ a r fee net b el ec ek e1 e2 e3 e4 e5 e6 e7 e8 e9 e10.
          let counts =
            split_payment-pos (unwrap_or k l.token == l.token) n a.listing_amount fee net _ b
              (peers.pool.token.decimals l.token)
              (listing_amount_of-same peers env x n a.listing_amount (unwrap_or k l.token) l.token
                e1)
              lt e5 e7 in
          let sum =
            sum_fits l.funded_amount l.asking_price a.listing_amount r a.funded_after counts e2 e3
              e8 in
          record { listing = el; more = sum.0; fits = sum.1 })

  pub check_funding_shape :
      (s : MarketState) (nft : NftState) (i : Address) (id : ℕ) (n : ℤ)
      (Q : Listing × MarketplaceConfig × Invoice → Type 0)
      → ((l : Listing) (c : MarketplaceConfig) (v : Invoice)
          → pos 0 <ℤ n
          → load_active s id ≡ ok l
          → load_config s ≡ ok c
          → Q (l, c, v))
      → Ensures Q (check_funding peers env s nft i id n)
  unfolding check_funding
  check_funding_shape s nft i id n Q h = grind (arith, h, non_zero)
