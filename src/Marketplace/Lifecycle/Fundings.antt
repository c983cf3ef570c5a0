-- ===== src/Marketplace/Lifecycle/Fundings.antt =====
-- A funding, single or in a batch, moves a listing along its edges.
use kora_contract.Prelude.{
  ℕ, ◌≡◌, refl, ap, ◌∙◌, Bool, true, false, Option, none, some, List, [], ◌∷◌, ◌++◌, arith,
}
use kora_contract.Prelude.Int.{ℤ, pos}
use kora_contract.Prelude.Results.{
  Result, ok, err, trap, Ensures, Ensures-mono, Ensures-ok, ◌>>=◌, lift_err,
}
use kora_contract.Shared.Host.{Env, Address}
use kora_contract.Shared.Errors.{KoraError}
use kora_contract.Shared.Types.{Listing, Invoice}
use kora_contract.Marketplace.State.{
  MarketState, MarketplaceConfig, Peers, Protocol, Call, BatchAllocationResult,
}
use kora_contract.Marketplace.Guards.{acquire_guard, release_guard}
use kora_contract.Marketplace.Listing.{load_active}
use kora_contract.Marketplace.Funding.{
  Allocation, check_funding, allocate, enter_investor, store_funding, settle, fund_invoice_internal,
  fund_invoice, fund_each, fund_invoices_batch, leaving, unlocked, funded_result, failed_result,
}
use kora_contract.Marketplace.Lifecycle.{◌<ℤ◌}
use kora_contract.Marketplace.Lifecycle.Follows.{
  Follows, Follows-refl, Follows-trans, Agrees, Agrees-Follows, Puts-Follows,
}
use kora_contract.Marketplace.Lifecycle.Listings.{load_active_lem}
use kora_contract.Marketplace.Lifecycle.Allocations.{Grows, allocate-Grows, check_funding_shape}
use kora_contract.Marketplace.Lifecycle.Books.{store_funding-Puts, enter_investor-Agrees}

-- What a call leaves behind, whether it succeeds or fails.
abbrev pub Leaves :
    {W : Type 0} → (MarketState → Type 0) → Result (KoraError × MarketState) (Protocol W) → Type 0
Leaves P (ok y) = P y.market
Leaves P (err e) = P e.1
Leaves P trap = Unit

module _ {W : Type 0} (peers : Peers W) (env : Env) where
  pub settle-market :
      (x : Protocol W) (i : Address) (id : ℕ) (a : Allocation)
      → Ensures (λ y. y.market ≡ store_funding x.market id i a) (settle peers env x i id a)
  unfolding settle
  settle-market x i id a = grind arith

  module _ (j : ℕ) (h : Address) where
    leaving-Leaves :
        {A : Type 0} (s s' : MarketState) (m : Call A)
        (f : A → Result (KoraError × MarketState) (Protocol W))
        → Follows s j h s'
        → ((v : A) → m ≡ ok v → Leaves (λ z. Follows s j h z) (f v))
        → Leaves (λ z. Follows s j h z) (leaving s' m >>= f)
    leaving-Leaves s s' (ok v) f same go = go v refl
    leaving-Leaves s s' (err e) f same go = same
    leaving-Leaves s s' trap f same go = tt

    Ensures-Leaves :
        (s s' : MarketState) (m : Call (Protocol W))
        → Follows s j h s'
        → Ensures (λ y. Follows s j h y.market) m
        → Leaves (λ z. Follows s j h z) (leaving s' m)
    Ensures-Leaves s s' (ok y) same e = e
    Ensures-Leaves s s' (err e') same e = same
    Ensures-Leaves s s' trap same e = tt

    -- The books of an allocation that was computed.
    allocated-Follows :
        (x : Protocol W) (i : Address) (id : ℕ) (n : ℤ) (k : Option Address)
        (q : Listing × MarketplaceConfig × Invoice) (a : Allocation) (s : MarketState)
        → check_funding peers env x.market x.nft i id n ≡ ok q
        → allocate peers env x i id n k q ≡ ok a
        → Agrees x.market s
        → Follows s j h (store_funding s id i a)
    allocated-Follows x i id n k q a s e e' same =
        let checked =
          Ensures-ok
            (λ (q : Listing × MarketplaceConfig × Invoice).
              (pos 0 <ℤ n) × (load_active x.market id ≡ ok (q.0)))
            _
            (check_funding_shape peers env x.market x.nft i id n _
              (λ l c v lt loaded conf. (lt, loaded)))
            e in
        let was =
          Ensures-ok (λ l. (x.market.listing id ≡ some l) × (l.is_active ≡ true)) _
            (load_active_lem x.market id) checked.1 in
        let grows =
          Ensures-ok (Grows (q.0)) (allocate peers env x i id n k q)
            (allocate-Grows peers env x i id n k q.0 q.1 q.2 checked.0) e' in
        Puts-Follows s id _ j h (
          store_funding-Puts s id i q.0 a
            (ap (λ (f : ℕ → Option Listing). f id) same.0 ∙ was.0, was.1) grows)

    pub fund_invoice_internal-Follows :
        (x : Protocol W) (i : Address) (id : ℕ) (n : ℤ) (k : Option Address)
        → Leaves (λ z. Follows x.market j h z) (fund_invoice_internal peers env x i id n k)
    unfolding fund_invoice_internal
    fund_invoice_internal-Follows x i id n k =
        leaving-Leaves x.market x.market (check_funding peers env x.market x.nft i id n) _
          (Follows-refl x.market j h)
          (λ q e.
            leaving-Leaves x.market x.market (allocate peers env x i id n k q) _
              (Follows-refl x.market j h)
              (λ a e'.
                let entered = enter_investor x.market id i a.prev_contrib in
                let same = enter_investor-Agrees x.market id i a.prev_contrib in
                let first = Agrees-Follows x.market j h entered same in
                Ensures-Leaves x.market entered
                  (settle peers env (record x { market = entered }) i id a) first
                  (Ensures-mono (λ (y : Protocol W). y.market ≡ store_funding entered id i a) _ _
                    (λ y stored.
                      Follows-trans x.market j h entered y.market first
                        (rw stored (allocated-Follows x i id n k q a entered e e' same)))
                    (settle-market (record x { market = entered }) i id a))))

    -- The lock is not among what is followed.
    unlocked-Follows :
        (s : MarketState) (y : Protocol W)
        → Follows s j h y.market
        → Follows s j h (unlocked y).market
    unfolding release_guard
    unlocked-Follows s y f =
        Follows-trans s j h y.market _ f (Agrees-Follows y.market j h _ (refl, refl))

    locked-Follows :
        (x : Protocol W) (s' : MarketState)
        → Follows (record (x.market) { locked = true }) j h s'
        → Follows x.market j h s'
    locked-Follows x s' f =
        Follows-trans x.market j h (record (x.market) { locked = true }) s'
          (Agrees-Follows x.market j h (record (x.market) { locked = true }) (refl, refl)) f

    Leaves-Ensures :
        (s : MarketState) (m : Result (KoraError × MarketState) (Protocol W))
        → Leaves (λ z. Follows s j h z) m
        → Ensures (λ y. Follows s j h y.market) (lift_err (λ e. e.0) m)
    Leaves-Ensures s (ok y) f = f
    Leaves-Ensures s (err e) f = tt
    Leaves-Ensures s trap f = tt

    fund_invoice_shape :
        (x : Protocol W) (i : Address) (id : ℕ) (n : ℤ) (k : Option Address)
        (Q : Protocol W → Type 0)
        → Ensures
            (λ y. Q (unlocked y))
            (lift_err
              (λ e. e.0)
              (fund_invoice_internal peers env
                (record x { market = record (x.market) { locked = true } })
                i
                id
                n
                k))
        → Ensures Q (fund_invoice peers env x i id n k)
    unfolding fund_invoice acquire_guard
    fund_invoice_shape x i id n k Q e = grind (arith, e)

    pub fund_invoice-Follows :
        (x : Protocol W) (i : Address) (id : ℕ) (n : ℤ) (k : Option Address)
        → Ensures (λ y. Follows x.market j h y.market) (fund_invoice peers env x i id n k)
    fund_invoice-Follows x i id n k =
        let x1 = record x { market = record (x.market) { locked = true } } in
        fund_invoice_shape x i id n k _ (
          Ensures-mono (λ (y : Protocol W). Follows x1.market j h y.market) _ _
            (λ y f. unlocked-Follows x.market y (locked-Follows x y.market f))
            (Leaves-Ensures x1.market _ (fund_invoice_internal-Follows x1 i id n k)))

    each_step :
        (x : Protocol W) (atomic : Bool) (m : Result (KoraError × MarketState) (Protocol W))
        (f : Protocol W → Call (Protocol W × List BatchAllocationResult))
        (g : KoraError × MarketState → Call (Protocol W × List BatchAllocationResult))
        → Leaves (λ z. Follows x.market j h z) m
        → ((y : Protocol W) → Ensures (λ q. Follows y.market j h q.0.market) (f y))
        → ((e : KoraError × MarketState) → Ensures (λ q. Follows e.1 j h q.0.market) (g e))
        → Ensures
            (λ q. Follows x.market j h q.0.market)
            (elim m as (λ x'. Call (Protocol W × List BatchAllocationResult)) [
              | ok y ↦ f y
              | err e ↦ elim atomic as (λ x''. Call (Protocol W × List BatchAllocationResult)) [
                | true ↦ err (e.0)
                | false ↦ g e
              ]
              | trap ↦ trap
            ])
    each_step x atomic (ok y) f g first after_ok after_err =
        Ensures-mono
          (λ (q : Protocol W × List BatchAllocationResult). Follows y.market j h q.0.market) _ (f y)
          (λ q more. Follows-trans x.market j h y.market q.0.market first more) (after_ok y)
    each_step x true (err e) f g first after_ok after_err = tt
    each_step x false (err e) f g first after_ok after_err =
        Ensures-mono (λ (q : Protocol W × List BatchAllocationResult). Follows e.1 j h q.0.market) _
          (g e) (λ q more. Follows-trans x.market j h e.1 q.0.market first more) (after_err e)
    each_step x atomic trap f g first after_ok after_err = tt

    -- Each allocation starts from what the one before it left.
    fund_each-Follows :
        (x : Protocol W) (i : Address) (atomic : Bool) (l : List (ℕ × ℤ))
        (rs : List BatchAllocationResult)
        → Ensures (λ q. Follows x.market j h q.0.market) (fund_each peers env x i atomic l rs)
    unfolding fund_each
    fund_each-Follows x i atomic [] rs = Follows-refl x.market j h
    fund_each-Follows x i atomic ((id, n) ∷ l) rs =
        each_step x atomic (fund_invoice_internal peers env x i id n none) _ _
          (fund_invoice_internal-Follows x i id n none)
          (λ y. fund_each-Follows y i atomic l (rs ++ funded_result id ∷ []))
          (λ e.
            fund_each-Follows (record x { market = e.1 }) i false l
              (rs ++ failed_result id e.0 ∷ []))

    fund_invoices_batch_shape :
        (x : Protocol W) (i : Address) (l : List (ℕ × ℤ)) (atomic : Bool)
        (Q : Protocol W × List BatchAllocationResult → Type 0)
        → Ensures
            (λ q. Q (unlocked q.0, q.1))
            (fund_each peers env
              (record x { market = record (x.market) { locked = true } })
              i
              atomic
              l
              [])
        → Ensures Q (fund_invoices_batch peers env x i l atomic)
    unfolding fund_invoices_batch acquire_guard
    fund_invoices_batch_shape x i l atomic Q e = grind (arith, e)

    pub fund_invoices_batch-Follows :
        (x : Protocol W) (i : Address) (l : List (ℕ × ℤ)) (atomic : Bool)
        → Ensures
            (λ q. Follows x.market j h q.0.market)
            (fund_invoices_batch peers env x i l atomic)
    fund_invoices_batch-Follows x i l atomic =
        let x1 = record x { market = record (x.market) { locked = true } } in
        fund_invoices_batch_shape x i l atomic _ (
          Ensures-mono
            (λ (q : Protocol W × List BatchAllocationResult). Follows x1.market j h q.0.market) _ _
            (λ q f. unlocked-Follows x.market q.0 (locked-Follows x q.0.market f))
            (fund_each-Follows x1 i atomic l []))
