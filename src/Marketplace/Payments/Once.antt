-- ===== src/Marketplace/Payments/Once.antt =====
-- A refund is paid once.
use kora_contract.Prelude.{ℕ, ◌≡◌, ap, ◌∙◌, Bool, true, Option, some, List, arith}
use kora_contract.Prelude.Results.{ok, Ensures, Ensures-mono, Ensures-ok}
use kora_contract.Prelude.Store.{update2}
use kora_contract.Shared.Host.{Env, Address}
use kora_contract.Shared.Types.{Listing}
use kora_contract.Marketplace.State.{MarketState, Peers, Protocol}
use kora_contract.Marketplace.Requests.{Request, run}
use kora_contract.Marketplace.Cancellation.{
  mark_listing_expired, check_refund, claim_refund, mark_claimed, contributed_of, pay_back,
}
use kora_contract.Marketplace.Lifecycle.Follows.{Agrees}
use kora_contract.Marketplace.Lifecycle.Refunds.{pay_back-Agrees}
use kora_contract.Marketplace.Lifecycle.History.{run-Follows}
use kora_contract.Marketplace.Payments.Returns.{claim_refund_shape, mark_listing_expired-SameBooks}

marked :
    (g : ℕ → Address → Option Bool) (id : ℕ) (i : Address) → update2 g id i true id i ≡ some true
marked g id i = ground arith

expired_claims :
    (s : MarketState) (id : ℕ) (l : Listing) (i : Address)
    → (mark_listing_expired s id l).refund_claimed id i ≡ s.refund_claimed id i
expired_claims s id l i =
    ap (λ (f : ℕ → Address → Option Bool). f id i) (mark_listing_expired-SameBooks s id l).3

module _ {W : Type 0} (peers : Peers W) (env : Env) where
  claim_refund-marks :
      (x : Protocol W) (i : Address) (id : ℕ)
      → Ensures (λ y. y.market.refund_claimed id i ≡ some true) (claim_refund peers env x i id)
  claim_refund-marks x i id = claim_refund_shape peers env x i id _ (λ q c v e1 e2.
      let y = mark_claimed (record x { market = q.1 }) id i in
      Ensures-mono (λ (w : Protocol W). Agrees y.market w.market) _
        (pay_back peers env y c (q.0) v.debtor_hash id i (contributed_of (q.1) id i))
        (λ w same.
          ap (λ (f : ℕ → Address → Option Bool). f id i) same.1 ∙ marked q.1.refund_claimed id i)
        (pay_back-Agrees peers env y c (q.0) v.debtor_hash id i (contributed_of (q.1) id i)))

  claimed_before :
      (s : MarketState) (id : ℕ) (i : Address)
      → s.refund_claimed id i ≡ some true
      → Ensures (λ q. ⊥) (check_refund env s id i)
  unfolding check_refund
  claimed_before s id i e = grind (arith, e, expired_claims)

  claimed_again :
      (x : Protocol W) (i : Address) (id : ℕ)
      → x.market.refund_claimed id i ≡ some true
      → Ensures (λ y. ⊥) (claim_refund peers env x i id)
  claimed_again x i id e =
      claim_refund_shape peers env x i id (λ y. ⊥)
        (λ q c v e1 e2. absurd (
          Ensures-ok (λ (q : Listing × MarketState). ⊥) (check_refund env x.market id i)
            (claimed_before x.market id i e) e1))

-- After an investor's refund for an invoice was paid, no claim of that investor for that invoice succeeds again,
-- whatever is called in between.
pub claim_refund-claim_refund :
    {W : Type 0} (peers : Peers W) (env env' : Env) (x y z : Protocol W) (i : Address) (id : ℕ)
    (cs : List (Env × Request))
    → claim_refund peers env x i id ≡ ok y
    → ¬ (claim_refund peers env' (run peers y cs) i id ≡ ok z)
claim_refund-claim_refund {W} peers env env' x y z i id cs e e' =
    let now =
      Ensures-ok (λ (y : Protocol W). y.market.refund_claimed id i ≡ some true)
        (claim_refund peers env x i id) (claim_refund-marks peers env x i id) e in
    let later = (run-Follows peers y cs id i).claims now in
    Ensures-ok (λ (y : Protocol W). ⊥) (claim_refund peers env' (run peers y cs) i id)
      (claimed_again peers env' (run peers y cs) i id later) e'
