-- ===== src/ReferralRewards/Solvency.antt =====
-- The money of the referral rewards.
use kora_contract.Prelude.{
  sym, subst, ℕ, ◌+◌, ◌≤◌, ◌<◌, ◌≡◌, ◌≢◌, Bool, true, false, some, arith, is_some,
}
use kora_contract.Prelude.Int.{ℤ, pos, negsuc, pos_part}
use kora_contract.Prelude.Int128.{i128_half}
use kora_contract.Prelude.Results.{Ensures, Ensures-mono, Ensures-ok, ok}
use kora_contract.Prelude.Store.{update}
use kora_contract.Shared.Host.{Env, Address}
use kora_contract.Shared.Token.{Token, IsToken}
use kora_contract.InvoiceNft.State.{NftState}
use kora_contract.ReferralRewards.State.{RewardsState}
use kora_contract.ReferralRewards.Calls.{
  initialize, deposit, claim_referral_reward, pay_reward, eligible_referrer,
}

-- The amounts that the storage holds, and the addresses of the admin and of the token.
pub record Holds (s : RewardsState) (admin token : Address) (bonus allocation funded paid : ℕ)
    : Type 0 where
  pub admin_is : s.admin ≡ some admin
  pub token_is : s.token ≡ some token
  pub bonus_is : s.bonus ≡ some (pos bonus)
  pub allocation_is : s.allocation ≡ some (pos allocation)
  pub funded_is : s.funded ≡ some (pos funded)
  pub paid_is : s.paid ≡ some (pos paid)

-- No more was paid than was deposited, no more was deposited than the allocation, and the contract
-- still holds what was deposited and not paid.
pub record IsSolvent {W : Type 0} (t : Token W) (me : Address) (s : RewardsState) (w : W)
    : Type 0 where
  pub admin : Address
  pub token : Address
  pub bonus : ℕ
  pub allocation : ℕ
  pub funded : ℕ
  pub paid : ℕ
  pub holds : Holds s admin token bonus allocation funded paid
  pub apart : admin ≢ me
  pub positive : 1 ≤ bonus
  pub within : funded ≤ allocation
  pub bounded : allocation < i128_half
  pub covered : paid ≤ funded
  pub backed : funded ≤ t.balance w token me + paid

module _ {W : Type 0} (t : Token W) (law : IsToken t) (env : Env) where
  -- What a deposit has done, apart from the ledger.
  record Deposited (s : RewardsState) (w : W) (admin token : Address)
      (bonus allocation funded paid : ℕ) (n : ℕ) (s' : RewardsState) (w' : W) : Type 0 where
    holds : Holds s' admin token bonus allocation (funded + n) paid
    within : funded + n ≤ allocation
    sent : t.transfer w token admin env.contract (pos n) ≡ some w'

  -- What the payment of one bonus has done, apart from the ledger.
  record Settled (s : RewardsState) (w : W) (sme referrer admin token : Address)
      (bonus allocation funded paid : ℕ) (s' : RewardsState) (w' : W) : Type 0 where
    holds : Holds s' admin token bonus allocation funded (paid + bonus)
    claimed : s'.claimed ≡ update s.claimed sme true
    within : paid + bonus ≤ funded
    sent : t.transfer w token env.contract referrer (pos bonus) ≡ some w'

  abbrev Outcome :
      RewardsState
      → W
      → Address
      → Address
      → Address
      → Address
      → ℕ
      → ℕ
      → ℕ
      → ℕ
      → RewardsState × W × Bool
      → Type 0
  Outcome s w sme referrer admin token bonus allocation funded paid (s', w', false) =
      (s' ≡ s) × (w' ≡ w)
  Outcome s w sme referrer admin token bonus allocation funded paid (s', w', true) =
      Settled s w sme referrer admin token bonus allocation funded paid s' w'

  deposit-Deposited :
      (s : RewardsState) (w : W) (a admin token : Address) (bonus allocation funded paid : ℕ)
      (amount : ℤ)
      → Holds s admin token bonus allocation funded paid
      → allocation < i128_half
      → Ensures
          (λ p. Deposited s w admin token bonus allocation funded paid (pos_part amount) p.0 p.1)
          (deposit t env s w a amount)
  unfolding deposit
  deposit-Deposited s w a admin token bonus allocation funded paid (pos n) h small = ground arith
  deposit-Deposited s w a admin token bonus allocation funded paid (negsuc n) h small = ground arith

  pay_reward-Outcome :
      (s : RewardsState) (w : W) (sme referrer admin token : Address)
      (bonus allocation funded paid : ℕ)
      → Holds s admin token bonus allocation funded paid
      → funded < i128_half
      → paid ≤ funded
      → Ensures
          (Outcome s w sme referrer admin token bonus allocation funded paid)
          (pay_reward t env s w sme referrer)
  unfolding pay_reward
  pay_reward-Outcome s w sme referrer admin token bonus allocation funded paid h small le =
      ground arith

  -- The ledger after a deposit and after a payment backs what is left.
  backed_deposit :
      (w w' : W) (admin token : Address) (n funded paid : ℕ)
      → admin ≢ env.contract
      → t.transfer w token admin env.contract (pos n) ≡ some w'
      → funded ≤ t.balance w token env.contract + paid
      → funded + n ≤ t.balance w' token env.contract + paid
  backed_deposit w w' admin token n funded paid apart sent backed =
      let moved = law.moved w w' token admin env.contract (pos n) sent env.contract in
      ground (arith, moved)

  backed_payment :
      (w w' : W) (referrer token : Address) (bonus funded paid : ℕ)
      → t.transfer w token env.contract referrer (pos bonus) ≡ some w'
      → funded ≤ t.balance w token env.contract + paid
      → funded ≤ t.balance w' token env.contract + (paid + bonus)
  backed_payment w w' referrer token bonus funded paid sent backed =
      let moved = law.moved w w' token env.contract referrer (pos bonus) sent env.contract in
      ground (arith, moved)

  deposit-IsSolvent :
      (s : RewardsState) (w : W) (a : Address) (amount : ℤ)
      → IsSolvent t env.contract s w
      → Ensures (λ p. IsSolvent t env.contract p.0 p.1) (deposit t env s w a amount)
  deposit-IsSolvent s w a amount h =
      Ensures-mono
        (λ p.
          Deposited s w h.admin h.token h.bonus h.allocation h.funded h.paid (pos_part amount) p.0
            p.1)
        _ (deposit t env s w a amount)
        (λ p d. record {
          admin = h.admin;
          token = h.token;
          bonus = h.bonus;
          allocation = h.allocation;
          funded = h.funded + pos_part amount;
          paid = h.paid;
          holds = d.holds;
          apart = h.apart;
          positive = h.positive;
          within = d.within;
          bounded = h.bounded;
          covered = omega (arith, h.covered);
          backed =
              backed_deposit w p.1 h.admin h.token (pos_part amount) h.funded h.paid h.apart d.sent
                h.backed;
        })
        (deposit-Deposited s w a h.admin h.token h.bonus h.allocation h.funded h.paid amount h.holds
          h.bounded)

  Outcome-IsSolvent :
      (s : RewardsState) (w : W) (sme referrer : Address) (h : IsSolvent t env.contract s w)
      (p : RewardsState × W × Bool)
      → Outcome s w sme referrer h.admin h.token h.bonus h.allocation h.funded h.paid p
      → IsSolvent t env.contract p.0 p.1
  Outcome-IsSolvent s w sme referrer h (s', w', false) o = rw (o.0, o.1) h
  Outcome-IsSolvent s w sme referrer h (s', w', true) o = record {
    admin = h.admin;
    token = h.token;
    bonus = h.bonus;
    allocation = h.allocation;
    funded = h.funded;
    paid = h.paid + h.bonus;
    holds = o.holds;
    apart = h.apart;
    positive = h.positive;
    within = h.within;
    bounded = h.bounded;
    covered = o.within;
    backed = backed_payment w w' referrer h.token h.bonus h.funded h.paid o.sent h.backed;
  }

  pay_reward-IsSolvent :
      (s : RewardsState) (w : W) (sme referrer : Address)
      → IsSolvent t env.contract s w
      → Ensures (λ p. IsSolvent t env.contract p.0 p.1) (pay_reward t env s w sme referrer)
  pay_reward-IsSolvent s w sme referrer h =
      Ensures-mono (Outcome s w sme referrer h.admin h.token h.bonus h.allocation h.funded h.paid) _
        (pay_reward t env s w sme referrer) (Outcome-IsSolvent s w sme referrer h)
        (pay_reward-Outcome s w sme referrer h.admin h.token h.bonus h.allocation h.funded h.paid
          h.holds (omega (arith, h.within, h.bounded)) h.covered)

  -- A claim pays nothing, or is the payment to the eligible referrer.
  pub claim_shape :
      (nft : NftState) (s : RewardsState) (w : W) (sme : Address)
      (Q : RewardsState × W × Bool → Type 0)
      → Q (s, w, false)
      → ((r : Address)
          → is_some (s.claimed sme) ≡ false
          → eligible_referrer nft sme ≡ some r
          → Ensures Q (pay_reward t env s w sme r))
      → Ensures Q (claim_referral_reward t env nft s w sme)
  unfolding claim_referral_reward
  claim_shape nft s w sme Q none_paid pays = grind (arith, pays)

  claim_referral_reward-IsSolvent :
      (nft : NftState) (s : RewardsState) (w : W) (sme : Address)
      → IsSolvent t env.contract s w
      → Ensures (λ p. IsSolvent t env.contract p.0 p.1) (claim_referral_reward t env nft s w sme)
  claim_referral_reward-IsSolvent nft s w sme h =
      claim_shape nft s w sme _ h (λ r fresh eligible. pay_reward-IsSolvent s w sme r h)

-- What happens to the contract `me`: its three calls, and whatever moves the tokens of others but not its
-- own, as it has signed nothing else.
pub data Step {W : Type 0} (t : Token W) (me : Address)
    : RewardsState → W → RewardsState → W → Type 0 where
  deposited :
      {s s' : RewardsState} {w w' : W} (env : Env) (a : Address) (amount : ℤ)
      → env.contract ≡ me
      → deposit t env s w a amount ≡ ok (s', w')
      → Step t me s w s' w'
  settled :
      {s s' : RewardsState} {w w' : W} (env : Env) (nft : NftState) (sme : Address) (b : Bool)
      → env.contract ≡ me
      → claim_referral_reward t env nft s w sme ≡ ok (s', w', b)
      → Step t me s w s' w'
  initialized :
      {s s' : RewardsState} {w : W} (env : Env) (a nft_address token : Address)
      (bonus allocation : ℤ)
      → initialize env s a nft_address token bonus allocation ≡ ok s'
      → Step t me s w s' w
  elsewhere :
      {s : RewardsState} {w w' : W}
      → ((k : Address) → t.balance w k me ≤ t.balance w' k me)
      → Step t me s w s w'

pub data Reach {W : Type 0} (t : Token W) (me : Address) (s : RewardsState) (w : W)
    : RewardsState → W → Type 0 where
  here : Reach t me s w s w
  next :
      {s' s'' : RewardsState} {w' w'' : W}
      → Reach t me s w s' w'
      → Step t me s' w' s'' w''
      → Reach t me s w s'' w''

initialize_again :
    (env : Env) (s : RewardsState) (a nft_address token : Address) (bonus allocation : ℤ)
    (admin : Address)
    → s.admin ≡ some admin
    → Ensures (λ s'. ⊥) (initialize env s a nft_address token bonus allocation)
unfolding initialize
initialize_again env s a nft_address token bonus allocation admin e = ground (arith, e)

module _ {W : Type 0} (t : Token W) (law : IsToken t) (me : Address) where
  Step-IsSolvent :
      {s s' : RewardsState} {w w' : W}
      → Step t me s w s' w'
      → IsSolvent t me s w
      → IsSolvent t me s' w'
  Step-IsSolvent {s} {s'} {w} {w'} (deposited env a amount e d) h =
      subst (λ x. IsSolvent t x s' w') e
        (Ensures-ok (λ p. IsSolvent t env.contract p.0 p.1) _
          (deposit-IsSolvent t law env s w a amount (subst (λ x. IsSolvent t x s w) (sym e) h)) d)
  Step-IsSolvent {s} {s'} {w} {w'} (settled env nft sme b e c) h =
      subst (λ x. IsSolvent t x s' w') e
        (Ensures-ok (λ p. IsSolvent t env.contract p.0 p.1) _
          (claim_referral_reward-IsSolvent t law env nft s w sme
            (subst (λ x. IsSolvent t x s w) (sym e) h))
          c)
  Step-IsSolvent {s} {s'} {w} {w'} (initialized env a nft_address token bonus allocation e) h =
      absurd (
        Ensures-ok (λ (s : RewardsState). ⊥) (initialize env s a nft_address token bonus allocation)
          (initialize_again env s a nft_address token bonus allocation h.admin h.holds.admin_is) e)
  Step-IsSolvent (elsewhere more) h = record {
    admin = h.admin;
    token = h.token;
    bonus = h.bonus;
    allocation = h.allocation;
    funded = h.funded;
    paid = h.paid;
    holds = h.holds;
    apart = h.apart;
    positive = h.positive;
    within = h.within;
    bounded = h.bounded;
    covered = h.covered;
    backed = omega (arith, more h.token, h.backed);
  }

-- For tokens that move what they are asked to and no more: where the rewards contract has paid no more
-- than was deposited, has taken no more than its allocation and still holds the difference, it does so
-- after any sequence of its calls and of transfers elsewhere that leave its own balances.
pub Reach-IsSolvent :
    {W : Type 0} (t : Token W) (law : IsToken t) (me : Address) {s : RewardsState} {w : W}
    {s' : RewardsState} {w' : W}
    → Reach t me s w s' w'
    → IsSolvent t me s w
    → IsSolvent t me s' w'
Reach-IsSolvent t law me here h = h
Reach-IsSolvent t law me (next r st) h = Step-IsSolvent t law me st (Reach-IsSolvent t law me r h)
