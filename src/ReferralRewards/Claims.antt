-- ===== src/ReferralRewards/Claims.antt =====
-- Who is paid a bonus, and how often.
use kora_contract.Prelude.{
  ℕ, ◌+◌, ◌≤◌, ◌<◌, ◌≡◌, refl, ◌≢◌, true, false, is_some, none, some, arith, unwrap_or, inl, inr,
}
use kora_contract.Prelude.Int.{ℤ, pos}
use kora_contract.Prelude.Int128.{i128_half}
use kora_contract.Prelude.Results.{
  option_cases, answer, answer-some, Ensures, Ensures-mono, Ensures-ok, ok,
}
use kora_contract.Prelude.Store.{update}
use kora_contract.Shared.Host.{Env, Address}
use kora_contract.Shared.Types.{Invoice, repaid}
use kora_contract.Shared.Token.{Token, IsToken}
use kora_contract.InvoiceNft.State.{NftState}
use kora_contract.InvoiceNft.Views.{get_invoice, get_sme_referrer, get_first_mint}
use kora_contract.ReferralRewards.State.{RewardsState}
use kora_contract.ReferralRewards.Calls.{
  initialize, deposit, claim_referral_reward, pay_reward, eligible_referrer, has_claimed,
}
use kora_contract.ReferralRewards.Solvency.{claim_shape, Holds, Step, Reach}

-- The first invoice of the SME is repaid, and the referrer that the invoice contract has locked for it
-- is another address.
pub record IsEligible (nft : NftState) (sme referrer : Address) : Type 0 where
  pub first : ℕ
  pub locked : nft.sme_referrer sme ≡ some referrer
  pub another : referrer ≢ sme
  pub minted : nft.first_mint sme ≡ some first
  pub invoice : Invoice
  pub answered : get_invoice nft first ≡ ok invoice
  pub of_sme : invoice.sme ≡ sme
  pub settled : invoice.status ≡ repaid

eligible_referrer-IsEligible :
    (nft : NftState) (sme r : Address) → eligible_referrer nft sme ≡ some r → IsEligible nft sme r
unfolding eligible_referrer get_sme_referrer get_first_mint
eligible_referrer-IsEligible nft sme r e = elim (option_cases (nft.first_mint sme)) [
  | inl n ↦ absurd (ground (arith, n, e))
  | inr (first, f) ↦ elim (option_cases (answer (get_invoice nft first))) [
    | inl n ↦ absurd (ground (arith, n, f, e))
    | inr (invoice, g) ↦ record {
      first = first;
      locked = ground (arith, e, f, g);
      another = ground (arith, e, f, g);
      minted = f;
      invoice = invoice;
      answered = answer-some (get_invoice nft first) invoice g;
      of_sme = ground (arith, e, f, g);
      settled = ground (arith, e, f, g);
    }
  ]
]

-- A bonus was paid for this SME.
pub record IsPaid {W : Type 0} (t : Token W) (me : Address) (nft : NftState) (s : RewardsState)
    (w : W) (sme : Address) (s' : RewardsState) (w' : W) : Type 0 where
  pub referrer : Address
  pub token : Address
  pub bonus : ℤ
  pub eligible : IsEligible nft sme referrer
  pub bonus_is : s.bonus ≡ some bonus
  pub token_is : s.token ≡ some token
  pub fresh : has_claimed s sme ≡ false
  pub marked : s'.claimed ≡ update s.claimed sme true
  pub sent : t.transfer w token me referrer bonus ≡ some w'

eligible_referrer-pays :
    (nft : NftState) (sme r : Address) → IsEligible nft sme r → eligible_referrer nft sme ≡ some r
unfolding eligible_referrer get_sme_referrer get_first_mint
eligible_referrer-pays nft sme r h =
    ground (arith, h.locked, h.minted, h.answered, h.another, h.of_sme, h.settled)

module _ {W : Type 0} (t : Token W) (law : IsToken t) (env : Env) where
  record Sent (s : RewardsState) (w : W) (sme r : Address) (s' : RewardsState) (w' : W)
      : Type 0 where
    bonus_is : s.bonus ≡ some (unwrap_or s.bonus (pos 0))
    token_is : s.token ≡ some (unwrap_or s.token 0)
    marked : s'.claimed ≡ update s.claimed sme true
    sent : t.transfer w (unwrap_or s.token 0) env.contract r (unwrap_or s.bonus (pos 0)) ≡ some w'

  pay_reward-Sent :
      (s : RewardsState) (w : W) (sme r : Address)
      → Ensures (λ p. p.2 ≡ true → Sent s w sme r p.0 p.1) (pay_reward t env s w sme r)
  unfolding pay_reward
  pay_reward-Sent s w sme r = ground arith

  claim_referral_reward-Sent :
      (nft : NftState) (s : RewardsState) (w : W) (sme : Address)
      → Ensures
          (λ p. p.2 ≡ true → IsPaid t env.contract nft s w sme p.0 p.1)
          (claim_referral_reward t env nft s w sme)
  unfolding has_claimed
  claim_referral_reward-Sent nft s w sme =
      claim_shape t law env nft s w sme _ (λ e. cc (e))
        (λ r fresh e.
          Ensures-mono (λ p. p.2 ≡ true → Sent s w sme r p.0 p.1) _ (pay_reward t env s w sme r)
            (λ p h paid.
              let d = h paid in
              record {
                referrer = r;
                token = unwrap_or s.token 0;
                bonus = unwrap_or s.bonus (pos 0);
                eligible = eligible_referrer-IsEligible nft sme r e;
                bonus_is = d.bonus_is;
                token_is = d.token_is;
                fresh = fresh;
                marked = d.marked;
                sent = d.sent;
              })
            (pay_reward-Sent s w sme r))

-- A claim that returns `true` has sent the bonus of the storage, in the token of the storage, from the
-- contract to the referrer that the invoice contract has locked for the SME, who is not the SME itself;
-- the first invoice of the SME is repaid; no bonus was paid for the SME before, and the SME is marked.
pub claim_referral_reward-IsPaid :
    {W : Type 0} (t : Token W) (law : IsToken t) (env : Env) (nft : NftState) (s s' : RewardsState)
    (w w' : W) (sme : Address)
    → claim_referral_reward t env nft s w sme ≡ ok (s', w', true)
    → IsPaid t env.contract nft s w sme s' w'
claim_referral_reward-IsPaid t law env nft s s' w w' sme e =
    Ensures-ok (λ p. p.2 ≡ true → IsPaid t env.contract nft s w sme p.0 p.1) _
      (claim_referral_reward-Sent t law env nft s w sme) e refl

-- A bonus was paid for the SME, by a contract that is configured.
record IsMarked (sme : Address) (s : RewardsState) : Type 0 where
  configured : is_some s.invoice_nft ≡ true
  marked : is_some (s.claimed sme) ≡ true

initialize-IsMarked :
    (env : Env) (s : RewardsState) (a nft_address token : Address) (bonus allocation : ℤ)
    (sme : Address)
    → IsMarked sme s
    → Ensures (IsMarked sme) (initialize env s a nft_address token bonus allocation)
unfolding initialize
initialize-IsMarked env s a nft_address token bonus allocation sme h =
    ground (arith, h.configured, h.marked)

module _ {W : Type 0} (t : Token W) (env : Env) (sme : Address) where
  deposit-IsMarked :
      (s : RewardsState) (w : W) (a : Address) (amount : ℤ)
      → IsMarked sme s
      → Ensures (λ p. IsMarked sme p.0) (deposit t env s w a amount)
  unfolding deposit
  deposit-IsMarked s w a amount h = ground (arith, h.configured, h.marked)

  pay_reward-IsMarked :
      (s : RewardsState) (w : W) (other r : Address)
      → IsMarked sme s
      → Ensures (λ p. IsMarked sme p.0) (pay_reward t env s w other r)
  unfolding pay_reward
  pay_reward-IsMarked s w other r h = ground (arith, h.configured, h.marked)

  claim_referral_reward-IsMarked :
      (law : IsToken t) (nft : NftState) (s : RewardsState) (w : W) (other : Address)
      → IsMarked sme s
      → Ensures (λ p. IsMarked sme p.0) (claim_referral_reward t env nft s w other)
  claim_referral_reward-IsMarked law nft s w other h =
      claim_shape t law env nft s w other _ h (λ r fresh e. pay_reward-IsMarked s w other r h)

  -- The mark that a paid claim leaves.
  claim_referral_reward-marks :
      (nft : NftState) (s : RewardsState) (w : W)
      → Ensures (λ p. p.2 ≡ true → IsMarked sme p.0) (claim_referral_reward t env nft s w sme)
  unfolding claim_referral_reward pay_reward
  claim_referral_reward-marks nft s w = grind arith

  claimed_again :
      (nft : NftState) (s : RewardsState) (w : W)
      → IsMarked sme s
      → claim_referral_reward t env nft s w sme ≡ ok (s, w, false)
  unfolding claim_referral_reward
  claimed_again nft s w h = ground (arith, h.configured, h.marked)

module _ {W : Type 0} (t : Token W) (law : IsToken t) (me sme : Address) where
  Step-IsMarked :
      {s s' : RewardsState} {w w' : W} → Step t me s w s' w' → IsMarked sme s → IsMarked sme s'
  Step-IsMarked {s} {s'} {w} {w'} (Step.deposited env a amount e d) h =
      Ensures-ok (λ p. IsMarked sme p.0) (deposit t env s w a amount)
        (deposit-IsMarked t env sme s w a amount h) d
  Step-IsMarked {s} {s'} {w} {w'} (Step.settled env nft other b e c) h =
      Ensures-ok (λ p. IsMarked sme p.0) (claim_referral_reward t env nft s w other)
        (claim_referral_reward-IsMarked t env sme law nft s w other h) c
  Step-IsMarked {s} (Step.initialized env a nft_address token bonus allocation e) h =
      Ensures-ok (IsMarked sme) (initialize env s a nft_address token bonus allocation)
        (initialize-IsMarked env s a nft_address token bonus allocation sme h) e
  Step-IsMarked (Step.elsewhere more) h = h

  Reach-IsMarked :
      {s : RewardsState} {w : W} {s' : RewardsState} {w' : W}
      → Reach t me s w s' w'
      → IsMarked sme s
      → IsMarked sme s'
  Reach-IsMarked Reach.here h = h
  Reach-IsMarked (Reach.next r st) h = Step-IsMarked st (Reach-IsMarked r h)

-- After a claim that returned `true`, and after any further sequence of the contract's calls and of transfers elsewhere,
-- every claim for the SME, by whichever environment and state of the invoice contract, pays nothing,
-- changes nothing and returns `false`.
pub claim_referral_reward-claim_referral_reward :
    {W : Type 0} (t : Token W) (law : IsToken t) (env env' : Env) (nft nft' : NftState)
    (s s' s'' : RewardsState) (w w' v : W) (sme : Address)
    → claim_referral_reward t env nft s w sme ≡ ok (s', w', true)
    → Reach t env.contract s' w' s'' v
    → claim_referral_reward t env' nft' s'' v sme ≡ ok (s'', v, false)
claim_referral_reward-claim_referral_reward t law env env' nft nft' s s' s'' w w' v sme e reach =
    let now =
      Ensures-ok (λ p. p.2 ≡ true → IsMarked sme p.0) (claim_referral_reward t env nft s w sme)
        (claim_referral_reward-marks t env sme nft s w) e refl in
    claimed_again t env' sme nft' s'' v (Reach-IsMarked t law env.contract sme reach now)

-- Where the contract is initialized, no bonus was paid for the SME, its referrer is eligible, the
-- deposits leave a bonus, the contract holds one and the token's transfer of it succeeds, the claim pays: it returns
-- `true` with the ledger of that transfer, and the paid total has grown by the bonus.
pub claim_referral_reward-pays :
    {W : Type 0} (t : Token W) (law : IsToken t) (env : Env) (nft : NftState) (s : RewardsState)
    (w w' : W) (sme referrer admin token nft_address : Address) (bonus allocation funded paid : ℕ)
    → Holds s admin token bonus allocation funded paid
    → s.invoice_nft ≡ some nft_address
    → funded < i128_half
    → paid + bonus ≤ funded
    → bonus ≤ t.balance w token env.contract
    → IsEligible nft sme referrer
    → s.claimed sme ≡ none
    → t.transfer w token env.contract referrer (pos bonus) ≡ some w'
    → claim_referral_reward t env nft s w sme
      ≡ ok (
        record s { claimed = update s.claimed sme true; paid = some (pos (paid + bonus)) },
        w',
        true,
      )
unfolding claim_referral_reward pay_reward
claim_referral_reward-pays t law env nft s w w' sme referrer admin token a bonus allocation funded
      paid h i small enough held el fresh sent =
    let eligible = eligible_referrer-pays nft sme referrer el in ground (arith, eligible, i, h)
