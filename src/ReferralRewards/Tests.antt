-- ===== src/ReferralRewards/Tests.antt =====
-- The referral rewards on a small concrete history.
use kora_contract.Prelude.{◌≡◌, refl, true, false, some, none, [], ◌∷◌, arith, ◌==◌, if◌then◌else◌}
use kora_contract.Prelude.Int.{pos}
use kora_contract.Prelude.Results.{ok}
use kora_contract.Prelude.Store.{update}
use kora_contract.Shared.Host.{Env}
use kora_contract.Shared.Types.{repaid, aa}
use kora_contract.Shared.Ledger.{Ledger, ledger, ledger-IsToken, moved_to}
use kora_contract.InvoiceNft.State.{NftState, InvoiceHot, InvoiceCold, empty_storage}
use kora_contract.InvoiceNft.Views.{get_invoice}
use kora_contract.InvoiceNft.Guards.{load_hot, load_cold}
use kora_contract.ReferralRewards.State.{RewardsState}
use kora_contract.ReferralRewards.Calls.{
  deposit, claim_referral_reward, eligible_referrer, pay_reward,
}
use kora_contract.ReferralRewards.Solvency.{IsSolvent, Reach, Step, Reach-IsSolvent, Holds}
use kora_contract.ReferralRewards.Claims.{
  IsEligible, IsPaid, claim_referral_reward-IsPaid, claim_referral_reward-claim_referral_reward,
  claim_referral_reward-pays,
}

-- The contract is 50, its admin 1, the invoice contract 2 and the token 5.
abbrev host : Env
host = record {
  now = 100;
  contract = 50;
  invoker = 7;
  signed = λ a. true;
  is_paused = λ a. false;
  sme_profile = λ registry sme. none;
}

abbrev empty : RewardsState
empty = record {
  admin = some 1;
  invoice_nft = some 2;
  token = some 5;
  bonus = some (pos 100);
  allocation = some (pos 1000);
  funded = some (pos 0);
  paid = some (pos 0);
  claimed = λ sme. none;
}

abbrev coins : Ledger
coins k x = if x == 1 then 500 else 0

abbrev funded : RewardsState
funded = record empty { funded = some (pos 300) }

abbrev funded_coins : Ledger
funded_coins = moved_to coins 5 1 50 300

abbrev first_hot : InvoiceHot
first_hot = record {
  id = 1;
  sme = 7;
  amount = pos 5000;
  currency = 3;
  due_date = 200;
  risk_score = 30;
  risk_tier = aa;
  status = repaid;
  created_at = 1;
  funded_at = some 2;
  repaid_at = some 90;
}

abbrev first_cold : InvoiceCold
first_cold = record {
  debtor_hash = 1 ∷ [];
  ipfs_cid = 81 ∷ [];
  metadata_hash = 2 ∷ [];
  notes = none;
}

-- SME 7 was referred by 8, and its first invoice is repaid.
abbrev nft : NftState
nft = record empty_storage {
  hot = update empty_storage.hot 1 first_hot;
  cold = update empty_storage.cold 1 first_cold;
  sme_referrer = update empty_storage.sme_referrer 7 8;
  first_mint = update empty_storage.first_mint 7 1;
}

abbrev rewarded : RewardsState
rewarded = record funded { claimed = update empty.claimed 7 true; paid = some (pos 100) }

abbrev rewarded_coins : Ledger
rewarded_coins = moved_to funded_coins 5 50 8 100

deposited : deposit ledger host empty coins 1 (pos 300) ≡ ok (funded, funded_coins)
unfolding deposit
deposited = refl

claimed :
    claim_referral_reward ledger host nft funded funded_coins 7
    ≡ ok (rewarded, rewarded_coins, true)
unfolding claim_referral_reward pay_reward eligible_referrer get_invoice load_hot load_cold
claimed = refl

empty-IsSolvent : IsSolvent ledger 50 empty coins
empty-IsSolvent = record {
  admin = 1;
  token = 5;
  bonus = 100;
  allocation = 1000;
  funded = 0;
  paid = 0;
  holds = record {
    admin_is = refl;
    token_is = refl;
    bonus_is = refl;
    allocation_is = refl;
    funded_is = refl;
    paid_is = refl;
  };
  apart = omega arith;
  positive = omega arith;
  within = omega arith;
  bounded = omega arith;
  covered = omega arith;
  backed = omega arith;
}

eligible : IsEligible nft 7 8
unfolding get_invoice load_hot load_cold
eligible = record {
  first = 1;
  locked = refl;
  another = omega arith;
  minted = refl;
  invoice = record {
    id = 1;
    sme = 7;
    debtor_hash = 1 ∷ [];
    amount = pos 5000;
    currency = 3;
    due_date = 200;
    ipfs_cid = 81 ∷ [];
    metadata_hash = 2 ∷ [];
    risk_score = 30;
    risk_tier = aa;
    status = repaid;
    created_at = 1;
    funded_at = some 2;
    repaid_at = some 90;
    notes = none;
  };
  answered = refl;
  of_sme = refl;
  settled = refl;
}

funded-Holds : Holds funded 1 5 100 1000 300 0
funded-Holds = record {
  admin_is = refl;
  token_is = refl;
  bonus_is = refl;
  allocation_is = refl;
  funded_is = refl;
  paid_is = refl;
}

paid_out : Reach ledger 50 empty coins rewarded rewarded_coins
paid_out =
    Reach.next (Reach.next Reach.here (Step.deposited host 1 (pos 300) refl deposited))
      (Step.settled host nft 7 true refl claimed)

Reach-IsSolvent_example : IsSolvent ledger 50 rewarded rewarded_coins
Reach-IsSolvent_example = Reach-IsSolvent ledger ledger-IsToken 50 paid_out empty-IsSolvent

claim_referral_reward-IsPaid_example :
    IsPaid ledger 50 nft funded funded_coins 7 rewarded rewarded_coins
claim_referral_reward-IsPaid_example =
    claim_referral_reward-IsPaid ledger ledger-IsToken host nft funded rewarded funded_coins
      rewarded_coins 7 claimed

-- A deposit after the payment.
abbrev refilled : RewardsState
refilled = record rewarded { funded = some (pos 400) }

abbrev refilled_coins : Ledger
refilled_coins = moved_to rewarded_coins 5 1 50 100

refilling : deposit ledger host rewarded rewarded_coins 1 (pos 100) ≡ ok (refilled, refilled_coins)
unfolding deposit
refilling = refl

claim_referral_reward-claim_referral_reward_example :
    claim_referral_reward ledger host nft refilled refilled_coins 7
    ≡ ok (refilled, refilled_coins, false)
claim_referral_reward-claim_referral_reward_example =
    claim_referral_reward-claim_referral_reward ledger ledger-IsToken host host nft nft funded
      rewarded refilled funded_coins rewarded_coins refilled_coins 7 claimed
      (Reach.next Reach.here (Step.deposited host 1 (pos 100) refl refilling))

claim_referral_reward-pays_example :
    claim_referral_reward ledger host nft funded funded_coins 7
    ≡ ok (rewarded, rewarded_coins, true)
claim_referral_reward-pays_example =
    claim_referral_reward-pays ledger ledger-IsToken host nft funded funded_coins rewarded_coins 7 8
      1 5 2 100 1000 300 0 funded-Holds refl (omega arith) (omega arith) (omega arith) eligible refl
      refl
