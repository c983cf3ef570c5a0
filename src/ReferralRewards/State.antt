-- ===== src/ReferralRewards/State.antt =====
-- The storage of the referral rewards (contracts/referral_rewards/src/lib.rs) and its errors.
use kora_contract.Prelude.{Bool, Option}
use kora_contract.Prelude.Int.{ℤ}
use kora_contract.Prelude.Store.{Store}
use kora_contract.Prelude.Results.{Result}
use kora_contract.Shared.Host.{Address}

pub data ReferralError : Type 0 where
  already_initialized invalid_configuration not_initialized not_admin invalid_amount
        allocation_exceeded :
      ReferralError

pub record RewardsState : Type 0 where
  pub admin : Option Address
  pub invoice_nft : Option Address
  pub token : Option Address
  pub bonus : Option ℤ
  pub allocation : Option ℤ
  pub funded : Option ℤ
  pub paid : Option ℤ
  pub claimed : Store Bool

abbrev pub Call : Type 0 → Type 0
Call A = Result ReferralError A
