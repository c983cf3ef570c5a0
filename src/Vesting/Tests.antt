-- ===== src/Vesting/Tests.antt =====
-- A grant on a small concrete history.
use kora_contract.Prelude.{
  ℕ, ◌≤◌, ◌≡◌, refl, true, false, some, none, arith, ◌==◌, ltb, if◌then◌else◌,
}
use kora_contract.Prelude.Int.{pos}
use kora_contract.Prelude.Results.{ok, err}
use kora_contract.Prelude.Store.{update}
use kora_contract.Shared.Host.{Env}
use kora_contract.Shared.Ledger.{Ledger, ledger, moved_to}
use kora_contract.Vesting.Calls.{
  VestingGrant, VestingState, VestingError, calculate_vested_at, release,
}
use kora_contract.Vesting.Shares.{vested_share}
use kora_contract.Vesting.Schedule.{
  IsGrant, due, straight_line, CountsAt, calculate_vested_at-straight_line,
  calculate_vested_at_mono, release-due, release-whole,
}
use kora_contract.Vesting.History.{IsKept, Reach, Reach-IsKept}

-- The contract is 50, its admin 1 and the token 5.
abbrev host_at : ℕ → Env
host_at time = record {
  now = time;
  contract = 50;
  invoker = 7;
  signed = λ a. true;
  is_paused = λ a. false;
  sme_profile = λ registry sme. none;
}

-- 1000 tokens over 100 seconds from time 10, with a cliff at 20 seconds.
abbrev grant : VestingGrant
grant = record {
  beneficiary = 7;
  total_amount = pos 1000;
  start_time = 10;
  cliff_duration = 20;
  vesting_duration = 100;
  released_amount = pos 0;
  revoked = false;
  revoked_at = none;
}

abbrev granted : VestingState
granted = record {
  admin = some 1;
  token_address = some 5;
  grant = λ a. if 7 == a then some grant else none;
  upgrade_proposal = none;
}

abbrev coins : Ledger
coins k x = if x == 50 then 1000 else 0

abbrev halfway : VestingState
halfway = record granted {
  grant = update granted.grant 7 (record grant { released_amount = pos 500 });
}

abbrev halfway_coins : Ledger
halfway_coins = moved_to coins 5 50 7 500

grant-IsGrant : IsGrant grant 60 1000 0
grant-IsGrant = record {
  total_is = refl;
  released_is = refl;
  small = omega arith;
  within = omega arith;
  earned = omega arith;
}

grant-IsGrant_end : IsGrant grant 110 1000 0
grant-IsGrant_end = record {
  total_is = refl;
  released_is = refl;
  small = omega arith;
  within = omega arith;
  earned = omega arith;
}

released_half : release ledger (host_at 60) granted coins 7 ≡ ok (halfway, halfway_coins)
unfolding release calculate_vested_at
released_half = refl

granted-IsKept : IsKept granted 7 60 1000
granted-IsKept = record { grant = grant; released = 0; stored = refl; is = grant-IsGrant }

-- Revoked at 40, and asked for an earlier time.
abbrev revoked_grant : VestingGrant
revoked_grant = record grant { revoked = true; revoked_at = some 40 }

calculate_vested_at-straight_line_example :
    calculate_vested_at revoked_grant 20
    ≡ ok (pos (straight_line 1000 grant.start_time grant.cliff_duration grant.vesting_duration 40))
calculate_vested_at-straight_line_example =
    calculate_vested_at-straight_line revoked_grant 20 40 1000 (CountsAt.stopped 40 refl refl) refl
      (omega arith) (omega arith)

calculate_vested_at_mono_example :
    (x : ℕ) × (y : ℕ) × (calculate_vested_at grant 60 ≡ ok (pos x))
    × (calculate_vested_at grant 90 ≡ ok (pos y))
    × (x ≤ y)
    × (y ≤ 1000)
calculate_vested_at_mono_example =
    calculate_vested_at_mono grant 1000 60 90 refl (omega arith) (omega arith)

release-due_example : release ledger (host_at 60) granted coins 7 ≡ (
    if ltb 0 (due grant 1000 60)
    then ok (
      record granted {
        grant = update granted.grant 7 (record grant { released_amount = pos (due grant 1000 60) });
      },
      halfway_coins,
    )
    else err VestingError.insufficient_vested_balance)
unfolding vested_share
release-due_example =
    release-due ledger (host_at 60) granted coins halfway_coins 7 5 grant 1000 0 refl refl
      grant-IsGrant refl

release-whole_example :
    release ledger (host_at 110) granted coins 7
    ≡ ok (
      record granted {
        grant = update granted.grant 7 (record grant { released_amount = pos 1000 });
      },
      moved_to coins 5 50 7 1000,
    )
release-whole_example =
    release-whole ledger (host_at 110) granted coins (moved_to coins 5 50 7 1000) 7 5 grant 1000 0
      refl refl grant-IsGrant_end refl (omega arith) (omega arith) (omega arith) refl

Reach-IsKept_example : IsKept halfway 7 60 1000
Reach-IsKept_example = Reach-IsKept ledger 7 1000 paid granted-IsKept
  where
    paid : Reach ledger granted coins 60 halfway halfway_coins 60
    paid = Reach.after_release (host_at 60) 7 Reach.here (omega arith) released_half
