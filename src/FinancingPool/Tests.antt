-- ===== src/FinancingPool/Tests.antt =====
-- The financing pool on a small concrete history.
use kora_contract.Prelude.{
  ◌+◌, ◌≤◌, refl, true, false, some, none, List, [], ◌∷◌, arith, ◌==◌, if◌then◌else◌,
}
use kora_contract.Prelude.Int.{pos}
use kora_contract.Prelude.Results.{ok, Ensures}
use kora_contract.Prelude.Store.{update, update2}
use kora_contract.Shared.Host.{Env}
use kora_contract.Shared.Types.{funded, aa, Pool, Position, PositionShare}
use kora_contract.Shared.Ledger.{Ledger, ledger, ledger-IsToken}
use kora_contract.InvoiceNft.State.{NftState, InvoiceHot, InvoiceCold, empty_storage}
use kora_contract.Shared.Types.{InstallmentSchedule}
use kora_contract.FinancingPool.Settlement.{set_installment_schedule, schedule_total}
use kora_contract.FinancingPool.Settlement.Schedules.{
  IsScheduled, set_installment_schedule-IsScheduled,
}
use kora_contract.FinancingPool.State.{PoolState, Peers, World}
use kora_contract.Prelude.{◌≡◌}
use kora_contract.FinancingPool.Guards.{max_position_bps_of, get_registry_bps}
use kora_contract.FinancingPool.Positions.{record_position, share_bps_of, store_position}
use kora_contract.FinancingPool.Positions.Cap.{IsRecorded, record_position-IsRecorded}
use kora_contract.FinancingPool.Repayment.{repay_partial}
use kora_contract.FinancingPool.Repayment.Partial.{IsPartlyRepaid, repay_partial-IsPartlyRepaid}
use kora_contract.FinancingPool.State.{FinancingPoolError}
use kora_contract.FinancingPool.Distribution.{pay_positions, pay_investor, pay_shares, pay_treasury}
use kora_contract.Shared.Decimals.{bps_of_normalized, normalize_amount, denormalize_amount}
use kora_contract.Prelude.Results.{Result}
use kora_contract.FinancingPool.Repayment.Penalty.{with_cut}
use kora_contract.FinancingPool.Distribution.{distribute_yield}
use kora_contract.FinancingPool.Distribution.Bounds.{IsShared, distribute_yield-le}
use kora_contract.FinancingPool.Distribution.Payouts.{AreSplit}
use kora_contract.FinancingPool.Requests.{Request, run}
use kora_contract.FinancingPool.Finality.{Keeps}
use kora_contract.FinancingPool.Finality.History.{run-Keeps}
use kora_contract.FinancingPool.Settled.History.{IsSettledPool, run-IsSettledPool}

-- The pool is 50, its admin 1, the invoice contract 2, the access control 3 and the token 5.
abbrev host : Env
host = record {
  now = 100;
  contract = 50;
  invoker = 7;
  signed = λ a. true;
  is_paused = λ a. false;
  sme_profile = λ registry sme. none;
}

abbrev peers : Peers Ledger
peers = record {
  token = ledger;
  token_symbol = λ k. [];
  symbol = λ text. 3;
  parameter = λ registry key. none;
  convert = λ oracle amount from to. none;
  has_open_dispute = λ c id. none;
}

abbrev empty : PoolState
empty = record {
  admin = some 1;
  invoice_nft = some 2;
  risk_registry = none;
  treasury = some 4;
  access_control = some 3;
  price_oracle = none;
  parameter_registry = none;
  marketplace = none;
  dispute_resolution = none;
  late_penalty_bps = some 500;
  late_penalty_treasury_split_bps = none;
  max_position_bps = some 6000;
  grace_period = none;
  schema_version = some 1;
  protocol_stats = none;
  upgrade_proposal = none;
  aggregate_funded = λ k. none;
  pool = λ id. none;
  positions = λ id. none;
  penalty_treasury_cut = λ id. none;
  repayment_lock = λ id. none;
  installment_schedule = λ id. none;
  repayment_approval = λ id. none;
  escrow_pending = λ id. none;
  escrow_credited = λ id. none;
  early_settlement = λ id. none;
  sale_offer = λ id a. none;
  position_shares = λ id a. none;
  position_share_counter = λ id a. none;
  share_sale_offer = λ id a i. none;
}

abbrev pool : Pool
pool = record {
  invoice_id = 1;
  token = 5;
  total_funded = pos 0;
  face_value = pos 1000;
  repaid_amount = pos 0;
  is_closed = false;
  late_penalty_bps = 500;
  total_owed = pos 1000;
  penalty_applied = false;
}

abbrev larger : Position
larger = record {
  investor = 21;
  invoice_id = 1;
  contributed = pos 600;
  share_bps = 6000;
  yield_claimed = pos 0;
}

abbrev smaller : Position
smaller = record {
  investor = 22;
  invoice_id = 1;
  contributed = pos 400;
  share_bps = 4000;
  yield_claimed = pos 0;
}

-- Half of the larger position belongs to 23.
abbrev half : PositionShare
half = record {
  invoice_id = 1;
  original_investor = 21;
  share_index = 1;
  amount = pos 300;
  owner = 23;
}

abbrev opened : PoolState
opened = record empty {
  pool = update empty.pool 1 pool;
  positions = update empty.positions 1 ((21, larger) ∷ (22, smaller) ∷ []);
  position_shares = update2 empty.position_shares 1 21 ((1, half) ∷ []);
}

abbrev funded_hot : InvoiceHot
funded_hot = record {
  id = 1;
  sme = 7;
  amount = pos 1000;
  currency = 3;
  due_date = 200;
  risk_score = 30;
  risk_tier = aa;
  status = funded;
  created_at = 1;
  funded_at = some 2;
  repaid_at = none;
}

abbrev funded_cold : InvoiceCold
funded_cold = record {
  debtor_hash = 1 ∷ [];
  ipfs_cid = 81 ∷ [];
  metadata_hash = 2 ∷ [];
  notes = none;
}

abbrev nft : NftState
nft = record empty_storage {
  admin = some 1;
  access_control = some 3;
  financing_pool = some 50;
  hot = update empty_storage.hot 1 funded_hot;
  cold = update empty_storage.cold 1 funded_cold;
}

abbrev coins : Ledger
coins k x = if x == 7 then 5000 else if x == 50 then 2000 else 0

abbrev world : World Ledger
world = record { state = opened; ledger = coins; nft = nft }

abbrev calls : List (Env × Request)
calls =
    (host, Request.repay 7 1 5 (pos 400))
    ∷ (host, Request.repay 7 1 5 (pos 600))
    ∷ (host, Request.repay 7 1 5 (pos 1))
    ∷ []

opened-IsShared : IsShared opened 1
opened-IsShared = record {
  total = omega arith;
  split =
      AreSplit.one_more 600 refl (omega arith) (omega arith)
        (AreSplit.one_more 400 refl (omega arith) (omega arith) AreSplit.none_left);
}

distribute_yield-le_example :
    Ensures
      (λ q. ledger.balance coins 5 50 ≤ ledger.balance q.1 5 50 + 1000)
      (distribute_yield ledger 50 5 opened coins 1 (pos 1000))
distribute_yield-le_example =
    distribute_yield-le ledger ledger-IsToken 50 5 opened coins 1 1000 0 opened-IsShared refl
      (omega arith) (omega arith)

run-Keeps_example : Keeps opened 1 (run peers world calls).state
run-Keeps_example = run-Keeps peers world calls 1

run-IsSettledPool_example : IsSettledPool (run peers world calls) 1
run-IsSettledPool_example =
    run-IsSettledPool peers world calls 1 (λ p now closed. absurd (ground (arith, now, closed)))

abbrev third : Position
third = record {
  investor = 24;
  invoice_id = 1;
  contributed = pos 300;
  share_bps = 750;
  yield_claimed = pos 0;
}

abbrev joined : PoolState
joined = record opened {
  positions = update opened.positions 1 ((21, larger) ∷ (22, smaller) ∷ (24, third) ∷ []);
  aggregate_funded = update opened.aggregate_funded 5 (pos 300);
}

third_joined : record_position peers host opened nft 1 1 24 (pos 300) (pos 4000) ≡ ok joined
unfolding record_position share_bps_of store_position max_position_bps_of get_registry_bps
third_joined = refl

record_position-IsRecorded_example : IsRecorded peers opened 1 24 (pos 300) (pos 4000) joined
record_position-IsRecorded_example =
    record_position-IsRecorded peers host opened joined nft 1 1 24 (pos 300) (pos 4000) third_joined

abbrev partly_from : Result FinancingPoolError (PoolState × Ledger) → PoolState × Ledger
partly_from (ok q) = q
partly_from _ = (opened, coins)

-- The penalty is 50, of which the treasury gets 25, and what is owed is distributed.
abbrev penalised : PoolState
penalised = with_cut opened 1 25

abbrev divided : PoolState × Ledger
unfolding distribute_yield
divided = partly_from (distribute_yield ledger 50 5 penalised coins 1 (pos 1025))

-- A partial repayment of 400.
abbrev partly : PoolState × Ledger
unfolding repay_partial
partly = partly_from (repay_partial peers host opened coins 7 1 5 (pos 400))

partly_repaid : repay_partial peers host opened coins 7 1 5 (pos 400) ≡ ok (partly.0, partly.1)
unfolding repay_partial distribute_yield pay_positions pay_investor pay_shares pay_treasury
    bps_of_normalized normalize_amount denormalize_amount
partly_repaid = refl

repay_partial-IsPartlyRepaid_example :
    IsPartlyRepaid peers host opened coins 7 1 5 (pos 400) partly.0 partly.1
repay_partial-IsPartlyRepaid_example =
    repay_partial-IsPartlyRepaid peers host opened partly.0 coins partly.1 7 1 5 (pos 400)
      partly_repaid

-- Two installments of 500.
abbrev two_installments : InstallmentSchedule
two_installments = record {
  installments =
      record { amount = pos 500; due_date = 110; paid = false }
      ∷ record { amount = pos 500; due_date = 140; paid = false }
      ∷ [];
  next_index = 0;
}

abbrev scheduled : PoolState
scheduled = record opened {
  installment_schedule = update opened.installment_schedule 1 two_installments;
}

was_scheduled : set_installment_schedule host opened 1 1 two_installments ≡ ok scheduled
unfolding set_installment_schedule schedule_total
was_scheduled = refl

set_installment_schedule-IsScheduled_example : IsScheduled opened 1 two_installments scheduled
set_installment_schedule-IsScheduled_example =
    set_installment_schedule-IsScheduled host opened scheduled 1 1 two_installments was_scheduled
