-- ===== src/FinancingPool/Settlement.antt =====
-- The early settlement of a pool by the SME, and the schedule of its installments.
pub mod Schedules
use kora_contract.Prelude.{
  ℕ, Bool, true, false, ◌||◌, List, [], ◌∷◌, ◌++◌, ltb, leb, ◌==◌, if◌then◌else◌, is_some,
}
use kora_contract.Prelude.Int.{ℤ, pos, ltb_ℤ, leb_ℤ, eq_ℤ}
use kora_contract.Prelude.Int128.{checked_add_u, checked_add, u32_limit}
use kora_contract.Prelude.Results.{ok, ◌>>=◌, ◌>>◌, guard, refuse_if, ok_or}
use kora_contract.Prelude.Store.{update, remove, lookup}
use kora_contract.Shared.Host.{Env, Address, require_auth}
use kora_contract.Shared.Token.{transfer}
use kora_contract.Shared.Types.{Pool, EarlySettlementOffer, Installment, InstallmentSchedule}
use kora_contract.FinancingPool.State.{FinancingPoolError, Call, PoolState, Peers, World}
use kora_contract.FinancingPool.Guards.{
  require_no_escrow, require_no_escrow_credit, require_not_paused, require_admin, is_out_of_range,
  load_pool, load_open_pool, load_invoice, positions_of,
}
use kora_contract.FinancingPool.Shares.{any_is}
use kora_contract.FinancingPool.Repayment.{count_repaid, close_pool}

-- The checks of a schedule, with the sum of its installments and the last due date so far.
unfoldable pub schedule_total : List Installment → ℤ → ℕ → Call ℤ
schedule_total [] total prev_due = ok total
schedule_total (installment ∷ installments) total prev_due = do
  refuse_if (leb_ℤ installment.amount (pos 0)) FinancingPoolError.invalid_amount
  refuse_if (ltb installment.due_date prev_due) FinancingPoolError.invalid_due_date
  total' ← ok_or (checked_add total installment.amount) FinancingPoolError.arithmetic_overflow
  schedule_total installments total' installment.due_date

abbrev is_empty : List Installment → Bool
is_empty [] = true
is_empty (x ∷ xs) = false

unfoldable pub set_installment_schedule :
    Env → PoolState → Address → ℕ → InstallmentSchedule → Call PoolState
unfolding require_no_escrow require_no_escrow_credit require_admin require_not_paused
set_installment_schedule env s admin invoice_id schedule = do
  require_no_escrow_credit s invoice_id
  require_no_escrow s invoice_id
  require_auth env admin
  require_admin s admin
  require_not_paused env s
  pool ← load_open_pool s invoice_id
  refuse_if (ltb_ℤ (pos 0) pool.repaid_amount) FinancingPoolError.invalid_amount
  refuse_if (is_empty schedule.installments) FinancingPoolError.invalid_amount
  guard (schedule.next_index == 0) FinancingPoolError.invalid_amount
  total ← schedule_total schedule.installments (pos 0) 0
  guard (eq_ℤ total pool.total_owed) FinancingPoolError.invalid_amount
  ok (record s { installment_schedule = update s.installment_schedule invoice_id schedule })

module _ {W : Type 0} (peers : Peers W) (env : Env) where
  unfoldable pub propose_early_settlement : World W → Address → ℕ → ℤ → Call (World W)
  unfolding require_no_escrow require_no_escrow_credit require_not_paused load_invoice
  propose_early_settlement x sme invoice_id amount = do
    let s = x.state
    require_no_escrow_credit s invoice_id
    require_no_escrow s invoice_id
    require_auth env sme
    require_not_paused env s
    refuse_if (is_out_of_range amount) FinancingPoolError.invalid_amount
    pool ← load_open_pool s invoice_id
    refuse_if (ltb_ℤ amount pool.total_funded || leb_ℤ pool.total_owed amount)
        FinancingPoolError.invalid_amount
    refuse_if (is_some (s.early_settlement invoice_id)) FinancingPoolError.already_initialized
    invoice ← load_invoice s x.nft invoice_id
    guard (invoice.sme == sme) FinancingPoolError.unauthorized
    w ← transfer peers.token x.ledger pool.token sme env.contract amount
    let offer : EarlySettlementOffer = record {
      invoice_id = invoice_id;
      amount = amount;
      accepted_bps = 0;
      accepted = [];
    }
    let s' = record s { early_settlement = update s.early_settlement invoice_id offer }
    ok (record x { state = s'; ledger = w })

  -- All shares have accepted: the pool is closed with the offer's amount.
  unfoldable pub settle_early : World W → ℕ → Pool → EarlySettlementOffer → Call (World W)
  settle_early x invoice_id pool offer = do
    let s = x.state
    nft_contract ← ok_or s.invoice_nft FinancingPoolError.not_initialized
    let s1 = record s {
      repayment_lock = update s.repayment_lock invoice_id true;
      pool =
          update s.pool invoice_id (record pool { repaid_amount = offer.amount; is_closed = true });
    }
    x2 ←
        close_pool peers env (record x { state = s1 }) invoice_id pool.token nft_contract
          offer.amount
    let s3 = count_repaid x2.state offer.amount true
    let s4 = record s3 {
      early_settlement = remove s3.early_settlement invoice_id;
      repayment_lock = remove s3.repayment_lock invoice_id;
    }
    ok (record x2 { state = s4 })

  unfoldable pub accept_early_settlement : World W → Address → ℕ → Call (World W)
  unfolding require_no_escrow require_not_paused
  accept_early_settlement x investor invoice_id = do
    let s = x.state
    require_no_escrow s invoice_id
    require_auth env investor
    require_not_paused env s
    refuse_if (is_some (s.repayment_lock invoice_id)) FinancingPoolError.unauthorized
    offer ← ok_or (s.early_settlement invoice_id) FinancingPoolError.pool_not_found
    pool ← load_open_pool s invoice_id
    position ← ok_or (lookup investor (positions_of s invoice_id)) FinancingPoolError.unauthorized
    refuse_if (any_is investor offer.accepted) FinancingPoolError.already_initialized
    accepted_bps ←
        ok_or (checked_add_u u32_limit offer.accepted_bps position.share_bps)
          FinancingPoolError.arithmetic_overflow
    let offer' = record offer {
      accepted = offer.accepted ++ (investor ∷ []);
      accepted_bps = accepted_bps;
    }
    let kept = record s { early_settlement = update s.early_settlement invoice_id offer' }
    (if leb 10_000 accepted_bps
        then settle_early x invoice_id pool offer'
        else ok (record x { state = kept }))

  unfoldable pub cancel_early_settlement : World W → Address → ℕ → Call (World W)
  unfolding require_no_escrow load_invoice
  cancel_early_settlement x sme invoice_id = do
    let s = x.state
    require_no_escrow s invoice_id
    require_auth env sme
    offer ← ok_or (s.early_settlement invoice_id) FinancingPoolError.pool_not_found
    pool ← load_pool s invoice_id
    invoice ← load_invoice s x.nft invoice_id
    guard (invoice.sme == sme) FinancingPoolError.unauthorized
    w ← transfer peers.token x.ledger pool.token env.contract sme offer.amount
    let s' = record s { early_settlement = remove s.early_settlement invoice_id }
    ok (record x { state = s'; ledger = w })
