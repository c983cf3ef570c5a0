-- ===== src/FinancingPool/Repayment.antt =====
-- The repayments: in parts, in installments and as a lump sum.
pub mod Penalty
pub mod Partial
use kora_contract.Prelude.{
  ℕ, zero, suc, ◌+◌, ◌-◌, Bool, true, false, ◌&&◌, not, Option, none, some, List, [], ◌∷◌, length,
  leb, ltb, ◌==◌, if◌then◌else◌, unwrap_or, is_some,
}
use kora_contract.Prelude.Int.{ℤ, pos, ltb_ℤ, eq_ℤ}
use kora_contract.Prelude.Int128.{
  checked_sub, checked_add, saturating_add, saturating_add_u, u32_limit,
}
use kora_contract.Prelude.Results.{ok, ◌>>=◌, ◌>>◌, guard, refuse_if, ok_or, unwrap, call, lift_err}
use kora_contract.Prelude.Store.{update, remove}
use kora_contract.Shared.Host.{Env, Address, require_auth}
use kora_contract.Shared.Token.{transfer}
use kora_contract.Shared.Types.{Invoice, Pool, Installment, InstallmentSchedule, RepaymentApproval}
use kora_contract.Shared.Validation.{bps_of}
use kora_contract.InvoiceNft.Views.{get_invoice}
use kora_contract.InvoiceNft.Freeze.{is_invoice_frozen}
use kora_contract.InvoiceNft.Status.{set_repaid}
use kora_contract.FinancingPool.State.{
  FinancingPoolError, Call, PoolState, Peers, World, from_common,
}
use kora_contract.FinancingPool.Guards.{
  require_no_escrow, is_out_of_range, load_open_pool, stats_of, callee, get_late_penalty_bps,
  convert_if_needed,
}
use kora_contract.FinancingPool.Distribution.{distribute_yield}

abbrev pub repayment_approval_threshold : ℤ
repayment_approval_threshold = pos 10_000_000_000

-- A repayment is added to the statistics; the repayment that closes a pool takes it from the active ones.
abbrev pub count_repaid : PoolState → ℤ → Bool → PoolState
count_repaid s amount closes =
    let stats = stats_of s in
    record s {
      protocol_stats = some (record stats {
        total_repaid = saturating_add stats.total_repaid amount;
        active_pools = if closes then stats.active_pools - 1 else stats.active_pools;
      });
    }

-- The penalty, once, where `due_date` has passed: the treasury's part is kept for the distribution, and
-- the rest is owed by the payer.
unfoldable pub apply_late_penalty : Env → PoolState → ℕ → Pool → ℕ → ℕ → Call (PoolState × Pool)
apply_late_penalty env s invoice_id pool penalty_bps due_date =
    if not pool.penalty_applied && ltb 0 penalty_bps && ltb due_date env.now
    then (do
      penalty ← lift_err from_common (bps_of pool.face_value penalty_bps)
      treasury_cut ←
          lift_err from_common (bps_of penalty (unwrap_or s.late_penalty_treasury_split_bps 5_000))
      investor_cut ← ok_or (checked_sub penalty treasury_cut) FinancingPoolError.arithmetic_overflow
      total_owed ←
          ok_or (checked_add pool.total_owed investor_cut) FinancingPoolError.arithmetic_overflow
      let prev_cut = unwrap_or (s.penalty_treasury_cut invoice_id) (pos 0)
      ok (
        record s {
          penalty_treasury_cut =
              update s.penalty_treasury_cut invoice_id (saturating_add prev_cut treasury_cut);
        },
        record pool { total_owed = total_owed; penalty_applied = true },
      ))
    else ok (s, pool)

abbrev pub get_installment : List Installment → ℕ → Option Installment
get_installment [] n = none
get_installment (x ∷ xs) zero = some x
get_installment (x ∷ xs) (suc n) = get_installment xs n

abbrev pub set_installment : List Installment → ℕ → Installment → List Installment
set_installment [] n y = []
set_installment (x ∷ xs) zero y = y ∷ xs
set_installment (x ∷ xs) (suc n) y = x ∷ set_installment xs n y

-- Whether a payment matches the installment: the last one may be overpaid.
abbrev pub matches_installment : Bool → ℤ → ℤ → Bool
matches_installment true amount expected = not (ltb_ℤ amount expected)
matches_installment false amount expected = eq_ℤ amount expected

-- The schedule with its next installment paid.
abbrev pub advance_schedule : InstallmentSchedule → Installment → InstallmentSchedule
advance_schedule schedule installment = record {
  installments =
      set_installment schedule.installments schedule.next_index
        (record installment { paid = true });
  next_index = saturating_add_u u32_limit schedule.next_index 1;
}

module _ {W : Type 0} (peers : Peers W) (env : Env) where
  unfoldable pub repay_partial : PoolState → W → Address → ℕ → Address → ℤ → Call (PoolState × W)
  repay_partial s w payer invoice_id token amount = do
    require_auth env payer
    refuse_if (is_some (s.escrow_credited invoice_id)) FinancingPoolError.partial_repay_invalid
    refuse_if (is_some (s.escrow_pending invoice_id)) FinancingPoolError.escrow_pending
    refuse_if (is_out_of_range amount) FinancingPoolError.invalid_amount
    refuse_if (is_some (s.repayment_lock invoice_id)) FinancingPoolError.unauthorized
    pool ← load_open_pool s invoice_id
    new_repaid ←
        ok_or (checked_add pool.repaid_amount amount) FinancingPoolError.arithmetic_overflow
    refuse_if (ltb_ℤ pool.total_owed new_repaid) FinancingPoolError.partial_repay_invalid
    let s1 = record s {
      repayment_lock = update s.repayment_lock invoice_id true;
      pool = update s.pool invoice_id (record pool { repaid_amount = new_repaid });
    }
    w1 ← transfer peers.token w token payer env.contract amount
    (s2, w2) ←
        distribute_yield peers.token env.contract token (count_repaid s1 amount false) w1 invoice_id
          new_repaid
    ok (record s2 { repayment_lock = remove s2.repayment_lock invoice_id }, w2)

  -- The installment that is due, checked against the payment, and the penalty by its date.
  unfoldable pub pay_installment :
      PoolState → ℕ → Pool → InstallmentSchedule → ℤ → Call (PoolState × Pool)
  unfolding apply_late_penalty
  pay_installment s invoice_id pool schedule amount = do
    let idx = schedule.next_index
    let len = length schedule.installments
    refuse_if (leb len idx) FinancingPoolError.repayment_already_made
    installment ← unwrap (get_installment schedule.installments idx)
    guard (matches_installment (idx + 1 == len) amount installment.amount)
        FinancingPoolError.invalid_amount
    (s', pool') ←
        apply_late_penalty env s invoice_id pool (get_late_penalty_bps peers s) installment.due_date
    ok (
      record s' {
        installment_schedule =
            update s'.installment_schedule invoice_id (advance_schedule schedule installment);
      },
      pool',
    )

  -- The pool and the storage before the payment is added: by the schedule, if there is one.
  unfoldable pub apply_terms : PoolState → ℕ → Pool → Invoice → ℤ → Call (PoolState × Pool)
  apply_terms s invoice_id pool invoice amount = elim (s.installment_schedule invoice_id) [
    | some schedule ↦ pay_installment s invoice_id pool schedule amount
    | none ↦
        apply_late_penalty env s invoice_id pool (get_late_penalty_bps peers s) invoice.due_date
  ]

  -- The closing of a pool: the distribution, and the invoice is repaid.
  unfoldable pub close_pool : World W → ℕ → Address → Address → ℤ → Call (World W)
  close_pool x invoice_id token nft_contract repaid = do
    (s, w) ← distribute_yield peers.token env.contract token x.state x.ledger invoice_id repaid
    nft ← call (set_repaid (callee env nft_contract) x.nft env.contract invoice_id)
    ok (record { state = s; ledger = w; nft = nft })

  -- The payment is added to the pool, which it may close, and the lock is set until the end.
  unfoldable pub pay_in : World W → Address → ℕ → Address → Address → ℤ → ℤ → Pool → Call (World W)
  pay_in x payer invoice_id token nft_contract amount effective_amount pool1 = do
    let s1 = x.state
    repaid ←
        ok_or (checked_add pool1.repaid_amount effective_amount)
          FinancingPoolError.arithmetic_overflow
    let should_close = not (ltb_ℤ repaid pool1.total_owed)
    let pool2 = record pool1 { repaid_amount = repaid; is_closed = should_close }
    let s2 = record s1 {
      repayment_lock = update s1.repayment_lock invoice_id true;
      pool = update s1.pool invoice_id pool2;
    }
    w1 ← transfer peers.token x.ledger token payer env.contract amount
    let x1 : World W = record {
      state = count_repaid s2 effective_amount should_close;
      ledger = w1;
      nft = x.nft;
    }
    x2 ← if should_close then close_pool x1 invoice_id token nft_contract repaid else ok x1
    let s3 = x2.state
    ok (record x2 { state = record s3 { repayment_lock = remove s3.repayment_lock invoice_id } })

  unfoldable pub repay_internal : World W → Address → ℕ → Address → ℤ → Call (World W)
  repay_internal x payer invoice_id token amount = do
    let s = x.state
    require_no_escrow s invoice_id
    nft_contract ← ok_or s.invoice_nft FinancingPoolError.not_initialized
    refuse_if (is_invoice_frozen x.nft invoice_id) FinancingPoolError.invoice_frozen
    refuse_if (is_some (s.repayment_lock invoice_id)) FinancingPoolError.unauthorized
    pool ← load_open_pool s invoice_id
    invoice ← call (get_invoice x.nft invoice_id)
    effective_amount ← convert_if_needed peers s amount invoice.currency pool.token
    (s1, pool1) ← apply_terms s invoice_id pool invoice effective_amount
    pay_in (record x { state = s1 }) payer invoice_id token nft_contract amount effective_amount
        pool1

  -- `approval.executed`
  abbrev is_executed : RepaymentApproval → Bool
  is_executed approval = approval.executed

  unfoldable pub repay : World W → Address → ℕ → Address → ℤ → Call (World W)
  repay x payer invoice_id token amount = do
    require_auth env payer
    refuse_if (is_out_of_range amount) FinancingPoolError.invalid_amount
    (if not (ltb_ℤ amount repayment_approval_threshold)
        then (do
          approval ←
              ok_or (x.state.repayment_approval invoice_id)
                FinancingPoolError.approval_threshold_not_met
          guard (is_executed approval) FinancingPoolError.approval_threshold_not_met
          repay_internal x payer invoice_id token amount)
        else repay_internal x payer invoice_id token amount)
