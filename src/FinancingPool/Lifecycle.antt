-- ===== src/FinancingPool/Lifecycle.antt =====
-- The opening of a pool, its default, and the approval of large repayments.
use kora_contract.Prelude.{
  ℕ, ◌+◌, ◌-◌, Bool, true, false, Option, none, some, [], ◌∷◌, ◌++◌, length, ltb, ◌==◌,
  if◌then◌else◌, unwrap_or, is_some,
}
use kora_contract.Prelude.Int.{ℤ, pos, ltb_ℤ}
use kora_contract.Prelude.Int128.{saturating_add_u, u32_limit, u64_limit}
use kora_contract.Prelude.Results.{ok, ◌>>=◌, ◌>>◌, guard, refuse_if, ok_or, call, assert_host}
use kora_contract.Prelude.Store.{update}
use kora_contract.Shared.Host.{Env, Address, require_auth}
use kora_contract.Shared.Types.{Pool, RepaymentApproval}
use kora_contract.InvoiceNft.State.{NftState}
use kora_contract.InvoiceNft.Views.{get_invoice}
use kora_contract.InvoiceNft.Status.{set_funded, set_defaulted}
use kora_contract.FinancingPool.State.{FinancingPoolError, Call, PoolState, Peers, World}
use kora_contract.FinancingPool.Guards.{
  require_not_paused, require_admin, is_out_of_range, load_open_pool, stats_of, callee,
  get_late_penalty_bps,
}
use kora_contract.FinancingPool.Shares.{any_is}
use kora_contract.FinancingPool.Distribution.{distribute_yield}
use kora_contract.FinancingPool.Repayment.{repay_internal, repayment_approval_threshold}

abbrev count_opened : PoolState → PoolState
count_opened s =
    let stats = stats_of s in
    record s {
      protocol_stats = some (record stats {
        pools_opened = saturating_add_u u32_limit stats.pools_opened 1;
        active_pools = saturating_add_u u32_limit stats.active_pools 1;
      });
    }

abbrev count_defaulted : PoolState → PoolState
count_defaulted s =
    let stats = stats_of s in
    record s {
      protocol_stats = some (record stats {
        pools_defaulted = saturating_add_u u32_limit stats.pools_defaulted 1;
        active_pools = stats.active_pools - 1;
      });
    }

-- The caller is the marketplace, once one is set.
unfoldable pub require_marketplace : Env → PoolState → Address → Call (Unit {0})
require_marketplace env s marketplace = elim s.marketplace [
  | none ↦ ok tt
  | some configured ↦ (do
    guard (env.invoker == configured) FinancingPoolError.marketplace_only
    guard (marketplace == configured) FinancingPoolError.unauthorized)
]

abbrev open_dispute : {W : Type 0} → Peers W → Option Address → ℕ → Bool
open_dispute peers none invoice_id = false
open_dispute peers (some contract) invoice_id =
    unwrap_or (peers.has_open_dispute contract invoice_id) false

module _ {W : Type 0} (peers : Peers W) (env : Env) where
  unfoldable pub release_funds :
      PoolState → NftState → Address → ℕ → Address → Call (PoolState × NftState)
  unfolding require_not_paused require_marketplace
  release_funds s nft marketplace invoice_id token = do
    require_auth env marketplace
    require_not_paused env s
    require_marketplace env s marketplace
    refuse_if (is_some (s.pool invoice_id)) FinancingPoolError.pool_already_closed
    refuse_if (token == env.contract) FinancingPoolError.invalid_address
    nft_contract ← ok_or s.invoice_nft FinancingPoolError.not_initialized
    invoice ← call (get_invoice nft invoice_id)
    refuse_if (is_out_of_range invoice.amount) FinancingPoolError.invalid_amount
    let pool : Pool = record {
      invoice_id = invoice_id;
      token = token;
      total_funded = pos 0;
      face_value = invoice.amount;
      repaid_amount = pos 0;
      is_closed = false;
      late_penalty_bps = get_late_penalty_bps peers s;
      total_owed = invoice.amount;
      penalty_applied = false;
    }
    let s' = count_opened (record s { pool = update s.pool invoice_id pool })
    nft' ← call (set_funded (callee env nft_contract) nft env.contract invoice_id)
    ok (s', nft')

  -- What the pool had received is paid out, unless that is nothing.
  unfoldable pub pay_received : PoolState → W → ℕ → Address → ℤ → Call (PoolState × W)
  pay_received s w invoice_id token repaid =
      if ltb_ℤ (pos 0) repaid
      then distribute_yield peers.token env.contract token s w invoice_id repaid
      else ok (s, w)

  -- The payment, and the invoice is defaulted. The report to the risk registry, whose failure the code
  -- ignores, is not kept here.
  unfoldable pub finish_default : World W → Address → ℕ → Address → Address → ℤ → Call (World W)
  finish_default x admin invoice_id token nft_contract repaid = do
    (s2, w2) ← pay_received x.state x.ledger invoice_id token repaid
    nft' ← call (set_defaulted (callee env nft_contract) x.nft admin invoice_id)
    after ← call (get_invoice nft' invoice_id)
    ok (record { state = count_defaulted s2; ledger = w2; nft = nft' })

  -- The checks before a default: the open pool, and the address of the invoice contract.
  unfoldable pub require_defaultable : PoolState → NftState → Address → ℕ → Call (Pool × Address)
  require_defaultable s nft admin invoice_id = do
    require_auth env admin
    require_admin s admin
    require_not_paused env s
    refuse_if (is_some (s.escrow_pending invoice_id)) FinancingPoolError.escrow_pending
    refuse_if (is_some (s.repayment_lock invoice_id)) FinancingPoolError.unauthorized
    pool ← load_open_pool s invoice_id
    let grace_period = unwrap_or s.grace_period 0
    nft_contract ← ok_or s.invoice_nft FinancingPoolError.not_initialized
    invoice ← call (get_invoice nft invoice_id)
    assert_host (ltb (invoice.due_date + grace_period) u64_limit)
    refuse_if (ltb env.now (invoice.due_date + grace_period)) FinancingPoolError.grace_period_active
    refuse_if (open_dispute peers s.dispute_resolution invoice_id)
        FinancingPoolError.dispute_not_open
    ok (pool, nft_contract)

  -- The pool is closed only where it holds credits of the escrow.
  unfoldable pub mark_default : World W → Address → ℕ → Address → Call (World W)
  mark_default x admin invoice_id token = do
    let s = x.state
    (pool, nft_contract) ← require_defaultable s x.nft admin invoice_id
    let closed = record s { pool = update s.pool invoice_id (record pool { is_closed = true }) }
    let s1 = if is_some (s.escrow_credited invoice_id) then closed else s
    finish_default (record x { state = s1 }) admin invoice_id token nft_contract pool.repaid_amount

  unfoldable pub propose_repayment : PoolState → Address → ℕ → ℤ → Call PoolState
  propose_repayment s payer invoice_id amount = do
    require_auth env payer
    refuse_if (is_out_of_range amount) FinancingPoolError.invalid_amount
    refuse_if (ltb_ℤ amount repayment_approval_threshold) FinancingPoolError.invalid_amount
    pool ← load_open_pool s invoice_id
    refuse_if (is_some (s.repayment_approval invoice_id)) FinancingPoolError.approval_pending
    let approval : RepaymentApproval = record {
      invoice_id = invoice_id;
      amount = amount;
      approvals = [];
      executed = false;
    }
    ok (record s { repayment_approval = update s.repayment_approval invoice_id approval })

  unfoldable pub approve_repayment : PoolState → Address → ℕ → Call PoolState
  approve_repayment s approver invoice_id = do
    require_auth env approver
    pool ← load_open_pool s invoice_id
    approval ← ok_or (s.repayment_approval invoice_id) FinancingPoolError.approval_pending
    refuse_if approval.executed FinancingPoolError.pool_already_closed
    refuse_if (any_is approver approval.approvals) FinancingPoolError.already_initialized
    let approval' = record approval { approvals = approval.approvals ++ (approver ∷ []) }
    ok (record s { repayment_approval = update s.repayment_approval invoice_id approval' })

  unfoldable pub execute_repayment : World W → Address → ℕ → Address → Call (World W)
  execute_repayment x payer invoice_id token = do
    let s = x.state
    require_auth env payer
    pool ← load_open_pool s invoice_id
    approval ← ok_or (s.repayment_approval invoice_id) FinancingPoolError.approval_threshold_not_met
    refuse_if approval.executed FinancingPoolError.pool_already_closed
    refuse_if (ltb (length approval.approvals) 2) FinancingPoolError.approval_threshold_not_met
    let approval' = record approval { executed = true }
    let s1 = record s { repayment_approval = update s.repayment_approval invoice_id approval' }
    repay_internal peers env (record x { state = s1 }) payer invoice_id token approval.amount
