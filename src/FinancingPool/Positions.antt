-- ===== src/FinancingPool/Positions.antt =====
-- The positions of the investors: their record, their transfer and their sale.
pub mod Cap
use kora_contract.Prelude.{
  ℕ, ◌&&◌, ◌||◌, Option, none, some, length, leb, ltb, ◌==◌, unwrap_or, is_some,
}
use kora_contract.Prelude.Int.{ℤ, pos, leb_ℤ, ltb_ℤ, eq_ℤ}
use kora_contract.Prelude.Int128.{checked_mul, checked_div, checked_add, checked_sub, as_u32}
use kora_contract.Prelude.Results.{ok, ◌>>=◌, ◌>>◌, guard, refuse_if, ok_or}
use kora_contract.Prelude.Store.{update, update2, remove2, lookup, insert, erase}
use kora_contract.Shared.Host.{Env, Address, require_auth}
use kora_contract.Shared.Token.{transfer}
use kora_contract.Shared.Types.{Position, PositionSaleOffer}
use kora_contract.Shared.Validation.{max_amount}
use kora_contract.InvoiceNft.State.{NftState}
use kora_contract.InvoiceNft.Freeze.{is_invoice_frozen}
use kora_contract.FinancingPool.State.{FinancingPoolError, Call, PoolState, Peers}
use kora_contract.FinancingPool.Guards.{
  require_no_escrow, require_no_escrow_credit, require_not_paused, require_admin, load_pool,
  load_open_pool, positions_of, max_position_bps_of,
}

abbrev pub max_positions_per_pool : ℕ
max_positions_per_pool = 100

abbrev pub contributed_of : Option Position → ℤ
contributed_of none = pos 0
contributed_of (some position) = position.contributed

abbrev pub share_of_pool : ℤ → ℤ → Option ℤ
share_of_pool contributed total_pool = elim (checked_mul contributed (pos 10_000)) [
  | none ↦ none
  | some v ↦ checked_div v total_pool
]

-- The total of a token with one contribution replaced by another.
abbrev pub replaced : ℤ → ℤ → ℤ → Option ℤ
replaced total old contributed = elim (checked_sub total old) [
  | none ↦ none
  | some v ↦ checked_add v contributed
]

module _ {W : Type 0} (peers : Peers W) (env : Env) where
  -- The basis points of a contribution, within the cap of the storage or of the registry.
  unfoldable pub share_bps_of : PoolState → ℤ → ℤ → Call ℕ
  share_bps_of s contributed total_pool = do
    refuse_if (leb_ℤ contributed (pos 0) || leb_ℤ total_pool (pos 0))
        FinancingPoolError.invalid_amount
    refuse_if
        (ltb_ℤ total_pool contributed
          || ltb_ℤ max_amount contributed
          || ltb_ℤ max_amount total_pool)
        FinancingPoolError.invalid_amount
    share ← ok_or (share_of_pool contributed total_pool) FinancingPoolError.arithmetic_overflow
    let share_bps = as_u32 share
    refuse_if (ltb (max_position_bps_of peers s) share_bps)
        FinancingPoolError.exceeds_funding_target
    ok share_bps

  -- The position is stored, and its contribution takes the place of the former one in the total of the token.
  unfoldable pub store_position : PoolState → ℕ → Address → ℤ → ℕ → Call PoolState
  store_position s invoice_id investor contributed share_bps = do
    let positions = positions_of s invoice_id
    let old_contributed = contributed_of (lookup investor positions)
    refuse_if (eq_ℤ old_contributed (pos 0) && leb max_positions_per_pool (length positions))
        FinancingPoolError.too_many_investors
    pool ← load_pool s invoice_id
    new_agg ←
        ok_or
          (replaced (unwrap_or (s.aggregate_funded pool.token) (pos 0)) old_contributed contributed)
          FinancingPoolError.arithmetic_overflow
    let position : Position = record {
      investor = investor;
      invoice_id = invoice_id;
      contributed = contributed;
      share_bps = share_bps;
      yield_claimed = pos 0;
    }
    ok (record s {
      positions = update s.positions invoice_id (insert investor position positions);
      aggregate_funded = update s.aggregate_funded pool.token new_agg;
    })

  unfoldable pub record_position :
      PoolState → NftState → Address → ℕ → Address → ℤ → ℤ → Call PoolState
  unfolding require_no_escrow require_no_escrow_credit require_admin require_not_paused
      is_invoice_frozen
  record_position s nft caller invoice_id investor contributed total_pool = do
    require_no_escrow_credit s invoice_id
    require_no_escrow s invoice_id
    require_auth env caller
    require_admin s caller
    require_not_paused env s
    nft_contract ← ok_or s.invoice_nft FinancingPoolError.not_initialized
    refuse_if (is_invoice_frozen nft invoice_id) FinancingPoolError.invoice_frozen
    share_bps ← share_bps_of s contributed total_pool
    store_position s invoice_id investor contributed share_bps

  unfoldable pub transfer_position : PoolState → ℕ → Address → Address → Call PoolState
  unfolding require_no_escrow require_not_paused
  transfer_position s invoice_id from to = do
    require_no_escrow s invoice_id
    require_auth env from
    require_not_paused env s
    refuse_if (from == to) FinancingPoolError.invalid_address
    pool ← load_open_pool s invoice_id
    let positions = positions_of s invoice_id
    position ← ok_or (lookup from positions) FinancingPoolError.position_not_found
    ok (record s {
      positions =
          update s.positions invoice_id
            (insert to (record position { investor = to }) (erase from positions));
    })

  unfoldable pub list_position_for_sale : PoolState → Address → ℕ → Address → ℤ → Call PoolState
  unfolding require_no_escrow require_not_paused
  list_position_for_sale s seller invoice_id token price = do
    require_no_escrow s invoice_id
    require_auth env seller
    require_not_paused env s
    refuse_if (leb_ℤ price (pos 0)) FinancingPoolError.invalid_amount
    pool ← load_open_pool s invoice_id
    guard (is_some (lookup seller (positions_of s invoice_id)))
        FinancingPoolError.position_not_found
    refuse_if (is_some (s.sale_offer invoice_id seller)) FinancingPoolError.sale_already_listed
    let offer : PositionSaleOffer = record {
      seller = seller;
      invoice_id = invoice_id;
      token = token;
      price = price;
    }
    ok (record s { sale_offer = update2 s.sale_offer invoice_id seller offer })

  -- The storage and the ledger after the sale.
  unfoldable pub buy_position : PoolState → W → Address → ℕ → Address → Call (PoolState × W)
  unfolding require_no_escrow require_not_paused
  buy_position s w buyer invoice_id seller = do
    require_no_escrow s invoice_id
    require_auth env buyer
    require_not_paused env s
    offer ← ok_or (s.sale_offer invoice_id seller) FinancingPoolError.sale_not_found
    pool ← load_open_pool s invoice_id
    let positions = positions_of s invoice_id
    seller_position ← ok_or (lookup seller positions) FinancingPoolError.position_not_found
    let buyer_position : Position = record {
      investor = buyer;
      invoice_id = invoice_id;
      contributed = seller_position.contributed;
      share_bps = seller_position.share_bps;
      yield_claimed = seller_position.yield_claimed;
    }
    w' ← transfer peers.token w offer.token buyer seller offer.price
    ok (
      record s {
        sale_offer = remove2 s.sale_offer invoice_id seller;
        positions =
            update s.positions invoice_id (insert buyer buyer_position (erase seller positions));
      },
      w',
    )
