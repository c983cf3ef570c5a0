-- ===== src/FinancingPool/Shares.antt =====
-- The shares that an investor splits from a position: their record, their transfer and their sale.
use kora_contract.Prelude.{
  ℕ, Bool, false, ◌&&◌, ◌||◌, Option, none, some, List, [], ◌∷◌, ◌==◌, if◌then◌else◌, unwrap_or,
  is_some,
}
use kora_contract.Prelude.Int.{ℤ, pos, leb_ℤ, ltb_ℤ}
use kora_contract.Prelude.Int128.{saturating_add_u, u32_limit}
use kora_contract.Prelude.Results.{ok, ◌>>=◌, ◌>>◌, guard, refuse_if, ok_or}
use kora_contract.Prelude.Store.{update2, lookup, insert}
use kora_contract.Shared.Host.{Env, Address, require_auth}
use kora_contract.Shared.Token.{transfer}
use kora_contract.Shared.Types.{PositionShare, ShareSaleOffer, EarlySettlementOffer}
use kora_contract.FinancingPool.State.{FinancingPoolError, Call, PoolState, Peers}
use kora_contract.FinancingPool.Guards.{
  require_no_escrow, require_not_paused, load_open_pool, positions_of,
}

-- `list.iter().any(|a| a == x)`
abbrev pub any_is : Address → List Address → Bool
any_is x [] = false
any_is x (a ∷ rest) = a == x || any_is x rest

abbrev has_accepted : Address → Option EarlySettlementOffer → Bool
has_accepted seller none = false
has_accepted seller (some offer) = any_is seller offer.accepted

abbrev at_share :
    (ℕ → Address → ℕ → Option ShareSaleOffer)
    → ℕ
    → Address
    → ℕ
    → Option ShareSaleOffer
    → ℕ
    → Address
    → ℕ
    → Option ShareSaleOffer
at_share s id investor index o i a j =
    if (id == i) && (investor == a) && (index == j) then o else s i a j

module _ (env : Env) where
  unfoldable pub split_position : PoolState → Address → ℕ → ℤ → Call (PoolState × ℕ)
  unfolding require_no_escrow require_not_paused
  split_position s caller invoice_id amount = do
    require_no_escrow s invoice_id
    require_auth env caller
    require_not_paused env s
    pool ← load_open_pool s invoice_id
    position ←
        ok_or (lookup caller (positions_of s invoice_id)) FinancingPoolError.position_not_found
    refuse_if (leb_ℤ amount (pos 0) || ltb_ℤ position.contributed amount)
        FinancingPoolError.invalid_amount
    let share_index = unwrap_or (s.position_share_counter invoice_id caller) 0
    let new_index = saturating_add_u u32_limit share_index 1
    let share : PositionShare = record {
      invoice_id = invoice_id;
      original_investor = caller;
      share_index = new_index;
      amount = amount;
      owner = caller;
    }
    let shares = unwrap_or (s.position_shares invoice_id caller) []
    ok (
      record s {
        position_shares =
            update2 s.position_shares invoice_id caller (insert new_index share shares);
        position_share_counter = update2 s.position_share_counter invoice_id caller new_index;
      },
      new_index,
    )

  unfoldable pub transfer_share : PoolState → Address → ℕ → Address → ℕ → Address → Call PoolState
  unfolding require_no_escrow require_not_paused
  transfer_share s caller invoice_id original_investor share_index new_owner = do
    require_no_escrow s invoice_id
    require_auth env caller
    require_not_paused env s
    pool ← load_open_pool s invoice_id
    shares ←
        ok_or (s.position_shares invoice_id original_investor) FinancingPoolError.share_not_found
    share ← ok_or (lookup share_index shares) FinancingPoolError.share_not_found
    guard (share.owner == caller) FinancingPoolError.not_position_owner
    let shares' = insert share_index (record share { owner = new_owner }) shares
    ok (record s {
      position_shares = update2 s.position_shares invoice_id original_investor shares';
    })

  unfoldable pub list_share_for_sale :
      PoolState → Address → ℕ → Address → ℕ → Address → ℤ → Call PoolState
  unfolding require_no_escrow require_not_paused
  list_share_for_sale s seller invoice_id original_investor share_index token price = do
    require_no_escrow s invoice_id
    require_auth env seller
    require_not_paused env s
    refuse_if (leb_ℤ price (pos 0)) FinancingPoolError.invalid_amount
    pool ← load_open_pool s invoice_id
    shares ←
        ok_or (s.position_shares invoice_id original_investor) FinancingPoolError.share_not_found
    share ← ok_or (lookup share_index shares) FinancingPoolError.share_not_found
    guard (share.owner == seller) FinancingPoolError.not_position_owner
    refuse_if (is_some (s.repayment_lock invoice_id)) FinancingPoolError.unauthorized
    refuse_if (has_accepted seller (s.early_settlement invoice_id)) FinancingPoolError.unauthorized
    refuse_if (is_some (s.share_sale_offer invoice_id original_investor share_index))
        FinancingPoolError.sale_already_listed
    let offer : ShareSaleOffer = record {
      seller = seller;
      invoice_id = invoice_id;
      original_investor = original_investor;
      share_index = share_index;
      token = token;
      price = price;
    }
    ok (record s {
      share_sale_offer =
          at_share s.share_sale_offer invoice_id original_investor share_index (some offer);
    })

  -- The storage and the ledger after the sale.
  unfoldable pub buy_share :
      {W : Type 0}
      → Peers W
      → PoolState
      → W
      → Address
      → ℕ
      → Address
      → Address
      → ℕ
      → Call (PoolState × W)
  unfolding require_no_escrow require_not_paused
  buy_share peers s w buyer invoice_id seller original_investor share_index = do
    require_no_escrow s invoice_id
    require_auth env buyer
    require_not_paused env s
    refuse_if (is_some (s.repayment_lock invoice_id)) FinancingPoolError.unauthorized
    offer ←
        ok_or (s.share_sale_offer invoice_id original_investor share_index)
          FinancingPoolError.sale_not_found
    guard (offer.seller == seller) FinancingPoolError.sale_not_found
    pool ← load_open_pool s invoice_id
    shares ←
        ok_or (s.position_shares invoice_id original_investor) FinancingPoolError.share_not_found
    share ← ok_or (lookup share_index shares) FinancingPoolError.share_not_found
    w' ← transfer peers.token w offer.token buyer seller offer.price
    ok (
      record s {
        share_sale_offer =
            at_share s.share_sale_offer invoice_id original_investor share_index none;
        position_shares =
            update2 s.position_shares invoice_id original_investor
              (insert share_index (record share { owner = buyer }) shares);
      },
      w',
    )
