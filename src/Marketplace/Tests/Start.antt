-- ===== src/Marketplace/Tests/Start.antt =====
-- The storage and the answers with which the runs start.
use kora_contract.Prelude.{◌≡◌, refl, true, false, some, none, [], ◌∷◌, ◌==◌, if◌then◌else◌}
use kora_contract.Prelude.Int.{pos}
use kora_contract.Prelude.Results.{ok}
use kora_contract.Prelude.Store.{update}
use kora_contract.Shared.Host.{Env}
use kora_contract.Shared.Types.{Listing, listed, aa}
use kora_contract.Shared.Ledger.{Ledger, ledger, ledger-IsToken}
use kora_contract.InvoiceNft.State.{NftState, InvoiceHot, InvoiceCold, empty_storage}
use kora_contract.FinancingPool.State.{PoolState}
use kora_contract.FinancingPool.State as Pool
use kora_contract.Treasury.Fees.{TreasuryState}
use kora_contract.Marketplace.State.{
  Call, MarketState, MarketplaceConfig, Peers, Protocol, AttestationStatus,
}
use kora_contract.Marketplace.Payments.{IsMarketPeers}

-- The marketplace is 60, its admin 1, the invoice contract 2, the access control 3, the treasury 4, the token 5 and
-- the pool 50.
abbrev pub host : Env
host = record {
  now = 100;
  contract = 60;
  invoker = 21;
  signed = λ a. true;
  is_paused = λ a. false;
  sme_profile = λ registry sme. none;
}

-- After the deadline of the listing.
abbrev pub afterwards : Env
afterwards = record host { now = 300 }

abbrev pub pool_peers : Pool.Peers Ledger
pool_peers = record {
  token = ledger;
  token_symbol = λ k. [];
  symbol = λ text. 3;
  parameter = λ registry key. none;
  convert = λ oracle amount from to. none;
  has_open_dispute = λ c id. none;
}

abbrev pub peers : Peers Ledger
peers = record {
  pool = pool_peers;
  is_compliance_attested = λ k a. some true;
  is_debtor_verified = λ k h. some true;
  is_debtor_paused = λ k h. some false;
  is_tier_paused = λ k t. some false;
  is_confirmed = λ k id n. some true;
  attestation_status = λ k id. some AttestationStatus.confirmed;
  get_multisig_config = λ k. none;
  get_value = λ w k key. some (pos 0);
  set_parameter = λ w k a key n. some w;
  convert_with_decimals = λ k n from to d e. none;
  is_utf8 = λ text. true;
  new_symbol = λ text. some 3;
  check_debtor_cap = λ w h n. ok tt;
  add_debtor_exposure = λ w h id n. ok w;
  remove_debtor_exposure = λ w h id n. ok w;
}

abbrev pub returned : Ledger → Call Ledger
returned w = ok w

ok_same : (w w' : Ledger) → returned w ≡ ok w' → w ≡ w'
ok_same w w' e = cc (e)

pub peers-IsMarketPeers : IsMarketPeers peers
peers-IsMarketPeers = record {
  token = ledger-IsToken;
  added = λ w w' h id n e k z. rw (ok_same w w' e) refl;
  removed = λ w w' h id n e k z. rw (ok_same w w' e) refl;
}

abbrev pub settings : MarketplaceConfig
settings = record {
  admin = 1;
  invoice_nft = 2;
  financing_pool = 50;
  treasury = 4;
  access_control = 3;
  price_oracle = 6;
  risk_registry = 8;
  parameter_registry = 9;
  fee_bps = 50;
  referrer_split_bps = 0;
}

abbrev pub offer : Listing
offer = record {
  invoice_id = 1;
  seller = 7;
  asking_price = pos 9000;
  face_value = pos 10_000;
  token = 5;
  funded_amount = pos 0;
  funding_deadline = 200;
  is_active = true;
  bidding_deadline = none;
}

abbrev pub market : MarketState
market = record {
  config = some settings;
  access_control = some 3;
  listing = λ id. if id == 1 then some offer else none;
  whitelisted_token = λ k. some true;
  whitelisted_token_list = some (5 ∷ []);
  token_whitelist_proposal = λ k. none;
  upgrade_proposal = none;
  tier_fee_bps = λ t. none;
  min_contribution_amount = some (pos 100);
  contribution = λ id i. none;
  refund_claimed = λ id i. none;
  referrer = λ id. none;
  cancellation_request = λ id. none;
  cancellation_confirmed = λ id. none;
  priority_window = λ id. none;
  token_exposure_cap = λ k. none;
  token_exposure_current = λ k. some (pos 9000);
  fee_contribution = λ id i. none;
  token_currency = λ k. some 3;
  max_investor_share_bps = none;
  gross_contribution = λ id i. none;
  investor_accredited = λ i. some true;
  listing_investors = λ id. none;
  admin_proposal = λ n. none;
  next_admin_proposal_id = none;
  dependency_update_proposal = λ n. none;
  debtor_attestation = none;
  expiry_emitted = λ id. none;
  locked = false;
}

abbrev pub pool : PoolState
pool = record {
  admin = some 1;
  invoice_nft = some 2;
  risk_registry = none;
  treasury = some 4;
  access_control = some 3;
  price_oracle = none;
  parameter_registry = none;
  marketplace = some 60;
  dispute_resolution = none;
  late_penalty_bps = some 500;
  late_penalty_treasury_split_bps = none;
  max_position_bps = some 6000;
  grace_period = none;
  schema_version = some 1;
  protocol_stats = none;
  upgrade_proposal = none;
  aggregate_funded = λ k. none;
  pool = λ id. none;
  positions = λ id. none;
  penalty_treasury_cut = λ id. none;
  repayment_lock = λ id. none;
  installment_schedule = λ id. none;
  repayment_approval = λ id. none;
  escrow_pending = λ id. none;
  escrow_credited = λ id. none;
  early_settlement = λ id. none;
  sale_offer = λ id a. none;
  position_shares = λ id a. none;
  position_share_counter = λ id a. none;
  share_sale_offer = λ id a i. none;
}

abbrev pub listed_hot : InvoiceHot
listed_hot = record {
  id = 1;
  sme = 7;
  amount = pos 10_000;
  currency = 3;
  due_date = 400;
  risk_score = 30;
  risk_tier = aa;
  status = listed;
  created_at = 1;
  funded_at = none;
  repaid_at = none;
}

abbrev pub listed_cold : InvoiceCold
listed_cold = record {
  debtor_hash = 1 ∷ [];
  ipfs_cid = 81 ∷ [];
  metadata_hash = 2 ∷ [];
  notes = none;
}

abbrev pub nft : NftState
nft = record empty_storage {
  admin = some 1;
  access_control = some 3;
  financing_pool = some 50;
  hot = update empty_storage.hot 1 listed_hot;
  cold = update empty_storage.cold 1 listed_cold;
}

abbrev pub fees : TreasuryState
fees = record {
  marketplace = some 60;
  collected = λ k. none;
  whitelisted_token = λ k. some true;
  reserve_balance = λ k. none;
  reserve_allocation_bps = none;
}

abbrev pub coins : Ledger
coins k x = if x == 21 then 5000 else 0

abbrev pub world : Protocol Ledger
world = record { market = market; pool = pool; nft = nft; treasury = fees; ledger = coins }
