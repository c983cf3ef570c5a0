-- ===== src/Lib.antt =====
-- Kora, a protocol for financing invoices on Soroban: a model of its shared library and of its invoice,
-- marketplace, financing pool, referral rewards and vesting contracts, and of the treasury's fees, with
-- the theorems about them.
--
-- The program. contracts/shared holds the types, errors, guards and overflow-safe arithmetic that every
-- contract uses. contracts/invoice_nft keeps the invoices: an SME mints them, the marketplace lists
-- them, the financing pool marks them funded and repaid, the admin marks them defaulted, freezes and
-- archives them. contracts/marketplace offers an invoice at a price below its face value; investors pay
-- it in parts, a fee to contracts/treasury and the rest to the pool, which takes the invoice over when
-- the listing is full, or they get their money back when it is cancelled or expires.
-- contracts/invoice_nft caches for every SME the face value of the invoices that are still open, against
-- which a mint checks the SME's credit limit, and it limits the rate of mints. contracts/financing_pool
-- opens a pool for a funded invoice, records the positions of its investors, takes the repayments, adds
-- the late penalty, distributes what was repaid by the basis points of the positions, and tells the
-- invoice contract of the repayment or the default. contracts/referral_rewards pays a bonus to the
-- referrer of an SME whose first invoice is repaid. contracts/vesting releases grants over time.
--
-- The files.
--   Prelude, Prelude/*: numbers, Boolean tests, the i128 with its checked operations, results with an
--     error or a trap, storage as a function from keys to entries.
--   Shared/Host: what the host gives a call (time, contract, signatures, the answers of the access
--     control's is_paused and of the risk registry's get_sme_profile). These answers are parameters: no
--     theorem assumes anything of them.
--   Shared/Errors, Shared/Types, Shared/Validation, Shared/Cid, Shared/Decimals: contracts/shared/src
--     errors.rs, types.rs and validation.rs, under the functions' own names.
--   Shared/Amounts: what bps_of, normalize_amount and denormalize_amount compute. Shared/CidFormat: what
--     an accepted content identifier looks like.
--   InvoiceNft/State: the keys of contracts/invoice_nft/src/lib.rs as the fields of NftState.
--   InvoiceNft/Guards, Admin, Mint, Edit, Status, Freeze, Metadata, Views: its functions, under their
--     own names. A long function is cut where the code has a comment or a loop: mint_invoice into check_terms,
--     check_tier_bounds, check_document, new_exposure, check_credit and mint_writes,
--     mint_invoices_batch into check_batch, mint_batch_loop and finish_batch.
--   InvoiceNft/Requests: the calls as data, the result of one call, a history of calls. A call that
--     fails leaves the storage as it was, as the host undoes its writes.
--   InvoiceNft/Lifecycle: the status diagram over every call. InvoiceNft/Exposure: the cached exposure
--     against the sum over the open invoices. InvoiceNft/Access, Quota, Referrals, Audit, Freezing,
--     Hashes: who may call, the rate limit, the chain of referrers, the audit log, the bulk freeze, the
--     commitment to a document's hash. InvoiceNft/Pages: the pages of an SME's list. The modules Tests
--     hold runs on concrete histories.
--   Shared/Token: the token contracts, which are not in the repository, as a parameter: their calls on a
--     ledger of any type, and what they document of a transfer. Shared/Ledger: a table of balances that
--     behaves so, for the runs.
--   FinancingPool/State, Guards, Admin, Positions, Shares, Distribution, Repayment, Lifecycle, Settlement:
--     contracts/financing_pool/src/lib.rs, under its functions' own names. record_position is cut into
--     share_bps_of and store_position, repay_internal into apply_terms, pay_in and close_pool,
--     distribute_yield by its loops, mark_default into require_defaultable and finish_default. The
--     World of a call is the pool's storage, the ledger and the invoice contract's storage.
--   FinancingPool/Distribution/Rounding, Payouts, Bounds: what a distribution takes. FinancingPool/Requests: the calls as data
--     and their histories. FinancingPool/Finality and Settled: closed pools, locks and settled invoices
--     over those histories. FinancingPool/Repayment/Penalty and Partial, Positions/Cap,
--     Settlement/Schedules: the late penalty, the partial repayment, the cap on a position and the
--     schedules that are accepted.
--   Treasury/Fees: collect_fee and refund_fee of contracts/treasury/src/lib.rs, which the marketplace calls.
--   Marketplace/State, Guards, Admin, Multisig, Listing, Funding, Cancellation, Investors:
--     contracts/marketplace/src/lib.rs, under its functions' own names. fund_invoice_internal is cut into
--     check_funding and allocate (Funding/Amounts), enter_investor and settle, which computes the books in store_funding and
--     pays by pay_treasury, pay_pool and hand_over; claim_refund into check_refund and pay_back, which
--     cancel_listing shares in its loop refund_each. The Protocol of a call is the storage of the
--     marketplace, the pool, the invoice contract and the treasury, and the ledger.
--   Marketplace/Requests: the calls as data and their histories. Marketplace/Lifecycle: the stages of a
--     listing with their edges; Follows, Bystanders, Listings, Allocations, Books, Fundings, Cancellations
--     and Refunds follow each call along them, and History a whole history. Marketplace/Payments: what a funding and a refund move;
--     Prices has what is computed, Trips, Returns and Once hold the results. Marketplace/Investors/Pages: the page of investors.
--   ReferralRewards/State, Calls: contracts/referral_rewards/src/lib.rs. ReferralRewards/Solvency: its
--     money over every history. ReferralRewards/Claims: who is paid, and how often.
--   Vesting/Calls: contracts/vesting/src/lib.rs. Vesting/Shares, Schedule, History: what has vested and what is
--     released.
--
-- Conventions. An address, a symbol and a string's byte are numbers. An operation returns ok, an error
-- of the contract, or a trap of the host. The u64 and u32 sums that the code leaves unchecked trap, as
-- the release profile has overflow checks. A loop over identifiers or over a list is recursion on the
-- number of rounds or on the list, so it ends; the walk up the chain of referrers has the code's own
-- bound of 32 hops. Ids of records run from 1 to the counter less one, so the scan of all records is
-- recursion on the counter.
--
-- The loops over positions, shares and installments are recursion on the list, and the host's Map is a
-- list in the order of its keys. The pool takes the answers of the parameter registry, the price oracle and
-- the dispute contract as parameters, of which nothing is assumed; no contract is entered again during a call.
--
-- The page of a listing's investors is a loop on 51 rounds of fuel: a page has at most 50 entries, and
-- one round more finds the end. The marketplace takes the answers of the risk registry, the attestations,
-- the oracle, the parameter registry and the access control as parameters; so are check_debtor_cap,
-- add_debtor_exposure and remove_debtor_exposure, which its code calls and the repository declares nowhere.
-- A batch of fundings that is not atomic keeps what a failed one wrote, so its errors carry the storage.
--
-- Not modelled: the marketplace's migration and the storage keys of deployments from before its Config entry;
-- the rest of the treasury; events and the extension of lifetimes, which no function reads back; the migration and
-- the upgrade timelock of the invoice contract; net_settle, the auto-compounding preference, the migration
-- and the dispute escrow of the pool, whose functions the file declares more than once; the books that the
-- treasury and the risk registry keep of what the pool reports to them, whose failure the pool ignores; the
-- other contracts, and the services, applications and tools outside contracts/.
pub mod Prelude
pub mod Shared
pub mod InvoiceNft
pub mod ReferralRewards
pub mod FinancingPool
pub mod Vesting
pub mod Treasury
pub mod Marketplace
