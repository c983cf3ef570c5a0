-- ===== src/InvoiceNft/Tests.antt =====
-- The invoice contract on small concrete histories.
use Prim.Native.Nat.{min}
use kora_contract.Prelude.{take, drop}
use kora_contract.Prelude.{
  ◌+◌, ◌≤◌, ◌≡◌, refl, ◌⊎◌, inl, inr, true, false, none, some, List, [], ◌∷◌, arith,
}
use kora_contract.Prelude.Int.{pos}
use kora_contract.Prelude.Results.{ok}
use kora_contract.Prelude.Store.{update}
use kora_contract.Shared.Host.{Env}
use kora_contract.Shared.Types.{created, repaid, aa}
use kora_contract.Shared.Validation.{require_batch_size_within_limit}
use kora_contract.InvoiceNft.State.{
  NftState, InvoiceHot, InvoiceCold, BatchInvoiceInput, AuditAction,
}
use kora_contract.InvoiceNft.Admin.{initialize, get_protocol_config}
use kora_contract.InvoiceNft.Guards.{
  append_audit_entry, acquire_guard, consume_mint_quota, require_not_paused,
}
use kora_contract.InvoiceNft.Mint
use kora_contract.InvoiceNft.Edit.{amend_invoice, Amendment}
use kora_contract.InvoiceNft.Freeze.{freeze_sme_invoices, freeze_loop}
use kora_contract.InvoiceNft.Views.{reconcile_outstanding_exposure, get_outstanding_exposure}
use kora_contract.InvoiceNft.Requests.{Request, execute, step, run}
use kora_contract.InvoiceNft.Lifecycle.{
  Advances, IsSettled, status_of, step-Advances, run-IsSettled,
}
use kora_contract.InvoiceNft.Access.{IsAuthorized, execute-ok-IsAuthorized}
use kora_contract.InvoiceNft.Audit.{IsRing, append_audit_entry-IsRing}
use kora_contract.InvoiceNft.Freezing.{IsFrozen, freeze_sme_invoices-IsFrozen}
use kora_contract.Prelude.{◌≢◌}
use kora_contract.InvoiceNft.Metadata.{commit_metadata_hash}
use kora_contract.InvoiceNft.Hashes.{commit_metadata_hash-commit_metadata_hash}
use kora_contract.InvoiceNft.Views.{get_sme_invoice_ids}
use kora_contract.InvoiceNft.Pages.{get_sme_invoice_ids-take}
use kora_contract.InvoiceNft.Quota.{quota_used, mint_invoice-used, mint_invoices_batch-used}
use kora_contract.InvoiceNft.Referrals.{
  IsAcyclic, referrer_at, mint_invoice_with_referrer-IsAcyclic,
}
use kora_contract.InvoiceNft.Exposure.Balance.{IsBalanced}
use kora_contract.InvoiceNft.Exposure.Mints.{mint_invoice-IsBalanced}
use kora_contract.InvoiceNft.Exposure.Steps.{run-IsBalanced}
use kora_contract.InvoiceNft.Exposure.Amend.{amend_invoice-IsBalanced}
use kora_contract.InvoiceNft.Exposure.History.{
  initial, initial-IsBalanced, reconcile_outstanding_exposure-run,
}

-- Time 100; every address has signed; nothing is paused.
abbrev host : Env
host = record {
  now = 100;
  contract = 900;
  invoker = 7;
  signed = λ a. true;
  is_paused = λ a. false;
  sme_profile = λ registry sme. none;
}

abbrev invoice : BatchInvoiceInput
invoice = record {
  debtor_hash = 1 ∷ [];
  amount = pos 5000;
  currency = 3;
  due_date = 200;
  ipfs_cid = 81 ∷ [];
  risk_score = 30;
  notes = none;
}

abbrev calls : List (Env × Request)
calls = (host, Request.mint_invoice 7 invoice) ∷ (host, Request.withdraw_invoice 7 1) ∷ []

-- After `initialize`, with admin 1 and access control 2.
abbrev fresh : NftState
fresh = initial 1 2

reconcile_outstanding_exposure-run_example :
    reconcile_outstanding_exposure (run fresh calls) 7
    ≡ get_outstanding_exposure (run fresh calls) 7
unfolding initialize
reconcile_outstanding_exposure-run_example =
    reconcile_outstanding_exposure-run host 1 2 fresh calls 7 refl (refl, (refl, tt))

run-IsBalanced_example : IsBalanced (run fresh calls)
run-IsBalanced_example = run-IsBalanced fresh calls (refl, (refl, tt)) (initial-IsBalanced 1 2)

step-Advances_example : Advances fresh (step fresh (host, Request.mint_invoice 7 invoice)) 1
step-Advances_example = step-Advances fresh (host, Request.mint_invoice 7 invoice) 1 (λ le. refl)

-- The record of the invoice once it is minted.
abbrev minted_hot : InvoiceHot
minted_hot = record {
  id = 1;
  sme = 7;
  amount = pos 5000;
  currency = 3;
  due_date = 200;
  risk_score = 30;
  risk_tier = aa;
  status = created;
  created_at = 100;
  funded_at = none;
  repaid_at = none;
}

abbrev minted_cold : InvoiceCold
minted_cold = record { debtor_hash = 1 ∷ []; ipfs_cid = 81 ∷ []; metadata_hash = []; notes = none }

-- A limit of four mints a day.
abbrev limited : NftState
limited = record fresh { mint_rate_limit = some (record { max_mints = 4; window_secs = 86_400 }) }

abbrev minted : NftState
minted = record limited {
  next_id = some 2;
  hot = update limited.hot 1 minted_hot;
  cold = update limited.cold 1 minted_cold;
  exposure = update limited.exposure 7 (pos 5000);
  sme_invoice_ids = update limited.sme_invoice_ids 7 (1 ∷ []);
  first_mint = update limited.first_mint 7 1;
  mint_window = update (update limited.mint_window 7 (100, 1)) 7 (100, 2);
}

mint_invoice-minted : Mint.mint_invoice host limited 7 invoice ≡ ok (minted, 1)
unfolding Mint.mint_invoice require_not_paused acquire_guard consume_mint_quota Mint.check_terms
    Mint.check_tier_bounds Mint.check_document Mint.new_exposure Mint.check_credit Mint.mint_writes
    get_protocol_config
mint_invoice-minted = refl

mint_invoice-used_example :
    (quota_used host 86_400 minted 7 ≡ quota_used host 86_400 limited 7 + 2)
    × (quota_used host 86_400 minted 7 ≤ 4)
mint_invoice-used_example =
    mint_invoice-used host limited 7 invoice 4 86_400 minted 1 refl (omega arith)
      mint_invoice-minted

execute-minted : execute host limited (Request.mint_invoice 7 invoice) ≡ ok minted
unfolding execute
execute-minted = rw mint_invoice-minted refl

execute-ok-IsAuthorized_example : IsAuthorized host limited (Request.mint_invoice 7 invoice)
execute-ok-IsAuthorized_example =
    execute-ok-IsAuthorized host limited (Request.mint_invoice 7 invoice) minted execute-minted

minted-IsBalanced : IsBalanced minted
unfolding get_outstanding_exposure
minted-IsBalanced =
    let b = initial-IsBalanced 1 2 in
    mint_invoice-IsBalanced host limited 7 invoice minted 1
      (record {
        started = b.started;
        unused_zero = b.unused_zero;
        fresh = b.fresh;
        priced = b.priced;
        cached = b.cached;
        bounded = b.bounded;
      })
      mint_invoice-minted

-- Six thousand in place of five thousand.
abbrev new_terms : Amendment
new_terms = record {
  debtor_hash = 2 ∷ [];
  amount = pos 6000;
  due_date = 300;
  ipfs_cid = 81 ∷ [];
  risk_score = 30;
}

abbrev after_amendment : NftState
after_amendment = record minted {
  hot = update minted.hot 1 (record minted_hot { amount = pos 6000; due_date = 300 });
  cold = update minted.cold 1 (record minted_cold { debtor_hash = 2 ∷ [] });
}

amend_invoice-IsBalanced_example :
    (IsBalanced after_amendment → pos 6000 ≡ pos 5000)
    × (pos 6000 ≡ pos 5000 → IsBalanced after_amendment)
unfolding amend_invoice
amend_invoice-IsBalanced_example =
    amend_invoice-IsBalanced host minted 7 1 new_terms after_amendment minted_hot minted-IsBalanced
      refl refl

abbrev settled : NftState
settled = record minted { hot = update minted.hot 1 (record minted_hot { status = repaid }) }

run-IsSettled_example :
    IsSettled (run settled calls) 1
    × ((status_of (run settled calls) 1 ≡ status_of settled 1)
        ⊎ (status_of (run settled calls) 1 ≡ none))
run-IsSettled_example =
    run-IsSettled settled calls 1 (λ le. absurd (omega arith)) (omega arith, inr (inl refl))

abbrev batched : NftState
batched = record limited {
  next_id = some 2;
  hot = update limited.hot 1 minted_hot;
  cold = update limited.cold 1 minted_cold;
  exposure = update limited.exposure 7 (pos 5000);
  sme_invoice_ids = update limited.sme_invoice_ids 7 (1 ∷ []);
  first_mint = update limited.first_mint 7 1;
  mint_window = update limited.mint_window 7 (100, 1);
  next_batch_id = some 2;
}

mint_invoices_batch-batched :
    Mint.mint_invoices_batch host limited 7 (invoice ∷ []) ≡ ok (batched, 1 ∷ [])
unfolding Mint.mint_invoices_batch require_not_paused acquire_guard consume_mint_quota
    Mint.check_batch Mint.mint_batch_loop Mint.finish_batch Mint.add_exposure Mint.new_exposure
    Mint.close_batch get_protocol_config require_batch_size_within_limit
mint_invoices_batch-batched = refl

mint_invoices_batch-used_example :
    (quota_used host 86_400 batched 7 ≡ quota_used host 86_400 limited 7 + 1)
    × (quota_used host 86_400 batched 7 ≤ 4)
mint_invoices_batch-used_example =
    mint_invoices_batch-used host limited 7 (invoice ∷ []) 4 86_400 batched (1 ∷ []) refl
      (omega arith) mint_invoices_batch-batched

abbrev referred : NftState
referred = record minted { sme_referrer = update minted.sme_referrer 7 8 }

referred-minted : Mint.mint_invoice_with_referrer host limited 7 invoice (some 8) ≡ ok (referred, 1)
unfolding Mint.mint_invoice_with_referrer Mint.check_referrer
referred-minted = rw mint_invoice-minted refl

nobody : IsAcyclic limited.sme_referrer
unfolding referrer_at
nobody a n e = cc (e)

mint_invoice_with_referrer-IsAcyclic_example : IsAcyclic referred.sme_referrer
mint_invoice_with_referrer-IsAcyclic_example =
    mint_invoice_with_referrer-IsAcyclic host limited 7 invoice (some 8) referred 1 nobody
      referred-minted

abbrev logged : NftState
logged = record fresh {
  audit_entries =
      update fresh.audit_entries 0
        (record { sequence = 0; timestamp = 100; actor = 1; action = AuditAction.freeze_invoice });
  audit_head = some 1;
  audit_total = some 1;
}

append_audit_entry-IsRing_example : IsRing logged
unfolding append_audit_entry
append_audit_entry-IsRing_example =
    append_audit_entry-IsRing host fresh 1 AuditAction.freeze_invoice logged
      (record { at_head = refl; kept = λ j lt le. absurd (omega arith) }) refl

abbrev frozen_one : NftState
frozen_one = record minted { frozen = update minted.frozen 1 true }

was_frozen : freeze_sme_invoices host minted 1 7 5 ≡ ok (frozen_one, 1)
unfolding freeze_sme_invoices freeze_loop
was_frozen = refl

freeze_sme_invoices-IsFrozen_example : IsFrozen minted 0 5 (1 ∷ []) frozen_one 1
freeze_sme_invoices-IsFrozen_example =
    freeze_sme_invoices-IsFrozen host minted 1 7 5 frozen_one 1 was_frozen

abbrev pledged : NftState
pledged = record minted {
  cold = update minted.cold 1 (record minted_cold { metadata_hash = 9 ∷ [] });
}

was_pledged : commit_metadata_hash host minted 7 1 (9 ∷ []) ≡ ok pledged
unfolding commit_metadata_hash
was_pledged = refl

-- The document's address is changed, and the invoice listed and taken back.
abbrev later : List (Env × Request)
later =
    (host, Request.update_metadata_cid 7 1 (82 ∷ []))
    ∷ (host, Request.set_listed 30 1)
    ∷ (host, Request.set_created 30 1)
    ∷ []

commit_metadata_hash-commit_metadata_hash_example :
    commit_metadata_hash host (run pledged later) 7 1 (8 ∷ []) ≢ ok minted
commit_metadata_hash-commit_metadata_hash_example =
    commit_metadata_hash-commit_metadata_hash host host minted pledged minted later 7 7 1 (9 ∷ [])
      (8 ∷ []) (λ le. absurd (omega (arith, le))) was_pledged

abbrev indexed : NftState
indexed = record fresh { sme_invoice_ids = update fresh.sme_invoice_ids 7 (4 ∷ 6 ∷ 9 ∷ 12 ∷ []) }

get_sme_invoice_ids-take_example :
    get_sme_invoice_ids indexed 7 1 2 ≡ take (min 2 100) (drop 1 (4 ∷ 6 ∷ 9 ∷ 12 ∷ []))
get_sme_invoice_ids-take_example = get_sme_invoice_ids-take indexed 7 1 2 (omega arith)

-- The page, and the next one.
one_page : get_sme_invoice_ids indexed 7 1 2 ≡ 6 ∷ 9 ∷ []
unfolding get_sme_invoice_ids
one_page = refl

last_page : get_sme_invoice_ids indexed 7 3 2 ≡ 12 ∷ []
unfolding get_sme_invoice_ids
last_page = refl
