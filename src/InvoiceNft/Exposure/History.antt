-- ===== src/InvoiceNft/Exposure/History.antt =====
-- The cached exposures over the life of a deployed contract.
use kora_contract.Prelude.{◌≡◌, refl, some, List, arith}
use kora_contract.Prelude.Results.{ok}
use kora_contract.Shared.Host.{Env, Address}
use kora_contract.InvoiceNft.State.{NftState, empty_storage}
use kora_contract.InvoiceNft.Admin.{initialize, schema_version}
use kora_contract.InvoiceNft.Views.{get_outstanding_exposure, reconcile_outstanding_exposure}
use kora_contract.InvoiceNft.Requests.{Request, run}
use kora_contract.InvoiceNft.Exposure.Sum.{owed}
use kora_contract.InvoiceNft.Exposure.Balance.{IsBalanced}
use kora_contract.InvoiceNft.Exposure.Scan.{reconcile-eq-cached}
use kora_contract.InvoiceNft.Exposure.Steps.{NoAmendment, run-IsBalanced}

-- What `initialize` writes.
abbrev pub initial : Address → Address → NftState
initial admin access_control = record empty_storage {
  admin = some admin;
  access_control = some access_control;
  next_id = some 1;
  migration_version = some schema_version;
}

pub initial-IsBalanced :
    (admin access_control : Address) → IsBalanced (initial admin access_control)
unfolding owed get_outstanding_exposure
initial-IsBalanced admin access_control = record {
  started = omega arith;
  unused_zero = refl;
  fresh = λ j le. refl;
  priced = λ j h e. absurd (cc (e));
  cached = λ sme. refl;
  bounded = λ sme. omega arith;
}

initialize-initial :
    (env : Env) (admin access_control : Address) (s0 : NftState)
    → initialize env empty_storage admin access_control ≡ ok s0
    → s0 ≡ initial admin access_control
unfolding initialize
initialize-initial env admin access_control s0 e = ground arith

-- From the storage that `initialize` leaves, after any history of calls without an amendment, whether
-- they succeed or fail, the scan over all invoices gives the cached exposure of every SME.
pub reconcile_outstanding_exposure-run :
    (env : Env) (admin access_control : Address) (s0 : NftState) (cs : List (Env × Request))
    (sme : Address)
    → initialize env empty_storage admin access_control ≡ ok s0
    → NoAmendment cs
    → reconcile_outstanding_exposure (run s0 cs) sme ≡ get_outstanding_exposure (run s0 cs) sme
reconcile_outstanding_exposure-run env admin access_control s0 cs sme e n =
    reconcile-eq-cached (run s0 cs) sme (
      run-IsBalanced s0 cs n (
        rw (initialize-initial env admin access_control s0 e)
          (initial-IsBalanced admin access_control)))
