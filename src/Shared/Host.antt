-- ===== src/Shared/Host.antt =====
-- What the Soroban host gives a contract call: the ledger's time, the running contract, its caller
-- and the signatures. Addresses and symbols are only compared, so both are numbers.
use kora_contract.Prelude.{ℕ, Bool, List, Option}
use kora_contract.Prelude.Int.{ℤ}
use kora_contract.Prelude.Results.{Result, assert_host}

abbrev pub Address : Type 0
Address = ℕ

abbrev pub Symbol : Type 0
Symbol = ℕ

abbrev pub Bytes : Type 0
Bytes = List ℕ

-- A profile of the risk registry (contracts/shared/src/types.rs).
pub record SmeProfile : Type 0 where
  pub address : Address
  pub verified : Bool
  pub verifier : Address
  pub risk_score : ℕ
  pub total_invoices : ℕ
  pub defaults : ℕ
  pub registered_at : ℕ
  pub compliance_attested : Bool
  pub credit_limit : ℤ

pub record Env : Type 0 where
  -- `env.ledger().timestamp()`
  pub now : ℕ
  -- `env.current_contract_address()`
  pub contract : Address
  -- `env.invoker()`
  pub invoker : Address
  -- Whether an address has authorised this call.
  pub signed : Address → Bool
  -- The answers of other contracts, by their address: `is_paused` of the access control, and
  -- `try_get_sme_profile` of the risk registry, `none` where that fails.
  pub is_paused : Address → Bool
  pub sme_profile : Address → Address → Option SmeProfile

-- `a.require_auth()`
abbrev pub require_auth : {E : Type 0} → Env → Address → Result E (Unit {0})
require_auth env a = assert_host (env.signed a)
