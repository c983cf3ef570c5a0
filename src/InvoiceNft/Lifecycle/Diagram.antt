-- ===== src/InvoiceNft/Lifecycle/Diagram.antt =====
-- The diagram of the statuses, and what one call may do to the invoice of one identifier.
use kora_contract.Prelude.{ℕ, ◌≤◌, ◌≡◌, ◌⊎◌, Option, none, some, arith, unwrap_or}
use kora_contract.Shared.Types.{InvoiceStatus, created, listed, funded, repaid, defaulted}
use kora_contract.InvoiceNft.State.{NftState}

-- The status of an invoice, `none` where the contract has no record.
abbrev pub status_of : NftState → ℕ → Option InvoiceStatus
status_of s id = elim (s.hot id) [ none ↦ none | some hot ↦ some hot.status ]

-- The first identifier that is not allocated.
abbrev pub next_of : NftState → ℕ
next_of s = unwrap_or s.next_id 1

infix 40 ◌⟶◌
pub data ◌⟶◌ : Option InvoiceStatus → Option InvoiceStatus → Type 0 where
  stay : {o : Option InvoiceStatus} → o ⟶ o
  list : some created ⟶ some listed
  delist : some listed ⟶ some created
  fund : some listed ⟶ some funded
  repay : some funded ⟶ some repaid
  default : some funded ⟶ some defaulted
  withdraw : some created ⟶ none
  archive_repaid : some repaid ⟶ none
  archive_defaulted : some defaulted ⟶ none

pub ruleset edges =
    (stay, list, delist, fund, repay, default, withdraw, archive_repaid, archive_defaulted)

-- An identifier that is not allocated has no record.
abbrev pub IsFresh : NftState → ℕ → Type 0
IsFresh s j = next_of s ≤ j → status_of s j ≡ none

-- An edge of the diagram, or a mint of an identifier that was not allocated.
abbrev pub Moves : NftState → NftState → ℕ → Type 0
Moves s s' j =
    (status_of s j ⟶ status_of s' j)
    ⊎ ((next_of s ≤ j) × (status_of s j ≡ none) × (status_of s' j ≡ some created))

pub record Advances (s s' : NftState) (j : ℕ) : Type 0 where
  pub moves : Moves s s' j
  pub grows : next_of s ≤ next_of s'
  pub fresh : IsFresh s' j

-- Two states that agree on the records, on the next identifier and on the exposures.
pub record Agrees (s s' : NftState) : Type 0 where
  pub same_hot : s'.hot ≡ s.hot
  pub same_next : s'.next_id ≡ s.next_id
  pub same_cache : s'.exposure ≡ s.exposure

pub Agrees-Advances : (s s' : NftState) (j : ℕ) → IsFresh s j → Agrees s s' → Advances s s' j
Agrees-Advances s s' j fresh agree = grind (arith, edges)
