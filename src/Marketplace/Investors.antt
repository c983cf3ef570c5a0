-- ===== src/Marketplace/Investors.antt =====
-- The pages of the investors of a listing, and what they have contributed.
pub mod Pages
use kora_contract.Prelude.{
  ℕ, zero, suc, ◌+◌, ◌-◌, ◌*◌, ◌^◌, Bool, true, false, Option, none, some, List, [], ◌∷◌, ◌++◌,
  length, ltb, leb, if◌then◌else◌, unwrap_or,
}
use kora_contract.Prelude.Int.{ℤ, pos}
use kora_contract.Prelude.Int128.{saturating_add, u32_limit}
use kora_contract.Shared.Host.{Address}
use kora_contract.Marketplace.State.{MarketState}

abbrev pub get_elem? : List Address → ℕ → Option Address
get_elem? [] i = none
get_elem? (y ∷ l) zero = some y
get_elem? (y ∷ l) (suc i) = get_elem? l i

-- `while i < end`, on fuel; `none` where the fuel runs out or an index is out of bounds, which traps.
unfoldable pub copy_page : ℕ → List Address → ℕ → ℕ → List Address → Option (List Address)
copy_page zero all i end out = none
copy_page (suc fuel) all i end out = elim (ltb i end) [
  | true ↦ elim (get_elem? all i) [
    | none ↦ none
    | some investor ↦ copy_page fuel all (i + 1) end (out ++ investor ∷ [])
  ]
  | false ↦ some out
]

-- `page_size.max(1).min(50)`
unfoldable pub clamp_page_size : ℕ → ℕ
clamp_page_size page_size =
    if ltb page_size 1 then 1 else if ltb 50 page_size then 50 else page_size

abbrev pub min : ℕ → ℕ → ℕ
min a b = if leb a b then a else b

-- A usize is 32 bits wide on the host.
abbrev pub saturating_usize : ℕ → ℕ
saturating_usize n = if ltb n u32_limit then n else 2 ^ 32 - 1

abbrev pub investors_of : MarketState → ℕ → List Address
investors_of s invoice_id = unwrap_or (s.listing_investors invoice_id) []

-- A page has 50 investors at most, which bounds the fuel. The sum traps where it is no usize.
unfoldable pub get_listing_investors : MarketState → ℕ → ℕ → ℕ → Option (List Address)
get_listing_investors s invoice_id page page_size =
    let size = clamp_page_size page_size in
    let all = investors_of s invoice_id in
    let start = saturating_usize (page * size) in
    if ltb (start + size) u32_limit
    then copy_page 51 all start (min (start + size) (length all)) []
    else none

abbrev pub add_contributions : MarketState → ℕ → List Address → ℤ → ℤ
add_contributions s invoice_id [] total = total
add_contributions s invoice_id (investor ∷ rest) total =
    add_contributions s invoice_id rest
      (saturating_add total (unwrap_or (s.contribution invoice_id investor) (pos 0)))

unfoldable pub get_outstanding_contribution : MarketState → ℕ → ℤ
get_outstanding_contribution s invoice_id =
    add_contributions s invoice_id (investors_of s invoice_id) (pos 0)
