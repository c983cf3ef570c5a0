-- ===== src/InvoiceNft/Pages.antt =====
-- The pages of an SME's list of invoices.
use Prim.Native.Nat.{min}
use kora_contract.Prelude.{
  ℕ, zero, suc, ◌+◌, ◌-◌, ◌^◌, ◌≤◌, ◌<◌, ◌≡◌, refl, sym, ap, inl, inr, List, [], ◌∷◌, arith,
  unwrap_or, length, leb, Bool-cases, take, drop,
}
use kora_contract.Prelude.Int128.{u32_limit, saturating_add_u}
use kora_contract.Shared.Host.{Address}
use kora_contract.InvoiceNft.State.{NftState}
use kora_contract.InvoiceNft.Views.{get_sme_invoice_ids, slice, max_sme_invoice_page}

take_nothing : (m : ℕ) → take {A = ℕ} m [] ≡ []
take_nothing zero = refl
take_nothing (suc m) = refl

-- The slice up to the end of the page or of the list, whichever comes first.
slice-take :
    (start m : ℕ) (ids : List ℕ)
    → slice start (min (start + m) (length ids)) ids ≡ take m (drop start ids)
slice-take zero m [] = sym (take_nothing m)
slice-take (suc start) m [] = sym (take_nothing m)
slice-take zero zero (x ∷ xs) = let e : min (0 + 0) (suc (length xs)) ≡ 0 = omega arith in rw e refl
slice-take zero (suc m) (x ∷ xs) =
    let e : min (0 + suc m) (suc (length xs)) ≡ suc (min (0 + m) (length xs)) = omega arith in
    rw e (ap (λ (l : List ℕ). x ∷ l) (slice-take zero m xs))
slice-take (suc start) m (x ∷ xs) =
    let e : min (suc start + m) (suc (length xs)) - 1 ≡ min (start + m) (length xs) = omega arith in
    rw e (slice-take start m xs)

take_past : (start m : ℕ) (ids : List ℕ) → length ids ≤ start → take m (drop start ids) ≡ []
take_past zero m [] le = take_nothing m
take_past (suc start) m [] le = take_nothing m
take_past zero m (x ∷ xs) le = absurd (omega (arith, le))
take_past (suc start) m (x ∷ xs) le = take_past start m xs (omega (arith, le))

-- Where the end of the page is a u32, a page has the invoices of the SME's list from the start on, in their order: as
-- many as are asked for, at most 100, and at most those that are left.
pub get_sme_invoice_ids-take :
    (s : NftState) (sme : Address) (start limit : ℕ)
    → start + min limit 100 < 2 ^ 32
    → get_sme_invoice_ids s sme start limit
      ≡ take (min limit 100) (drop start (unwrap_or (s.sme_invoice_ids sme) []))
unfolding get_sme_invoice_ids
get_sme_invoice_ids-take s sme start limit fits =
    let ids = unwrap_or (s.sme_invoice_ids sme) [] in
    let m = min limit max_sme_invoice_page in
    let sum : saturating_add_u u32_limit start m ≡ start + m = ground (arith, fits) in
    rw sum (elim (Bool-cases (leb (length ids) start)) [
      | inl past ↦ rw past (sym (take_past start m ids (ground (arith, past))))
      | inr before ↦ rw before (slice-take start m ids)
    ])
