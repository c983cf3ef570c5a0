-- ===== src/Marketplace/Investors/Pages.antt =====
-- The loop that copies a page of investors ends, with the page.
use mathlib.Core.List.{append-nil, append_assoc}
use kora_contract.Prelude.{
  ℕ, zero, suc, ◌+◌, ◌-◌, ◌*◌, ◌^◌, ◌≤◌, ◌<◌, ◌≡◌, refl, sym, ap, ◌∙◌, some, true, ◌⊎◌, inl, inr,
  List, [], ◌∷◌, ◌++◌, length, ltb, arith, lt→ltb, take, drop,
}
use native.Mathlib.Decide.{dec_le}
use kora_contract.Shared.Host.{Address}
use kora_contract.Marketplace.State.{MarketState}
use kora_contract.Marketplace.Investors.{
  get_elem?, copy_page, clamp_page_size, min, saturating_usize, investors_of, get_listing_investors,
}

-- The element at an index within the list is the head of what follows.
drop_split :
    (l : List Address) (i : ℕ)
    → i < length l
    → (y : Address) × (get_elem? l i ≡ some y) × (drop i l ≡ y ∷ drop (suc i) l)
drop_split [] i h = absurd (omega arith)
drop_split (y ∷ l) zero h = (y, refl, refl)
drop_split (y ∷ l) (suc i) h = drop_split l i (omega arith)

drop-nil : (k : ℕ) → drop {A = Address} k [] ≡ []
drop-nil zero = refl
drop-nil (suc k) = refl

drop_all : (l : List Address) (k : ℕ) → length l ≤ k → drop k l ≡ []
drop_all [] k h = drop-nil k
drop_all (y ∷ l) zero h = absurd (omega arith)
drop_all (y ∷ l) (suc k) h = drop_all l k (omega arith)

take_all : (l : List Address) (n : ℕ) → length l ≤ n → take n l ≡ l
take_all [] zero h = refl
take_all [] (suc n) h = refl
take_all (y ∷ l) zero h = absurd (omega arith)
take_all (y ∷ l) (suc n) h = ap (λ (r : List Address). y ∷ r) (take_all l n (omega arith))

length-drop : (l : List Address) (k : ℕ) → length (drop k l) ≡ length l - k
length-drop [] zero = refl
length-drop [] (suc k) = omega arith
length-drop (y ∷ l) zero = omega arith
length-drop (y ∷ l) (suc k) = omega (arith, length-drop l k)

copy_stop :
    (fuel : ℕ) (all : List Address) (i end : ℕ) (out : List Address)
    → end ≤ i
    → copy_page (suc fuel) all i end out ≡ some out
unfolding copy_page
copy_stop fuel all i end out le = ground arith

copy_go :
    (fuel : ℕ) (all : List Address) (i end : ℕ) (out : List Address) (y : Address)
    → i < end
    → get_elem? all i ≡ some y
    → copy_page (suc fuel) all i end out ≡ copy_page fuel all (suc i) end (out ++ y ∷ [])
unfolding copy_page
copy_go fuel all i end out y lt e = ground arith

-- The loop copies the next `n` elements, and `n + 1` rounds are enough.
copy_page-take :
    (fuel : ℕ) (all : List Address) (i n end : ℕ) (out : List Address)
    → n < fuel
    → i + n ≡ end
    → end ≤ length all
    → copy_page fuel all i end out ≡ some (out ++ take n (drop i all))
copy_page-take zero all i n end out lt e le = absurd (omega arith)
copy_page-take (suc fuel) all i zero end out lt e le =
    copy_stop fuel all i end out (omega arith) ∙ ap some (sym (append-nil out))
copy_page-take (suc fuel) all i (suc n) end out lt e le =
    let split = drop_split all i (omega arith) in
    rw (split.2) (
      copy_go fuel all i end out split.0 (omega arith) split.1
      ∙ copy_page-take fuel all (suc i) n end (out ++ split.0 ∷ []) (omega arith) (omega arith) le
      ∙ ap some (append_assoc out (split.0 ∷ []) (take n (drop (suc i) all))))

take-nil : (n : ℕ) → take {A = Address} n [] ≡ []
take-nil zero = refl
take-nil (suc n) = refl

-- A page that the end of the list cuts off.
short_page :
    (all : List Address) (k n m : ℕ)
    → k + n ≡ length all
    → n ≤ m
    → take n (drop k all) ≡ take m (drop k all)
short_page all k n m e le =
    take_all (drop k all) n (omega (arith, length-drop all k))
    ∙ sym (take_all (drop k all) m (omega (arith, length-drop all k)))

compare_pages :
    (k n len : ℕ) → (k + n ≤ len) ⊎ (((len < k + n) × (k ≤ len)) ⊎ ((len < k + n) × (len < k)))
compare_pages k n len = elim (dec_le (k + n) len) [
  | yes p ↦ inl p
  | no p ↦ elim (dec_le k len) [
    | yes q ↦ inr (inl (omega arith, q))
    | no q ↦ inr (inr (omega arith, omega arith))
  ]
]

page_of :
    (all : List Address) (start size : ℕ)
    → size ≤ 50
    → copy_page 51 all start (min (start + size) (length all)) []
      ≡ some (take size (drop start all))
page_of all start size small = elim (compare_pages start size (length all)) [
  | inl within ↦
      let e : min (start + size) (length all) ≡ start + size = ground arith in
      rw e (copy_page-take 51 all start size (start + size) [] (omega arith) refl within)
  | inr over ↦ elim over [
    | inl cut ↦
        let e : min (start + size) (length all) ≡ length all = ground arith in
        rw e (
          copy_page-take 51 all start (length all - start) (length all) [] (omega arith)
            (omega arith) (omega arith)
          ∙ ap some (short_page all start (length all - start) size (omega arith) (omega arith)))
    | inr past ↦
        let e : min (start + size) (length all) ≡ length all = ground arith in
        rw e (
          copy_stop 50 all start (length all) [] (omega arith)
          ∙ ap some (sym (ap (take size) (drop_all all start (omega arith)) ∙ take-nil size)))
  ]
]

usize_same : (n : ℕ) → n < 2 ^ 32 → saturating_usize n ≡ n
usize_same n h = ground arith

clamp_page_size-le : (n : ℕ) → clamp_page_size n ≤ 50
unfolding clamp_page_size
clamp_page_size-le n = ground arith

-- Where the last index of the page is a u32, the loop ends within its rounds and returns the page: the next
-- `page_size`, between 1 and 50, of the investors after those of the former pages, in their order.
pub get_listing_investors-take :
    (s : MarketState) (id page page_size : ℕ)
    → page * clamp_page_size page_size + clamp_page_size page_size < 2 ^ 32
    → get_listing_investors s id page page_size
      ≡ some (
          take
            (clamp_page_size page_size)
            (drop (page * clamp_page_size page_size) (investors_of s id)))
unfolding get_listing_investors
get_listing_investors-take s id page page_size h =
    let size = clamp_page_size page_size in
    let start = page * size in
    let same : saturating_usize start ≡ start = usize_same start (omega arith) in
    let fits : ltb (start + size) (2 ^ 32) ≡ true = lt→ltb (start + size) (2 ^ 32) h in
    rw (same, fits) (page_of (investors_of s id) start size (clamp_page_size-le page_size))
