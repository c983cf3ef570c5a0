-- ===== src/Marketplace/Lifecycle.antt =====
-- What a listing goes through, without the calls: the stages and the edges between them.
pub mod Follows
pub mod Bystanders
pub mod Listings
pub mod Allocations
pub mod Books
pub mod Fundings
pub mod Cancellations
pub mod Refunds
pub mod History
use kora_contract.Prelude.{
  ℕ, ◌+◌, ◌≤◌, ◌<◌, ◌≡◌, Bool, true, false, Option, none, some, if◌then◌else◌, arith,
}
use kora_contract.Prelude.Int.{ℤ, pos, pos_part, neg_part, ◌≤ℤ◌}
use kora_contract.Shared.Types.{Listing}

-- The price that is asked, and what of it is funded.
pub data Stage : Type 0 where
  unlisted : Stage
  active inactive : ℤ → ℤ → Stage

abbrev pub view : Option Listing → Stage
view none = unlisted
view (some l) =
    if l.is_active
    then active l.asking_price l.funded_amount
    else inactive l.asking_price l.funded_amount

infix 50 ◌<ℤ◌
abbrev pub ◌<ℤ◌ : ℤ → ℤ → Type 0
a <ℤ b = pos_part a + neg_part b < pos_part b + neg_part a

-- Only a listing without funds is amended or withdrawn, the funds only grow and stay below the price, a listing
-- that reaches the price is closed, and a closed listing has no edge.
pub data Edge : Stage → Stage → Type 0 where
  lists : (p f : ℤ) → f ≡ pos 0 → pos 0 <ℤ p → Edge unlisted (active p f)
  amends : (p q f : ℤ) → f ≤ℤ pos 0 → (pos 0 <ℤ p → pos 0 <ℤ q) → Edge (active p f) (active q f)
  withdraws : (p f : ℤ) → f ≤ℤ pos 0 → Edge (active p f) unlisted
  funds : (p f g : ℤ) → f <ℤ g → g <ℤ p → Edge (active p f) (active p g)
  fills : (p f g : ℤ) → f <ℤ g → g ≡ p → Edge (active p f) (inactive p g)
  closes : (p f : ℤ) → Edge (active p f) (inactive p f)

pub data Route : Stage → Stage → Type 0 where
  stay : {a : Stage} → Route a a
  go : {a b c : Stage} → Route a b → Edge b c → Route a c

pub Route-trans : {a b c : Stage} → Route a b → Route b c → Route a c
Route-trans p stay = p
Route-trans p (go q e) = go (Route-trans p q) e

-- What is funded is not negative and not more than the price, and less than it while the listing is active.
abbrev pub IsSound : Stage → Type 0
IsSound unlisted = Unit
IsSound (active p f) = (pos 0 ≤ℤ f) × (f <ℤ p)
IsSound (inactive p f) = (pos 0 ≤ℤ f) × (f ≤ℤ p)

Edge-IsSound : {a b : Stage} → Edge a b → IsSound a → IsSound b
Edge-IsSound (lists p f e lt) h = ground (arith, e)
Edge-IsSound (amends p q f le keep) h = ground (arith, keep)
Edge-IsSound (withdraws p f le) h = tt
Edge-IsSound (funds p f g lt lt') h = omega arith
Edge-IsSound (fills p f g lt e) h = ground (arith, e)
Edge-IsSound (closes p f) h = omega arith

pub Route-IsSound : {a b : Stage} → Route a b → IsSound a → IsSound b
Route-IsSound stay h = h
Route-IsSound (go p e) h = Edge-IsSound e (Route-IsSound p h)
