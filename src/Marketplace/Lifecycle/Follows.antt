-- ===== src/Marketplace/Lifecycle/Follows.antt =====
-- What a call may do to the listing of an invoice and to the refunds that were claimed on it.
use kora_contract.Prelude.{
  ℕ, ◌≡◌, ap, ◌∙◌, subst, sym, Bool, true, Option, some, if◌then◌else◌, ◌==◌, Bool-cases, ==-eq,
  inl, inr,
}
use kora_contract.Shared.Host.{Address}
use kora_contract.Shared.Types.{Listing}
use kora_contract.Marketplace.State.{MarketState}
use kora_contract.Marketplace.Lifecycle.{view, Edge, stay, go, Route, Route-trans}

-- The listing moves along the edges, and a refund that was claimed stays claimed.
pub record Follows (s : MarketState) (j : ℕ) (i : Address) (s' : MarketState) : Type 0 where
  pub moves : Route (view (s.listing j)) (view (s'.listing j))
  pub claims : s.refund_claimed j i ≡ some true → s'.refund_claimed j i ≡ some true

-- The listings and the claims are those of another storage.
abbrev pub Agrees : MarketState → MarketState → Type 0
Agrees s s' = (s'.listing ≡ s.listing) × (s'.refund_claimed ≡ s.refund_claimed)

pub Follows-refl : (s : MarketState) (j : ℕ) (i : Address) → Follows s j i s
Follows-refl s j i = record { moves = stay; claims = λ h. h }

pub Follows-trans :
    (s : MarketState) (j : ℕ) (i : Address) (s' s'' : MarketState)
    → Follows s j i s'
    → Follows s' j i s''
    → Follows s j i s''
Follows-trans s j i s' s'' h h' = record {
  moves = Route-trans h.moves h'.moves;
  claims = λ c. h'.claims (h.claims c);
}

-- The entry of this listing is as it was.
pub same-Follows :
    (s : MarketState) (j : ℕ) (i : Address) (s' : MarketState)
    → s'.listing j ≡ s.listing j
    → s'.refund_claimed j i ≡ s.refund_claimed j i
    → Follows s j i s'
same-Follows s j i s' l c = record {
  moves = subst (λ (o : Option Listing). Route (view (s.listing j)) (view o)) (sym l) stay;
  claims = λ h. c ∙ h;
}

pub Agrees-Follows :
    (s : MarketState) (j : ℕ) (i : Address) (s' : MarketState) → Agrees s s' → Follows s j i s'
Agrees-Follows s j i s' (l, c) =
    same-Follows s j i s' (ap (λ (f : ℕ → Option Listing). f j) l)
      (ap (λ (f : ℕ → Address → Option Bool). f j i) c)

-- One edge, between the listings that were and are stored.
pub Edge-Follows :
    (s : MarketState) (j : ℕ) (i : Address) (s' : MarketState) (o o' : Option Listing)
    → s.listing j ≡ o
    → s'.listing j ≡ o'
    → Edge (view o) (view o')
    → s'.refund_claimed j i ≡ s.refund_claimed j i
    → Follows s j i s'
Edge-Follows s j i s' o o' l l' e c = record {
  moves =
      subst (λ (p : Option Listing). Route (view (s.listing j)) (view p)) (sym l')
        (subst (λ (p : Option Listing). Route (view p) (view o')) (sym l) (go stay e));
  claims = λ h. c ∙ h;
}

-- The entry of one listing is replaced, along an edge.
pub record Puts (s : MarketState) (id : ℕ) (s' : MarketState) : Type 0 where
  pub before : Option Listing
  pub after : Option Listing
  pub was : s.listing id ≡ before
  pub edge : Edge (view before) (view after)
  pub puts : (j : ℕ) → s'.listing j ≡ (if id == j then after else s.listing j)
  pub kept : s'.refund_claimed ≡ s.refund_claimed

pub Puts-Follows :
    (s : MarketState) (id : ℕ) (s' : MarketState) (j : ℕ) (i : Address)
    → Puts s id s'
    → Follows s j i s'
Puts-Follows s id s' j i h =
    let claimed = ap (λ (f : ℕ → Address → Option Bool). f j i) h.kept in
    elim (Bool-cases (id == j)) [
      | inl same ↦
          Edge-Follows s j i s' h.before h.after (ap s.listing (sym (==-eq id j same)) ∙ h.was)
            (rw same at (h.puts j)) h.edge claimed
      | inr other ↦ same-Follows s j i s' (rw other at (h.puts j)) claimed
    ]
