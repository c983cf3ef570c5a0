-- ===== src/Prelude/Store.antt =====
-- Contract storage: a map from keys to entries, and the host's `Map`, which is kept in key order.
use Prim.Native.Nat.{ℕ}
use mathlib.Core.Path.{◌≡◌}
use mathlib.Core.Logic.{◌≢◌}
use mathlib.Core.Option.{Option, none, some}
use mathlib.Core.List.{List, [], ◌∷◌}
use native.Mathlib.Omega.{arith}
use kora_contract.Prelude.Tests.{ltb, ◌==◌, if◌then◌else◌}

abbrev pub Store {ℓ} : Type ℓ → Type ℓ
Store V = ℕ → Option V

-- The host's `Map<Address, V>`.
abbrev pub Map {ℓ} : Type ℓ → Type ℓ
Map V = List (ℕ × V)

module _ {ℓ} {V : Type ℓ} where
  -- `storage.set(k, v)`
  abbrev pub update : Store V → ℕ → V → Store V
  update s k v j = if k == j then some v else s j

  -- `storage.remove(k)`
  abbrev pub remove : Store V → ℕ → Store V
  remove s k j = if k == j then none else s j

  -- `map.get(k)`
  abbrev pub lookup : ℕ → Map V → Option V
  lookup k [] = none
  lookup k ((j, v) ∷ m) = if k == j then some v else lookup k m

  -- `map.set(k, v)`
  abbrev pub insert : ℕ → V → Map V → Map V
  insert k v [] = (k, v) ∷ []
  insert k v ((j, w) ∷ m) =
      if k == j then (k, v) ∷ m else if ltb k j then (k, v) ∷ (j, w) ∷ m else (j, w) ∷ insert k v m

  pub lookup-insert_self : (k : ℕ) (v : V) (m : Map V) → lookup k (insert k v m) ≡ some v
  lookup-insert_self k v [] = ground arith
  lookup-insert_self k v ((j, w) ∷ m) = ground (arith, lookup-insert_self k v m)

  pub lookup-insert_ne :
      (k j : ℕ) (v : V) (m : Map V) → k ≢ j → lookup j (insert k v m) ≡ lookup j m
  lookup-insert_ne k j v [] h = ground arith
  lookup-insert_ne k j v ((i, w) ∷ m) h = ground (arith, lookup-insert_ne k j v m h)

-- Storage under a key of two parts.
abbrev pub update2 {ℓ} : {V : Type ℓ} → (ℕ → ℕ → Option V) → ℕ → ℕ → V → ℕ → ℕ → Option V
update2 s k l v i j = if k == i then (if l == j then some v else s i j) else s i j

abbrev pub remove2 {ℓ} : {V : Type ℓ} → (ℕ → ℕ → Option V) → ℕ → ℕ → ℕ → ℕ → Option V
remove2 s k l i j = if k == i then (if l == j then none else s i j) else s i j

module _ {ℓ} {V : Type ℓ} where
  -- `map.remove(k)`
  abbrev pub erase : ℕ → Map V → Map V
  erase k [] = []
  erase k ((j, v) ∷ m) = if k == j then m else (j, v) ∷ erase k m

  -- `map.values()`
  abbrev pub values : Map V → List V
  values [] = []
  values ((j, v) ∷ m) = v ∷ values m
