-- ===== src/FinancingPool/Positions/Cap.antt =====
-- The share of a recorded position, and the cap on it.
use kora_contract.Prelude.{ℕ, zero, suc, ◌+◌, ◌*◌, ◌/◌, ◌%◌, ◌^◌, ◌≤◌, ◌<◌, ◌≡◌, some, arith}
use native.Mathlib.Nat.{div-mul-le_self, lt-div-mul-add, le_of_mul-le-mul_right}
use kora_contract.Prelude.Int.{ℤ, pos, negsuc, pos_part}
use kora_contract.Prelude.Results.{ok, Ensures, Ensures-mono, Ensures-ok}
use kora_contract.Prelude.Store.{lookup, lookup-insert_self}
use kora_contract.Shared.Host.{Env, Address}
use kora_contract.Shared.Types.{Position}
use kora_contract.InvoiceNft.State.{NftState}
use kora_contract.FinancingPool.State.{PoolState, Peers}
use kora_contract.FinancingPool.Guards.{max_position_bps_of, positions_of}
use kora_contract.FinancingPool.Positions.{record_position, share_bps_of, store_position}

-- The share of `n` in `m`, in basis points: the exact share rounded down, at most the whole.
record IsShare (n m b : ℕ) : Type 0 where
  whole : b ≤ 10_000
  below : b * m ≤ n * 10_000
  above : n * 10_000 < b * m + m

IsShare-floor : (n m : ℕ) → 1 ≤ m → n ≤ m → IsShare n m (n * 10_000 / m)
IsShare-floor n m one le =
    let lo = div-mul-le_self (n * 10_000) m in
    let hi = lt-div-mul-add {a = n * 10_000} {b = m} one in
    let most : n * 10_000 / m ≤ 10_000 =
      le_of_mul-le-mul_right {k = m} (omega (arith, lo, le)) one in
    record { whole = most; below = lo; above = hi }

small_mod : (b : ℕ) → b ≤ 10_000 → b % 2 ^ 32 ≡ b
small_mod b le = omega (arith, le)

module _ {W : Type 0} (peers : Peers W) (env : Env) where
  share_bps_of-IsShare :
      (s : PoolState) (contributed total : ℤ)
      → Ensures
          (λ b.
            (IsShare (pos_part contributed) (pos_part total) b) × (b ≤ max_position_bps_of peers s))
          (share_bps_of peers env s contributed total)
  unfolding share_bps_of
  share_bps_of-IsShare s (pos n) (pos zero) = ground arith
  share_bps_of-IsShare s (pos n) (pos (suc m)) =
      ground (arith, IsShare-floor n (suc m), small_mod (n * 10_000 / suc m))
  share_bps_of-IsShare s (pos n) (negsuc m) = ground arith
  share_bps_of-IsShare s (negsuc n) total = ground arith

  store_position-stored :
      (s : PoolState) (id : ℕ) (investor : Address) (contributed : ℤ) (b : ℕ)
      → Ensures
          (λ s'.
            lookup investor (positions_of s' id)
            ≡ some (record {
              investor = investor;
              invoice_id = id;
              contributed = contributed;
              share_bps = b;
              yield_claimed = pos 0;
            }))
          (store_position peers env s id investor contributed b)
  unfolding store_position
  store_position-stored s id investor contributed b =
      let position : Position = record {
        investor = investor;
        invoice_id = id;
        contributed = contributed;
        share_bps = b;
        yield_claimed = pos 0;
      } in
      ground (arith, lookup-insert_self investor position (positions_of s id))

-- A position was recorded.
pub record IsRecorded {W : Type 0} (peers : Peers W) (s : PoolState) (id : ℕ) (investor : Address)
    (contributed total : ℤ) (s' : PoolState) : Type 0 where
  pub bps : ℕ
  pub whole : bps ≤ 10_000
  pub below : bps * pos_part total ≤ pos_part contributed * 10_000
  pub above : pos_part contributed * 10_000 < bps * pos_part total + pos_part total
  pub capped : bps ≤ max_position_bps_of peers s
  pub stored :
      lookup investor (positions_of s' id)
      ≡ some (record {
        investor = investor;
        invoice_id = id;
        contributed = contributed;
        share_bps = bps;
        yield_claimed = pos 0;
      })

module _ {W : Type 0} (peers : Peers W) (env : Env) where
  record_position_shape :
      (s : PoolState) (nft : NftState) (caller : Address) (id : ℕ) (investor : Address)
      (contributed total : ℤ) (Q : PoolState → Type 0)
      → ((b : ℕ)
          → share_bps_of peers env s contributed total ≡ ok b
          → Ensures Q (store_position peers env s id investor contributed b))
      → Ensures Q (record_position peers env s nft caller id investor contributed total)
  unfolding record_position
  record_position_shape s nft caller id investor contributed total Q h = grind (arith, h)

-- A position that is recorded has the basis points of the contribution in the pool, rounded down, which are at
-- most the whole and at most the cap of the registry or of the storage, and is found under its investor.
pub record_position-IsRecorded :
    {W : Type 0} (peers : Peers W) (env : Env) (s s' : PoolState) (nft : NftState)
    (caller : Address) (id : ℕ) (investor : Address) (contributed total : ℤ)
    → record_position peers env s nft caller id investor contributed total ≡ ok s'
    → IsRecorded peers s id investor contributed total s'
record_position-IsRecorded peers env s s' nft caller id investor contributed total e =
    Ensures-ok (λ s'. IsRecorded peers s id investor contributed total s')
      (record_position peers env s nft caller id investor contributed total)
      (record_position_shape peers env s nft caller id investor contributed total _ (λ b share.
        let h =
          Ensures-ok
            (λ b.
              (IsShare (pos_part contributed) (pos_part total) b)
              × (b ≤ max_position_bps_of peers s))
            _ (share_bps_of-IsShare peers env s contributed total) share in
        Ensures-mono _ (λ s'. IsRecorded peers s id investor contributed total s') _
          (λ s' stored. record {
            bps = b;
            whole = h.0.whole;
            below = h.0.below;
            above = h.0.above;
            capped = h.1;
            stored = stored;
          })
          (store_position-stored peers env s id investor contributed b)))
      e
