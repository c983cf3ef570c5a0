-- ===== src/Vesting/Schedule.antt =====
-- What has vested of a grant at a time, and what its releases have paid.
use Prim.Native.Nat.{min}
use native.Mathlib.Nat.{mul-div_cancel}
use kora_contract.Prelude.{
  suc, zero, true, ◌/◌, leb, ℕ, ◌+◌, ◌-◌, ◌*◌, ◌≤◌, ◌<◌, ◌≡◌, refl, ap, ◌∙◌, false, some, ltb,
  if◌then◌else◌, arith, inl, inr, Bool-cases,
}
use kora_contract.Prelude.Int.{ℤ, pos, leb_ℤ}
use kora_contract.Prelude.Int128.{i128_half, checked_sub, checked_add}
use kora_contract.Prelude.Results.{ok, err}
use kora_contract.Prelude.Store.{update}
use kora_contract.Shared.Host.{Env, Address}
use kora_contract.Shared.Token.{Token}
use kora_contract.Vesting.Calls.{
  VestingGrant, VestingState, VestingError, calculate_vested_at, effective_time, release,
}
use kora_contract.Vesting.Shares.{
  vested_share, vested_by, vested_share-le, vested_share-whole, vested_share_mono, vested_by-share,
  if_ok,
}

abbrev pub due : VestingGrant → ℕ → ℕ → ℕ
due grant total at_time =
    let time = effective_time grant at_time in
    if ltb time grant.start_time
    then 0
    else vested_share total grant.cliff_duration grant.vesting_duration (time - grant.start_time)

-- The amount of a grant, and what was released of it, at a time: no multiplication overflows, and no more
-- was released than has vested.
pub record IsGrant (grant : VestingGrant) (at_time total released : ℕ) : Type 0 where
  pub total_is : grant.total_amount ≡ pos total
  pub released_is : grant.released_amount ≡ pos released
  pub small : total * grant.vesting_duration < i128_half
  pub within : total < i128_half
  pub earned : released ≤ due grant total at_time

-- The code computes what is due.
pub calculate_vested_at-due :
    (grant : VestingGrant) (at_time total : ℕ)
    → grant.total_amount ≡ pos total
    → total * grant.vesting_duration < i128_half
    → calculate_vested_at grant at_time ≡ ok (pos (due grant total at_time))
unfolding calculate_vested_at vested_by
calculate_vested_at-due grant at_time total e small =
    let elapsed = effective_time grant at_time - grant.start_time in
    if_ok (ltb (effective_time grant at_time) grant.start_time)
      (vested_by grant.total_amount grant.cliff_duration grant.vesting_duration elapsed) _
      (ap (λ (x : ℤ). vested_by x grant.cliff_duration grant.vesting_duration elapsed) e
        ∙ vested_by-share total grant.cliff_duration grant.vesting_duration elapsed small)

-- A straight line from the start to the end, of which nothing has vested before the cliff.
abbrev pub straight_line : ℕ → ℕ → ℕ → ℕ → ℕ → ℕ
straight_line total start cliff duration time =
    if ltb time (start + cliff) then 0 else total * min (time - start) duration / duration

-- The time that counts for a grant: the present one, or that of the revocation.
pub data CountsAt (grant : VestingGrant) (at_time : ℕ) : ℕ → Type 0 where
  running : grant.revoked ≡ false → CountsAt grant at_time at_time
  stopped : (r : ℕ) → grant.revoked ≡ true → grant.revoked_at ≡ some r → CountsAt grant at_time r

CountsAt-time : (grant : VestingGrant) (a b : ℕ) → CountsAt grant a b → effective_time grant a ≡ b
CountsAt-time grant a b (running e) = rw e refl
CountsAt-time grant a b (stopped r e e') = rw (e, e') refl

vested_share-line :
    (total start cliff d time : ℕ)
    → 1 ≤ d
    → (if ltb time start then 0 else vested_share total cliff d (time - start))
      ≡ straight_line total start cliff d time
unfolding vested_share
vested_share-line total start cliff zero time le = absurd (omega arith)
vested_share-line total start cliff (suc d) time le =
    elim (Bool-cases (leb (suc d) (time - start))) [
      | inl past ↦
          let e : min (time - start) (suc d) ≡ suc d = ground (arith, past) in
          rw e (ground (arith, past, mul-div_cancel total {n = suc d} (omega arith)))
      | inr before ↦
          let e : min (time - start) (suc d) ≡ time - start = ground (arith, before) in
          rw e (ground (arith, before))
    ]

-- Where the vesting time is at least a second and its product with the amount is below 2 ^ 127: at every time, the code
-- computes the straight line without overflow, rounded down: for a running grant at the time asked for, and for a revoked one
-- at the time of its revocation, whichever time is asked for, be it an earlier one.
pub calculate_vested_at-straight_line :
    (grant : VestingGrant) (at_time time total : ℕ)
    → CountsAt grant at_time time
    → grant.total_amount ≡ pos total
    → 1 ≤ grant.vesting_duration
    → total * grant.vesting_duration < i128_half
    → calculate_vested_at grant at_time
      ≡ ok (
          pos
            (straight_line total grant.start_time grant.cliff_duration grant.vesting_duration time))
calculate_vested_at-straight_line grant at_time time total counts e some_time small =
    calculate_vested_at-due grant at_time total e small
    ∙ ap (λ (n : ℕ). ok (pos n))
        (ap
            (λ (x : ℕ).
              if ltb x grant.start_time
              then 0
              else vested_share total grant.cliff_duration grant.vesting_duration
                  (x - grant.start_time))
            (CountsAt-time grant at_time time counts)
          ∙ vested_share-line total grant.start_time grant.cliff_duration grant.vesting_duration
              time some_time)

after_start :
    (a b start x y : ℕ)
    → a ≤ b
    → x ≤ y
    → (if ltb a start then 0 else x) ≤ (if ltb b start then 0 else y)
after_start a b start x y later le = ground arith

pub due_mono :
    (grant : VestingGrant) (total a b : ℕ) → a ≤ b → due grant total a ≤ due grant total b
due_mono grant total a b le =
    let later : effective_time grant a ≤ effective_time grant b = ground arith in
    let share =
      vested_share_mono total grant.cliff_duration grant.vesting_duration
        (effective_time grant a - grant.start_time) (effective_time grant b - grant.start_time)
        (omega (arith, later)) in
    after_start (effective_time grant a) (effective_time grant b) grant.start_time _ _ later share

pub due-le : (grant : VestingGrant) (total a : ℕ) → due grant total a ≤ total
due-le grant total a = ground (
  arith,
  vested_share-le total grant.cliff_duration grant.vesting_duration
      (effective_time grant a - grant.start_time),
)

-- Where the product of the amount and of the vesting time is below 2 ^ 127, the vested amount is computed at
-- every time, does not fall from one time to a later one, and never exceeds the grant.
pub calculate_vested_at_mono :
    (grant : VestingGrant) (total a b : ℕ)
    → grant.total_amount ≡ pos total
    → total * grant.vesting_duration < i128_half
    → a ≤ b
    → (x : ℕ) × (y : ℕ) × (calculate_vested_at grant a ≡ ok (pos x))
      × (calculate_vested_at grant b ≡ ok (pos y))
      × (x ≤ y)
      × (y ≤ total)
calculate_vested_at_mono grant total a b e small le = (
  due grant total a,
  due grant total b,
  calculate_vested_at-due grant a total e small,
  calculate_vested_at-due grant b total e small,
  due_mono grant total a b le,
  due-le grant total b,
)

due-whole :
    (grant : VestingGrant) (total now : ℕ)
    → grant.revoked ≡ false
    → grant.cliff_duration ≤ grant.vesting_duration
    → grant.start_time + grant.vesting_duration ≤ now
    → due grant total now ≡ total
due-whole grant total now active cliff over =
    let all =
      vested_share-whole total grant.cliff_duration grant.vesting_duration (now - grant.start_time)
        cliff (omega (arith, over)) in
    ground (arith, active, over, all)

-- A release, by what has vested.
release-vested :
    {W : Type 0} (t : Token W) (env : Env) (s : VestingState) (w w' : W)
    (beneficiary token : Address) (grant : VestingGrant) (v released : ℕ)
    → s.grant beneficiary ≡ some grant
    → s.token_address ≡ some token
    → grant.released_amount ≡ pos released
    → calculate_vested_at grant env.now ≡ ok (pos v)
    → v < i128_half
    → released ≤ v
    → t.transfer w token env.contract beneficiary (pos (v - released)) ≡ some w'
    → release t env s w beneficiary ≡ (
        if ltb released v
        then ok (
          record s {
            grant = update s.grant beneficiary (record grant { released_amount = pos v });
          },
          w',
        )
        else err VestingError.insufficient_vested_balance)
unfolding release
release-vested t env s w w' b token grant v released g k r e small le sent =
    elim (Bool-cases (ltb released v)) [
      | inl more ↦
          let left : checked_sub (pos v) grant.released_amount ≡ some (pos (v - released)) =
            ground (arith, r) in
          let all : checked_add grant.released_amount (pos (v - released)) ≡ some (pos v) =
            ground (arith, r) in
          let some_left : leb_ℤ (pos (v - released)) (pos 0) ≡ false = ground (arith, more) in
          rw (g, e, left, some_left, all, k, sent, more) refl
      | inr done ↦ ground arith
    ]

-- Where the grant is stored, its amount and the product of it with the vesting time are below 2 ^ 127, no more was
-- released than has vested, and the token's transfer succeeds: a release pays what has vested and was not released, and
-- records all that has vested as released. Where nothing is left to release it is refused.
pub release-due :
    {W : Type 0} (t : Token W) (env : Env) (s : VestingState) (w w' : W)
    (beneficiary token : Address) (grant : VestingGrant) (total released : ℕ)
    → s.grant beneficiary ≡ some grant
    → s.token_address ≡ some token
    → IsGrant grant env.now total released
    → t.transfer w token env.contract beneficiary (pos (due grant total env.now - released))
      ≡ some w'
    → release t env s w beneficiary ≡ (
        if ltb released (due grant total env.now)
        then ok (
          record s {
            grant =
                update s.grant beneficiary
                  (record grant { released_amount = pos (due grant total env.now) });
          },
          w',
        )
        else err VestingError.insufficient_vested_balance)
release-due t env s w w' b token grant total released g k h sent =
    release-vested t env s w w' b token grant (due grant total env.now) released g k h.released_is
      (calculate_vested_at-due grant env.now total h.total_is h.small)
      (omega (arith, due-le grant total env.now, h.within)) h.earned sent

-- The state of a grant after it is released, or revoked, stays one in which no more was released than has
-- vested, at that time and at every later one.
pub IsGrant-later :
    (grant : VestingGrant) (total released a b : ℕ)
    → a ≤ b
    → IsGrant grant a total released
    → IsGrant grant b total released
IsGrant-later grant total released a b le h = record {
  total_is = h.total_is;
  released_is = h.released_is;
  small = h.small;
  within = h.within;
  earned = omega (arith, h.earned, due_mono grant total a b le);
}

-- Where the grant is stored, its amount and the product of it with the vesting time are below 2 ^ 127, no more
-- was released than has vested and less than the whole, the grant is not revoked, its cliff is not after its end,
-- the vesting time has passed and the token's transfer of all that was not released succeeds, a release pays it and the whole grant is released.
pub release-whole :
    {W : Type 0} (t : Token W) (env : Env) (s : VestingState) (w w' : W)
    (beneficiary token : Address) (grant : VestingGrant) (total released : ℕ)
    → s.grant beneficiary ≡ some grant
    → s.token_address ≡ some token
    → IsGrant grant env.now total released
    → grant.revoked ≡ false
    → grant.cliff_duration ≤ grant.vesting_duration
    → grant.start_time + grant.vesting_duration ≤ env.now
    → released < total
    → t.transfer w token env.contract beneficiary (pos (total - released)) ≡ some w'
    → release t env s w beneficiary
      ≡ ok (
        record s {
          grant = update s.grant beneficiary (record grant { released_amount = pos total });
        },
        w',
      )
release-whole t env s w w' b token grant total released g k h active cliff over more sent =
    let whole = due-whole grant total env.now active cliff over in
    release-vested t env s w w' b token grant total released g k h.released_is
      (calculate_vested_at-due grant env.now total h.total_is h.small
        ∙ ap (λ (x : ℕ). ok (pos x)) whole)
      h.within (omega (arith, more)) sent
    ∙ ground (arith, more)
