-- ===== src/Vesting/History.antt =====
-- The grants over every history of calls.
use kora_contract.Prelude.{
  ℕ, ◌-◌, ◌≤◌, ◌<◌, ◌≡◌, refl, sym, ap, ◌∙◌, Bool, true, false, some, ltb, ◌==◌, if◌then◌else◌,
  unwrap_or, arith, inl, inr, Bool-cases, ==-eq, subst,
}
use kora_contract.Prelude.Int.{ℤ, pos}
use kora_contract.Prelude.Int128.{i128_half, checked_sub, checked_add}
use kora_contract.Prelude.Results.{ok, Ensures, Ensures-ok}
use kora_contract.Shared.Host.{Env, Address}
use kora_contract.Shared.Token.{Token}
use kora_contract.Vesting.Calls.{
  VestingGrant, VestingState, calculate_vested_at, release, revoke_grant, create_grant,
}
use kora_contract.Vesting.Shares.{vested_share}
use kora_contract.Vesting.Schedule.{IsGrant, IsGrant-later, due, calculate_vested_at-due, due-le}

-- The grant of a beneficiary is for `total`, and no more of it was released than has vested by then.
pub record IsKept (s : VestingState) (b : Address) (at_time total : ℕ) : Type 0 where
  pub grant : VestingGrant
  pub released : ℕ
  pub stored : s.grant b ≡ some grant
  pub is : IsGrant grant at_time total released

-- The calls that change a grant, at times that do not fall.
pub data Reach {W : Type 0} (t : Token W) (s : VestingState) (w : W) (start : ℕ)
    : VestingState → W → ℕ → Type 0 where
  here : Reach t s w start s w start
  after_release :
      {s' s'' : VestingState} {w' w'' : W} {now : ℕ} (env : Env) (b : Address)
      → Reach t s w start s' w' now
      → now ≤ env.now
      → release t env s' w' b ≡ ok (s'', w'')
      → Reach t s w start s'' w'' env.now
  after_revoke :
      {s' s'' : VestingState} {w' : W} {now : ℕ} (env : Env) (admin b : Address)
      → Reach t s w start s' w' now
      → now ≤ env.now
      → revoke_grant env s' admin b ≡ ok s''
      → Reach t s w start s'' w' env.now
  after_create :
      {s' s'' : VestingState} {w' : W} {now : ℕ} (env : Env) (admin b : Address) (amount : ℤ)
      (start_time cliff duration : ℕ)
      → Reach t s w start s' w' now
      → now ≤ env.now
      → create_grant env s' admin b amount start_time cliff duration ≡ ok s''
      → Reach t s w start s'' w' env.now

release-other :
    {W : Type 0} (t : Token W) (env : Env) (s : VestingState) (w : W) (a b : Address)
    → (a == b) ≡ false
    → Ensures (λ q. q.0.grant b ≡ s.grant b) (release t env s w a)
unfolding release
release-other t env s w a b ne = ground arith

revoke_grant-other :
    (env : Env) (s : VestingState) (admin a b : Address)
    → (a == b) ≡ false
    → Ensures (λ s'. s'.grant b ≡ s.grant b) (revoke_grant env s admin a)
unfolding revoke_grant
revoke_grant-other env s admin a b ne = ground arith

create_grant-other :
    (env : Env) (s : VestingState) (admin a b : Address) (amount : ℤ) (x y z : ℕ)
    (grant : VestingGrant)
    → s.grant b ≡ some grant
    → Ensures (λ s'. s'.grant b ≡ some grant) (create_grant env s admin a amount x y z)
unfolding create_grant
create_grant-other env s admin a b amount x y z grant e = ground arith

release-same :
    {W : Type 0} (t : Token W) (env : Env) (s : VestingState) (w : W) (b : Address)
    (grant : VestingGrant) (v released : ℕ)
    → s.grant b ≡ some grant
    → grant.released_amount ≡ pos released
    → calculate_vested_at grant env.now ≡ ok (pos v)
    → released ≤ v
    → v < i128_half
    → Ensures
        (λ q. q.0.grant b ≡ some (record grant { released_amount = pos v }))
        (release t env s w b)
unfolding release
release-same t env s w b grant v released g r e le small =
    let left : checked_sub (pos v) grant.released_amount ≡ some (pos (v - released)) =
      ground (arith, r) in
    let all : checked_add grant.released_amount (pos (v - released)) ≡ some (pos v) =
      ground (arith, r) in
    ground (arith, g, e, left, all)

revoke_grant-same :
    (env : Env) (s : VestingState) (admin b : Address) (grant : VestingGrant)
    → s.grant b ≡ some grant
    → Ensures
        (λ s'.
          (grant.revoked ≡ false)
          × (s'.grant b ≡ some (record grant { revoked = true; revoked_at = some env.now })))
        (revoke_grant env s admin b)
unfolding revoke_grant
revoke_grant-same env s admin b grant g = ground arith

-- A grant that is revoked now keeps what has vested now.
frozen_due :
    (grant : VestingGrant) (total now released : ℕ)
    → grant.revoked ≡ false
    → released ≤ due grant total now
    → released ≤ due (record grant { revoked = true; revoked_at = some now }) total now
frozen_due grant total now released e le =
    subst
      (λ (b : Bool). released ≤ (
        if ltb (if b then unwrap_or grant.revoked_at now else now) grant.start_time
        then 0
        else vested_share total grant.cliff_duration grant.vesting_duration
            ((if b then unwrap_or grant.revoked_at now else now) - grant.start_time)))
      e le

release-IsKept :
    {W : Type 0} (t : Token W) (env : Env) (s s' : VestingState) (w w' : W) (a b : Address)
    (total : ℕ)
    → release t env s w a ≡ ok (s', w')
    → IsKept s b env.now total
    → IsKept s' b env.now total
release-IsKept t env s s' w w' a b total e h = elim (Bool-cases (a == b)) [
  | inl same ↦
      let v = due h.grant total env.now in
      record {
        grant = record (h.grant) { released_amount = pos v };
        released = v;
        stored =
            Ensures-ok (λ q. q.0.grant b ≡ some (record (h.grant) { released_amount = pos v }))
              (release t env s w b)
              (release-same t env s w b h.grant v h.released h.stored h.is.released_is
                (calculate_vested_at-due h.grant env.now total h.is.total_is h.is.small) h.is.earned
                (omega (arith, due-le h.grant total env.now, h.is.within)))
              (ap (λ (x : Address). release t env s w x) (sym (==-eq a b same)) ∙ e);
        is = record {
          total_is = h.is.total_is;
          released_is = refl;
          small = h.is.small;
          within = h.is.within;
          earned = omega arith;
        };
      }
  | inr other ↦ record {
    grant = h.grant;
    released = h.released;
    stored =
        Ensures-ok (λ q. q.0.grant b ≡ s.grant b) (release t env s w a)
          (release-other t env s w a b other) e
        ∙ h.stored;
    is = h.is;
  }
]

revoke_grant-IsKept :
    (env : Env) (s s' : VestingState) (admin a b : Address) (total : ℕ)
    → revoke_grant env s admin a ≡ ok s'
    → IsKept s b env.now total
    → IsKept s' b env.now total
revoke_grant-IsKept env s s' admin a b total e h = elim (Bool-cases (a == b)) [
  | inl same ↦
      let revoked =
        Ensures-ok
          (λ s'.
            (h.grant.revoked ≡ false)
            × (s'.grant b ≡ some (record (h.grant) { revoked = true; revoked_at = some env.now })))
          (revoke_grant env s admin b) (revoke_grant-same env s admin b h.grant h.stored)
          (ap (λ (x : Address). revoke_grant env s admin x) (sym (==-eq a b same)) ∙ e) in
      record {
        grant = record (h.grant) { revoked = true; revoked_at = some env.now };
        released = h.released;
        stored = revoked.1;
        is = record {
          total_is = h.is.total_is;
          released_is = h.is.released_is;
          small = h.is.small;
          within = h.is.within;
          earned = frozen_due h.grant total env.now h.released revoked.0 h.is.earned;
        };
      }
  | inr other ↦ record {
    grant = h.grant;
    released = h.released;
    stored =
        Ensures-ok (λ s'. s'.grant b ≡ s.grant b) (revoke_grant env s admin a)
          (revoke_grant-other env s admin a b other) e
        ∙ h.stored;
    is = h.is;
  }
]

later-IsKept :
    (s : VestingState) (b : Address) (now later total : ℕ)
    → now ≤ later
    → IsKept s b now total
    → IsKept s b later total
later-IsKept s b now later total le h = record {
  grant = h.grant;
  released = h.released;
  stored = h.stored;
  is = IsGrant-later h.grant total h.released now later le h.is;
}

-- Where a grant's amount and the product of it with the vesting time are below 2 ^ 127 and no more of it was
-- released than has vested, that is so after any sequence of releases, revocations and new grants, of this and of other
-- beneficiaries, at times that do not fall; the amount of the grant stays the same.
pub Reach-IsKept :
    {W : Type 0} (t : Token W) {s : VestingState} {w : W} {start : ℕ} {s' : VestingState} {w' : W}
    {now : ℕ} (b : Address) (total : ℕ)
    → Reach t s w start s' w' now
    → IsKept s b start total
    → IsKept s' b now total
Reach-IsKept t b total here h = h
Reach-IsKept t b total (after_release {s'} {s''} {w'} {w''} {now} env a r le e) h =
    release-IsKept t env s' s'' w' w'' a b total e
      (later-IsKept s' b now env.now total le (Reach-IsKept t b total r h))
Reach-IsKept t b total (after_revoke {s'} {s''} {w'} {now} env admin a r le e) h =
    revoke_grant-IsKept env s' s'' admin a b total e
      (later-IsKept s' b now env.now total le (Reach-IsKept t b total r h))
Reach-IsKept t b total (after_create {s'} {s''} {w'} {now} env admin a amount x y z r le e) h =
    let k = later-IsKept s' b now env.now total le (Reach-IsKept t b total r h) in
    record {
      grant = k.grant;
      released = k.released;
      stored =
          Ensures-ok (λ q. q.grant b ≡ some k.grant) _
            (create_grant-other env s' admin a b amount x y z k.grant k.stored) e;
      is = k.is;
    }
