-- ===== src/FinancingPool/Settlement/Schedules.antt =====
-- The schedules of installments that are accepted.
use kora_contract.Prelude.{
  ℕ, ◌+◌, ◌≤◌, ◌≡◌, sym, ap, ◌∙◌, true, false, some, List, [], ◌∷◌, ltb, ◌==◌, arith, ==-eq,
}
use kora_contract.Prelude.Int.{ℤ, pos, negsuc, pos_part, leb_ℤ, eq_ℤ}
use kora_contract.Prelude.Int128.{checked_add}
use kora_contract.Prelude.Results.{
  ok, refuse_if, refuse_if-ok, ok_or, ok_or-ok, Ensures, Ensures-step, Ensures-mono, Ensures-ok,
}
use kora_contract.Prelude.Store.{update}
use kora_contract.Shared.Host.{Env, Address}
use kora_contract.Shared.Types.{Pool, Installment, InstallmentSchedule}
use kora_contract.FinancingPool.State.{FinancingPoolError, PoolState}
use kora_contract.FinancingPool.Settlement.{schedule_total, set_installment_schedule}

abbrev pub sum_of : List Installment → ℕ
sum_of [] = 0
sum_of (installment ∷ rest) = pos_part installment.amount + sum_of rest

-- Each installment is more than nothing, and none is due before the one that comes before it.
pub data AreOrdered : ℕ → List Installment → Type 0 where
  no_more : {prev : ℕ} → AreOrdered prev []
  one_more :
      {prev : ℕ} {installment : Installment} {rest : List Installment}
      → 1 ≤ pos_part installment.amount
      → prev ≤ installment.due_date
      → AreOrdered installment.due_date rest
      → AreOrdered prev (installment ∷ rest)

next_total :
    (a t : ℕ) (amount total : ℤ)
    → leb_ℤ amount (pos 0) ≡ false
    → checked_add (pos t) amount ≡ some total
    → (1 ≤ pos_part amount) × (total ≡ pos (t + pos_part amount))
next_total a t (pos n) total e c = ground (arith, e, c)
next_total a t (negsuc n) total e c = ground (arith, e)

schedule_total-AreOrdered :
    (l : List Installment) (t prev : ℕ)
    → Ensures (λ v. (v ≡ pos (t + sum_of l)) × AreOrdered prev l) (schedule_total l (pos t) prev)
unfolding schedule_total
schedule_total-AreOrdered [] t prev = (ap pos (omega arith), AreOrdered.no_more)
schedule_total-AreOrdered (x ∷ l) t prev =
    Ensures-step _ (refuse_if (leb_ℤ x.amount (pos 0)) FinancingPoolError.invalid_amount) _ (λ u e1.
      Ensures-step _ (refuse_if (ltb x.due_date prev) FinancingPoolError.invalid_due_date) _
        (λ v e2.
          Ensures-step _
            (ok_or (checked_add (pos t) x.amount) FinancingPoolError.arithmetic_overflow) _
            (λ total e3.
              let next =
                next_total t t x.amount total
                  (refuse_if-ok (leb_ℤ x.amount (pos 0)) FinancingPoolError.invalid_amount e1)
                  (ok_or-ok (checked_add (pos t) x.amount) FinancingPoolError.arithmetic_overflow
                    e3) in
              let in_order : prev ≤ x.due_date = ground (
                arith,
                refuse_if-ok (ltb x.due_date prev) FinancingPoolError.invalid_due_date e2,
              ) in
              Ensures-mono
                (λ v. (v ≡ pos (t + pos_part x.amount + sum_of l)) × AreOrdered x.due_date l) _
                (schedule_total l total x.due_date)
                (λ v h. (h.0 ∙ ap pos (omega arith), AreOrdered.one_more next.0 in_order h.1))
                (rw (next.1) (schedule_total-AreOrdered l (t + pos_part x.amount) x.due_date)))))

-- A schedule was accepted.
pub record IsScheduled (s : PoolState) (id : ℕ) (schedule : InstallmentSchedule) (s' : PoolState)
    : Type 0 where
  pub pool : Pool
  pub was : s.pool id ≡ some pool
  pub unclosed : pool.is_closed ≡ false
  pub owed : pool.total_owed ≡ pos (sum_of schedule.installments)
  pub ordered : AreOrdered 0 schedule.installments
  pub first : schedule.next_index ≡ 0
  pub stored : s'.installment_schedule id ≡ some schedule

set_installment_schedule_shape :
    (env : Env) (s : PoolState) (admin : Address) (id : ℕ) (schedule : InstallmentSchedule)
    (Q : PoolState → Type 0)
    → ((pool : Pool) (total : ℤ)
        → s.pool id ≡ some pool
        → pool.is_closed ≡ false
        → schedule_total schedule.installments (pos 0) 0 ≡ ok total
        → eq_ℤ total pool.total_owed ≡ true
        → (schedule.next_index == 0) ≡ true
        → Q (record s { installment_schedule = update s.installment_schedule id schedule }))
    → Ensures Q (set_installment_schedule env s admin id schedule)
unfolding set_installment_schedule
set_installment_schedule_shape env s admin id schedule Q h = grind (arith, h)

eq_ℤ_same : (a : ℕ) (b : ℤ) → eq_ℤ (pos a) b ≡ true → b ≡ pos a
eq_ℤ_same a (pos b) e = ground (arith, e)
eq_ℤ_same a (negsuc b) e = ground (arith, e)

-- A schedule that is accepted is for an open pool and begins with its first installment; its installments are
-- each more than nothing, none is due before the one before it, and they sum to what the pool owes.
pub set_installment_schedule-IsScheduled :
    (env : Env) (s s' : PoolState) (admin : Address) (id : ℕ) (schedule : InstallmentSchedule)
    → set_installment_schedule env s admin id schedule ≡ ok s'
    → IsScheduled s id schedule s'
set_installment_schedule-IsScheduled env s s' admin id schedule e =
    Ensures-ok (IsScheduled s id schedule) (set_installment_schedule env s admin id schedule)
      (set_installment_schedule_shape env s admin id schedule (IsScheduled s id schedule)
        (λ pool total was unclosed checked same first.
          let h =
            Ensures-ok
              (λ v.
                (v ≡ pos (0 + sum_of schedule.installments)) × AreOrdered 0 schedule.installments)
              _ (schedule_total-AreOrdered schedule.installments 0 0) checked in
          record {
            pool = pool;
            was = was;
            unclosed = unclosed;
            owed =
                eq_ℤ_same (sum_of schedule.installments) pool.total_owed (
                  ap (λ (x : ℤ). eq_ℤ x pool.total_owed) (sym (h.0 ∙ ap pos (omega arith))) ∙ same);
            ordered = h.1;
            first = ==-eq schedule.next_index 0 first;
            stored = ground arith;
          }))
      e
