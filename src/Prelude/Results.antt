-- ===== src/Prelude/Results.antt =====
-- The result of a contract call: a value, an error of the contract, or a trap of the host, which
-- ends the whole transaction. A transaction that does not end in `ok` writes nothing, so a result
-- carries the new state only in its value.
use mathlib.Core.Path.{◌≡◌, refl, subst}
use mathlib.Core.Bool.{Bool, true, false}
use mathlib.Core.Option.{Option, none, some}
use mathlib.Core.Logic.{◌⊎◌, inl, inr}
use kora_contract.Prelude.Tests.{if◌then◌else◌}
use native.Mathlib.Omega.{arith}

pub data Result (E : Type 0) (A : Type 0) : Type 0 where
  ok : A → Result E A
  err : E → Result E A
  trap : Result E A

infixl 5 ◌>>=◌ ◌>>◌
abbrev pub ◌>>=◌ : {E A B : Type 0} → Result E A → (A → Result E B) → Result E B
ok a >>= f = f a
err e >>= f = err e
trap >>= f = trap

abbrev pub ◌>>◌ : {E B : Type 0} → Result E (Unit {0}) → Result E B → Result E B
m >> k = m >>= λ _. k

-- `if !b { return Err(e) }`
abbrev pub guard : {E : Type 0} → Bool → E → Result E (Unit {0})
guard true e = ok tt
guard false e = err e

-- `if b { return Err(e) }`
abbrev pub refuse_if : {E : Type 0} → Bool → E → Result E (Unit {0})
refuse_if true e = err e
refuse_if false e = ok tt

-- `o.ok_or(e)?`
abbrev pub ok_or : {E A : Type 0} → Option A → E → Result E A
ok_or (some a) e = ok a
ok_or none e = err e

-- `o.unwrap()`
abbrev pub unwrap : {E A : Type 0} → Option A → Result E A
unwrap (some a) = ok a
unwrap none = trap

-- A host check that panics.
abbrev pub assert_host : {E : Type 0} → Bool → Result E (Unit {0})
assert_host true = ok tt
assert_host false = trap

-- `?` on a result of another error type, through `From`.
abbrev pub lift_err : {D E A : Type 0} → (D → E) → Result D A → Result E A
lift_err f (ok a) = ok a
lift_err f (err e) = err (f e)
lift_err f trap = trap

-- A call of another contract by its plain client: any failure there is a trap here.
abbrev pub call : {D E A : Type 0} → Result D A → Result E A
call (ok a) = ok a
call (err e) = trap
call trap = trap

-- What holds of the value, if there is one.
abbrev pub Ensures : {E A : Type 0} → (A → Type 0) → Result E A → Type 0
Ensures P (ok a) = P a
Ensures P (err e) = Unit
Ensures P trap = Unit

pub Ensures-intro :
    {E A : Type 0} (P : A → Type 0) (m : Result E A) → ((a : A) → m ≡ ok a → P a) → Ensures P m
Ensures-intro P (ok a) h = h a refl
Ensures-intro P (err e) h = tt
Ensures-intro P trap h = tt

pub Ensures-ok :
    {E A : Type 0} (P : A → Type 0) (m : Result E A) {a : A} → Ensures P m → m ≡ ok a → P a
Ensures-ok P (ok b) h e = subst P (cc) h
Ensures-ok P (err x) h e = cc
Ensures-ok P trap h e = cc

-- What a step that returned tells.
pub guard-ok : {E : Type 0} (b : Bool) (e : E) → guard b e ≡ ok tt → b ≡ true
guard-ok true e h = refl
guard-ok false e h = cc

pub refuse_if-ok : {E : Type 0} (b : Bool) (e : E) → refuse_if b e ≡ ok tt → b ≡ false
refuse_if-ok true e h = cc
refuse_if-ok false e h = refl

pub ok_or-ok : {E A : Type 0} (o : Option A) (e : E) {a : A} → ok_or o e ≡ ok a → o ≡ some a
ok_or-ok none e h = cc
ok_or-ok (some b) e h = ground arith

pub Ensures-mono :
    {E A : Type 0} (P Q : A → Type 0) (m : Result E A)
    → ((a : A) → P a → Q a)
    → Ensures P m
    → Ensures Q m
Ensures-mono P Q (ok a) f h = f a h
Ensures-mono P Q (err e) f h = tt
Ensures-mono P Q trap f h = tt

-- The value of a step is only passed on.
pub Ensures-map :
    {E A B : Type 0} (P : A → Type 0) (Q : B → Type 0) (m : Result E A) (g : A → B)
    → ((a : A) → P a → Q (g a))
    → Ensures P m
    → Ensures Q (m >>= λ a. ok (g a))
Ensures-map P Q (ok a) g f h = f a h
Ensures-map P Q (err e) g f h = tt
Ensures-map P Q trap g f h = tt

pub bind-ok :
    {E A B : Type 0} (m : Result E A) (f : A → Result E B) {b : B}
    → (m >>= f) ≡ ok b
    → (a : A) × (m ≡ ok a) × (f a ≡ ok b)
bind-ok (ok a) f h = (a, refl, h)
bind-ok (err e) f h = cc
bind-ok trap f h = cc

pub Ensures-bind :
    {E A B : Type 0} (P : A → Type 0) (Q : B → Type 0) (m : Result E A) (f : A → Result E B)
    → ((a : A) → P a → Ensures Q (f a))
    → Ensures P m
    → Ensures Q (m >>= f)
Ensures-bind P Q (ok a) f h p = h a p
Ensures-bind P Q (err e) f h p = tt
Ensures-bind P Q trap f h p = tt

-- The two cases of an option.
pub option_cases : {A : Type 0} (o : Option A) → (o ≡ none) ⊎ ((a : A) × (o ≡ some a))
option_cases none = inl refl
option_cases (some a) = inr (a, refl)

-- `try_call(..).ok()`: what a call of another contract answered, if it did.
abbrev pub answer : {E A : Type 0} → Result E A → Option A
answer (ok a) = some a
answer (err e) = none
answer trap = none

pub answer-some : {E A : Type 0} (m : Result E A) (a : A) → answer m ≡ some a → m ≡ ok a
answer-some (ok b) a e = ground (arith, e)
answer-some (err x) a e = cc (e)
answer-some trap a e = cc (e)

-- A step that returned, with what it returned.
pub Ensures-step :
    {E A B : Type 0} (Q : B → Type 0) (m : Result E A) (f : A → Result E B)
    → ((a : A) → m ≡ ok a → Ensures Q (f a))
    → Ensures Q (m >>= f)
Ensures-step Q (ok a) f h = h a refl
Ensures-step Q (err e) f h = tt
Ensures-step Q trap f h = tt

pub unwrap-ok : {E A : Type 0} (o : Option A) {a : A} → unwrap {E = E} o ≡ ok a → o ≡ some a
unwrap-ok none h = cc
unwrap-ok (some b) h = ground arith

pub lift_err-ok :
    {D E A : Type 0} (f : D → E) (m : Result D A) {a : A} → lift_err f m ≡ ok a → m ≡ ok a
lift_err-ok f (ok b) h = ground arith
lift_err-ok f (err x) h = cc
lift_err-ok f trap h = cc

pub Ensures-if :
    {E A : Type 0} (Q : A → Type 0) (b : Bool) (m m' : Result E A)
    → (b ≡ true → Ensures Q m)
    → (b ≡ false → Ensures Q m')
    → Ensures Q (if b then m else m')
Ensures-if Q true m m' h h' = h refl
Ensures-if Q false m m' h h' = h' refl

pub Ensures-call :
    {D A : Type 0} (E : Type 0) (P : A → Type 0) (m : Result D A)
    → Ensures P m
    → Ensures P (call {E = E} m)
Ensures-call E P (ok a) h = h
Ensures-call E P (err e) h = tt
Ensures-call E P trap h = tt

pub Ensures-and :
    {E A : Type 0} (P Q : A → Type 0) (m : Result E A)
    → Ensures P m
    → Ensures Q m
    → Ensures (λ a. P a × Q a) m
Ensures-and P Q (ok a) p q = (p, q)
Ensures-and P Q (err e) p q = tt
Ensures-and P Q trap p q = tt
