-- ===== src/InvoiceNft/Freezing.antt =====
-- What the bulk freeze has frozen when it returns.
use kora_contract.Prelude.{
  ℕ, ◌+◌, ◌≤◌, ◌<◌, ◌≡◌, refl, inl, inr, Bool, true, false, Option, none, some, List, [], ◌∷◌,
  arith, unwrap_or, is_some, if◌then◌else◌, ◌==◌, Bool-cases, leb, length,
}
use kora_contract.Prelude.Results.{Ensures, Ensures-ok, ok}
use kora_contract.Prelude.Store.{update}
use kora_contract.Shared.Host.{Env, Address}
use kora_contract.InvoiceNft.State.{NftState, InvoiceHot}
use kora_contract.InvoiceNft.Views.{is_open}
use kora_contract.InvoiceNft.Freeze.{freeze_loop, skips_freeze, freeze_sme_invoices}

abbrev pub contains : ℕ → List ℕ → Bool
contains id [] = false
contains id (x ∷ xs) = if x == id then true else contains id xs

-- Whether a record is there and not settled.
abbrev pub is_live : Option InvoiceHot → Bool
is_live none = false
is_live (some h) = is_open h

-- No identifier twice.
abbrev pub IsDistinct : List ℕ → Type 0
IsDistinct [] = Unit
IsDistinct (x ∷ xs) = (contains x xs ≡ false) × IsDistinct xs

-- What the loop does from the count `start` on, to the count `n`: the identifiers that it froze are as many as it has
-- counted, each of them a live invoice of the list that had no flag, and no other flag is changed. If it
-- stops below the maximum every live invoice of the list is frozen.
pub record IsFrozen (s : NftState) (start max : ℕ) (ids : List ℕ) (s' : NftState) (n : ℕ)
    : Type 0 where
  pub froze : List ℕ
  pub counted : start + length froze ≡ n
  pub within : n ≤ max
  pub distinct : IsDistinct froze
  pub same_hot : s'.hot ≡ s.hot
  pub rest : (j : ℕ) → contains j froze ≡ false → s'.frozen j ≡ s.frozen j
  pub fresh : (j : ℕ) → contains j froze ≡ true → s.frozen j ≡ none
  pub live : (j : ℕ) → contains j froze ≡ true → is_live (s.hot j) ≡ true
  pub listed : (j : ℕ) → contains j froze ≡ true → contains j ids ≡ true
  pub set : (j : ℕ) → contains j froze ≡ true → s'.frozen j ≡ some true
  pub reaches :
      n < max
      → (j : ℕ) → contains j ids ≡ true
      → is_live (s.hot j) ≡ true
      → is_some (s'.frozen j) ≡ true

-- Nothing is frozen: the end of the list, or of the count.
none-IsFrozen :
    (s : NftState) (n max : ℕ) (ids : List ℕ)
    → n ≤ max
    → (n < max → ids ≡ [])
    → IsFrozen s n max ids s n
none-IsFrozen s n max ids le over = record {
  froze = [];
  counted = omega arith;
  within = le;
  distinct = tt;
  same_hot = refl;
  rest = λ j h. refl;
  fresh = λ j h. cc (h);
  live = λ j h. cc (h);
  listed = λ j h. cc (h);
  set = λ j h. cc (h);
  reaches = λ lt j h. let e = over lt in ground (arith, e, h);
}

-- A flag that is set is not among those that the loop sets.
flag_kept :
    (s s' : NftState) (start max : ℕ) (ids : List ℕ) (n : ℕ) (f : IsFrozen s start max ids s' n)
    (j : ℕ)
    → is_some (s.frozen j) ≡ true
    → contains j f.froze ≡ false
flag_kept s s' start max ids n f j h = elim (Bool-cases (contains j f.froze)) [
  | inl is ↦ absurd (let e = f.fresh j is in ground (arith, e, h))
  | inr is_not ↦ is_not
]

skip-IsFrozen :
    (s s' : NftState) (start max id : ℕ) (ids : List ℕ) (n : ℕ)
    → skips_freeze s id ≡ true
    → IsFrozen s start max ids s' n
    → IsFrozen s start max (id ∷ ids) s' n
skip-IsFrozen s s' start max id ids n skips f = record {
  froze = f.froze;
  counted = f.counted;
  within = f.within;
  distinct = f.distinct;
  same_hot = f.same_hot;
  rest = f.rest;
  fresh = f.fresh;
  live = f.live;
  listed = λ j h. ground (arith, f.listed j h);
  set = f.set;
  reaches =
      λ lt j h live. ground (arith, f.rest j, flag_kept s s' start max ids n f j, f.reaches lt j);
}

next-IsFrozen :
    (s s' : NftState) (start max id : ℕ) (ids : List ℕ) (n : ℕ)
    → skips_freeze s id ≡ false
    → IsFrozen (record s { frozen = update s.frozen id true }) (start + 1) max ids s' n
    → IsFrozen s start max (id ∷ ids) s' n
next-IsFrozen s s' start max id ids n takes f =
    let s1 = record s { frozen = update s.frozen id true } in
    let flagged : is_some (s1.frozen id) ≡ true = ground arith in
    let new = flag_kept s1 s' (start + 1) max ids n f id flagged in
    record {
      froze = id ∷ f.froze;
      counted = omega (arith, f.counted);
      within = f.within;
      distinct = (new, f.distinct);
      same_hot = f.same_hot;
      rest = λ j h. ground (arith, h, f.rest j);
      fresh = λ j h. ground (arith, h, takes, f.fresh j);
      live = λ j h. ground (arith, h, takes, f.live j);
      listed = λ j h. ground (arith, h, f.listed j);
      set = λ j h. ground (arith, h, new, f.rest j, f.set j);
      reaches = λ lt j h live. ground (arith, h, live, new, f.rest j, f.reaches lt j);
    }

freeze_loop-IsFrozen :
    (s : NftState) (processed max : ℕ) (ids : List ℕ)
    → processed ≤ max
    → IsFrozen s processed max ids
        (freeze_loop s processed max ids).0
        (freeze_loop s processed max ids).1
unfolding freeze_loop
freeze_loop-IsFrozen s processed max [] le = none-IsFrozen s processed max [] le (λ lt. refl)
freeze_loop-IsFrozen s processed max (id ∷ ids) le = elim (Bool-cases (leb max processed)) [
  | inl full ↦
      rw full
        (none-IsFrozen s processed max (id ∷ ids) le (λ lt. absurd (ground (arith, full, lt))))
  | inr room ↦ rw room (elim (Bool-cases (skips_freeze s id)) [
    | inl skips ↦ rw skips (
        skip-IsFrozen s _ processed max id ids _ skips
          (freeze_loop-IsFrozen s processed max ids le))
    | inr takes ↦ rw takes (
        next-IsFrozen s _ processed max id ids _ takes (
          freeze_loop-IsFrozen (record s { frozen = update s.frozen id true }) (processed + 1) max
            ids (ground (arith, room))))
  ])
]

returned :
    (env : Env) (s : NftState) (admin sme : Address) (max : ℕ)
    → Ensures
        (λ p. IsFrozen s 0 max (unwrap_or (s.sme_invoice_ids sme) []) p.0 p.1)
        (freeze_sme_invoices env s admin sme max)
unfolding freeze_sme_invoices
returned env s admin sme max =
    grind (arith, freeze_loop-IsFrozen s 0 max (unwrap_or (s.sme_invoice_ids sme) []) (omega arith))

-- A bulk freeze that succeeds freezes exactly as many invoices as it returns, which is at most the maximum asked for:
-- each of them is on the SME's list, is neither settled nor missing, had no flag and has one now, and no other flag is
-- changed. Where it freezes less than the maximum, every invoice of the list that is neither settled nor
-- missing is frozen afterwards.
pub freeze_sme_invoices-IsFrozen :
    (env : Env) (s : NftState) (admin sme : Address) (max : ℕ) (s' : NftState) (n : ℕ)
    → freeze_sme_invoices env s admin sme max ≡ ok (s', n)
    → IsFrozen s 0 max (unwrap_or (s.sme_invoice_ids sme) []) s' n
freeze_sme_invoices-IsFrozen env s admin sme max s' n e =
    Ensures-ok (λ p. IsFrozen s 0 max (unwrap_or (s.sme_invoice_ids sme) []) p.0 p.1)
      (freeze_sme_invoices env s admin sme max) (returned env s admin sme max) e
