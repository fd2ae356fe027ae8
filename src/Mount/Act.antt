-- ===== src/Mount/Act.antt =====
-- Code that changes a state and may fail. What was changed before a failure stays changed.
use jax_fs.Prelude.{◌≡◌, ◌⊎◌, inl, inr, arith, ap, sym, refl, Bool, true, false}
use jax_fs.Prelude.Results.{Result, ok, err}

abbrev pub Act : Type 0 → Type 0 → Type 0 → Type 0
Act S E A = S → S × Result E A

module _ {S E : Type 0} where
  -- What follows a call, on its outcome.
  abbrev pub after : {A B : Type 0} → S × Result E A → (A → Act S E B) → S × Result E B
  after (s, ok a) f = f a s
  after (s, err e) f = (s, err e)

  abbrev pub pure : {A : Type 0} → A → Act S E A
  pure a s = (s, ok a)

  abbrev pub give : {A : Type 0} → Result E A → Act S E A
  give r s = (s, r)

  -- A result that is read off the state.
  abbrev pub reads : {A : Type 0} → (S → Result E A) → Act S E A
  reads f s = (s, f s)

  abbrev pub gets : {A : Type 0} → (S → A) → Act S E A
  gets f s = (s, ok (f s))

  abbrev pub modify : (S → S) → Act S E (Unit {0})
  modify f s = (f s, ok tt)

  abbrev pub fail_if : Bool → E → Act S E (Unit {0})
  fail_if true e s = (s, err e)
  fail_if false e s = (s, ok tt)

infixl 5 ◌>>=◌ ◌>>◌
abbrev pub ◌>>=◌ : {S E A B : Type 0} → Act S E A → (A → Act S E B) → Act S E B
◌>>=◌ m f s = after (m s) f

abbrev pub ◌>>◌ : {S E B : Type 0} → Act S E (Unit {0}) → Act S E B → Act S E B
m >> k = m >>= λ _. k

-- A call that succeeded came from a first part that did.
pub after-eq-ok :
    {S E A B : Type 0} (x : S × Result E A) (f : A → Act S E B) {s' : S} {b : B}
    → after x f ≡ (s', ok b)
    → (s : S) × (a : A) × (x ≡ (s, ok a)) × (f a s ≡ (s', ok b))
after-eq-ok (s, ok a) f h = (s, a, refl, h)
after-eq-ok (s, err e) f h = cc

pub give-eq-ok :
    {S E A B : Type 0} (r : Result E A) (s : S) (f : A → Act S E B) {s' : S} {b : B}
    → after (s, r) f ≡ (s', ok b)
    → (a : A) × (r ≡ ok a) × (f a s ≡ (s', ok b))
give-eq-ok (ok a) s f h = (a, refl, h)
give-eq-ok (err e) s f h = cc

pub fail_if-eq-ok :
    {S E B : Type 0} (c : Bool) (e : E) (s : S) (f : Unit {0} → Act S E B) {s' : S} {b : B}
    → after (fail_if c e s) f ≡ (s', ok b)
    → (c ≡ false) × (f tt s ≡ (s', ok b))
fail_if-eq-ok true e s f h = cc
fail_if-eq-ok false e s f h = (refl, h)

pub after-after :
    {S E A B C : Type 0} (x : S × Result E A) (f : A → Act S E B) (g : B → Act S E C)
    → after (after x f) g ≡ after x (λ a s. after (f a s) g)
after-after (s, ok a) f g = refl
after-after (s, err e) f g = refl

-- A call that failed did so in its first part, or after it.
pub after-eq-err :
    {S E A B : Type 0} (x : S × Result E A) (f : A → Act S E B) {s' : S} {e : E}
    → after x f ≡ (s', err e)
    → (x ≡ (s', err e)) ⊎ ((s : S) × (a : A) × (x ≡ (s, ok a)) × (f a s ≡ (s', err e)))
after-eq-err (s, ok a) f h = inr (s, a, refl, h)
after-eq-err (s, err x) f h =
    let state = ap (λ y. y.0) h in let error = ap (λ y. y.1) h in inl (ground (arith, state, error))

pub give-eq-err :
    {S E A B : Type 0} (r : Result E A) (s : S) (f : A → Act S E B) {s' : S} {e : E}
    → after (s, r) f ≡ (s', err e)
    → (s' ≡ s) ⊎ ((a : A) × (f a s ≡ (s', err e)))
give-eq-err (ok a) s f h = inr (a, h)
give-eq-err (err x) s f h = inl (ap (λ y. y.0) (sym h))

pub fail_if-eq-err :
    {S E B : Type 0} (c : Bool) (x : E) (s : S) (f : Unit {0} → Act S E B) {s' : S} {e : E}
    → after (fail_if c x s) f ≡ (s', err e)
    → (s' ≡ s) ⊎ (f tt s ≡ (s', err e))
fail_if-eq-err true x s f h = inl (ap (λ y. y.0) (sym h))
fail_if-eq-err false x s f h = inr h
