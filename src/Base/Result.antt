-- ===== src/Base/Result.antt =====
-- Go's `(value, error)` results, and code that changes a state and may fail on the way. An error
-- is its message; what a failed call did to the state before it failed is kept.
use mathlib.Core.Path.{◌≡◌, refl, ap}
use mathlib.Core.Logic.{◌⊎◌, inl, inr}
use mathlib.Core.List.{◌++◌}
use bulb.Base.Strings.{Text, codes}

abbrev pub Error : Type 0
Error = Text

pub data Result {ℓ} (A : Type ℓ) : Type ℓ where
  ok : A → Result A
  err : Error → Result A

-- `Get` or `Delete` on the API server: a result, not found, or another error.
pub data Found {ℓ} (A : Type ℓ) : Type ℓ where
  found : A → Found A
  not_found : Found A
  failed : Error → Found A

abbrev pub M : Type 0 → Type 0 → Type 0
M S A = S → S × Result A

abbrev pub continue_with : {A B S : Type 0} → (A → M S B) → S × Result A → S × Result B
continue_with f (s, ok a) = f a s
continue_with f (s, err e) = (s, err e)

infixl 5 ◌>>=◌ ◌>>◌
abbrev pub ◌>>=◌ : {S A B : Type 0} → M S A → (A → M S B) → M S B
◌>>=◌ m f s = continue_with f (m s)

abbrev pub ◌>>◌ : {S B : Type 0} → M S (Unit {0}) → M S B → M S B
m >> k = m >>= λ _. k

abbrev pub return : {S A : Type 0} → A → M S A
return a s = (s, ok a)

-- A query: it reads the state and leaves it alone.
abbrev pub query : {S A : Type 0} → (S → Result A) → M S A
query f s = (s, f s)

-- `fmt.Errorf("what: %w", err)`
abbrev pub wrap {ℓ} : {A : Type ℓ} → Text → Result A → Result A
wrap what (ok a) = ok a
wrap what (err e) = err (what ++ codes ": " ++ e)

abbrev pub wrapping : {S A : Type 0} → Text → M S A → M S A
wrapping what m s = let (s', r) = m s in (s', wrap what r)

pub Result-cases {ℓ} :
    {A : Type ℓ} (r : Result A) → ((a : A) × (r ≡ ok a)) ⊎ ((e : Error) × (r ≡ err e))
Result-cases (ok a) = inl (a, refl)
Result-cases (err e) = inr (e, refl)

pub ok≢err {ℓ} : {A : Type ℓ} {a : A} {e : Error} → ok a ≡ err e → ⊥
ok≢err h = cc

-- A chain that succeeds has had its first step succeed.
pub continue_with-ok :
    {A B S : Type 0} (f : A → M S B) (m : S × Result A) {b : B}
    → (continue_with f m).1 ≡ ok b
    → (a : A) × (m.1 ≡ ok a) × ((f a m.0).1 ≡ ok b) × (continue_with f m ≡ f a m.0)
continue_with-ok f (s, ok a) h = (a, refl, h, refl)
continue_with-ok f (s, err e) h = cc

pub continue_with_of_ok :
    {A B S : Type 0} (f : A → M S B) (m : S × Result A) {a : A}
    → m.1 ≡ ok a
    → continue_with f m ≡ f a m.0
continue_with_of_ok f (s, ok b) h = ap (λ r. continue_with f (s, r)) h
continue_with_of_ok f (s, err e) h = cc

pub continue_with_of_err :
    {A B S : Type 0} (f : A → M S B) (m : S × Result A) {e : Error}
    → m.1 ≡ err e
    → continue_with f m ≡ (m.0, err e)
continue_with_of_err f (s, ok b) h = cc
continue_with_of_err f (s, err e) h = ap (λ r. continue_with f (s, r)) h

-- What holds of the state after the first step, and is kept by the second, holds after the chain.
pub continue_with-state {ℓ} :
    {A B S : Type 0} (P : S → Type ℓ) (f : A → M S B) (m : S × Result A)
    → P m.0
    → ((a : A) (s : S) → P s → P (f a s).0)
    → P (continue_with f m).0
continue_with-state P f (s, ok a) h keeps = keeps a s h
continue_with-state P f (s, err e) h keeps = h

-- What a chain that succeeds has done: its first step has succeeded, and so have those that follow.
pub continue_with-elim {ℓ} :
    {A B S : Type 0} (Q : S × Result B → Type ℓ) (f : A → M S B) (m : S × Result A) (b : B)
    → (continue_with f m).1 ≡ ok b
    → ((a : A) → m.1 ≡ ok a → (f a m.0).1 ≡ ok b → Q (f a m.0))
    → Q (continue_with f m)
continue_with-elim Q f (s, ok a) b h next = next a refl h
continue_with-elim Q f (s, err e) b h next = cc

pub wrap-eq-ok {ℓ} :
    {A : Type ℓ} (what : Text) (r : Result A) {a : A} → wrap what r ≡ ok a → r ≡ ok a
wrap-eq-ok what (ok b) h = h
wrap-eq-ok what (err e) h = cc

-- Both ways in which a chain goes on.
pub continue_with-cases {ℓ} :
    {A B S : Type 0} (Q : S × Result B → Type ℓ) (f : A → M S B) (m : S × Result A)
    → ((a : A) → m.1 ≡ ok a → Q (f a m.0))
    → ((e : Error) → m.1 ≡ err e → Q (m.0, err e))
    → Q (continue_with f m)
continue_with-cases Q f (s, ok a) next stop = next a refl
continue_with-cases Q f (s, err e) next stop = stop e refl

pub wrap-eq-err {ℓ} :
    {A : Type ℓ} (what : Text) (r : Result A) {e : Error}
    → wrap what r ≡ err e
    → (e' : Error) × (r ≡ err e')
wrap-eq-err what (ok b) h = cc
wrap-eq-err what (err e') h = (e', refl)
