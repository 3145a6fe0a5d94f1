-- ===== src/Prelude/Results.antt =====
-- Code that may raise: `err e` is the exception, and `do` blocks end at the first one.
use mathlib.Core.Path.{◌≡◌, refl, ap, subst}
use mathlib.Core.List.{List, [], ◌∷◌, ◌++◌}
use mathlib.Core.Bool.{Bool, true, false}
use mathlib.Core.Option.{Option, none, some}

pub data Result {ℓ} (E : Type 0) (A : Type ℓ) : Type ℓ where
  ok : A → Result E A
  err : E → Result E A

infixl 5 ◌>>=◌ ◌>>◌
abbrev pub ◌>>=◌ {ℓ κ} :
    {E : Type 0} {A : Type ℓ} {B : Type κ} → Result E A → (A → Result E B) → Result E B
ok a >>= f = f a
err e >>= f = err e

abbrev pub ◌>>◌ {ℓ} : {E : Type 0} {B : Type ℓ} → Result E (Unit {0}) → Result E B → Result E B
m >> k = m >>= λ _. k

-- `if test: raise e`
abbrev pub raise_if : {E : Type 0} → Bool → E → Result E (Unit {0})
raise_if true e = err e
raise_if false e = ok tt

abbrev pub or_raise {ℓ} : {E : Type 0} {A : Type ℓ} → Option A → E → Result E A
or_raise none e = err e
or_raise (some a) e = ok a

-- `except Error as exc: raise Other(...) from exc`
abbrev pub map_err {ℓ} : {E F : Type 0} {A : Type ℓ} → (E → F) → Result E A → Result F A
map_err f (ok a) = ok a
map_err f (err e) = err (f e)

-- A step that went well inside a block that went well.
pub >>=-eq-ok {ℓ κ} :
    {E : Type 0} {A : Type ℓ} {B : Type κ} (r : Result E A) (k : A → Result E B) {y : B}
    → (r >>= k) ≡ ok y
    → (x : A) × (r ≡ ok x) × (k x ≡ ok y)
>>=-eq-ok (err e) k p = cc
>>=-eq-ok (ok x) k p = (x, refl, p)

-- a passed guard
pub >>-eq-ok {ℓ} :
    {E : Type 0} {B : Type ℓ} (t : Bool) (e : E) (k : Result E B) {b : B}
    → (raise_if t e >> k) ≡ ok b
    → (t ≡ false) × (k ≡ ok b)
>>-eq-ok true e k h = cc
>>-eq-ok false e k h = (refl, h)

pub ok-injective {ℓ} :
    {E : Type 0} {A : Type ℓ} {a b : A} → ◌≡◌ {A = Result E A} (ok a) (ok b) → a ≡ b
ok-injective h = cc

-- A read value and what it leaves.
pub ok_pair-injective {ℓ κ} :
    {E : Type 0} {A : Type ℓ} {B : Type κ} {a c : A} {b d : B}
    → ◌≡◌ {A = Result E (A × B)} (ok (a, b)) (ok (c, d))
    → (a ≡ c) × (b ≡ d)
ok_pair-injective h = let e = ok-injective h in (ap (λ t. t.0) e, ap (λ t. t.1) e)

pub or_raise-eq-ok {ℓ} :
    {E : Type 0} {A : Type ℓ} (o : Option A) (e : E) {a : A} → or_raise o e ≡ ok a → o ≡ some a
or_raise-eq-ok none e h = cc
or_raise-eq-ok (some a) e h = cc

-- `for x in xs: s = step(s, x)`, which ends at the first exception.
module _ {E S A : Type 0} (step : S → A → Result E S) where
  unfoldable pub fold_result : S → List A → Result E S
  fold_result s [] = ok s
  fold_result s (x ∷ xs) = do s' ← step s x; fold_result s' xs

  pub fold_result-append :
      (s : S) (xs : List A) (x : A)
      → fold_result s (xs ++ x ∷ []) ≡ (fold_result s xs >>= λ s'. step s' x)
  unfolding fold_result
  fold_result-append s [] x = last (step s x)
    where
      last : (r : Result E S) → (r >>= λ s'. ok s') ≡ r
      last (ok s') = refl
      last (err e) = refl
  fold_result-append s (y ∷ xs) x = behind (step s y) (λ s'. fold_result-append s' xs x)
    where
      behind :
          (r : Result E S)
          → ((s' : S) → fold_result s' (xs ++ x ∷ []) ≡ (fold_result s' xs >>= λ s''. step s'' x))
          → (r >>= λ s'. fold_result s' (xs ++ x ∷ []))
            ≡ ((r >>= λ s'. fold_result s' xs) >>= λ s'. step s' x)
      behind (ok s') ih = ih s'
      behind (err e) ih = refl

  -- An invariant of the body holds after the loop.
  pub fold_result_inv :
      (P : S → Type 0)
      → ((s : S) (x : A) (s' : S) → P s → step s x ≡ ok s' → P s')
      → (s : S) (xs : List A) (s' : S) → P s
      → fold_result s xs ≡ ok s'
      → P s'
  unfolding fold_result
  fold_result_inv P keep s [] s' p h = subst P (ok-injective h) p
  fold_result_inv P keep s (x ∷ xs) s' p h =
      let (t, e, h1) = >>=-eq-ok (step s x) _ h in
      fold_result_inv P keep t xs s' (keep s x t p e) h1

pub err-injective {ℓ} :
    {E : Type 0} {A : Type ℓ} {a b : E} → ◌≡◌ {A = Result E A} (err a) (err b) → a ≡ b
err-injective h = cc

pub ok_some-injective {ℓ} :
    {E : Type 0} {A : Type ℓ} {a b : A}
    → ◌≡◌ {A = Result E (Option A)} (ok (some a)) (ok (some b))
    → a ≡ b
ok_some-injective h = cc

-- `for x in xs: check(x)`
module _ {E A : Type 0} (check : A → Result E (Unit {0})) where
  unfoldable pub each_of : List A → Result E (Unit {0})
  each_of [] = ok tt
  each_of (x ∷ xs) = do check x; each_of xs

-- `[f(x) for x in xs]`
module _ {E A B : Type 0} (f : A → Result E B) where
  unfoldable pub for_each : List A → Result E (List B)
  for_each [] = ok []
  for_each (x ∷ xs) = do y ← f x; ys ← for_each xs; ok (y ∷ ys)

pub map_err-eq-ok :
    {E F A : Type 0} (f : E → F) (r : Result E A) {a : A} → map_err f r ≡ ok a → r ≡ ok a
map_err-eq-ok f (ok b) h = ap ok (ok-injective h)
map_err-eq-ok f (err e) h = absurd (cc h)
