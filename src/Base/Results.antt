-- ===== src/Base/Results.antt =====
-- `Result`, and `Option` as fallible values.
use mathlib.Core.Path.{◌≡◌, refl}
use mathlib.Core.Logic.{◌⊎◌, inl, inr}
use mathlib.Core.Bool.{Bool, true, false}
use mathlib.Core.Option.{Option, none, some}

pub data Result (E : Type 0) (A : Type 0) : Type 0 where
  err : E → Result E A
  ok : A → Result E A

infixr 5 ◌>>=◌ ◌>>◌
unfoldable pub ◌>>=◌ : {E A B : Type 0} → Result E A → (A → Result E B) → Result E B
err e >>= f = err e
ok a >>= f = f a

unfoldable pub ◌>>◌ : {E B : Type 0} → Result E (Unit {0}) → Result E B → Result E B
err e >> k = err e
ok _ >> k = k

-- An early `return Err(e)` unless the test holds.
abbrev pub ensure : {E : Type 0} → Bool → E → Result E (Unit {0})
ensure true e = ok tt
ensure false e = err e

-- `Option::ok_or`.
abbrev pub ok_or : {E A : Type 0} → Option A → E → Result E A
ok_or none e = err e
ok_or (some a) e = ok a

-- `Result::is_ok`.
abbrev pub is_ok : {E A : Type 0} → Result E A → Bool
is_ok (ok a) = true
is_ok (err e) = false

pub Result-cases :
    {E A : Type 0} (r : Result E A) → ((a : A) × (r ≡ ok a)) ⊎ ((e : E) × (r ≡ err e))
Result-cases (ok a) = inl (a, refl)
Result-cases (err e) = inr (e, refl)

pub ensure-eq-ok : {E : Type 0} (b : Bool) (e : E) → ensure b e ≡ ok tt → b ≡ true
ensure-eq-ok true e h = refl
ensure-eq-ok false e h = cc

-- The value of a result, if there is one, has the property.
unfoldable pub Ensures : {E A : Type 0} → (A → Type 0) → Result E A → Type 0
Ensures P (ok a) = P a
Ensures P (err e) = Unit

module _ {E A : Type 0} (P : A → Type 0) where
  pub Ensures-ok : (r : Result E A) (a : A) → r ≡ ok a → P a → Ensures P r
  unfolding Ensures
  Ensures-ok r a e p = rw e p

  pub Ensures-elim : {r : Result E A} {a : A} → Ensures P r → r ≡ ok a → P a
  unfolding Ensures
  Ensures-elim {r} {a} h e = rw e at h

  pub Ensures-bind :
      {B : Type 0} (m : Result E B) (f : B → Result E A)
      → ((b : B) → m ≡ ok b → Ensures P (f b))
      → Ensures P (m >>= f)
  unfolding Ensures ◌>>=◌
  Ensures-bind (ok b) f h = h b refl
  Ensures-bind (err e) f h = tt

  pub Ensures-guard :
      (test : Bool) (e : E) (k : Result E A)
      → (test ≡ true → Ensures P k)
      → Ensures P (ensure test e >> k)
  unfolding Ensures ◌>>◌
  Ensures-guard true e k h = h refl
  Ensures-guard false e k h = tt

  pub Ensures-seq :
      (m : Result E (Unit {0})) (k : Result E A) → (m ≡ ok tt → Ensures P k) → Ensures P (m >> k)
  unfolding Ensures ◌>>◌
  Ensures-seq (ok tt) k h = h refl
  Ensures-seq (err e) k h = tt

pub Ensures-err : {E A : Type 0} (P : A → Type 0) (r : Result E A) (e : E) → r ≡ err e → Ensures P r
unfolding Ensures
Ensures-err P r e h = rw h tt

pub Ensures-map :
    {E A : Type 0} (P Q : A → Type 0) (r : Result E A)
    → Ensures P r
    → ((a : A) → P a → Q a)
    → Ensures Q r
unfolding Ensures
Ensures-map P Q (ok a) h f = f a h
Ensures-map P Q (err e) h f = tt

pub Ensures-ensure :
    {E : Type 0} (P : Unit {0} → Type 0) (test : Bool) (e : E)
    → (test ≡ true → P tt)
    → Ensures P (ensure test e)
unfolding Ensures
Ensures-ensure P true e h = h refl
Ensures-ensure P false e h = tt

-- `map_err`.
abbrev pub map_err : {E F A : Type 0} → (E → F) → Result E A → Result F A
map_err f (ok a) = ok a
map_err f (err e) = err (f e)

pub map_err_ok :
    {E F A : Type 0} (f : E → F) (r : Result E A) (a : A) → map_err f r ≡ ok a → r ≡ ok a
map_err_ok f (ok b) a h = cc
map_err_ok f (err e) a h = cc

pub seq_ok :
    {E B : Type 0} (m : Result E (Unit {0})) (k : Result E B) {b : B}
    → m >> k ≡ ok b
    → (m ≡ ok tt) × (k ≡ ok b)
unfolding ◌>>◌
seq_ok (ok tt) k h = (refl, h)
seq_ok (err e) k h = cc
