-- ===== src/Prelude/Result.antt =====
-- Rust's `Result`, and `?` as the bind of a `do` block.
use mathlib.Core.Path.{◌≡◌, refl}
use mathlib.Core.Bool.{Bool, true, false}

pub data Result (E : Type 0) (A : Type 0) : Type 0 where
  ok : A → Result E A
  err : E → Result E A

infixl 5 ◌>>=◌
abbrev pub ◌>>=◌ : {E A B : Type 0} → Result E A → (A → Result E B) → Result E B
ok a >>= k = k a
err e >>= k = err e

abbrev pub is_ok : {E A : Type 0} → Result E A → Bool
is_ok (ok a) = true
is_ok (err e) = false

-- The value of a result, if there is one, has the property.
abbrev pub Ensures : {E A : Type 0} → (A → Type 0) → Result E A → Type 0
Ensures P (ok a) = P a
Ensures P (err e) = Unit {0}

-- The same as a family, whose rule for a bind finds its parts.
pub data Yields {E A : Type 0} (P : A → Type 0) : Result E A → Type 0 where
  of_value : {a : A} → P a → Yields P (ok a)
  of_error : {e : E} → Yields P (err e)

pub bind-Yields :
    {E A B : Type 0} {P : B → Type 0} (m : Result E A) (k : A → Result E B)
    → ((a : A) → Yields P (k a))
    → Yields P (m >>= k)
bind-Yields (ok a) k h = h a
bind-Yields (err e) k h = of_error

pub Yields-Ensures : {E A : Type 0} {P : A → Type 0} {r : Result E A} → Yields P r → Ensures P r
Yields-Ensures (of_value h) = h
Yields-Ensures of_error = tt

-- The rule with what the first part yields.
pub then-Yields :
    {E A B : Type 0} (Q : A → Type 0) (P : B → Type 0) (m : Result E A) (k : A → Result E B)
    → Yields Q m
    → ((a : A) → Q a → Yields P (k a))
    → Yields P (m >>= k)
then-Yields Q P (ok a) k (of_value q) h = h a q
then-Yields Q P (err e) k y h = of_error

-- The parts of a bind that has a value.
pub bind-eq-ok :
    {E A B : Type 0} (m : Result E A) (k : A → Result E B) (b : B)
    → (m >>= k) ≡ ok b
    → (a : A) × (m ≡ ok a) × (k a ≡ ok b)
bind-eq-ok (ok a) k b h = (a, refl, h)
bind-eq-ok (err e) k b h = cc

pub map-Yields :
    {E A : Type 0} (P Q : A → Type 0) (r : Result E A)
    → ((a : A) → P a → Q a)
    → Yields P r
    → Yields Q r
map-Yields P Q (ok a) h (of_value p) = of_value (h a p)
map-Yields P Q (err e) h y = of_error
