-- ===== src/Prelude/Run.antt =====
-- What a stretch of kernel code may come to. `panic` is the kernel's own stop; `fault` is a step
-- that C++ leaves undefined, such as a read past the end of a table.
pub data Run {ℓ} (A : Type ℓ) : Type ℓ where
  ok : A → Run A
  panic : Run A
  fault : Run A

-- A later stretch of code runs only after the first one has come to a result.
infixl 5 ◌>>=◌
abbrev pub ◌>>=◌ {ℓ κ} : {State : Type ℓ} {Out : Type κ} → Run State → (State → Run Out) → Run Out
fault >>= rest = fault
panic >>= rest = panic
ok state >>= rest = rest state

-- A property of the result, if the code comes to one.
abbrev pub Returns {ℓ κ} : {A : Type ℓ} → (A → Type κ) → Run A → Type κ
Returns P (ok a) = P a
Returns P panic = Unit
Returns P fault = Unit

pub Returns-bind {ℓ κ ι} :
    {A : Type ℓ} {B : Type κ} (P : B → Type ι) (m : Run A) (f : A → Run B)
    → ((a : A) → Returns P (f a))
    → Returns P (m >>= f)
Returns-bind P (ok a) f h = h a
Returns-bind P panic f h = tt
Returns-bind P fault f h = tt

-- What the first stretch returns is known to the second.
pub Returns-then {ℓ κ ι μ} :
    {A : Type ℓ} {B : Type κ} (Q : A → Type ι) (P : B → Type μ) (m : Run A) (f : A → Run B)
    → Returns Q m
    → ((a : A) → Q a → Returns P (f a))
    → Returns P (m >>= f)
Returns-then Q P (ok a) f q h = h a q
Returns-then Q P panic f q h = tt
Returns-then Q P fault f q h = tt
