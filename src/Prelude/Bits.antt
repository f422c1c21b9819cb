-- ===== src/Prelude/Bits.antt =====
-- The masks, packed fields and single-bit toggles of the source, read as arithmetic at every width.
use Prim.Native.Nat.{
  ℕ, zero, suc, ◌+◌, ◌-◌, ◌*◌, ◌/◌, ◌%◌, ◌^◌, ◌≤◌, ◌<◌, min, max, digits, bit_and, bit_or, bit_xor,
}
use Prim.Native.Nat.{differ, bit_and-bitwise, bit_or-bitwise, bit_xor-bitwise}
use mathlib.Core.Path.{◌≡◌, refl, ap}
use native.Mathlib.Nat.{pow-suc, one-le-pow}
use native.Mathlib.Omega.{arith}

-- One binary digit of an operation at a time: two amounts of fuel that suffice agree.
module _ (base : ℕ → ℕ) (on : ℕ → ℕ → ℕ) where
  same_digits : (x y i j : ℕ) → x ≤ min i j → digits base on i x y ≡ digits base on j x y
  same_digits zero y zero zero h = refl
  same_digits zero y zero (suc j) h = refl
  same_digits zero y (suc i) zero h = refl
  same_digits zero y (suc i) (suc j) h = refl
  same_digits (suc x) y zero j h = absurd (omega arith)
  same_digits (suc x) y (suc i) zero h = absurd (omega arith)
  same_digits (suc x) y (suc i) (suc j) h =
      omega (arith, same_digits (suc x / 2) (y / 2) i j (omega arith))

  next_digit :
      (x y : ℕ)
      → digits base on (suc x) (suc x) y
        ≡ on (suc x % 2) (y % 2) + 2 * digits base on (suc x / 2) (suc x / 2) (y / 2)
  next_digit x y = omega (arith, same_digits (suc x / 2) (y / 2) x (suc x / 2) (omega arith))

-- An operation computes its lowest digit from the lowest digits, the rest from the halves.
abbrev Digitwise : (ℕ → ℕ → ℕ) → (ℕ → ℕ → ℕ) → Type 0
Digitwise op on = (x y : ℕ) → op x y ≡ on (x % 2) (y % 2) + 2 * op (x / 2) (y / 2)

and_step : Digitwise bit_and min
and_step zero y = simp bit_and-bitwise (omega arith)
and_step (suc x) y = simp bit_and-bitwise (next_digit (λ _. 0) min x y)

or_step : Digitwise bit_or max
or_step zero y = simp bit_or-bitwise (omega arith)
or_step (suc x) y = simp bit_or-bitwise (next_digit (λ t. t) max x y)

xor_step : Digitwise bit_xor differ
xor_step zero y = simp bit_xor-bitwise (omega arith)
xor_step (suc x) y = simp bit_xor-bitwise (next_digit (λ t. t) differ x y)

differ-zero : (x : ℕ) → differ x 0 ≡ x
differ-zero zero = refl
differ-zero (suc x) = refl

differ-one : (x : ℕ) → x < 2 → differ x 1 ≡ 1 - x
differ-one zero h = refl
differ-one (suc zero) h = refl
differ-one (suc (suc x)) h = absurd (omega arith)

-- The second operand 0, by recursion on a bound for the first.
and-zero_upto : (k a : ℕ) → a ≤ k → bit_and a 0 ≡ 0
and-zero_upto k zero h = refl
and-zero_upto zero (suc a) h = absurd (omega arith)
and-zero_upto (suc k) (suc a) h =
    omega (arith, and_step (suc a) 0, and-zero_upto k (suc a / 2) (omega arith))

or-zero_upto : (k a : ℕ) → a ≤ k → bit_or a 0 ≡ a
or-zero_upto k zero h = refl
or-zero_upto zero (suc a) h = absurd (omega arith)
or-zero_upto (suc k) (suc a) h =
    omega (arith, or_step (suc a) 0, or-zero_upto k (suc a / 2) (omega arith))

xor-zero_upto : (k a : ℕ) → a ≤ k → bit_xor a 0 ≡ a
xor-zero_upto k zero h = refl
xor-zero_upto zero (suc a) h = absurd (omega arith)
xor-zero_upto (suc k) (suc a) h =
    omega (
      arith,
      xor_step (suc a) 0,
      xor-zero_upto k (suc a / 2) (omega arith),
      differ-zero (suc a % 2),
    )

pub bit_and-zero : (a : ℕ) → bit_and a 0 ≡ 0
bit_and-zero a = and-zero_upto a a (omega arith)

pub bit_or-zero : (a : ℕ) → bit_or a 0 ≡ a
bit_or-zero a = or-zero_upto a a (omega arith)

pub bit_xor-zero : (a : ℕ) → bit_xor a 0 ≡ a
bit_xor-zero a = xor-zero_upto a a (omega arith)

double_pow : (q k : ℕ) → q * 2 ^ suc k ≡ 2 * (q * 2 ^ k)
double_pow q k = omega (arith, ap (λ (t : ℕ). q * t) (pow-suc 2 k))

-- An operation digit by digit, on numbers cut at bit `k`, works on the two pieces.
module _ (op f : ℕ → ℕ → ℕ) (zeros : op 0 0 ≡ 0) (step : Digitwise op f) where
  split_at :
      (k p q r s : ℕ)
      → r < 2 ^ k
      → s < 2 ^ k
      → op (p * 2 ^ k + r) (q * 2 ^ k + s) ≡ op p q * 2 ^ k + op r s
  split_at zero p q r s h l = ground (arith, zeros)
  split_at (suc k) p q r s h l = ground (
    arith,
    step (p * 2 ^ suc k + r) (q * 2 ^ suc k + s),
    step r s,
    double_pow p k,
    double_pow q k,
    double_pow (op p q) k,
    pow-suc 2 k,
    split_at k p q (r / 2) (s / 2) (omega arith) (omega arith),
  )

pub bit_and-split :
    (k p q r s : ℕ)
    → r < 2 ^ k
    → s < 2 ^ k
    → bit_and (p * 2 ^ k + r) (q * 2 ^ k + s) ≡ bit_and p q * 2 ^ k + bit_and r s
bit_and-split = split_at bit_and min refl and_step

pub bit_or-split :
    (k p q r s : ℕ)
    → r < 2 ^ k
    → s < 2 ^ k
    → bit_or (p * 2 ^ k + r) (q * 2 ^ k + s) ≡ bit_or p q * 2 ^ k + bit_or r s
bit_or-split = split_at bit_or max refl or_step

pub bit_xor-split :
    (k p q r s : ℕ)
    → r < 2 ^ k
    → s < 2 ^ k
    → bit_xor (p * 2 ^ k + r) (q * 2 ^ k + s) ≡ bit_xor p q * 2 ^ k + bit_xor r s
bit_xor-split = split_at bit_xor differ refl xor_step

-- A mask of `k` low ones keeps the low `k` bits.
low_fits : (k r : ℕ) → r < 2 ^ k → bit_and r (2 ^ k - 1) ≡ r
low_fits zero r h = ground (arith, bit_and-zero r)
low_fits (suc k) r h = ground (
  arith,
  and_step r (2 ^ suc k - 1),
  pow-suc 2 k,
  one-le-pow k 2,
  ap (λ (t : ℕ). bit_and (r / 2) t) (halved k),
  low_fits k (r / 2) (omega (arith, pow-suc 2 k)),
)
  where
    halved : (k : ℕ) → (2 ^ suc k - 1) / 2 ≡ 2 ^ k - 1
    halved k = omega (arith, pow-suc 2 k, one-le-pow k 2)

pub bit_and-mask : (k a : ℕ) → bit_and a (2 ^ k - 1) ≡ a % 2 ^ k
bit_and-mask k a = ground (
  arith,
  one-le-pow k 2,
  bit_and-split k (a / 2 ^ k) 0 (a % 2 ^ k) (2 ^ k - 1),
  bit_and-zero (a / 2 ^ k),
  low_fits k (a % 2 ^ k),
)

-- `a & ~(2^k - 1)`, the mask written for a word of `j + k` bits, clears the low `k` bits.
pub bit_and-clear :
    (j k a : ℕ) → a < 2 ^ j * 2 ^ k → bit_and a ((2 ^ j - 1) * 2 ^ k) ≡ a / 2 ^ k * 2 ^ k
bit_and-clear j k a h = ground (
  arith,
  one-le-pow k 2,
  bit_and-split k (a / 2 ^ k) (2 ^ j - 1) (a % 2 ^ k) 0,
  bit_and-zero (a % 2 ^ k),
  low_fits j (a / 2 ^ k) (grind (arith, one-le-pow k 2)),
)

-- `(q << k) | r` is a sum when `r` fits below bit `k`.
pub bit_or-fields : (k q r : ℕ) → r < 2 ^ k → bit_or (q * 2 ^ k) r ≡ q * 2 ^ k + r
bit_or-fields k q r h =
    ground (arith, one-le-pow k 2, bit_or-split k q 0 0 r, bit_or-zero q, or_step 0 r, zero_or r)
  where
    zero_or : (r : ℕ) → bit_or 0 r ≡ r
    zero_or r = simp bit_or-bitwise

-- Setting the lowest bit.
pub bit_or-one : (a : ℕ) → bit_or a 1 ≡ a / 2 * 2 + 1
bit_or-one a = ground (arith, or_step a 1, bit_or-zero (a / 2))

xor-one_even : (q : ℕ) → bit_xor (2 * q) 1 ≡ 2 * q + 1
xor-one_even q = ground (arith, xor_step (2 * q) 1, bit_xor-zero q, differ-one 0)

xor-one_odd : (q : ℕ) → bit_xor (2 * q + 1) 1 ≡ 2 * q
xor-one_odd q = ground (arith, xor_step (2 * q + 1) 1, bit_xor-zero q, differ-one 1)

-- Toggling bit `k` of a multiple of `2^k` steps between the two halves of a double block.
pub toggle_even : (k q : ℕ) → bit_xor (2 * q * 2 ^ k) (2 ^ k) ≡ (2 * q + 1) * 2 ^ k
toggle_even k q = ground (arith, one-le-pow k 2, bit_xor-split k (2 * q) 1 0 0, xor-one_even q)

pub toggle_odd : (k q : ℕ) → bit_xor ((2 * q + 1) * 2 ^ k) (2 ^ k) ≡ 2 * q * 2 ^ k
toggle_odd k q = ground (arith, one-le-pow k 2, bit_xor-split k (2 * q + 1) 1 0 0, xor-one_odd q)

pub pow_add : (j k : ℕ) → 2 ^ (j + k) ≡ 2 ^ j * 2 ^ k
pow_add zero k = ground arith
pow_add (suc j) k = omega (
  arith,
  ap (λ (t : ℕ). 2 ^ t) (next j k),
  pow-suc 2 (j + k),
  pow_add j k,
  ap (λ (t : ℕ). t * 2 ^ k) (pow-suc 2 j),
)
  where
    next : (j k : ℕ) → suc j + k ≡ suc (j + k)
    next j k = omega arith

-- A word of `j + k` bits shifted right by `k` fits `j` bits.
pub shifted-lt : (j k a : ℕ) → a < 2 ^ (j + k) → a / 2 ^ k < 2 ^ j
shifted-lt j k a h = grind (arith, pow_add j k, one-le-pow k 2)
