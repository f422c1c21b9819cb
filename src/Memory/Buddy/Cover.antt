-- ===== src/Memory/Buddy/Cover.antt =====
-- How many of the free blocks hold an address.
use startos.Prelude.{
  ℕ, zero, suc, ◌+◌, ◌^◌, ◌≤◌, ◌<◌, ◌==◌, ltb, leb, if◌then◌else◌, ◌&&◌, ◌≡◌, ◌≢◌, refl, subst,
  List, [], ◌∷◌, count, erase, arith, Bool-cases, inl, inr,
}
use native.Mathlib.Nat.{one-le-pow}

-- 1 if the block of level `i` at `b` holds the address `a`, else 0.
abbrev pub inside : ℕ → ℕ → ℕ → ℕ
inside i b a = if leb b a && ltb a (b + 2 ^ i) then 1 else 0

abbrev pub covers : ℕ → List ℕ → ℕ → ℕ
covers i [] a = 0
covers i (b ∷ bs) a = inside i b a + covers i bs a

-- The free blocks of each level.
abbrev pub Levels : Type 0
Levels = ℕ → List ℕ

abbrev pub update : Levels → ℕ → List ℕ → Levels
update bs i xs = λ j. if j == i then xs else bs j

-- A property of the changed level and of the others.
pub at_update :
    (P : ℕ → List ℕ → Type 0) (i : ℕ) (xs : List ℕ) (bs : Levels) (j : ℕ)
    → P i xs
    → P j (bs j)
    → P j (update bs i xs j)
at_update P i xs bs j changed kept = elim (Bool-cases (j == i)) [
  | inl e ↦
      let same : i ≡ j = ground arith in subst (λ t. P t (update bs i xs j)) same (rw e changed)
  | inr e ↦ rw e kept
]

-- Over the levels below `n`.
unfoldable pub total : ℕ → Levels → ℕ → ℕ
total zero bs a = 0
total (suc n) bs a = total n bs a + covers n (bs n) a

-- Over all 13 levels.
unfoldable pub cover : Levels → ℕ → ℕ
cover bs a = total 13 bs a

total-update_above :
    (n i : ℕ) (bs : Levels) (xs : List ℕ) (a : ℕ)
    → n ≤ i
    → total n (update bs i xs) a ≡ total n bs a
unfolding total
total-update_above zero i bs xs a h = refl
total-update_above (suc n) i bs xs a h = ground (arith, total-update_above n i bs xs a)

total-update :
    (n i : ℕ) (bs : Levels) (xs : List ℕ) (a : ℕ)
    → i < n
    → total n (update bs i xs) a + covers i (bs i) a ≡ total n bs a + covers i xs a
unfolding total
total-update zero i bs xs a h = absurd (omega arith)
total-update (suc n) i bs xs a h = elim (Bool-cases (n == i)) [
  | inl e ↦ let same : n ≡ i = ground arith in ground (arith, total-update_above n i bs xs a)
  | inr e ↦ ground (arith, total-update n i bs xs a)
]

pub cover-update :
    (i : ℕ) (bs : Levels) (xs : List ℕ) (a : ℕ)
    → i ≤ 12
    → cover (update bs i xs) a + covers i (bs i) a ≡ cover bs a + covers i xs a
unfolding cover
cover-update i bs xs a h = total-update 13 i bs xs a (omega arith)

-- A block holds its own address.
pub count-le-covers : (i a : ℕ) (xs : List ℕ) → count a xs ≤ covers i xs a
count-le-covers i a [] = omega arith
count-le-covers i a (x ∷ xs) = ground (arith, one-le-pow i 2, count-le-covers i a xs)

covers-le-total : (n i : ℕ) (bs : Levels) (a : ℕ) → i < n → covers i (bs i) a ≤ total n bs a
unfolding total
covers-le-total zero i bs a h = absurd (omega arith)
covers-le-total (suc n) i bs a h = elim (Bool-cases (n == i)) [
  | inl e ↦ (let same : n ≡ i = ground arith in ground arith)
  | inr e ↦ ground (arith, covers-le-total n i bs a)
]

pub covers-le-cover : (i : ℕ) (bs : Levels) (a : ℕ) → i ≤ 12 → covers i (bs i) a ≤ cover bs a
unfolding cover
covers-le-cover i bs a h = covers-le-total 13 i bs a (omega arith)

-- Two levels count separately.
two_levels :
    (n i j : ℕ) (bs : Levels) (a : ℕ)
    → i < n
    → j < n
    → i ≢ j
    → covers i (bs i) a + covers j (bs j) a ≤ total n bs a
unfolding total
two_levels zero i j bs a h l ne = absurd (omega arith)
two_levels (suc n) i j bs a h l ne = elim (Bool-cases (n == i)) [
  | inl e ↦ (let same : n ≡ i = ground arith in ground (arith, covers-le-total n j bs a))
  | inr e ↦ elim (Bool-cases (n == j)) [
    | inl e' ↦ (let same : n ≡ j = ground arith in ground (arith, covers-le-total n i bs a))
    | inr e' ↦ ground (arith, two_levels n i j bs a)
  ]
]

pub two_levels-le-cover :
    (i j : ℕ) (bs : Levels) (a : ℕ)
    → i ≤ 12
    → j ≤ 12
    → i ≢ j
    → covers i (bs i) a + covers j (bs j) a ≤ cover bs a
unfolding cover
two_levels-le-cover i j bs a h l ne = two_levels 13 i j bs a (omega arith) (omega arith) ne

pub covers-erase :
    (i b a : ℕ) (xs : List ℕ)
    → 1 ≤ count b xs
    → covers i (erase b xs) a + inside i b a ≡ covers i xs a
covers-erase i b a [] h = absurd (omega arith)
covers-erase i b a (x ∷ xs) h = ground (arith, covers-erase i b a xs)
