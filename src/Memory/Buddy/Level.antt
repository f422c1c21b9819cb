-- ===== src/Memory/Buddy/Level.antt =====
-- `_calc_level` of kernel/memory/BuddyAllocator.cpp, and the sizes for which `alloc` leaves its table.
use startos.Prelude.{
  ℕ, zero, suc, ◌+◌, ◌*◌, ◌%◌, ◌^◌, ◌≤◌, ◌<◌, ltb, true, ◌≡◌, ◌≢◌, refl, arith, ap, Bool-cases, inl,
  inr, ltb→lt, lt→ltb,
}
use native.Mathlib.Nat.{pow-suc, pow-le-pow_right}
use native.Mathlib.Decide.{dec_lt}
use startos.Prelude.Run.{ok, fault}
use startos.Memory.Buddy.{Buddy, calc_loop, calc_level, find_block, alloc}

-- The least level from 4 on whose blocks hold `size` bytes.
pub record IsLevel (size lv : ℕ) : Type 0 where
  pub at_least : 4 ≤ lv
  pub fits : size ≤ 2 ^ lv
  pub least : (j : ℕ) → 4 ≤ j → size ≤ 2 ^ j → lv ≤ j

doubled : (lv : ℕ) → lv ≤ 62 → 2 ^ lv * 2 % 2 ^ 64 ≡ 2 ^ (lv + 1)
doubled lv h =
    let next : lv + 1 ≡ suc lv = omega arith in
    let bound : 2 ^ lv ≤ 2 ^ 62 = pow-le-pow_right {n = 2} (omega arith) h in
    omega (arith, pow-suc 2 lv, ap (λ (t : ℕ). 2 ^ t) next)

above : (size lv j : ℕ) → 2 ^ lv < size → size ≤ 2 ^ j → lv ≤ j → lv + 1 ≤ j
above size lv j more fits le =
    let ne : lv ≢ j =
      λ e. absurd (let same : 2 ^ lv ≡ 2 ^ j = ap (λ (t : ℕ). 2 ^ t) e in omega arith) in
    omega arith

not_top : (size lv : ℕ) → size ≤ 2 ^ 63 → 2 ^ lv < size → lv ≢ 63
not_top size lv small more top =
    let whole : 2 ^ lv ≡ 2 ^ 63 = ap (λ (t : ℕ). 2 ^ t) top in omega arith

calc_loop-IsLevel :
    (k size lv : ℕ)
    → size ≤ 2 ^ 63
    → lv + k ≡ 65
    → 4 ≤ lv
    → lv ≤ 63
    → ((j : ℕ) → 4 ≤ j → size ≤ 2 ^ j → lv ≤ j)
    → (r : ℕ) × (calc_loop k size (2 ^ lv) lv ≡ ok r) × IsLevel size r
unfolding calc_loop
calc_loop-IsLevel zero size lv small e lo hi least = absurd (omega arith)
calc_loop-IsLevel (suc k) size lv small e lo hi least = elim (Bool-cases (ltb (2 ^ lv) size)) [
  | inl t ↦
      let more : 2 ^ lv < size = ltb→lt (2 ^ lv) size t in
      let ne : lv ≢ 63 = not_top size lv small more in
      let (r, run, is) =
        calc_loop-IsLevel k size (lv + 1) small (omega arith) (omega arith) (omega arith)
          (λ j h l. above size lv j more l (least j h l)) in
      (r, rw (t, calc_loop) (rw (doubled lv (omega arith)) run), is)
  | inr done ↦
      (lv, rw (done, calc_loop), record { at_least = lo; fits = ground arith; least = least })
]

-- For every size up to 2^63 `_calc_level` ends, and returns the least level from 4 on whose blocks
-- hold `size` bytes.
pub calc_level-IsLevel :
    (size : ℕ) → size ≤ 2 ^ 63 → (lv : ℕ) × (calc_level size ≡ ok lv) × IsLevel size lv
unfolding calc_level
calc_level-IsLevel size small =
    calc_loop-IsLevel 61 size 4 small refl (omega arith) (omega arith) (λ j h l. h)

find_block-fault : (k : ℕ) (s : Buddy) (i : ℕ) → 12 < i → find_block k s i ≡ fault
unfolding find_block
find_block-fault zero s i h = refl
find_block-fault (suc k) s i h = let out : ltb 12 i ≡ true = lt→ltb 12 i h in rw (out, find_block)

-- A request of 4089 bytes or more, up to half the address space, makes `alloc` read its table of free
-- lists past the end, whatever the lists hold: the page that the header says it may ask for does not
-- leave room for the block's own 8 bytes.
pub alloc-fault : (s : Buddy) (sz : ℕ) → 4088 < sz → sz ≤ 2 ^ 62 → alloc s sz ≡ fault
unfolding alloc
alloc-fault s sz big small =
    let size : (sz + 8) % 2 ^ 64 ≡ sz + 8 = omega arith in
    let (lv, run, is) = calc_level-IsLevel (sz + 8) (omega arith) in
    rw (size, run) (rw (find_block-fault 13 s lv (too_high lv is)))
  where
    too_high : (lv : ℕ) → IsLevel (sz + 8) lv → 12 < lv
    too_high lv is = elim (dec_lt 12 lv) [
      | yes h ↦ h
      | no h ↦ absurd (
          let low : lv ≤ 12 = omega arith in
          let bound : 2 ^ lv ≤ 2 ^ 12 = pow-le-pow_right {n = 2} (omega arith) low in
          omega (arith, is.fits))
    ]
