-- ===== src/Text/Moves.antt =====
-- `memset` and `memmove` on whole ranges.
use startos.Prelude.{
  ℕ, zero, suc, ◌+◌, ◌-◌, ◌%◌, ◌≤◌, ◌==◌, ltb, leb, if◌then◌else◌, ◌&&◌, ◌≡◌, ◌⊎◌, inl, inr, refl,
  ◌∙◌, ap, Bool, true, false, Bool-cases, arith,
}
use startos.Text.{Bytes, store_byte, memset, move_up, move_down, memmove}

abbrev pub is_in : ℕ → ℕ → ℕ → Bool
is_in a d n = leb d a && ltb a (d + n)

-- The `n` bytes from `s` on, moved to `d`; every other byte as before.
abbrev pub moved : Bytes → ℕ → ℕ → ℕ → Bytes
moved m d s n a = if is_in a d n then m (s + (a - d)) else m a

first_byte :
    (n : ℕ) (m : Bytes) (d s a : ℕ)
    → (d ≤ s) ⊎ (s + suc n ≤ d)
    → moved (store_byte m d (m s)) (suc d) (suc s) n a ≡ moved m d s (suc n) a
first_byte n m d s a h = elim (Bool-cases (is_in a (suc d) n)) [
  | inl e ↦
      (let same : suc s + (a - suc d) ≡ s + (a - d) = ground (arith, e) in
        let away : (s + (a - d) == d) ≡ false = ground (arith, e, h) in
        let inside : is_in a d (suc n) ≡ true = ground (arith, e) in
        rw (e, same, away, inside) refl)
  | inr e ↦ elim (Bool-cases (a == d)) [
    | inl q ↦
        (let same : s ≡ s + (a - d) = ground (arith, q) in
          let inside : is_in a d (suc n) ≡ true = ground (arith, q) in
          rw (e, q, inside) (ap m same))
    | inr q ↦
        (let outside : is_in a d (suc n) ≡ false = ground (arith, e, q) in rw (e, q, outside) refl)
  ]
]

last_byte :
    (n : ℕ) (m : Bytes) (d s a : ℕ)
    → s ≤ d
    → moved (store_byte m (d + n) (m (s + n))) d s n a ≡ moved m d s (suc n) a
last_byte n m d s a h = elim (Bool-cases (is_in a d n)) [
  | inl e ↦
      (let away : (s + (a - d) == d + n) ≡ false = ground (arith, e, h) in
        let inside : is_in a d (suc n) ≡ true = ground (arith, e) in rw (e, away, inside) refl)
  | inr e ↦ elim (Bool-cases (a == d + n)) [
    | inl q ↦
        (let same : s + n ≡ s + (a - d) = ground (arith, q) in
          let inside : is_in a d (suc n) ≡ true = ground (arith, q) in
          rw (e, q, inside) (ap m same))
    | inr q ↦
        (let outside : is_in a d (suc n) ≡ false = ground (arith, e, q) in rw (e, q, outside) refl)
  ]
]

move_up-moved :
    (n : ℕ) (m : Bytes) (d s a : ℕ) → (d ≤ s) ⊎ (s + n ≤ d) → move_up n m d s a ≡ moved m d s n a
move_up-moved zero m d s a h = ground arith
move_up-moved (suc n) m d s a h =
    move_up-moved n (store_byte m d (m s)) (suc d) (suc s) a (ground (arith, h))
    ∙ first_byte n m d s a h

move_down-moved : (n : ℕ) (m : Bytes) (d s a : ℕ) → s ≤ d → move_down n m d s a ≡ moved m d s n a
move_down-moved zero m d s a h = ground arith
move_down-moved (suc n) m d s a h =
    move_down-moved n (store_byte m (d + n) (m (s + n))) d s a h ∙ last_byte n m d s a h

-- After `memmove` the `n` bytes from `dst` on are the ones that stood from `src` on, and all other
-- bytes are as before, however the two ranges overlap.
pub memmove-moved : (m : Bytes) (dst src n a : ℕ) → memmove m dst src n a ≡ moved m dst src n a
unfolding memmove
memmove-moved m dst src n a = elim (Bool-cases (ltb src dst && ltb dst (src + n))) [
  | inl e ↦ rw e (move_down-moved n m dst src a (ground (arith, e)))
  | inr e ↦ rw e (move_up-moved n m dst src a (apart e))
]
  where
    apart : (ltb src dst && ltb dst (src + n)) ≡ false → (dst ≤ src) ⊎ (src + n ≤ dst)
    apart e = ground (arith, e)

-- After `memset` the `n` bytes from `dst` on are the low byte of `c`, and all others are as before.
pub memset-filled :
    (n : ℕ) (m : Bytes) (dst c a : ℕ)
    → memset n m dst c a ≡ (if is_in a dst n then c % 256 else m a)
memset-filled zero m dst c a = ground arith
memset-filled (suc n) m dst c a =
    ground (arith, memset-filled n (store_byte m dst (c % 256)) (suc dst) c a)
