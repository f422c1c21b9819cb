-- ===== src/Text/Copies.antt =====
-- The bounded copies of strings.
use startos.Prelude.{
  ℕ, zero, suc, ◌+◌, ◌-◌, ◌≤◌, ◌<◌, ◌==◌, ltb, if◌then◌else◌, ◌&&◌, ◌||◌, ◌≡◌, ◌⊎◌, inl, inr, refl,
  ◌∙◌, ap, true, false, Bool-cases, arith,
}
use startos.Text.{Bytes, store_byte, pad, strncpy, safe_loop, safestrcpy}
use startos.Text.Moves.{is_in}

-- The bytes before the first 0, at most `n`.
abbrev pub text_len : ℕ → Bytes → ℕ → ℕ
text_len zero m t = 0
text_len (suc n) m t = let rest = text_len n m (suc t) in if m t == 0 then 0 else suc rest

text_len-le : (n : ℕ) (m : Bytes) (t : ℕ) → text_len n m t ≤ n
text_len-le zero m t = omega arith
text_len-le (suc n) m t = ground (arith, text_len-le n m (suc t))

text_len-store :
    (n : ℕ) (m : Bytes) (t x v : ℕ)
    → (x < t) ⊎ (t + n ≤ x)
    → text_len n (store_byte m x v) t ≡ text_len n m t
text_len-store zero m t x v h = refl
text_len-store (suc n) m t x v h =
    let away : (t == x) ≡ false = ground (arith, h) in
    rw (away, text_len-store n m (suc t) x v (ground (arith, h))) refl

-- `l` bytes from `t` on and a 0 after them, at `s`; one more 0 when the string ended early.
abbrev pub copied : Bytes → ℕ → ℕ → ℕ → ℕ → ℕ → ℕ
copied m s t k l a =
    if is_in a s l
    then m (t + (a - s))
    else (if a == s + l || (ltb l k && (a == s + l + 1)) then 0 else m a)

copied-next :
    (k l : ℕ) (m : Bytes) (s t a : ℕ)
    → l ≤ k
    → (s + suc (suc k) ≤ t) ⊎ (t + suc (suc k) ≤ s)
    → copied (store_byte m s (m t)) (suc s) (suc t) k l a ≡ copied m s t (suc k) (suc l) a
copied-next k l m s t a b h = elim (Bool-cases (is_in a (suc s) l)) [
  | inl e ↦
      (let same : suc t + (a - suc s) ≡ t + (a - s) = ground (arith, e) in
        let away : (t + (a - s) == s) ≡ false = ground (arith, e, h, b) in
        let inside : is_in a s (suc l) ≡ true = ground (arith, e) in
        rw (e, same, away, inside) refl)
  | inr e ↦ elim (Bool-cases (a == s)) [
    | inl q ↦
        (let same : t ≡ t + (a - s) = ground (arith, q) in
          let inside : is_in a s (suc l) ≡ true = ground (arith, q) in
          let early : (a == suc s + l || (ltb l k && (a == suc s + l + 1))) ≡ false =
            ground (arith, q) in
          rw (e, early, q, inside) (ap m same))
    | inr q ↦
        (let outside : is_in a s (suc l) ≡ false = ground (arith, e, q) in
          let ends : (a == suc s + l || (ltb l k && (a == suc s + l + 1)))
              ≡ (a == s + suc l || (ltb (suc l) (suc k) && (a == s + suc l + 1))) =
            ground arith in
          rw (e, outside, ends, q) refl)
  ]
]

safe_loop-copied :
    (k : ℕ) (m : Bytes) (s t a : ℕ)
    → (s + suc k ≤ t) ⊎ (t + suc k ≤ s)
    → safe_loop k m s t a ≡ copied m s t k (text_len k m t) a
safe_loop-copied zero m s t a h = ground arith
safe_loop-copied (suc k) m s t a h = elim (Bool-cases (m t == 0)) [
  | inl e ↦ ground (arith, e)
  | inr e ↦ rw e (
      safe_loop-copied k (store_byte m s (m t)) (suc s) (suc t) a (ground (arith, h))
      ∙ rw (text_len-store k m (suc t) s (m t) (ground (arith, h)))
          (copied-next k (text_len k m (suc t)) m s t a (text_len-le k m (suc t)) h))
]

-- With a buffer of `k + 1` bytes apart from the string, `safestrcpy` copies the string up to its end or
-- to `k` bytes, puts a 0 after them, still in the buffer, and one more 0 when the string ended early;
-- every other byte of memory is as before.
pub safestrcpy-copied :
    (k : ℕ) (m : Bytes) (s t a : ℕ)
    → (s + suc k ≤ t) ⊎ (t + suc k ≤ s)
    → (safestrcpy (suc k) m s t a ≡ copied m s t k (text_len k m t) a) × (text_len k m t ≤ k)
safestrcpy-copied k m s t a h = (safe_loop-copied k m s t a h, text_len-le k m t)

-- What `strncpy` leaves in a buffer of `n` bytes: `l` bytes of the string, then zeros.
abbrev pub padded : Bytes → ℕ → ℕ → ℕ → ℕ → ℕ → ℕ
padded m s t n l a = if is_in a s l then m (t + (a - s)) else (if is_in a s n then 0 else m a)

pad-zeros : (n : ℕ) (m : Bytes) (s a : ℕ) → pad n m s a ≡ (if is_in a s n then 0 else m a)
pad-zeros zero m s a = ground arith
pad-zeros (suc n) m s a = ground (arith, pad-zeros n (store_byte m s 0) (suc s) a)

padded-next :
    (n l : ℕ) (m : Bytes) (s t a : ℕ)
    → l ≤ n
    → (s + suc n ≤ t) ⊎ (t + suc n ≤ s)
    → padded (store_byte m s (m t)) (suc s) (suc t) n l a ≡ padded m s t (suc n) (suc l) a
padded-next n l m s t a b h = elim (Bool-cases (is_in a (suc s) l)) [
  | inl e ↦
      (let same : suc t + (a - suc s) ≡ t + (a - s) = ground (arith, e) in
        let away : (t + (a - s) == s) ≡ false = ground (arith, e, h, b) in
        let inside : is_in a s (suc l) ≡ true = ground (arith, e) in
        rw (e, same, away, inside) refl)
  | inr e ↦ elim (Bool-cases (a == s)) [
    | inl q ↦
        (let same : t ≡ t + (a - s) = ground (arith, q) in
          let inside : is_in a s (suc l) ≡ true = ground (arith, q) in
          let before : is_in a (suc s) n ≡ false = ground (arith, q) in
          rw (e, before, q, inside) (ap m same))
    | inr q ↦
        (let outside : is_in a s (suc l) ≡ false = ground (arith, e, q) in
          let rest : is_in a (suc s) n ≡ is_in a s (suc n) = ground (arith, q) in
          rw (e, outside, rest, q) refl)
  ]
]

-- With a buffer of `n` bytes apart from the string, `strncpy` copies the string up to its end or to `n`
-- bytes, fills the rest of the buffer with zeros, and changes no other byte.
pub strncpy-padded :
    (n : ℕ) (m : Bytes) (s t a : ℕ)
    → (s + n ≤ t) ⊎ (t + n ≤ s)
    → strncpy n m s t a ≡ padded m s t n (text_len n m t) a
strncpy-padded zero m s t a h = ground arith
strncpy-padded (suc n) m s t a h = elim (Bool-cases (m t == 0)) [
  | inl e ↦ rw (e, pad-zeros n (store_byte m s (m t)) (suc s) a) (ground (arith, e))
  | inr e ↦ rw e (
      strncpy-padded n (store_byte m s (m t)) (suc s) (suc t) a (ground (arith, h))
      ∙ rw (text_len-store n m (suc t) s (m t) (ground (arith, h)))
          (padded-next n (text_len n m (suc t)) m s t a (text_len-le n m (suc t)) h))
]
