-- ===== src/Memory/Paging/Bytes.antt =====
-- Bytes of memory read and written one by one, as the copies of kernel/memory/VmManager.cpp do it.
use startos.Prelude.{
  ℕ, zero, suc, ◌+◌, ◌*◌, ◌/◌, ◌%◌, ◌≤◌, ◌<◌, ◌==◌, ◌≡◌, ◌≢◌, ◌⊎◌, inl, inr, refl, sym, ap, ◌∙◌,
  List, [], ◌∷◌, length, get_or, All, arith, Bool-cases, ne→==_false,
}
use startos.Memory.{Words, store}
use startos.Memory.Paging.Copy.{get_byte, set_byte, byte_at, store_byte, read_bytes, write_bytes}

get-set : (k w b : ℕ) → b < 256 → get_byte k (set_byte k w b) ≡ b
get-set zero w b h = omega arith
get-set (suc k) w b h =
    let inner : (set_byte k (w / 256) b * 256 + w % 256) / 256 ≡ set_byte k (w / 256) b =
      omega arith in
    ap (λ (v : ℕ). get_byte k v) inner ∙ get-set k (w / 256) b h

get-set_other : (j k w b : ℕ) → b < 256 → j ≢ k → get_byte j (set_byte k w b) ≡ get_byte j w
get-set_other zero zero w b h ne = absurd (ne refl)
get-set_other zero (suc k) w b h ne = omega arith
get-set_other (suc j) zero w b h ne =
    let inner : (w / 256 * 256 + b) / 256 ≡ w / 256 = omega arith in
    ap (λ (v : ℕ). get_byte j v) inner
get-set_other (suc j) (suc k) w b h ne =
    let inner : (set_byte k (w / 256) b * 256 + w % 256) / 256 ≡ set_byte k (w / 256) b =
      omega arith in
    ap (λ (v : ℕ). get_byte j v) inner ∙ get-set_other j k (w / 256) b h (λ e. ne (ap suc e))

store_self : (w : Words) (a v : ℕ) → store w a v a ≡ v
store_self w a v = ground arith

byte-store_self : (w : Words) (a b : ℕ) → b < 256 → byte_at (store_byte w a b) a ≡ b
unfolding byte_at store_byte
byte-store_self w a b h =
    ap (λ (v : ℕ). get_byte (a % 8) v)
      (store_self w (a / 8 * 8) (set_byte (a % 8) (w (a / 8 * 8)) b))
    ∙ get-set (a % 8) (w (a / 8 * 8)) b h

byte-store_other :
    (w : Words) (a b c : ℕ) → b < 256 → c ≢ a → byte_at (store_byte w a b) c ≡ byte_at w c
unfolding byte_at store_byte
byte-store_other w a b c h ne = elim (Bool-cases (c / 8 * 8 == a / 8 * 8)) [
  | inl e ↦
      (let same : c / 8 * 8 ≡ a / 8 * 8 = ground arith in
        let apart : c % 8 ≢ a % 8 = omega arith in
        let word : store w (a / 8 * 8) (set_byte (a % 8) (w (a / 8 * 8)) b) (c / 8 * 8)
            ≡ set_byte (a % 8) (w (a / 8 * 8)) b =
          ap (λ (x : ℕ). store w (a / 8 * 8) (set_byte (a % 8) (w (a / 8 * 8)) b) x) same
          ∙ store_self w (a / 8 * 8) (set_byte (a % 8) (w (a / 8 * 8)) b) in
        ap (λ (v : ℕ). get_byte (c % 8) v) word
        ∙ get-set_other (c % 8) (a % 8) (w (a / 8 * 8)) b h apart
        ∙ ap (λ (x : ℕ). get_byte (c % 8) (w x)) (sym same))
  | inr e ↦ rw e refl
]

-- A byte outside the range is as before, and so is every word that does not meet it.
pub byte-write_outside :
    (bs : List ℕ) (w : Words) (a c : ℕ)
    → All (λ b. b < 256) bs
    → (c < a) ⊎ (a + length bs ≤ c)
    → byte_at (write_bytes w a bs) c ≡ byte_at w c
unfolding write_bytes
byte-write_outside [] w a c ok_bytes out = refl
byte-write_outside (b ∷ bs) w a c (small, ok_bytes) out =
    byte-write_outside bs (store_byte w a b) (a + 1) c ok_bytes (ground arith)
    ∙ byte-store_other w a b c small (ground arith)

pub byte-write_inside :
    (bs : List ℕ) (w : Words) (a i : ℕ)
    → All (λ b. b < 256) bs
    → i < length bs
    → byte_at (write_bytes w a bs) (a + i) ≡ get_or bs i 0
unfolding write_bytes
byte-write_inside [] w a i ok_bytes h = absurd (omega arith)
byte-write_inside (b ∷ bs) w a zero (small, ok_bytes) h =
    let here : a + 0 ≡ a = omega arith in
    ap (λ (c : ℕ). byte_at (write_bytes (store_byte w a b) (a + 1) bs) c) here
    ∙ byte-write_outside bs (store_byte w a b) (a + 1) a ok_bytes (inl (omega arith))
    ∙ byte-store_self w a b small
byte-write_inside (b ∷ bs) w a (suc i) (small, ok_bytes) h =
    let here : a + suc i ≡ a + 1 + i = omega arith in
    ap (λ (c : ℕ). byte_at (write_bytes (store_byte w a b) (a + 1) bs) c) here
    ∙ byte-write_inside bs (store_byte w a b) (a + 1) i ok_bytes (omega arith)

pub word-write_outside :
    (bs : List ℕ) (w : Words) (a x : ℕ)
    → (x + 8 ≤ a) ⊎ (a + length bs ≤ x)
    → write_bytes w a bs x ≡ w x
unfolding write_bytes store_byte
word-write_outside [] w a x out = refl
word-write_outside (b ∷ bs) w a x out =
    let apart : x ≢ a / 8 * 8 = ground arith in
    word-write_outside bs (store_byte w a b) (a + 1) x (ground arith)
    ∙ rw (ne→==_false x (a / 8 * 8) apart) refl

-- Reading takes the bytes in their order.
pub read_bytes-eq :
    (bs : List ℕ) (w : Words) (a : ℕ)
    → ((i : ℕ) → i < length bs → byte_at w (a + i) ≡ get_or bs i 0)
    → read_bytes w a (length bs) ≡ bs
unfolding read_bytes
read_bytes-eq [] w a h = refl
read_bytes-eq (b ∷ bs) w a h =
    let first : byte_at w a ≡ b = ap (λ (c : ℕ). byte_at w c) (plus_zero a) ∙ h 0 (omega arith) in
    rw first (
      ap (λ (t : List ℕ). b ∷ t)
        (read_bytes-eq bs w (a + 1)
          λ i k. ap (λ (c : ℕ). byte_at w c) (plus_suc a i) ∙ h (suc i) (omega arith)))
  where
    plus_zero : (a : ℕ) → a ≡ a + 0
    plus_zero a = omega arith

    plus_suc : (a i : ℕ) → a + 1 + i ≡ a + suc i
    plus_suc a i = omega arith
