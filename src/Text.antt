-- ===== src/Text.antt =====
-- kernel/common/string.cpp: the kernel's routines on bytes and strings, over a memory of bytes. A
-- string is an address. Ranges do not reach past the top of the address space, as C asks.
use startos.Prelude.{
  ℕ, zero, suc, ◌+◌, ◌-◌, ◌*◌, ◌%◌, ◌^◌, ◌==◌, ltb, leb, if◌then◌else◌, ◌&&◌, not, Bool, true,
  false, Option, none, some,
}
pub mod Moves
pub mod Copies
mod Tests

abbrev pub Bytes : Type 0
Bytes = ℕ → ℕ

abbrev pub store_byte : Bytes → ℕ → ℕ → Bytes
store_byte m a v x = if x == a then v else m x

-- `cdst[i] = c` keeps the low byte of the int.
abbrev pub memset : ℕ → Bytes → ℕ → ℕ → Bytes
memset zero m dst c = m
memset (suc n) m dst c = memset n (store_byte m dst (c % 256)) (suc dst) c

-- `*d++ = *s++`, `n` times
abbrev pub move_up : ℕ → Bytes → ℕ → ℕ → Bytes
move_up zero m d s = m
move_up (suc n) m d s = move_up n (store_byte m d (m s)) (suc d) (suc s)

-- `*--d = *--s`, `n` times, from `d + n` and `s + n`
abbrev pub move_down : ℕ → Bytes → ℕ → ℕ → Bytes
move_down zero m d s = m
move_down (suc n) m d s = move_down n (store_byte m (d + n) (m (s + n))) d s

unfoldable pub memmove : Bytes → ℕ → ℕ → ℕ → Bytes
memmove m dst src n =
    if ltb src dst && ltb dst (src + n) then move_down n m dst src else move_up n m dst src

-- The fill of a buffer's rest with 0.
abbrev pub pad : ℕ → Bytes → ℕ → Bytes
pad zero m s = m
pad (suc n) m s = pad n (store_byte m s 0) (suc s)

-- `n` bytes are left of the buffer.
abbrev pub strncpy : ℕ → Bytes → ℕ → ℕ → Bytes
strncpy zero m s t = m
strncpy (suc n) m s t =
    let next = store_byte m s (m t) in
    let rest = strncpy n next (suc s) (suc t) in if m t == 0 then pad n next (suc s) else rest

-- `safestrcpy` once `n` is positive: `k` is `n - 1`.
abbrev pub safe_loop : ℕ → Bytes → ℕ → ℕ → Bytes
safe_loop zero m s t = store_byte m s 0
safe_loop (suc k) m s t =
    let next = store_byte m s (m t) in
    let rest = safe_loop k next (suc s) (suc t) in
    if m t == 0 then store_byte next (suc s) 0 else rest

abbrev pub safestrcpy : ℕ → Bytes → ℕ → ℕ → Bytes
safestrcpy zero m s t = m
safestrcpy (suc k) m s t = safe_loop k m s t
