-- ===== src/Memory/Paging/Copy.antt =====
-- `copyin`, `copyinstr` and `copyout` of kernel/memory/VmManager.cpp: bytes between the kernel and an
-- address space. A kernel buffer is the list of its bytes; a word of memory holds eight, low byte first.
use startos.Prelude.{
  ℕ, zero, suc, ◌+◌, ◌-◌, ◌*◌, ◌/◌, ◌%◌, ◌==◌, min, Bool, true, false, List, [], ◌∷◌, ◌++◌, length,
  take, drop,
}
use startos.Prelude.Run.{Run, ok, fault, ◌>>=◌}
use startos.Memory.{Words, pgsize, pground_down, store}
use startos.Memory.Pages.{Memory}
use startos.Memory.Paging.{walk_addr}

-- Byte `k` of a word.
abbrev pub get_byte : ℕ → ℕ → ℕ
get_byte zero w = w % 256
get_byte (suc k) w = get_byte k (w / 256)

abbrev pub set_byte : ℕ → ℕ → ℕ → ℕ
set_byte zero w b = w / 256 * 256 + b
set_byte (suc k) w b = set_byte k (w / 256) b * 256 + w % 256

unfoldable pub byte_at : Words → ℕ → ℕ
byte_at w a = get_byte (a % 8) (w (a / 8 * 8))

unfoldable pub store_byte : Words → ℕ → ℕ → Words
store_byte w a b = store w (a / 8 * 8) (set_byte (a % 8) (w (a / 8 * 8)) b)

-- `memmove` out of memory and into it.
unfoldable pub read_bytes : Words → ℕ → ℕ → List ℕ
read_bytes w a zero = []
read_bytes w a (suc n) = byte_at w a ∷ read_bytes w (a + 1) n

unfoldable pub write_bytes : Words → ℕ → List ℕ → Words
write_bytes w a [] = w
write_bytes w a (b ∷ bs) = write_bytes (store_byte w a b) (a + 1) bs

-- The bytes from `va` to the end of its page, `len` at most.
abbrev pub chunk : ℕ → ℕ → ℕ
chunk va len = min (pgsize - (va - pground_down va)) len

-- The loop of `copyin`, with fuel: whether it returned 0, and the bytes that it has put at `dst`.
unfoldable pub copyin : ℕ → Memory → ℕ → ℕ → ℕ → Run (Bool × List ℕ)
copyin zero s pagetable vsrc len = fault
copyin (suc k) s pagetable vsrc len = elim (len == 0) [
  | true ↦ ok (true, [])
  | false ↦
      let va0 = pground_down vsrc in
      let pa0 = walk_addr s pagetable va0 in
      elim (pa0 == 0) [
        | true ↦ ok (false, [])
        | false ↦
            let n = chunk vsrc len in
            copyin k s pagetable (vsrc + n) (len - n) >>= λ r.
            ok (r.0, read_bytes s.words (pa0 + (vsrc - va0)) n ++ r.1)
      ]
]

-- The loop of `copyout`, with fuel: whether it returned 0.
unfoldable pub copyout : ℕ → Memory → ℕ → ℕ → List ℕ → Run (Bool × Memory)
copyout zero s pagetable vdst src = fault
copyout (suc k) s pagetable vdst src = elim (length src == 0) [
  | true ↦ ok (true, s)
  | false ↦
      let va0 = pground_down vdst in
      let pa0 = walk_addr s pagetable va0 in
      elim (pa0 == 0) [
        | true ↦ ok (false, s)
        | false ↦
            let n = chunk vdst (length src) in
            let s' = record s { words = write_bytes s.words (pa0 + (vdst - va0)) (take n src) } in
            copyout k s' pagetable (vdst + n) (drop n src)
      ]
]

-- The inner loop of `copyinstr`: the bytes up to the null byte, which ends them, or all `n`.
unfoldable pub scan_string : Words → ℕ → ℕ → Bool × List ℕ
scan_string w p zero = (false, [])
scan_string w p (suc n) =
    let rest = scan_string w (p + 1) n in
    elim (byte_at w p == 0) [ true ↦ (true, 0 ∷ []) | false ↦ (rest.0, byte_at w p ∷ rest.1) ]

-- `copyinstr`, with fuel.
unfoldable pub copyinstr : ℕ → Memory → ℕ → ℕ → ℕ → Run (Bool × List ℕ)
copyinstr zero s pagetable vsrc maxsz = fault
copyinstr (suc k) s pagetable vsrc maxsz = elim (maxsz == 0) [
  | true ↦ ok (false, [])
  | false ↦
      let va0 = pground_down vsrc in
      let pa0 = walk_addr s pagetable va0 in
      elim (pa0 == 0) [
        | true ↦ ok (false, [])
        | false ↦
            let n = chunk vsrc maxsz in
            let found = scan_string s.words (pa0 + (vsrc - va0)) n in
            elim found.0 [
              | true ↦ ok found
              | false ↦ copyinstr k s pagetable (va0 + pgsize) (maxsz - n) >>= λ r.
                  ok (r.0, found.1 ++ r.1)
            ]
      ]
]
