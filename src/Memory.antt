-- ===== src/Memory.antt =====
-- Physical memory as the allocators of kernel/memory see it: a 64-bit word at each address that is a
-- multiple of 8, the page size and the top of memory of kernel/include/riscv.hpp and memlayout.hpp.
pub mod Pages
pub mod Buddy
pub mod Paging
use startos.Prelude.{
  ℕ, ◌+◌, ◌-◌, ◌*◌, ◌/◌, ◌%◌, ◌^◌, ◌<◌, ◌==◌, ltb, leb, if◌then◌else◌, ◌&&◌, ◌≡◌, bit_and, arith,
}
use startos.Prelude.Bits.{bit_and-clear}

abbrev pub Words : Type 0
Words = ℕ → ℕ

abbrev pub pgsize : ℕ
pgsize = 4096

abbrev pub phystop : ℕ
phystop = 0x80600000

-- `~(PGSIZE - 1)`, an `int`, widened to a 64-bit word
abbrev pub page_mask : ℕ
page_mask = 2 ^ 64 - 4096

unfoldable pub pground_up : ℕ → ℕ
pground_up sz = bit_and ((sz + pgsize - 1) % 2 ^ 64) page_mask

unfoldable pub pground_down : ℕ → ℕ
pground_down a = bit_and a page_mask

-- A word written.
abbrev pub store : Words → ℕ → ℕ → Words
store w a v = λ x. if x == a then v else w x

-- The word that `memset(pa, 5, PGSIZE)` leaves at each address of the page.
abbrev pub junk : ℕ
junk = 0x0505050505050505

abbrev pub junk_page : Words → ℕ → Words
junk_page w pa = λ x. if leb pa x && ltb x (pa + pgsize) then junk else w x

abbrev pub zero_page : Words → ℕ → Words
zero_page w pa = λ x. if leb pa x && ltb x (pa + pgsize) then 0 else w x

pub pground_down-eq : (a : ℕ) → a < 2 ^ 64 → pground_down a ≡ a / 4096 * 4096
unfolding pground_down
pground_down-eq a h = bit_and-clear 52 12 a (omega arith)

pub pground_up-eq : (a : ℕ) → a + 4096 < 2 ^ 64 → pground_up a ≡ (a + 4095) / 4096 * 4096
unfolding pground_up
pground_up-eq a h = ground (arith, bit_and-clear 52 12 (a + 4095))
