-- ===== src/Memory/Paging.antt =====
-- kernel/memory/VmManager.cpp: the three-level page tables of Sv39, in the words of physical memory,
-- with the fields of an entry as kernel/include/riscv.hpp has them.
pub mod Tree
pub mod Grow
pub mod Walk
pub mod Leaf
pub mod Map
pub mod MapRange
pub mod Access
pub mod User
pub mod Copy
pub mod Either
pub mod Bytes
pub mod Frame
pub mod CopyOut
pub mod CopyIn
pub mod Example
mod Tests
use startos.Prelude.{
  ℕ, zero, suc, ◌+◌, ◌-◌, ◌*◌, ◌/◌, ◌%◌, ◌^◌, ◌==◌, leb, Bool, true, false, bit_or,
}
use startos.Prelude.Run.{Run, ok, panic, fault, ◌>>=◌}
use startos.Memory.{pgsize, pground_down, pground_up, store, zero_page}
use startos.Memory.Pages.{Memory, alloc, free}

-- `PTE_V`, `PTE_R`, `PTE_W`, `PTE_X`, `PTE_U`
abbrev pub pte_v : ℕ
pte_v = 2 ^ 0

abbrev pub pte_r : ℕ
pte_r = 2 ^ 1

abbrev pub pte_w : ℕ
pte_w = 2 ^ 2

abbrev pub pte_x : ℕ
pte_x = 2 ^ 3

abbrev pub pte_u : ℕ
pte_u = 2 ^ 4

-- `pte & flag` for a flag of one bit.
abbrev pub has : ℕ → ℕ → Bool
has flag pte = pte / flag % 2 == 1

abbrev pub pa2pte : ℕ → ℕ
pa2pte pa = pa / 2 ^ 12 * 2 ^ 10

abbrev pub pte2pa : ℕ → ℕ
pte2pa pte = pte / 2 ^ 10 * 2 ^ 12 % 2 ^ 64

abbrev pub pte_flags : ℕ → ℕ
pte_flags pte = pte % 2 ^ 10

-- `PX(level, va)`
abbrev pub px : ℕ → ℕ → ℕ
px level va = va / 2 ^ (12 + 9 * level) % 2 ^ 9

abbrev pub maxva : ℕ
maxva = 2 ^ 38

-- `&pagetable[PX(level, va)]`
abbrev pub slot : ℕ → ℕ → ℕ → ℕ
slot level pagetable va = pagetable + 8 * px level va

-- A new table, of zeros, that the entry at `pte` points to.
abbrev pub link : Memory → ℕ → ℕ → Memory
link s pte page = record s {
  words = store (zero_page s.words page) pte (bit_or (pa2pte page) pte_v);
}

-- The loop of `walk` from `level` down; 0 is the null pointer.
unfoldable pub descend : ℕ → Memory → ℕ → ℕ → Bool → ℕ × Memory
descend zero s pagetable va may_alloc = (slot 0 pagetable va, s)
descend (suc l) s pagetable va may_alloc =
    let pte = slot (suc l) pagetable va in
    elim (has pte_v (s.words pte)) [
      | true ↦ descend l s (pte2pa (s.words pte)) va may_alloc
      | false ↦ elim may_alloc [
        | false ↦ (0, s)
        | true ↦
            let (page, s') = alloc s in
            elim (page == 0) [ true ↦ (0, s') | false ↦ descend l (link s' pte page) page va true ]
      ]
    ]

unfoldable pub walk : Memory → ℕ → ℕ → Bool → Run (ℕ × Memory)
walk s pagetable va may_alloc = elim (leb maxva va) [
  | true ↦ panic
  | false ↦ ok (descend 2 s pagetable va may_alloc)
]

abbrev pub set_pte : Memory → ℕ → ℕ → Memory
set_pte s pte v = record s { words = store s.words pte v }

-- The loop of `mappages`, with fuel; whether it returned 0.
unfoldable pub map_loop : ℕ → Memory → ℕ → ℕ → ℕ → ℕ → ℕ → Run (Bool × Memory)
map_loop zero s pagetable a last pa perm = fault
map_loop (suc k) s pagetable a last pa perm = walk s pagetable a true >>= λ r. elim (r.0 == 0) [
  | true ↦ ok (false, r.1)
  | false ↦ elim (has pte_v (r.1.words r.0)) [
    | true ↦ panic
    | false ↦
        let s' = set_pte r.1 r.0 (bit_or (bit_or (pa2pte pa) perm) pte_v) in
        elim (a == last) [
          | true ↦ ok (true, s')
          | false ↦
              map_loop k s' pagetable ((a + pgsize) % 2 ^ 64) last ((pa + pgsize) % 2 ^ 64) perm
        ]
  ]
]

unfoldable pub mappages : ℕ → Memory → ℕ → ℕ → ℕ → ℕ → ℕ → Run (Bool × Memory)
mappages fuel s pagetable va size pa perm =
    map_loop fuel s pagetable (pground_down va) (pground_down ((va + size + 2 ^ 64 - 1) % 2 ^ 64))
      pa perm

-- 0 when the user may not reach `va`.
unfoldable pub walk_addr : Memory → ℕ → ℕ → ℕ
walk_addr s pagetable va = elim (leb maxva va) [
  | true ↦ 0
  | false ↦
      let pte = (descend 2 s pagetable va false).0 in
      elim (pte == 0) [
        | true ↦ 0
        | false ↦ elim (has pte_v (s.words pte)) [
          | false ↦ 0
          | true ↦ elim (has pte_u (s.words pte)) [ false ↦ 0 | true ↦ pte2pa (s.words pte) ]
        ]
      ]
]
