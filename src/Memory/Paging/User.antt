-- ===== src/Memory/Paging/User.antt =====
-- The user's side of kernel/memory/VmManager.cpp: growing, shrinking, copying and releasing an address
-- space. A new table's and a new page's contents are the words of physical memory.
use startos.Prelude.{
  ℕ, zero, suc, ◌+◌, ◌-◌, ◌*◌, ◌/◌, ◌%◌, ◌^◌, ◌==◌, ltb, leb, if◌then◌else◌, ◌&&◌, Bool, true,
  false,
}
use startos.Prelude.Run.{Run, ok, panic, fault, ◌>>=◌}
use startos.Memory.{pgsize, pground_up, zero_page}
use startos.Memory.Pages.{Memory, alloc, free}
use startos.Memory.Paging.{
  pte_v, pte_r, pte_w, pte_x, pte_u, has, pte2pa, pte_flags, walk, set_pte, mappages,
}

-- `memset(mem, 0, PGSIZE)`
abbrev pub cleared : Memory → ℕ → Memory
cleared s mem = record s { words = zero_page s.words mem }

-- `memmove(mem, pa, PGSIZE)` between two pages
abbrev pub copy_page : Memory → ℕ → ℕ → Memory
copy_page s mem pa = record s {
  words = λ x. if leb mem x && ltb x (mem + pgsize) then s.words (pa + (x - mem)) else s.words x;
}

-- `PTE_W | PTE_X | PTE_R | PTE_U | PTE_V`
abbrev pub user_perm : ℕ
user_perm = pte_w + pte_x + pte_r + pte_u + pte_v

-- A round of a loop that goes on only after success.
abbrev pub and_then :
    Run (Bool × Memory)
    → (Memory → Run (ℕ × Memory))
    → (Memory → Run (ℕ × Memory))
    → Run (ℕ × Memory)
and_then m done failed = m >>= λ r. elim r.0 [ true ↦ done r.1 | false ↦ failed r.1 ]

-- `userCreate`: a table, or 0.
unfoldable pub user_create : Memory → ℕ × Memory
user_create s =
    let (pagetable, s') = alloc s in
    elim (pagetable == 0) [ true ↦ (0, s') | false ↦ (pagetable, cleared s' pagetable) ]

-- `end` is the first address past the kernel.
module _ (end : ℕ) where
  -- A round of `userUnmap`.
  unfoldable pub unmap_page : Memory → ℕ → ℕ → Bool → Run Memory
  unmap_page s pagetable a do_free = walk s pagetable a false >>= λ r. elim (r.0 == 0) [
    | true ↦ ok r.1
    | false ↦
        let pte = r.1.words r.0 in
        elim (has pte_v pte) [
          | false ↦ ok r.1
          | true ↦ elim (pte_flags pte == pte_v) [
            | true ↦ panic
            | false ↦ (elim do_free [ true ↦ free end r.1 (pte2pa pte) | false ↦ ok r.1 ]) >>= λ s'.
                ok (set_pte s' r.0 0)
          ]
        ]
  ]

  -- Its loop, over the number of pages.
  unfoldable pub unmap_loop : ℕ → Memory → ℕ → ℕ → Bool → Run Memory
  unmap_loop zero s pagetable a do_free = ok s
  unmap_loop (suc npages) s pagetable a do_free =
      unmap_page s pagetable a do_free >>= λ s'. unmap_loop npages s' pagetable (a + pgsize) do_free

  unfoldable pub user_unmap : Memory → ℕ → ℕ → ℕ → Bool → Run Memory
  user_unmap s pagetable va npages do_free = elim (va % pgsize == 0) [
    | true ↦ unmap_loop npages s pagetable va do_free
    | false ↦ panic
  ]

  -- `userDealloc`: the size after it.
  unfoldable pub user_dealloc : Memory → ℕ → ℕ → ℕ → Run (ℕ × Memory)
  user_dealloc s pagetable oldsz newsz = elim (leb oldsz newsz) [
    | true ↦ ok (oldsz, s)
    | false ↦ elim (ltb (pground_up newsz) (pground_up oldsz)) [
      | false ↦ ok (newsz, s)
      | true ↦
          user_unmap s pagetable (pground_up newsz) ((pground_up oldsz - pground_up newsz) / pgsize)
            true
          >>= λ s'. ok (newsz, s')
    ]
  ]

  -- `userAlloc` gives back what it has mapped and returns 0.
  abbrev pub undo_alloc : ℕ → ℕ → ℕ → Memory → Run (ℕ × Memory)
  undo_alloc pagetable a oldsz s = user_dealloc s pagetable a oldsz >>= λ r. ok (0, r.1)

  -- The loop of `userAlloc`, with fuel; one round of `mappages` maps a page.
  unfoldable pub alloc_loop : ℕ → Memory → ℕ → ℕ → ℕ → ℕ → Run (ℕ × Memory)
  alloc_loop zero s pagetable a oldsz newsz = fault
  alloc_loop (suc k) s pagetable a oldsz newsz = elim (ltb a newsz) [
    | false ↦ ok (newsz, s)
    | true ↦
        let (mem, s') = alloc s in
        elim (mem == 0) [
          | true ↦ undo_alloc pagetable a oldsz s'
          | false ↦
              and_then (mappages 1 (cleared s' mem) pagetable a pgsize mem user_perm)
                (λ s''. alloc_loop k s'' pagetable ((a + pgsize) % 2 ^ 64) oldsz newsz)
                (λ s''. free end s'' mem >>= λ t. undo_alloc pagetable a oldsz t)
        ]
  ]

  -- `userAlloc`: the size after it, or 0.
  unfoldable pub user_alloc : ℕ → Memory → ℕ → ℕ → ℕ → Run (ℕ × Memory)
  user_alloc fuel s pagetable oldsz newsz = elim (ltb newsz oldsz) [
    | true ↦ ok (oldsz, s)
    | false ↦ alloc_loop fuel s pagetable (pground_up oldsz) (pground_up oldsz) newsz
  ]

  -- The loop of `freewalk` over the entries from `i` on, with what releases a lower table.
  unfoldable pub free_entries : (Memory → ℕ → Run Memory) → ℕ → Memory → ℕ → ℕ → Run Memory
  free_entries child zero s pagetable i = ok s
  free_entries child (suc n) s pagetable i =
      let pte = s.words (pagetable + 8 * i) in
      elim (has pte_v pte) [
        | false ↦ free_entries child n s pagetable (i + 1)
        | true ↦ elim (pte / 2 % 8 == 0) [
          | false ↦ panic
          | true ↦ child s (pte2pa pte) >>= λ s'.
              free_entries child n (set_pte s' (pagetable + 8 * i) 0) pagetable (i + 1)
        ]
      ]

  -- `freewalk`, with fuel for the levels.
  unfoldable pub freewalk : ℕ → Memory → ℕ → Run Memory
  freewalk zero s pagetable = fault
  freewalk (suc level) s pagetable =
      free_entries (λ s' child. freewalk level s' child) 512 s pagetable 0 >>= λ s'.
      free end s' pagetable

  unfoldable pub free_user_page_table : Memory → ℕ → ℕ → Run Memory
  free_user_page_table s pagetable sz =
      (elim (ltb 0 sz) [
        | true ↦ user_unmap s pagetable 0 (pground_up sz / pgsize) true
        | false ↦ ok s
      ])
      >>= λ s'. freewalk 3 s' pagetable

-- A page copied to the address `i` of another space: a round of `userVmCopy`.
unfoldable pub copy_round : Memory → ℕ → ℕ → ℕ → Run Memory
copy_round s old_pg new_pg i = walk s old_pg i false >>= λ r. elim (r.0 == 0) [
  | true ↦ panic
  | false ↦
      let pte = r.1.words r.0 in
      elim (has pte_v pte) [
        | false ↦ ok r.1
        | true ↦
            let (mem, s') = alloc r.1 in
            elim (mem == 0) [
              | true ↦ panic
              | false ↦
                  mappages 1 (copy_page s' mem (pte2pa pte)) new_pg i pgsize mem (pte_flags pte)
                  >>= λ m. elim m.0 [ true ↦ ok m.1 | false ↦ panic ]
            ]
      ]
]

-- The loop of `userVmCopy` from `i` below `sz`, with fuel; `CopyUserMem` of
-- kernel/os/TaskScheduler.cpp runs it from an area's address to the area's end.
unfoldable pub copy_loop : ℕ → Memory → ℕ → ℕ → ℕ → ℕ → Run Memory
copy_loop zero s old_pg new_pg i sz = fault
copy_loop (suc k) s old_pg new_pg i sz = elim (ltb i sz) [
  | false ↦ ok s
  | true ↦ copy_round s old_pg new_pg i >>= λ s'. copy_loop k s' old_pg new_pg (i + pgsize) sz
]

unfoldable pub user_vm_copy : ℕ → Memory → ℕ → ℕ → ℕ → Run Memory
user_vm_copy fuel s old_pg new_pg sz = copy_loop fuel s old_pg new_pg 0 sz

-- `CopyUserMem` counts in an `int`: for an area whose last page ends at 2^31 or above the count
-- overflows, which C++ does not define.
unfoldable pub copy_user_mem : ℕ → Memory → ℕ → ℕ → ℕ → ℕ → Run Memory
copy_user_mem fuel s old_pg new_pg addr sz =
    if leb (2 ^ 31) (addr + sz + (pgsize - 1))
    then fault
    else copy_loop fuel s old_pg new_pg addr (addr + sz)
