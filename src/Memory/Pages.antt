-- ===== src/Memory/Pages.antt =====
-- kernel/memory/MemAllocator.cpp: the allocator of physical pages. Its free list is threaded through
-- the first word of each free page. Each method runs under its spinlock.
pub mod Invariant
pub mod Init
pub mod Clients
mod Tests
use startos.Prelude.{
  ℕ, zero, suc, ◌+◌, ◌-◌, ◌*◌, ◌%◌, ◌^◌, ◌==◌, ltb, leb, if◌then◌else◌, ◌||◌, not, Bool, true,
  false,
}
use startos.Prelude.Run.{Run, ok, panic, fault, ◌>>=◌}
use startos.Memory.{Words, pgsize, phystop, pground_up, store, junk_page}

-- `MemAllocator` with the memory that it manages; `npage` and `total_page` hold the bits of an `int`.
pub record Memory : Type 0 where
  pub words : Words
  pub free_list : ℕ
  pub npage : ℕ
  pub total_page : ℕ

-- `alloc()`: the address of a page, or 0.
unfoldable pub alloc : Memory → ℕ × Memory
alloc s =
    let r = s.free_list in
    if r == 0 then (r, s) else (
      r,
      record s {
        words = junk_page s.words r;
        free_list = s.words r;
        npage = (s.npage + 2 ^ 32 - 1) % 2 ^ 32;
      },
    )

-- `end` is the first address past the kernel, which the linker gives.
module _ (end : ℕ) where
  pub bad_page : ℕ → Bool
  bad_page pa = not (pa % pgsize == 0) || ltb pa end || leb phystop pa

  pub free : Memory → ℕ → Run Memory
  free s pa =
      if bad_page pa
      then panic
      else ok (record s {
        words = store (junk_page s.words pa) pa s.free_list;
        free_list = pa;
        npage = (s.npage + 1) % 2 ^ 32;
      })

  -- The loop of `freeRange`, with fuel.
  pub free_pages : ℕ → Memory → ℕ → ℕ → Run Memory
  free_pages zero s p pa_end = fault
  free_pages (suc k) s p pa_end = elim (leb (p + pgsize) pa_end) [
    | true ↦ free (record s { total_page = (s.total_page + 1) % 2 ^ 32 }) p >>= λ s'.
        free_pages k s' (p + pgsize) pa_end
    | false ↦ ok s
  ]

  pub free_range : ℕ → Memory → ℕ → ℕ → Run Memory
  free_range fuel s pa_start pa_end = free_pages fuel s (pground_up pa_start) pa_end

  pub init : ℕ → Memory → Run Memory
  init fuel s = free_range fuel (record s { npage = 0 }) end phystop

-- The product of a count and the page size as an `int`, made 64 bits wide.
abbrev bytes_of_pages : ℕ → ℕ
bytes_of_pages n =
    let b = n * pgsize % 2 ^ 32 in if ltb b (2 ^ 31) then b else b + (2 ^ 64 - 2 ^ 32)

-- `FreeMemOfBytes`, `TotalMemOfBytes`
pub free_mem_of_bytes : Memory → ℕ
free_mem_of_bytes s = bytes_of_pages s.npage

pub total_mem_of_bytes : Memory → ℕ
total_mem_of_bytes s = bytes_of_pages s.total_page
