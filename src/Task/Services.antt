-- ===== src/Task/Services.antt =====
-- What the task table takes from the memory allocator, the page tables, the open files and the areas
-- of memory. `Res` is the state of all of these.
use startos.Prelude.{ℕ, Option}
use startos.Prelude.Run.{Run}

pub record Services (Res : Type 0) : Type 0 where
  -- `memAllocator.alloc` and `free`: 0 for no page.
  pub alloc_page : Res → ℕ × Res
  pub free_page : Res → ℕ → Run Res
  -- `taskPagetable` of a trap frame's page: 0 for none.
  pub task_pagetable : Res → ℕ → ℕ × Res
  -- `FreeTaskPagetable` of a page table and a size.
  pub free_task_pagetable : Res → ℕ → ℕ → Run Res
  -- `userVmCopy` from one page table to another.
  pub user_vm_copy : Res → ℕ → ℕ → ℕ → Run Res
  -- `CopyUserMem` from one page table to another, of a length from an address.
  pub copy_user_mem : Res → ℕ → ℕ → ℕ → ℕ → Run Res
  -- `userAlloc` and `userDealloc` of a page table from an old to a new size, which is 0 on failure.
  pub user_alloc : Res → ℕ → ℕ → ℕ → Run (ℕ × Res)
  pub user_dealloc : Res → ℕ → ℕ → ℕ → Run (ℕ × Res)
  -- `copyout` of the four bytes of a word to an address.
  pub copyout_word : Res → ℕ → ℕ → ℕ → Run (Option Res)
  -- The current directory's `dup`.
  pub dup_inode : Res → ℕ → ℕ × Res
  -- `VfsManager::dup` and `vfs::close` of an open file.
  pub dup_file : Res → ℕ → Run (ℕ × Res)
  pub close_file : Res → ℕ → Run Res
  -- An area's address and length; `allocVma` with the copy of another area, for `fork` with `dup` of
  -- its inode; and what `exit` does with one: write it back if it is shared, unmap it and free it.
  pub vma_range : Res → ℕ → ℕ × ℕ
  pub copy_vma : Res → ℕ → Run (ℕ × Res)
  -- The same for `clone`, with `dup` of the area's file.
  pub clone_vma : Res → ℕ → Run (ℕ × Res)
  pub drop_vma : Res → ℕ → ℕ → Run Res
