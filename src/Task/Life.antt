-- ===== src/Task/Life.antt =====
-- The life of a task: allocation, `fork`, `clone`, `exit`, `wait`, `wait4` and `growtask`. `none` is
-- the result -1.
use startos.Prelude.{
  ℕ, zero, suc, ◌+◌, ◌-◌, ◌%◌, ◌^◌, ◌==◌, ltb, if◌then◌else◌, ◌||◌, Bool, true, false, Option, none,
  some, List, [], ◌∷◌, replicate,
}
use startos.Prelude.Run.{Run, ok, ◌>>=◌}
use startos.Task.{unused, runnable, nowhere, Task, Tasks, put, nofile, nommapfile, is_unused}
use startos.Task.Services.{Services}

-- The offsets of two registers in the trap frame.
abbrev pub at_a0 : ℕ
at_a0 = 112

abbrev pub at_sp : ℕ
at_sp = 48

abbrev pub set_register : (ℕ → ℕ) → ℕ → ℕ → ℕ → ℕ
set_register frame r v x = if x == r then v else frame x

-- The first unused task of the `k` from `i` on.
abbrev pub find_unused : ℕ → ℕ → Tasks → Option ℕ
find_unused zero i ts = none
find_unused (suc k) i ts =
    let rest = find_unused k (suc i) ts in if is_unused (ts i).state then some i else rest

-- `safestrcpy` with the length of the string: the bytes before the first 0, and a 0.
abbrev pub copy_string : List ℕ → List ℕ → List ℕ
copy_string [] ds = ds
copy_string (c ∷ cs) [] = []
copy_string (c ∷ cs) (d ∷ ds) = if c == 0 then 0 ∷ ds else c ∷ copy_string cs ds

pub record Kernel (Res : Type 0) : Type 0 where
  pub tasks : Tasks
  pub res : Res

-- The table entry as `allocTask` leaves it, with a trap frame and a page table.
abbrev pub claimed : ℕ → ℕ → Task → Task
claimed trapframe pagetable t = record t {
  trapframe = trapframe;
  pagetable = pagetable;
  frame = λ _. 0;
  vma = replicate nommapfile 0;
  sig_table = replicate 20 0;
  open_files = replicate nofile 0;
}

-- What `fork` and `clone` give the child besides its memory, files and areas.
abbrev pub heir : ℕ → Task → Task → ℕ → List ℕ → List ℕ → Task
heir me parent child cwd files areas = record child {
  sz = parent.sz;
  parent = some me;
  cwd = cwd;
  frame = set_register parent.frame at_a0 0;
  open_files = files;
  vma = areas;
  current_dir = copy_string parent.current_dir child.current_dir;
  name = copy_string parent.name child.name;
  state = runnable;
}

abbrev pub freed : Task → Task
freed t = record t {
  trapframe = 0;
  vma = replicate nommapfile 0;
  pagetable = 0;
  sz = 0;
  name = copy_string (0 ∷ []) t.name;
  chan = nowhere;
  killed = false;
  xstate = 0;
  state = unused;
  parent = none;
}

pub record Copies (Res : Type 0) : Type 0 where
  pub cwd : ℕ
  pub files : List ℕ
  pub areas : List ℕ
  pub res : Res

module _ {Res : Type 0} (s : Services Res) where
  abbrev pub claim : Kernel Res → Option ℕ → Option ℕ × Kernel Res
  claim k none = (none, k)
  claim k (some i) =
      let page = s.alloc_page k.res in
      let table = s.task_pagetable page.1 page.0 in
      if page.0 == 0
      then (
        none,
        record { tasks = put k.tasks i (record (k.tasks i) { trapframe = 0 }); res = page.1 },
      )
      else (
        some i,
        record { tasks = put k.tasks i (claimed page.0 table.0 (k.tasks i)); res = table.1 },
      )

  -- `allocTask`. The entry stays unused: the caller sets its state, after the entry's lock has been
  -- let go.
  unfoldable pub alloc_task : Kernel Res → Option ℕ × Kernel Res
  alloc_task k = claim k (find_unused 49 1 k.tasks)

  -- `CopyVmaMem` over the areas from some index on; the ones below the heap's end came with it.
  abbrev pub copy_vma_mem : ℕ → ℕ → ℕ → List ℕ → Res → Run Res
  copy_vma_mem from to sz [] r = ok r
  copy_vma_mem from to sz (v ∷ vs) r =
      (if v == 0 || ltb (s.vma_range r v).0 sz
        then ok r
        else s.copy_user_mem r from to (s.vma_range r v).0 (s.vma_range r v).1)
      >>= copy_vma_mem from to sz vs

  -- One more entry in front of what the rest comes to.
  abbrev pub prepend : ℕ → Run (List ℕ × Res) → Run (List ℕ × Res)
  prepend x m = m >>= (λ t. ok (x ∷ t.0, t.1))

  -- The copy of a table of pointers: null stays null, anything else is copied.
  abbrev pub copy_each : (Res → ℕ → Run (ℕ × Res)) → List ℕ → Res → Run (List ℕ × Res)
  copy_each copy [] r = ok ([], r)
  copy_each copy (x ∷ xs) r =
      (if x == 0 then ok (0, r) else copy r x) >>= (λ t. prepend t.0 (copy_each copy xs t.1))

  -- The memory, the current directory, the files and the areas, copied from a parent to a child.
  abbrev pub fork_copies : Task → Task → Res → Run (Copies Res)
  fork_copies p c r = s.user_vm_copy r p.pagetable c.pagetable p.sz >>= (λ r1.
      copy_vma_mem p.pagetable c.pagetable p.sz p.vma r1 >>= (λ r2.
        let cwd = s.dup_inode r2 p.cwd in
        copy_each s.dup_file p.open_files cwd.1 >>= (λ files.
          copy_each s.copy_vma p.vma files.1 >>= (λ areas.
            ok (record { cwd = cwd.0; files = files.0; areas = areas.0; res = areas.1 })))))

  abbrev pub fork_child : ℕ → Kernel Res → ℕ → Copies Res → Option ℕ × Kernel Res
  fork_child me k child c = (
    some (k.tasks child).pid,
    record {
      tasks =
          put k.tasks child (record (heir me (k.tasks me) (k.tasks child) c.cwd c.files c.areas) {
            sig_table = (k.tasks me).sig_table;
          });
      res = c.res;
    },
  )

  abbrev pub fork_into : ℕ → Kernel Res → ℕ → Run (Option ℕ × Kernel Res)
  fork_into me k child =
      fork_copies (k.tasks me) (k.tasks child) k.res >>= (λ c. ok (fork_child me k child c))

  abbrev pub clone_copies : Task → Task → Res → Run (Copies Res)
  clone_copies p c r = s.user_vm_copy r p.pagetable c.pagetable p.sz >>= (λ r1.
      let cwd = s.dup_inode r1 p.cwd in
      copy_each s.dup_file p.open_files cwd.1 >>= (λ files.
        copy_each s.clone_vma p.vma files.1 >>= (λ areas.
          ok (record { cwd = cwd.0; files = files.0; areas = areas.0; res = areas.1 }))))

  abbrev pub clone_child : ℕ → ℕ → Kernel Res → ℕ → Copies Res → Option ℕ × Kernel Res
  clone_child me stack k child c = (
    some (k.tasks child).pid,
    record {
      tasks =
          put k.tasks child (record (heir me (k.tasks me) (k.tasks child) c.cwd c.files c.areas) {
            frame = set_register (set_register (k.tasks me).frame at_a0 0) at_sp stack;
          });
      res = c.res;
    },
  )

  abbrev pub clone_into : ℕ → ℕ → Kernel Res → ℕ → Run (Option ℕ × Kernel Res)
  clone_into me stack k child =
      clone_copies (k.tasks me) (k.tasks child) k.res >>= (λ c. ok (clone_child me stack k child c))

  abbrev pub into :
      (Kernel Res → ℕ → Run (Option ℕ × Kernel Res))
      → Option ℕ × Kernel Res
      → Run (Option ℕ × Kernel Res)
  into f (none, k) = ok (none, k)
  into f (some child, k) = f k child

  -- `fork` and `clone` from start to end as one step: the source holds no lock between `allocTask` and
  -- the new state, so this is the call as it runs when no interrupt lets another task in between.
  unfoldable pub fork : ℕ → Kernel Res → Run (Option ℕ × Kernel Res)
  fork me k = into (fork_into me) (alloc_task k)

  unfoldable pub clone : ℕ → ℕ → Kernel Res → Run (Option ℕ × Kernel Res)
  clone me stack k = into (clone_into me stack) (alloc_task k)

  -- `growtask` by `n` bytes up, or down, with a `uint_t` for the size. `false` is -1.
  unfoldable pub grow_task_up : ℕ → ℕ → Kernel Res → Run (Bool × Kernel Res)
  grow_task_up me n k =
      let t = k.tasks me in
      let sz = t.sz % 2 ^ 32 in
      s.user_alloc k.res t.pagetable sz ((sz + n) % 2 ^ 32) >>= (λ r.
        let new = r.0 % 2 ^ 32 in
        ok (
          if new == 0
          then (false, record { tasks = k.tasks; res = r.1 })
          else (true, record { tasks = put k.tasks me (record t { sz = new }); res = r.1 })))

  unfoldable pub grow_task_down : ℕ → ℕ → Kernel Res → Run (Bool × Kernel Res)
  grow_task_down me n k =
      let t = k.tasks me in
      let sz = t.sz % 2 ^ 32 in
      s.user_dealloc k.res t.pagetable sz ((sz + 2 ^ 32 - n) % 2 ^ 32) >>= (λ r.
        ok (true, record { tasks = put k.tasks me (record t { sz = r.0 % 2 ^ 32 }); res = r.1 }))

  abbrev pub free_pages : Task → Res → Run Res
  free_pages t r =
      (if t.trapframe == 0 then ok r else s.free_page r t.trapframe)
      >>= (λ r1. if t.pagetable == 0 then ok r1 else s.free_task_pagetable r1 t.pagetable t.sz)

  abbrev pub free_task : ℕ → Kernel Res → Run (Kernel Res)
  free_task i k =
      free_pages (k.tasks i) k.res
      >>= (λ r. ok (record { tasks = put k.tasks i (freed (k.tasks i)); res = r }))
