-- ===== src/Task/Tests.antt =====
-- The table of tasks at work: the first task forks, and its child exits. Pages are numbered in the
-- order they are given out.
use startos.Prelude.{ℕ, ◌+◌, ◌≡◌, refl, false, Option, none, some, [], ◌∷◌, arith}
use startos.Prelude.Run.{Run, ok, panic, fault}
use startos.Task.{unused, runnable, running, nowhere, of_task, Task, Tasks, put}
use startos.Task.Services.{Services}
use startos.Task.Switch.{fall_asleep, visit}
use startos.Task.Life.{Kernel, alloc_task, fork}
use startos.Task.Exit.{scan_children, zombie_at, leave}
use startos.Task.Kinship.{IsKin}
use startos.Task.Kinship.Steps.{Runs, here, next, forks, visits, sleeps, Steps-IsKin}
use startos.Task.Handshake.{leave-wakes, alloc_task-again}

abbrev numbered : Services ℕ
numbered = record {
  alloc_page = λ r. (r + 1, r + 1);
  free_page = λ r p. ok r;
  task_pagetable = λ r p. (r + 1, r + 1);
  free_task_pagetable = λ r p sz. ok r;
  user_vm_copy = λ r from to sz. ok r;
  copy_user_mem = λ r from to a n. ok r;
  user_alloc = λ r p old new. ok (new, r);
  user_dealloc = λ r p old new. ok (new, r);
  copyout_word = λ r p a v. ok (some r);
  dup_inode = λ r i. (i, r);
  dup_file = λ r f. ok (f, r);
  close_file = λ r f. ok r;
  vma_range = λ r v. (0, 0);
  copy_vma = λ r v. ok (v, r);
  clone_vma = λ r v. ok (v, r);
  drop_vma = λ r p v. ok r;
}

abbrev blank : Task
blank = record {
  state = unused;
  parent = none;
  chan = nowhere;
  killed = false;
  xstate = 0;
  pid = 2;
  trapframe = 0;
  frame = λ _. 0;
  pagetable = 0;
  sig_table = [];
  open_files = [];
  current_dir = [];
  cwd = 0;
  sticks = 0;
  uticks = 0;
  vma = [];
  kstack = 0;
  name = [];
  sz = 0;
}

abbrev first_only : Tasks
first_only = put (λ _. blank) 1 (record blank { state = running; open_files = 7 ∷ 0 ∷ [] })

abbrev start : Kernel ℕ
start = record { tasks = first_only; res = 100 }

start-IsKin : IsKin 1 first_only
start-IsKin = record {
  init_lt = omega arith;
  init_lives = refl;
  parented = λ j l n u. ground (arith, n, u);
  fresh = λ j l u. ground arith;
}

first_visit : Runs first_only 1
first_visit = record { in_table = omega arith; is_running = refl }

abbrev kernel_of : Run (Option ℕ × Kernel ℕ) → Kernel ℕ
kernel_of (ok r) = r.1
kernel_of panic = start
kernel_of fault = start

abbrev forked : Kernel ℕ
forked = kernel_of (fork numbered 1 start)

fork_first : fork numbered 1 start ≡ ok (some 2, forked)
unfolding fork alloc_task
fork_first = refl

child_files : (forked.tasks 2).open_files ≡ 7 ∷ 0 ∷ []
unfolding fork alloc_task
child_files = refl

-- The first task forks and falls asleep, and the scheduler visits the child.
abbrev last : Tasks
last = (visit 1 2 (fall_asleep 1 (of_task 1) forked.tasks)).tasks

Steps-IsKin_example : IsKin 1 last
unfolding fork alloc_task
Steps-IsKin_example = Steps-IsKin numbered 1 {k = start} start-IsKin (
    next
      (next (next here (forks 1 (some 2) forked first_visit refl))
        (sleeps 1 (of_task 1) (record { in_table = omega arith; is_running = refl })))
      (visits 2))

-- The child exits while the first task sleeps in `wait`.
leave-wakes_example :
    ((leave 1 2 last 1).state ≡ runnable)
    × ((c : ℕ) × (scan_children 1 50 0 false (leave 1 2 last) ≡ zombie_at c))
unfolding fork alloc_task visit
leave-wakes_example =
    leave-wakes 1 2 1 last (omega arith) (omega arith) (omega arith) refl refl refl

alloc_task-again_example : (alloc_task numbered (alloc_task numbered start).1).0 ≡ some 2
unfolding alloc_task
alloc_task-again_example = alloc_task-again numbered start 2 refl (omega arith)
