-- ===== src/Task/Exit.antt =====
-- The end of a task: `exit`, and the parent's `wait` and `wait4`. `none` is the result -1.
use startos.Prelude.{
  ℕ, zero, suc, ◌*◌, ◌%◌, ◌^◌, ◌==◌, ltb, leb, if◌then◌else◌, ◌&&◌, ◌||◌, not, Bool, true, false,
  Option, none, some, List, [], ◌∷◌, map, replicate,
}
use startos.Prelude.Run.{Run, ok, panic, fault, ◌>>=◌}
use startos.Task.{
  zombie, Channel, nowhere, of_task, Task, Tasks, put, ntask, is_zombie, is_child_of,
}
use startos.Task.Services.{Services}
use startos.Task.Switch.{wakeup, fall_asleep}
use startos.Task.Life.{Kernel, free_task}

-- What the scan of the children finds: a zombie, or only whether there is a child.
pub data Found : Type 0 where
  zombie_at : ℕ → Found
  children : Bool → Found

-- The `k` tasks from `i` on.
abbrev pub scan_children : ℕ → ℕ → ℕ → Bool → Tasks → Found
scan_children me zero i have ts = children have
scan_children me (suc k) i have ts =
    let more = scan_children me k (suc i) (have || is_child_of (ts i).parent me) ts in
    if is_child_of (ts i).parent me && is_zombie (ts i).state then zombie_at i else more

abbrev pub parent_channel : Option ℕ → Channel
parent_channel none = nowhere
parent_channel (some p) = of_task p

-- The children of a task that exits go to the first task.
abbrev pub reparent : ℕ → ℕ → Tasks → Tasks
reparent init me ts i =
    if ltb i ntask && is_child_of (ts i).parent me
    then record (ts i) { parent = some init }
    else ts i

-- Every round of `wait4` shifts the child's exit status.
abbrev pub shifted : Task → Task
shifted t = record t { xstate = t.xstate * 2 ^ 8 % 2 ^ 32 }

abbrev pub dead : Task → Task
dead t = record t {
  open_files = map (λ _. 0) t.open_files;
  current_dir = replicate 64 0;
  vma = map (λ _. 0) t.vma;
  state = zombie;
  xstate = 0;
}

-- The table as `exit` leaves it at its last switch: the children handed on, the task a zombie and the
-- parent awake. The parent is read after the children have been handed on.
abbrev pub leave : ℕ → ℕ → Tasks → Tasks
leave init me ts =
    let handed = reparent init me ts in
    wakeup (parent_channel (handed me).parent) (put handed me (dead (handed me)))

module _ {Res : Type 0} (s : Services Res) where
  -- A stretch of `wait` ends with a result, or asleep on the task's own entry.
  pub data Waiting : Type 0 where
    returned : Option ℕ → Kernel Res → Waiting
    asleep : Kernel Res → Waiting

  abbrev pub finish_reap : ℕ → Kernel Res → Option Res → Run Waiting
  finish_reap child k none = ok (returned none k)
  finish_reap child k (some r) =
      free_task s child (record { tasks = k.tasks; res = r })
      >>= (λ k'. ok (returned (some (k.tasks child).pid) k'))

  -- The zombie's exit status goes to the parent's memory, and its entry is freed.
  unfoldable pub reap : ℕ → ℕ → ℕ → Kernel Res → Run Waiting
  reap me vaddr child k =
      (if vaddr == 0
        then ok (some k.res)
        else s.copyout_word k.res (k.tasks me).pagetable vaddr (k.tasks child).xstate)
      >>= finish_reap child k

  abbrev pub go_to_sleep : ℕ → Kernel Res → Kernel Res
  go_to_sleep me k = record { tasks = fall_asleep me (of_task me) k.tasks; res = k.res }

  abbrev pub wait_on : ℕ → ℕ → Kernel Res → Found → Run Waiting
  wait_on me vaddr k (zombie_at child) = reap me vaddr child k
  wait_on me vaddr k (children true) = ok (asleep (go_to_sleep me k))
  wait_on me vaddr k (children false) = ok (returned none k)

  unfoldable pub wait : ℕ → ℕ → Kernel Res → Run Waiting
  wait me vaddr k = wait_on me vaddr k (scan_children me ntask 0 false k.tasks)

  unfoldable pub wait4_round : ℕ → ℕ → ℕ → Kernel Res → Run Waiting
  wait4_round me child vaddr k =
      let k' : Kernel Res = record {
        tasks = put k.tasks child (shifted (k.tasks child));
        res = k.res;
      } in
      if is_zombie (k.tasks child).state
      then reap me vaddr child k'
      else ok (asleep (go_to_sleep me k'))

  -- `pid` is a word of 32 bits; a negative one passes the test and is read before the table.
  unfoldable pub wait4 : ℕ → ℕ → ℕ → Kernel Res → Run Waiting
  wait4 me pid vaddr k =
      if leb (2 ^ 31) pid
      then fault
      else (if leb ntask pid || not (is_child_of (k.tasks pid).parent me)
          then ok (returned none k)
          else wait4_round me pid vaddr k)

  abbrev pub close_files : List ℕ → Res → Run Res
  close_files [] r = ok r
  close_files (f ∷ fs) r = (if f == 0 then ok r else s.close_file r f) >>= close_files fs

  abbrev pub drop_vmas : ℕ → List ℕ → Res → Run Res
  drop_vmas pagetable [] r = ok r
  drop_vmas pagetable (v ∷ vs) r =
      (if v == 0 then ok r else s.drop_vma r pagetable v) >>= drop_vmas pagetable vs

  abbrev pub release : Task → Res → Run Res
  release t r = close_files t.open_files r >>= drop_vmas t.pagetable t.vma

  -- The source gives the children away, files and areas back and the task up under different locks or
  -- none; this is the call as it runs when it is not interrupted before its last switch.
  unfoldable pub exit : ℕ → ℕ → Kernel Res → Run (Kernel Res)
  exit init me k =
      if me == init
      then panic
      else release (k.tasks me) k.res
        >>= (λ r. ok (record { tasks = leave init me k.tasks; res = r }))
