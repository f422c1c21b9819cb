-- ===== src/Task.antt =====
-- kernel/os/TaskScheduler.cpp, kernel/include/os/Process.hpp and kernel/os/task.cpp: the table of
-- tasks. A task is named by its index in the table. Each function that holds a task's lock throughout
-- is one step. The registers that only `pswitch` saves and restores are left out.
pub mod Services
pub mod Switch
pub mod Life
pub mod Exit
pub mod Handles
pub mod Kinship
pub mod Handshake
mod Tests
use startos.Prelude.{
  ℕ, zero, suc, ◌+◌, ◌*◌, ◌==◌, ltb, if◌then◌else◌, ◌&&◌, ◌||◌, not, Bool, true, false, Option,
  none, some, List, [], replicate,
}

abbrev pub ntask : ℕ
ntask = 50

abbrev pub nofile : ℕ
nofile = 120

abbrev pub nommapfile : ℕ
nommapfile = 60

abbrev pub nfile : ℕ
nfile = 100

-- `kstack` of each task: two pages.
abbrev pub kstack_size : ℕ
kstack_size = 8192

pub data State : Type 0 where
  unused : State
  sleeping : State
  runnable : State
  running : State
  zombie : State

-- What a task sleeps on: another kernel object's address, a task's entry, or nothing.
pub data Channel : Type 0 where
  nowhere : Channel
  of_task : ℕ → Channel
  object : ℕ → Channel

-- A null pointer to a file, to an area of memory or to a page is 0. `frame` is the trap frame's
-- registers, by their offset in it.
pub record Task : Type 0 where
  pub state : State
  pub parent : Option ℕ
  pub chan : Channel
  pub killed : Bool
  pub xstate : ℕ
  pub pid : ℕ
  pub trapframe : ℕ
  pub frame : ℕ → ℕ
  pub pagetable : ℕ
  pub sig_table : List ℕ
  pub open_files : List ℕ
  pub current_dir : List ℕ
  pub cwd : ℕ
  pub sticks : ℕ
  pub uticks : ℕ
  pub vma : List ℕ
  pub kstack : ℕ
  pub name : List ℕ
  pub sz : ℕ

abbrev pub Tasks : Type 0
Tasks = ℕ → Task

-- The table with entry `i` replaced.
abbrev pub put : Tasks → ℕ → Task → Tasks
put ts i t = λ j. if j == i then t else ts j

abbrev pub is_unused : State → Bool
is_unused unused = true
is_unused sleeping = false
is_unused runnable = false
is_unused running = false
is_unused zombie = false

abbrev pub is_sleeping : State → Bool
is_sleeping unused = false
is_sleeping sleeping = true
is_sleeping runnable = false
is_sleeping running = false
is_sleeping zombie = false

abbrev pub is_runnable : State → Bool
is_runnable unused = false
is_runnable sleeping = false
is_runnable runnable = true
is_runnable running = false
is_runnable zombie = false

abbrev pub is_running : State → Bool
is_running unused = false
is_running sleeping = false
is_running runnable = false
is_running running = true
is_running zombie = false

abbrev pub is_zombie : State → Bool
is_zombie unused = false
is_zombie sleeping = false
is_zombie runnable = false
is_zombie running = false
is_zombie zombie = true

abbrev pub same_channel : Channel → Channel → Bool
same_channel nowhere nowhere = true
same_channel nowhere (of_task j) = false
same_channel nowhere (object b) = false
same_channel (of_task i) nowhere = false
same_channel (of_task i) (of_task j) = i == j
same_channel (of_task i) (object b) = false
same_channel (object a) nowhere = false
same_channel (object a) (of_task j) = false
same_channel (object a) (object b) = a == b

-- `child->parent == task`
abbrev pub is_child_of : Option ℕ → ℕ → Bool
is_child_of none i = false
is_child_of (some p) i = p == i

-- `initTaskTable`, with the kernel stacks from `stack` on.
unfoldable pub init_task_table : ℕ → Tasks → Tasks
init_task_table stack ts i =
    if ltb i ntask
    then (record (ts i) {
      pid = i;
      kstack = stack + kstack_size * i;
      trapframe = 0;
      state = unused;
      killed = false;
      xstate = 0;
      sz = 0;
      sticks = 0;
      uticks = 0;
      vma = replicate nommapfile 0;
      current_dir = replicate 64 0;
      open_files = replicate nofile 0;
    })
    else ts i
