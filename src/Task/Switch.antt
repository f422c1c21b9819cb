-- ===== src/Task/Switch.antt =====
-- The scheduler, and giving up the processor: `sleep`, `wakeup`, `yield` and `kill`. The second hart
-- spins in `main`, so one processor runs tasks; `current` is its task, if any.
use startos.Prelude.{
  ℕ, zero, suc, ◌+◌, ◌==◌, ltb, if◌then◌else◌, ◌&&◌, ◌||◌, not, Bool, true, false, Option, none,
  some,
}
use startos.Prelude.Run.{Run, ok, panic, fault}
use startos.Task.{
  State, sleeping, runnable, running, Channel, nowhere, Task, Tasks, put, ntask, is_unused,
  is_sleeping, is_runnable, is_running, is_zombie, same_channel,
}

pub record Machine : Type 0 where
  pub tasks : Tasks
  pub current : Option ℕ

abbrev pub wake : Channel → Task → Task
wake chan t =
    if is_sleeping t.state && same_channel t.chan chan then record t { state = runnable } else t

abbrev pub wakeup : Channel → Tasks → Tasks
wakeup chan ts i = if ltb i ntask then wake chan (ts i) else ts i

-- `sleep` up to the switch, once the task's lock is held and the other one released.
abbrev pub fall_asleep : ℕ → Channel → Tasks → Tasks
fall_asleep me chan ts = put ts me (record (ts me) { chan = chan; state = sleeping })

-- `sleep` after the switch back.
abbrev pub awake : ℕ → Tasks → Tasks
awake me ts = put ts me (record (ts me) { chan = nowhere })

-- `yield` up to the switch.
abbrev pub give_up : ℕ → Tasks → Tasks
give_up me ts = put ts me (record (ts me) { state = runnable })

-- What `prepareSched` asks for before it switches: the task's lock, no other lock, a task that does not
-- run, and interrupts off.
pub record Cpu : Type 0 where
  pub noff : ℕ
  pub intr_enable : Bool
  pub intr_on : Bool

unfoldable pub prepare_sched : Bool → Cpu → State → Run Cpu
prepare_sched holding c state =
    if not holding
    then panic
    else (if not (c.noff == 1)
        then panic
        else (if is_running state then panic else (if c.intr_on then panic else ok c)))

-- One round of the scheduler's inner loop: a zombie makes the first task runnable, and a runnable task
-- is switched to.
abbrev pub rouse_init : ℕ → State → Tasks → Tasks
rouse_init init s ts =
    if is_zombie s then put ts init (record (ts init) { state = runnable }) else ts

abbrev pub dispatch : ℕ → Tasks → Machine
dispatch i ts =
    if is_runnable (ts i).state
    then record { tasks = put ts i (record (ts i) { state = running }); current = some i }
    else record { tasks = ts; current = none }

unfoldable pub visit : ℕ → ℕ → Tasks → Machine
visit init i ts = dispatch i (rouse_init init (ts i).state ts)

-- `kill`; an index past the table is read where nothing says what stands there.
unfoldable pub kill : ℕ → Tasks → Run (Bool × Tasks)
kill pid ts =
    if not (ltb pid ntask)
    then fault
    else (if is_zombie (ts pid).state || is_unused (ts pid).state
        then ok (false, ts)
        else ok (true, put ts pid (record (ts pid) { killed = true })))

-- The tasks that are neither unused nor zombies, among `k` from `i` on.
abbrev pub is_alive : State → Bool
is_alive s = is_runnable s || is_running s || is_sleeping s

abbrev pub count_from : ℕ → ℕ → Tasks → ℕ
count_from zero i ts = 0
count_from (suc k) i ts = (if is_alive (ts i).state then 1 else 0) + count_from k (suc i) ts

abbrev pub count_of_task : Tasks → ℕ
count_of_task ts = count_from ntask 0 ts
