-- ===== src/Task/Kinship/Steps.antt =====
-- Sequences of what the scheduler, the interrupts and the running task do to the table of tasks, where
-- `fork`, `clone`, `exit` and a round of `wait` run without another task in between: the source holds no
-- lock over `fork`, `clone` and `exit`, and an interrupt inside one of them is not among these steps.
use startos.Prelude.{ℕ, ◌<◌, ◌≡◌, refl, subst, Bool, true, Option}
use startos.Prelude.Run.{ok, Returns}
use startos.Task.{running, Channel, Tasks}
use startos.Task.Services.{Services}
use startos.Task.Switch.{wakeup, fall_asleep, awake, give_up, visit, kill}
use startos.Task.Life.{Kernel, fork, clone}
use startos.Task.Exit.{returned, asleep, wait, wait4, exit}
use startos.Task.Kinship.{lives, IsKin, put-IsKin, wakeup-IsKin, visit-IsKin, kill-IsKin}
use startos.Task.Kinship.Life.{fork-IsKin, clone-IsKin, exit-IsKin}
use startos.Task.Kinship.Wait.{WaitingKin, wait-IsKin, wait4-IsKin}

-- A task that makes a system call runs.
pub record Runs (ts : Tasks) (me : ℕ) : Type 0 where
  pub in_table : me < 50
  pub is_running : (ts me).state ≡ running

module _ {Res : Type 0} (s : Services Res) (init : ℕ) where
  abbrev with_tasks : Kernel Res → Tasks → Kernel Res
  with_tasks k ts = record { tasks = ts; res = k.res }

  pub data Step (k : Kernel Res) : Kernel Res → Type 0 where
    forks :
        (me : ℕ) (o : Option ℕ) (k' : Kernel Res)
        → Runs k.tasks me
        → fork s me k ≡ ok (o, k')
        → Step k k'
    clones :
        (me stack : ℕ) (o : Option ℕ) (k' : Kernel Res)
        → Runs k.tasks me
        → clone s me stack k ≡ ok (o, k')
        → Step k k'
    exits : (me : ℕ) (k' : Kernel Res) → Runs k.tasks me → exit s init me k ≡ ok k' → Step k k'
    waits :
        (me vaddr : ℕ) (o : Option ℕ) (k' : Kernel Res)
        → Runs k.tasks me
        → wait s me vaddr k ≡ ok (returned o k')
        → Step k k'
    waits_on :
        (me vaddr : ℕ) (k' : Kernel Res)
        → Runs k.tasks me
        → wait s me vaddr k ≡ ok (asleep k')
        → Step k k'
    waits_for :
        (me pid vaddr : ℕ) (o : Option ℕ) (k' : Kernel Res)
        → Runs k.tasks me
        → wait4 s me pid vaddr k ≡ ok (returned o k')
        → Step k k'
    waits_on_for :
        (me pid vaddr : ℕ) (k' : Kernel Res)
        → Runs k.tasks me
        → wait4 s me pid vaddr k ≡ ok (asleep k')
        → Step k k'
    sleeps :
        (me : ℕ) (chan : Channel)
        → Runs k.tasks me
        → Step k (with_tasks k (fall_asleep me chan k.tasks))
    wakes_up : (me : ℕ) → Runs k.tasks me → Step k (with_tasks k (awake me k.tasks))
    yields : (me : ℕ) → Runs k.tasks me → Step k (with_tasks k (give_up me k.tasks))
    kills :
        (pid : ℕ) (done : Bool) (ts : Tasks)
        → kill pid k.tasks ≡ ok (done, ts)
        → Step k (with_tasks k ts)
    wakes : (chan : Channel) → Step k (with_tasks k (wakeup chan k.tasks))
    visits : (i : ℕ) → Step k (with_tasks k (visit init i k.tasks).tasks)

  pub data Steps (k : Kernel Res) : Kernel Res → Type 0 where
    here : Steps k k
    next : {u v : Kernel Res} → Steps k u → Step u v → Steps k v

  Runs-lives : (ts : Tasks) (me : ℕ) → Runs ts me → lives (ts me) ≡ true
  Runs-lives ts me r = rw r.is_running refl

  Step-IsKin : {k k' : Kernel Res} → IsKin init k.tasks → Step k k' → IsKin init k'.tasks
  Step-IsKin {k = k} h (forks me o k' r e) =
      subst (Returns (λ t. IsKin init t.1.tasks)) e
        (fork-IsKin s init me k r.in_table (Runs-lives k.tasks me r) h)
  Step-IsKin {k = k} h (clones me stack o k' r e) =
      subst (Returns (λ t. IsKin init t.1.tasks)) e
        (clone-IsKin s init me k r.in_table (Runs-lives k.tasks me r) h stack)
  Step-IsKin {k = k} h (exits me k' r e) =
      subst (Returns (λ t. IsKin init t.tasks)) e
        (exit-IsKin s init me k r.in_table (Runs-lives k.tasks me r) h)
  Step-IsKin {k = k} h (waits me vaddr o k' r e) =
      subst (Returns (WaitingKin s init me)) e
        (wait-IsKin s init me vaddr k (Runs-lives k.tasks me r) h)
  Step-IsKin {k = k} h (waits_on me vaddr k' r e) =
      subst (Returns (WaitingKin s init me)) e
        (wait-IsKin s init me vaddr k (Runs-lives k.tasks me r) h)
  Step-IsKin {k = k} h (waits_for me pid vaddr o k' r e) =
      subst (Returns (WaitingKin s init me)) e
        (wait4-IsKin s init me pid vaddr k (Runs-lives k.tasks me r) h)
  Step-IsKin {k = k} h (waits_on_for me pid vaddr k' r e) =
      subst (Returns (WaitingKin s init me)) e
        (wait4-IsKin s init me pid vaddr k (Runs-lives k.tasks me r) h)
  Step-IsKin {k = k} h (sleeps me chan r) =
      put-IsKin init k.tasks me _ refl (Runs-lives k.tasks me r) refl h
  Step-IsKin {k = k} h (wakes_up me r) =
      put-IsKin init k.tasks me _ refl (Runs-lives k.tasks me r) (Runs-lives k.tasks me r) h
  Step-IsKin {k = k} h (yields me r) =
      put-IsKin init k.tasks me _ refl (Runs-lives k.tasks me r) refl h
  Step-IsKin {k = k} h (kills pid done ts e) =
      subst (Returns (λ t. IsKin init t.1)) e (kill-IsKin init pid k.tasks h)
  Step-IsKin {k = k} h (wakes chan) = wakeup-IsKin init chan k.tasks h
  Step-IsKin {k = k} h (visits i) = visit-IsKin init i k.tasks h

  -- Whatever sequence of calls, switches and wake-ups runs, with each `fork`, `clone`, `exit` and round of
  -- `wait` run from its start to its end before another task comes (no timer interrupt and no sleep
  -- inside one of them), the first task stays alive, every other task in use has a parent in the table
  -- that is neither free nor a zombie, so that somebody can still wait for it, and a free entry has no
  -- parent.
  pub Steps-IsKin : {k k' : Kernel Res} → IsKin init k.tasks → Steps k k' → IsKin init k'.tasks
  Steps-IsKin h here = h
  Steps-IsKin h (next ss st) = Step-IsKin (Steps-IsKin h ss) st
