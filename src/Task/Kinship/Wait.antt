-- ===== src/Task/Kinship/Wait.antt =====
-- `wait` and `wait4`.
use startos.Prelude.{
  ℕ, zero, suc, ◌==◌, leb, if◌then◌else◌, ◌&&◌, ◌||◌, not, ◌≡◌, refl, ◌∙◌, Bool, true, false,
  Bool-cases, Option, none, some, inl, inr, arith, ◌^◌,
}
use startos.Prelude.Run.{ok, Returns, Returns-bind, Returns-then}
use startos.Task.{of_task, Tasks, put, is_zombie, is_child_of, sleeping}
use startos.Task.Services.{Services}
use startos.Task.Life.{Kernel, freed, free_pages, free_task}
use startos.Task.Exit.{
  Found, zombie_at, children, scan_children, Waiting, returned, asleep, finish_reap, reap, wait_on,
  wait, shifted, wait4_round, wait4, go_to_sleep,
}
use startos.Task.Kinship.{lives, IsKin, put-IsKin, put_view-IsKin, put-lives}
use startos.Task.Kinship.Change.{freed-IsKin}

abbrev IsFound : Tasks → Found → Type 0
IsFound ts (zombie_at j) = is_zombie (ts j).state ≡ true
IsFound ts (children b) = Unit

scan_children-IsFound :
    (me k i : ℕ) (have : Bool) (ts : Tasks) → IsFound ts (scan_children me k i have ts)
scan_children-IsFound me zero i have ts = tt
scan_children-IsFound me (suc k) i have ts =
    elim (Bool-cases (is_child_of (ts i).parent me && is_zombie (ts i).state)) [
      | inl e ↦ rw e (ground (arith, e))
      | inr e ↦ rw e (scan_children-IsFound me k (suc i) (have || is_child_of (ts i).parent me) ts)
    ]

module _ {Res : Type 0} (s : Services Res) (init me : ℕ) where
  abbrev pub WaitingKin : Waiting s → Type 0
  WaitingKin (returned o k) = IsKin init k.tasks
  WaitingKin (asleep k) = IsKin init k.tasks

  free_task-IsKin :
      (child : ℕ) (k : Kernel Res)
      → is_zombie (k.tasks child).state ≡ true
      → IsKin init k.tasks
      → Returns (λ k'. IsKin init k'.tasks) (free_task s child k)
  free_task-IsKin child k z h =
      Returns-bind (λ k'. IsKin init k'.tasks) (free_pages s (k.tasks child) k.res)
        (λ r. ok (record { tasks = put k.tasks child (freed (k.tasks child)); res = r }))
        (λ r. freed-IsKin init k.tasks child (freed (k.tasks child)) z refl refl h)

  finish_reap-IsKin :
      (child : ℕ) (k : Kernel Res) (o : Option Res)
      → is_zombie (k.tasks child).state ≡ true
      → IsKin init k.tasks
      → Returns WaitingKin (finish_reap s child k o)
  finish_reap-IsKin child k none z h = h
  finish_reap-IsKin child k (some r) z h =
      Returns-then (λ k'. IsKin init k'.tasks) WaitingKin
        (free_task s child (record { tasks = k.tasks; res = r }))
        (λ k'. ok (returned (some (k.tasks child).pid) k'))
        (free_task-IsKin child (record { tasks = k.tasks; res = r }) z h) (λ k' h'. h')

  reap-IsKin :
      (vaddr child : ℕ) (k : Kernel Res)
      → is_zombie (k.tasks child).state ≡ true
      → IsKin init k.tasks
      → Returns WaitingKin (reap s me vaddr child k)
  unfolding reap
  reap-IsKin vaddr child k z h =
      Returns-bind WaitingKin
        (if vaddr == 0
          then ok (some k.res)
          else s.copyout_word k.res (k.tasks me).pagetable vaddr (k.tasks child).xstate)
        (finish_reap s child k) (λ o. finish_reap-IsKin child k o z h)

  asleep-IsKin :
      (k : Kernel Res)
      → lives (k.tasks me) ≡ true
      → IsKin init k.tasks
      → IsKin init (go_to_sleep s me k).tasks
  asleep-IsKin k l h =
      put-IsKin init k.tasks me (record (k.tasks me) { chan = of_task me; state = sleeping }) refl l
        refl h

  wait_on-IsKin :
      (vaddr : ℕ) (k : Kernel Res) (f : Found)
      → IsFound k.tasks f
      → lives (k.tasks me) ≡ true
      → IsKin init k.tasks
      → Returns WaitingKin (wait_on s me vaddr k f)
  wait_on-IsKin vaddr k (zombie_at child) z l h = reap-IsKin vaddr child k z h
  wait_on-IsKin vaddr k (children true) z l h = asleep-IsKin k l h
  wait_on-IsKin vaddr k (children false) z l h = h

  pub wait-IsKin :
      (vaddr : ℕ) (k : Kernel Res)
      → lives (k.tasks me) ≡ true
      → IsKin init k.tasks
      → Returns WaitingKin (wait s me vaddr k)
  unfolding wait
  wait-IsKin vaddr k l h =
      wait_on-IsKin vaddr k (scan_children me 50 0 false k.tasks)
        (scan_children-IsFound me 50 0 false k.tasks) l h

  wait4_round-IsKin :
      (child vaddr : ℕ) (k : Kernel Res)
      → lives (k.tasks me) ≡ true
      → IsKin init k.tasks
      → Returns WaitingKin (wait4_round s me child vaddr k)
  unfolding wait4_round
  wait4_round-IsKin child vaddr k l h =
      let k' : Kernel Res = record {
        tasks = put k.tasks child (shifted (k.tasks child));
        res = k.res;
      } in
      let h' : IsKin init k'.tasks =
        put_view-IsKin init k.tasks child (shifted (k.tasks child))
          (record { parent = refl; is_unused_eq = refl; is_zombie_eq = refl }) h in
      elim (Bool-cases (is_zombie (k.tasks child).state)) [
        | inl z ↦ rw z (
            let here : (child == child) ≡ true = ground arith in
            reap-IsKin vaddr child k' (rw here z) h')
        | inr z ↦
            rw z
              (asleep-IsKin k' (put-lives k.tasks child (shifted (k.tasks child)) me refl ∙ l) h')
      ]

  pub wait4-IsKin :
      (pid vaddr : ℕ) (k : Kernel Res)
      → lives (k.tasks me) ≡ true
      → IsKin init k.tasks
      → Returns WaitingKin (wait4 s me pid vaddr k)
  unfolding wait4
  wait4-IsKin pid vaddr k l h = elim (Bool-cases (leb (2 ^ 31) pid)) [
    | inl e ↦ rw e tt
    | inr e ↦ elim (Bool-cases (leb 50 pid || not (is_child_of (k.tasks pid).parent me))) [
      | inl q ↦ rw (e, q) h
      | inr q ↦ rw (e, q) (wait4_round-IsKin pid vaddr k l h)
    ]
  ]
