-- ===== src/Task/Kinship/Life.antt =====
-- `fork`, `clone`, `exit`, `wait` and `wait4` keep every task in use under a parent that lives.
use startos.Prelude.{
  ℕ, zero, suc, ◌+◌, ◌≤◌, ◌<◌, ◌==◌, ◌≡◌, refl, ◌∙◌, true, Bool-cases, Option, none, some, inl, inr,
  arith,
}
use startos.Prelude.Run.{Run, ok, Returns, Returns-bind}
use startos.Task.{Tasks, is_unused}
use startos.Task.Services.{Services}
use startos.Task.Life.{
  Kernel, find_unused, claim, alloc_task, fork_into, fork_copies, fork_child, clone_copies,
  clone_child, clone_into, into, fork, clone,
}
use startos.Task.Exit.{leave, release, exit}
use startos.Task.Kinship.{lives, IsKin, put_view-IsKin, put-lives}
use startos.Task.Kinship.Change.{taken-IsKin}
use startos.Task.Kinship.Exit.{leave-IsKin}

-- A task that has been claimed is in the table and not in use.
abbrev IsFreeAt : Tasks → Option ℕ → Type 0
IsFreeAt ts none = Unit
IsFreeAt ts (some i) = (1 ≤ i) × (i < 50) × (is_unused (ts i).state ≡ true)

find_unused-IsFreeAt :
    (k i : ℕ) (ts : Tasks) → 1 ≤ i → i + k ≤ 50 → IsFreeAt ts (find_unused k i ts)
find_unused-IsFreeAt zero i ts l h = tt
find_unused-IsFreeAt (suc k) i ts l h = elim (Bool-cases (is_unused (ts i).state)) [
  | inl e ↦ rw e (l, omega arith, e)
  | inr e ↦ rw e (find_unused-IsFreeAt k (suc i) ts (omega arith) (omega arith))
]

module _ {Res : Type 0} (s : Services Res) (init me : ℕ) where
  -- What an allocation for the task `me` leaves: the invariant, and a free entry.
  abbrev Allocated : Option ℕ × Kernel Res → Type 0
  Allocated r = IsKin init r.1.tasks × (lives (r.1.tasks me) ≡ true) × IsFreeAt r.1.tasks r.0

  claim-Allocated :
      (k : Kernel Res) (o : Option ℕ)
      → lives (k.tasks me) ≡ true
      → IsKin init k.tasks
      → IsFreeAt k.tasks o
      → Allocated (claim s k o)
  claim-Allocated k none l h f = (h, l, tt)
  claim-Allocated k (some i) l h f = elim (Bool-cases ((s.alloc_page k.res).0 == 0)) [
    | inl e ↦ rw e (
      put_view-IsKin init k.tasks i _
          (record { parent = refl; is_unused_eq = refl; is_zombie_eq = refl }) h,
      put-lives k.tasks i _ me refl ∙ l,
      tt,
    )
    | inr e ↦ rw e (
      put_view-IsKin init k.tasks i _
          (record { parent = refl; is_unused_eq = refl; is_zombie_eq = refl }) h,
      put-lives k.tasks i _ me refl ∙ l,
      (f.0, f.1, (let here : (i == i) ≡ true = ground arith in rw here f.2)),
    )
  ]

  alloc_task-Allocated :
      (k : Kernel Res) → lives (k.tasks me) ≡ true → IsKin init k.tasks → Allocated (alloc_task s k)
  unfolding alloc_task
  alloc_task-Allocated k l h =
      claim-Allocated k (find_unused 49 1 k.tasks) l h
        (find_unused-IsFreeAt 49 1 k.tasks (omega arith) (omega arith))

  abbrev Kept : Option ℕ × Kernel Res → Type 0
  Kept r = IsKin init r.1.tasks

  into-Kept :
      (f : Kernel Res → ℕ → Run (Option ℕ × Kernel Res)) (r : Option ℕ × Kernel Res)
      → ((k : Kernel Res) (i : ℕ)
          → IsKin init k.tasks
          → lives (k.tasks me) ≡ true
          → is_unused (k.tasks i).state ≡ true
          → Returns Kept (f k i))
      → Allocated r
      → Returns Kept (into s f r)
  into-Kept f (none, k) g a = a.0
  into-Kept f (some i, k) g a = g k i a.0 a.1 a.2.2

  fork_into-Kept :
      (k : Kernel Res) (i : ℕ)
      → me < 50
      → IsKin init k.tasks
      → lives (k.tasks me) ≡ true
      → is_unused (k.tasks i).state ≡ true
      → Returns Kept (fork_into s me k i)
  fork_into-Kept k i b h l u =
      Returns-bind Kept (fork_copies s (k.tasks me) (k.tasks i) k.res)
        (λ c. ok (fork_child s me k i c)) (λ c. taken-IsKin init k.tasks i me _ u b l refl refl h)

  clone_into-Kept :
      (stack : ℕ) (k : Kernel Res) (i : ℕ)
      → me < 50
      → IsKin init k.tasks
      → lives (k.tasks me) ≡ true
      → is_unused (k.tasks i).state ≡ true
      → Returns Kept (clone_into s me stack k i)
  clone_into-Kept stack k i b h l u =
      Returns-bind Kept (clone_copies s (k.tasks me) (k.tasks i) k.res)
        (λ c. ok (clone_child s me stack k i c))
        (λ c. taken-IsKin init k.tasks i me _ u b l refl refl h)

  module _ (k : Kernel Res) (b : me < 50) (l : lives (k.tasks me) ≡ true)
      (h : IsKin init k.tasks) where
    pub fork-IsKin : Returns Kept (fork s me k)
    unfolding fork
    fork-IsKin =
        into-Kept (fork_into s me) (alloc_task s k) (λ k' i h' l' u. fork_into-Kept k' i b h' l' u)
          (alloc_task-Allocated k l h)

    pub clone-IsKin : (stack : ℕ) → Returns Kept (clone s me stack k)
    unfolding clone
    clone-IsKin stack =
        into-Kept (clone_into s me stack) (alloc_task s k)
          (λ k' i h' l' u. clone_into-Kept stack k' i b h' l' u) (alloc_task-Allocated k l h)

    pub exit-IsKin : Returns (λ k'. IsKin init k'.tasks) (exit s init me k)
    unfolding exit
    exit-IsKin = elim (Bool-cases (me == init)) [
      | inl e ↦ rw e tt
      | inr e ↦ rw e (
          Returns-bind (λ k'. IsKin init k'.tasks) (release s (k.tasks me) k.res)
            (λ r. ok (record { tasks = leave init me k.tasks; res = r }))
            (λ r. leave-IsKin init me k.tasks (ground (arith, e)) l h))
    ]
