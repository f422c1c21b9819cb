-- ===== src/Task/Handshake.antt =====
-- A parent that waits and a child that exits; and the allocation of tasks.
use startos.Prelude.{
  ℕ, zero, suc, ◌+◌, ◌≤◌, ◌<◌, ◌==◌, ltb, ◌&&◌, ◌||◌, ◌≡◌, ◌≢◌, refl, sym, ap, subst, ◌∙◌, Bool,
  true, false, Bool-cases, Option, none, some, inl, inr, arith, ne→==_false,
}
use startos.Task.{
  sleeping, runnable, Channel, of_task, Task, Tasks, put, is_unused, is_zombie, is_child_of,
}
use startos.Task.Services.{Services}
use startos.Task.Switch.{wakeup, wake}
use startos.Task.Life.{Kernel, find_unused, claim, alloc_task}
use startos.Task.Exit.{zombie_at, scan_children, reparent, dead, leave, parent_channel}

abbrev IsZombieOf : ℕ → Tasks → ℕ → Type 0
IsZombieOf me ts j = (is_child_of (ts j).parent me && is_zombie (ts j).state) ≡ true

-- The scan misses no zombie among the children.
scan_children-finds :
    (me k i j : ℕ) (have : Bool) (ts : Tasks)
    → i ≤ j
    → j < i + k
    → IsZombieOf me ts j
    → (c : ℕ) × (scan_children me k i have ts ≡ zombie_at c)
scan_children-finds me zero i j have ts l h z = absurd (omega arith)
scan_children-finds me (suc k) i j have ts l h z =
    elim (Bool-cases (is_child_of (ts i).parent me && is_zombie (ts i).state)) [
      | inl e ↦ (i, rw e refl)
      | inr e ↦ rw e (
          scan_children-finds me k (suc i) j (have || is_child_of (ts i).parent me) ts
            (past (j == i) refl e) (omega arith) z)
    ]
  where
    past :
        (w : Bool)
        → (j == i) ≡ w
        → (is_child_of (ts i).parent me && is_zombie (ts i).state) ≡ false
        → suc i ≤ j
    past true q e =
        let same : j ≡ i = ground (arith, q) in
        let clash : true ≡ false = sym z ∙ rw same e in absurd (ground (arith, clash))
    past false q e = ground (arith, q, l)

wakeup_at : (chan : Channel) (ts : Tasks) (j : ℕ) → j < 50 → wakeup chan ts j ≡ wake chan (ts j)
wakeup_at chan ts j l = let inside : ltb j 50 ≡ true = ground (arith, l) in rw inside refl

put_self : (ts : Tasks) (i : ℕ) (t : Task) → put ts i t i ≡ t
put_self ts i t = let same : (i == i) ≡ true = ground arith in rw same refl

put_other : (ts : Tasks) (i : ℕ) (t : Task) (j : ℕ) → (j == i) ≡ false → put ts i t j ≡ ts j
put_other ts i t j q = rw q refl

module _ (init me p : ℕ) (ts : Tasks) (me_lt : me < 50) (p_lt : p < 50) (n : p ≢ me)
    (e : (ts me).parent ≡ some p) where
  abbrev handed : Tasks
  handed = reparent init me ts

  abbrev after : Tasks
  after = put handed me (dead (handed me))

  abbrev chan : Channel
  chan = parent_channel (handed me).parent

  handed-me : reparent init me ts me ≡ ts me
  handed-me =
      let test : (ltb me 50 && is_child_of (ts me).parent me) ≡ false = rw e (ground (arith, n)) in
      rw test refl

  handed-parent : parent_channel (reparent init me ts me).parent ≡ of_task p
  handed-parent = rw (handed-me, e) refl

  self : (j : ℕ) → (j == j) ≡ true
  self j = ground arith

  zombie_left : IsZombieOf p (leave init me ts) me
  zombie_left =
      let asleep_not : wake chan (after me) ≡ dead (handed me) =
        subst (λ t. wake chan t ≡ dead (handed me)) (sym (put_self handed me (dead (handed me))))
          refl in
      let at_me : leave init me ts me ≡ dead (ts me) =
        wakeup_at chan after me me_lt ∙ asleep_not ∙ ap dead handed-me in
      subst (λ t. (is_child_of t.parent p && is_zombie t.state) ≡ true) (sym at_me)
        (rw (e, self p) refl)

  handed-p : (reparent init me ts p).state ≡ (ts p).state
  handed-p = elim (Bool-cases (ltb p 50 && is_child_of (ts p).parent me)) [
    | inl q ↦ rw q refl
    | inr q ↦ rw q refl
  ]

  handed-chan : (reparent init me ts p).chan ≡ (ts p).chan
  handed-chan = elim (Bool-cases (ltb p 50 && is_child_of (ts p).parent me)) [
    | inl q ↦ rw q refl
    | inr q ↦ rw q refl
  ]

  woken :
      (t : Task) → t.state ≡ sleeping → t.chan ≡ of_task p → (wake (of_task p) t).state ≡ runnable
  woken t s w = rw (s, w, self p) refl

  parent_awake :
      (ts p).state ≡ sleeping → (ts p).chan ≡ of_task p → (leave init me ts p).state ≡ runnable
  parent_awake s w =
      let other : (p == me) ≡ false = ground (arith, n) in
      ap (λ (t : Task). t.state) (wakeup_at chan after p p_lt)
      ∙ ap (λ (t : Task). (wake chan t).state) (put_other handed me (dead (handed me)) p other)
      ∙ ap (λ (c : Channel). (wake c (reparent init me ts p)).state) handed-parent
      ∙ woken (reparent init me ts p) (handed-p ∙ s) (handed-chan ∙ w)

-- When a task exits whose parent, another task of the table, sleeps in `wait`, the parent can run again,
-- and the scan of its children then finds a zombie: it does not fall asleep once more.
pub leave-wakes :
    (init me p : ℕ) (ts : Tasks)
    → me < 50
    → p < 50
    → p ≢ me
    → (ts me).parent ≡ some p
    → (ts p).state ≡ sleeping
    → (ts p).chan ≡ of_task p
    → ((leave init me ts p).state ≡ runnable)
      × ((c : ℕ) × (scan_children p 50 0 false (leave init me ts) ≡ zombie_at c))
leave-wakes init me p ts b c n e s w = (
  parent_awake init me p ts b c n e s w,
  scan_children-finds p 50 0 me false (leave init me ts) (omega arith) (omega (arith, b))
      (zombie_left init me p ts b c n e),
)

find_unused-same :
    (k i : ℕ) (ts us : Tasks)
    → ((j : ℕ) → is_unused (us j).state ≡ is_unused (ts j).state)
    → find_unused k i us ≡ find_unused k i ts
find_unused-same zero i ts us h = refl
find_unused-same (suc k) i ts us h = rw (h i, find_unused-same k (suc i) ts us h) refl

put_states :
    (ts : Tasks) (i : ℕ) (t : Task) (j : ℕ)
    → t.state ≡ (ts i).state
    → is_unused (put ts i t j).state ≡ is_unused (ts j).state
put_states ts i t j e = elim (Bool-cases (j == i)) [
  | inl q ↦ (let same : j ≡ i = ground (arith, q) in rw (q, same, e) refl)
  | inr q ↦ rw q refl
]

claimed_states :
    {Res : Type 0} (s : Services Res) (k : Kernel Res) (o : Option ℕ) (j : ℕ)
    → is_unused ((claim s k o).1.tasks j).state ≡ is_unused (k.tasks j).state
claimed_states s k none j = refl
claimed_states s k (some i) j = elim (Bool-cases ((s.alloc_page k.res).0 == 0)) [
  | inl e ↦ rw e (put_states k.tasks i (record (k.tasks i) { trapframe = 0 }) j refl)
  | inr e ↦ rw e (put_states k.tasks i _ j refl)
]

claim-twice :
    {Res : Type 0} (s : Services Res) (k : Kernel Res) (o : Option ℕ) (i : ℕ)
    → (claim s k o).0 ≡ some i
    → (s.alloc_page (claim s k o).1.res).0 ≢ 0
    → (claim s (claim s k o).1 o).0 ≡ some i
claim-twice s k none i e n = cc
claim-twice s k (some x) i e n = elim (Bool-cases ((s.alloc_page k.res).0 == 0)) [
  | inl z ↦ (let clash : none ≡ some i = rw z at e in cc)
  | inr z ↦
      (let again : ((s.alloc_page (claim s k (some x)).1.res).0 == 0) ≡ false = ne→==_false _ _ n in
        rw again (rw z at e))
]

claim-again :
    {Res : Type 0} (s : Services Res) (k : Kernel Res) (o : Option ℕ)
    → find_unused 49 1 k.tasks ≡ o
    → (i : ℕ) → (claim s k o).0 ≡ some i
    → (s.alloc_page (claim s k o).1.res).0 ≢ 0
    → (claim s (claim s k o).1 (find_unused 49 1 (claim s k o).1.tasks)).0 ≡ some i
claim-again s k o f i e n =
    rw (find_unused-same 49 1 k.tasks (claim s k o).1.tasks (claimed_states s k o), f)
      (claim-twice s k o i e n)

-- `allocTask` leaves the entry that it gives unused and unlocked: called again before the caller has set
-- the state, while there is a page, it gives the same entry to the second caller.
pub alloc_task-again :
    {Res : Type 0} (s : Services Res) (k : Kernel Res) (i : ℕ)
    → (alloc_task s k).0 ≡ some i
    → (s.alloc_page (alloc_task s k).1.res).0 ≢ 0
    → (alloc_task s (alloc_task s k).1).0 ≡ some i
unfolding alloc_task
alloc_task-again s k i e n = claim-again s k (find_unused 49 1 k.tasks) refl i e n
