-- ===== src/Task/Kinship.antt =====
-- Who is whose parent: every task in use has a parent that can still wait for it.
pub mod Change
pub mod Exit
pub mod Life
pub mod Wait
pub mod Steps
use startos.Prelude.{
  ℕ, zero, suc, ◌+◌, ◌-◌, ◌*◌, ◌%◌, ◌^◌, ◌≤◌, ◌<◌, ◌==◌, ltb, leb, if◌then◌else◌, ◌&&◌, ◌||◌, not,
  ◌≡◌, ◌≢◌, refl, sym, subst, ap, ◌∙◌, Bool, true, false, Bool-cases, Option-cases, Option, none,
  some, inl, inr, List, [], ◌∷◌, arith,
}
use startos.Prelude.Run.{Run, ok, panic, fault, ◌>>=◌, Returns, Returns-bind}
use startos.Task.{
  State, unused, sleeping, runnable, running, zombie, Channel, nowhere, of_task, Task, Tasks, put,
  ntask, is_unused, is_sleeping, is_runnable, is_running, is_zombie, is_child_of, same_channel,
}
use startos.Task.Switch.{
  Machine, wake, wakeup, fall_asleep, awake, give_up, rouse_init, dispatch, visit, kill,
}

-- Neither free nor dead.
abbrev pub lives : Task → Bool
lives t = not (is_unused t.state) && not (is_zombie t.state)

abbrev pub HasParent : Tasks → Option ℕ → Type 0
HasParent ts none = ⊥
HasParent ts (some p) = (p < 50) × (lives (ts p) ≡ true)

pub record IsKin (init : ℕ) (ts : Tasks) : Type 0 where
  pub init_lt : init < 50
  pub init_lives : lives (ts init) ≡ true
  pub parented :
      (j : ℕ) → j < 50 → j ≢ init → is_unused (ts j).state ≡ false → HasParent ts (ts j).parent
  pub fresh : (j : ℕ) → j < 50 → is_unused (ts j).state ≡ true → (ts j).parent ≡ none

-- What the invariant reads of a task.
pub record SameView (t u : Task) : Type 0 where
  pub parent : u.parent ≡ t.parent
  pub is_unused_eq : is_unused u.state ≡ is_unused t.state
  pub is_zombie_eq : is_zombie u.state ≡ is_zombie t.state

HasParent-view :
    (ts us : Tasks) (o : Option ℕ)
    → ((j : ℕ) → SameView (ts j) (us j))
    → HasParent ts o
    → HasParent us o
HasParent-view ts us none v h = h
HasParent-view ts us (some p) v h = (h.0, rw ((v p).is_unused_eq, (v p).is_zombie_eq) h.1)

pub IsKin-view :
    (init : ℕ) (ts us : Tasks) → ((j : ℕ) → SameView (ts j) (us j)) → IsKin init ts → IsKin init us
IsKin-view init ts us v k = record {
  init_lt = k.init_lt;
  init_lives = rw ((v init).is_unused_eq, (v init).is_zombie_eq) k.init_lives;
  parented = λ j l n u.
      rw (v j).parent
        (HasParent-view ts us (ts j).parent v (k.parented j l n (sym (v j).is_unused_eq ∙ u)));
  fresh = λ j l u. (v j).parent ∙ k.fresh j l (sym (v j).is_unused_eq ∙ u);
}

same_view : (t : Task) → SameView t t
same_view t = record { parent = refl; is_unused_eq = refl; is_zombie_eq = refl }

-- Moves between the states of a living task.
restated : (t u : Task) → u.parent ≡ t.parent → lives t ≡ true → lives u ≡ true → SameView t u
restated t u e l m = record {
  parent = e;
  is_unused_eq = ground (arith, l, m);
  is_zombie_eq = ground (arith, l, m);
}

sleeping-lives :
    (s : State) → is_sleeping s ≡ true → (not (is_unused s) && not (is_zombie s)) ≡ true
sleeping-lives sleeping h = refl
sleeping-lives unused h = cc
sleeping-lives runnable h = cc
sleeping-lives running h = cc
sleeping-lives zombie h = cc

runnable-lives :
    (s : State) → is_runnable s ≡ true → (not (is_unused s) && not (is_zombie s)) ≡ true
runnable-lives runnable h = refl
runnable-lives unused h = cc
runnable-lives sleeping h = cc
runnable-lives running h = cc
runnable-lives zombie h = cc

wake-view : (chan : Channel) (t : Task) → SameView t (wake chan t)
wake-view chan t = elim (Bool-cases (is_sleeping t.state && same_channel t.chan chan)) [
  | inl e ↦
      (let asleep : is_sleeping t.state ≡ true = ground (arith, e) in
        rw e (restated t (record t { state = runnable }) refl (sleeping-lives t.state asleep) refl))
  | inr e ↦ rw e (same_view t)
]

put-view :
    (ts : Tasks) (i : ℕ) (t : Task) → SameView (ts i) t → (j : ℕ) → SameView (ts j) (put ts i t j)
put-view ts i t v j = elim (Bool-cases (j == i)) [
  | inl e ↦ (let same : j ≡ i = ground (arith, e) in rw (e, same) v)
  | inr e ↦ rw e (same_view (ts j))
]

-- An entry changes in what the invariant does not read.
pub put_view-IsKin :
    (init : ℕ) (ts : Tasks) (i : ℕ) (t : Task)
    → SameView (ts i) t
    → IsKin init ts
    → IsKin init (put ts i t)
put_view-IsKin init ts i t v = IsKin-view init ts (put ts i t) (put-view ts i t v)

pub put-lives :
    (ts : Tasks) (i : ℕ) (t : Task) (j : ℕ)
    → lives t ≡ lives (ts i)
    → lives (put ts i t j) ≡ lives (ts j)
put-lives ts i t j e = elim (Bool-cases (j == i)) [
  | inl q ↦ (let same : j ≡ i = ground (arith, q) in rw (q, same) e)
  | inr q ↦ rw q refl
]

pub wakeup-IsKin :
    (init : ℕ) (chan : Channel) (ts : Tasks) → IsKin init ts → IsKin init (wakeup chan ts)
wakeup-IsKin init chan ts = IsKin-view init ts (wakeup chan ts) (λ j. each j)
  where
    each : (j : ℕ) → SameView (ts j) (wakeup chan ts j)
    each j = elim (Bool-cases (ltb j 50)) [
      | inl e ↦ rw e (wake-view chan (ts j))
      | inr e ↦ rw e (same_view (ts j))
    ]

-- A living task whose entry changes but for its parent, and which lives on.
pub put-IsKin :
    (init : ℕ) (ts : Tasks) (i : ℕ) (t : Task)
    → t.parent ≡ (ts i).parent
    → lives (ts i) ≡ true
    → lives t ≡ true
    → IsKin init ts
    → IsKin init (put ts i t)
put-IsKin init ts i t e l m =
    IsKin-view init ts (put ts i t) (put-view ts i t (restated (ts i) t e l m))

rouse_init-IsKin :
    (init : ℕ) (s : State) (ts : Tasks) → IsKin init ts → IsKin init (rouse_init init s ts)
rouse_init-IsKin init s ts k = elim (Bool-cases (is_zombie s)) [
  | inl e ↦
      rw e (put-IsKin init ts init (record (ts init) { state = runnable }) refl k.init_lives refl k)
  | inr e ↦ rw e k
]

dispatch-IsKin : (init i : ℕ) (ts : Tasks) → IsKin init ts → IsKin init (dispatch i ts).tasks
dispatch-IsKin init i ts k = elim (Bool-cases (is_runnable (ts i).state)) [
  | inl e ↦ rw e (
      put-IsKin init ts i (record (ts i) { state = running }) refl (runnable-lives (ts i).state e)
        refl k)
  | inr e ↦ rw e k
]

pub visit-IsKin : (init i : ℕ) (ts : Tasks) → IsKin init ts → IsKin init (visit init i ts).tasks
unfolding visit
visit-IsKin init i ts k =
    dispatch-IsKin init i (rouse_init init (ts i).state ts)
      (rouse_init-IsKin init (ts i).state ts k)

pub kill-IsKin :
    (init pid : ℕ) (ts : Tasks) → IsKin init ts → Returns (λ r. IsKin init r.1) (kill pid ts)
unfolding kill
kill-IsKin init pid ts k = elim (Bool-cases (ltb pid 50)) [
  | inl b ↦ elim (Bool-cases (is_zombie (ts pid).state || is_unused (ts pid).state)) [
    | inl e ↦ rw (b, e) k
    | inr e ↦
        rw (b, e)
          (let alive : lives (ts pid) ≡ true = ground (arith, e) in
            put-IsKin init ts pid (record (ts pid) { killed = true }) refl alive alive k)
  ]
  | inr b ↦ rw b tt
]
