-- ===== src/Task/Kinship/Change.antt =====
-- A task that comes into use, a zombie whose entry is freed, and a task that exits.
use startos.Prelude.{
  ℕ, ◌<◌, ◌==◌, ◌≡◌, ◌≢◌, refl, sym, ◌∙◌, Bool, true, false, Bool-cases, Option, none, some, inl,
  inr, arith,
}
use startos.Task.{Task, Tasks, put, is_unused, is_zombie}
use startos.Task.Kinship.{lives, HasParent, IsKin}

apart : (ts : Tasks) (p i : ℕ) → lives (ts p) ≡ true → lives (ts i) ≡ false → (p == i) ≡ false
apart ts p i l d = elim (Bool-cases (p == i)) [
  | inl e ↦
      (let same : p ≡ i = ground (arith, e) in let clash : true ≡ false = sym l ∙ rw same d in cc)
  | inr e ↦ e
]

-- A task that no other has for a parent may change.
HasParent-put :
    (ts : Tasks) (i : ℕ) (t : Task) (o : Option ℕ)
    → lives (ts i) ≡ false
    → HasParent ts o
    → HasParent (put ts i t) o
HasParent-put ts i t none d h = h
HasParent-put ts i t (some p) d h = (h.0, rw (apart ts p i h.1 d) h.1)

-- A free entry is taken by a child of a living task.
pub taken-IsKin :
    (init : ℕ) (ts : Tasks) (i me : ℕ) (t : Task)
    → is_unused (ts i).state ≡ true
    → me < 50
    → lives (ts me) ≡ true
    → t.parent ≡ some me
    → lives t ≡ true
    → IsKin init ts
    → IsKin init (put ts i t)
taken-IsKin init ts i me t u b l e m k = record {
  init_lt = k.init_lt;
  init_lives = rw (apart ts init i k.init_lives idle) k.init_lives;
  parented = λ j jl n v. kept j jl n v (j == i) refl;
  fresh = λ j jl v. idle_kept j jl v (j == i) refl;
}
  where
    idle : lives (ts i) ≡ false
    idle = rw u refl

    kept :
        (j : ℕ)
        → j < 50
        → j ≢ init
        → is_unused (put ts i t j).state ≡ false
        → (w : Bool) → (j == i) ≡ w
        → HasParent (put ts i t) (put ts i t j).parent
    kept j jl n v true q = rw (q, e) (b, rw (apart ts me i l idle) l)
    kept j jl n v false q =
        rw q (HasParent-put ts i t (ts j).parent idle (k.parented j jl n (rw q at v)))

    idle_kept :
        (j : ℕ)
        → j < 50
        → is_unused (put ts i t j).state ≡ true
        → (w : Bool) → (j == i) ≡ w
        → (put ts i t j).parent ≡ none
    idle_kept j jl v true q =
        let busy : is_unused t.state ≡ true = rw q at v in absurd (ground (arith, m, busy))
    idle_kept j jl v false q = rw q (k.fresh j jl (rw q at v))

-- A zombie's entry is freed.
pub freed-IsKin :
    (init : ℕ) (ts : Tasks) (i : ℕ) (t : Task)
    → is_zombie (ts i).state ≡ true
    → t.parent ≡ none
    → is_unused t.state ≡ true
    → IsKin init ts
    → IsKin init (put ts i t)
freed-IsKin init ts i t z e u k = record {
  init_lt = k.init_lt;
  init_lives = rw (apart ts init i k.init_lives gone) k.init_lives;
  parented = λ j jl n v. kept j jl n v (j == i) refl;
  fresh = λ j jl v. free_kept j jl v (j == i) refl;
}
  where
    gone : lives (ts i) ≡ false
    gone = ground (arith, z)

    kept :
        (j : ℕ)
        → j < 50
        → j ≢ init
        → is_unused (put ts i t j).state ≡ false
        → (w : Bool) → (j == i) ≡ w
        → HasParent (put ts i t) (put ts i t j).parent
    kept j jl n v true q =
        let busy : is_unused t.state ≡ false = rw q at v in absurd (ground (arith, u, busy))
    kept j jl n v false q =
        rw q (HasParent-put ts i t (ts j).parent gone (k.parented j jl n (rw q at v)))

    free_kept :
        (j : ℕ)
        → j < 50
        → is_unused (put ts i t j).state ≡ true
        → (w : Bool) → (j == i) ≡ w
        → (put ts i t j).parent ≡ none
    free_kept j jl v true q = rw q e
    free_kept j jl v false q = rw q (k.fresh j jl (rw q at v))
