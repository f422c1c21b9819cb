-- ===== src/Task/Kinship/Exit.antt =====
-- A task that exits leaves no orphan.
use startos.Prelude.{
  ℕ, ◌<◌, ◌==◌, ltb, if◌then◌else◌, ◌&&◌, ◌≡◌, refl, ◌∙◌, true, false, Bool-cases, Option, none,
  some, inl, inr, arith,
}
use startos.Task.{Tasks, put, is_unused, is_child_of}
use startos.Task.Exit.{reparent, dead, leave, parent_channel}
use startos.Task.Kinship.{lives, HasParent, IsKin, wakeup-IsKin}

module _ (init me : ℕ) (ts : Tasks) where
  abbrev handed : Tasks
  handed = reparent init me ts

  abbrev after : Tasks
  after = put handed me (dead (handed me))

  handed-state : (j : ℕ) → (handed j).state ≡ (ts j).state
  handed-state j = elim (Bool-cases (ltb j 50 && is_child_of (ts j).parent me)) [
    | inl e ↦ rw e refl
    | inr e ↦ rw e refl
  ]

  handed-parent :
      (j : ℕ)
      → j < 50
      → (handed j).parent ≡ (if is_child_of (ts j).parent me then some init else (ts j).parent)
  handed-parent j l = elim (Bool-cases (is_child_of (ts j).parent me)) [
    | inl e ↦ (let in_table : ltb j 50 ≡ true = ground (arith, l) in rw (in_table, e) refl)
    | inr e ↦ (let in_table : ltb j 50 ≡ true = ground (arith, l) in rw (in_table, e) refl)
  ]

  after-parent : (j : ℕ) → (after j).parent ≡ (handed j).parent
  after-parent j = elim (Bool-cases (j == me)) [
    | inl e ↦ (let same : j ≡ me = ground (arith, e) in rw (e, same) refl)
    | inr e ↦ rw e refl
  ]

  after-lives : (p : ℕ) → (p == me) ≡ false → lives (ts p) ≡ true → lives (after p) ≡ true
  after-lives p q l = rw (q, handed-state p) l

  HasParent-after :
      (o : Option ℕ)
      → init < 50
      → (init == me) ≡ false
      → lives (ts init) ≡ true
      → HasParent ts o
      → HasParent after (if is_child_of o me then some init else o)
  HasParent-after none b q l h = h
  HasParent-after (some p) b q l h = elim (Bool-cases (p == me)) [
    | inl e ↦ rw e (b, after-lives init q l)
    | inr e ↦ rw e (h.0, after-lives p e h.1)
  ]

  was_used :
      (j : ℕ)
      → lives (ts me) ≡ true
      → is_unused (after j).state ≡ false
      → is_unused (ts j).state ≡ false
  was_used j mine u = elim (Bool-cases (j == me)) [
    | inl e ↦ (let same : j ≡ me = ground (arith, e) in rw same (ground (arith, mine)))
    | inr e ↦ rw (e, handed-state j) at u
  ]

  was_unused : (j : ℕ) → is_unused (after j).state ≡ true → is_unused (ts j).state ≡ true
  was_unused j u = elim (Bool-cases (j == me)) [
    | inl e ↦ (let clash : false ≡ true = rw e at u in cc)
    | inr e ↦ rw (e, handed-state j) at u
  ]

  after-IsKin : (init == me) ≡ false → lives (ts me) ≡ true → IsKin init ts → IsKin init after
  after-IsKin q mine k = record {
    init_lt = k.init_lt;
    init_lives = after-lives init q k.init_lives;
    parented = λ j l n u.
        rw (after-parent j, handed-parent j l)
          (HasParent-after (ts j).parent k.init_lt q k.init_lives
            (k.parented j l n (was_used j mine u)));
    fresh = λ j l u. after-parent j ∙ handed-parent j l ∙ rw (k.fresh j l (was_unused j u)) refl;
  }

-- `exit` of a living task other than the first.
pub leave-IsKin :
    (init me : ℕ) (ts : Tasks)
    → (init == me) ≡ false
    → lives (ts me) ≡ true
    → IsKin init ts
    → IsKin init (leave init me ts)
leave-IsKin init me ts q mine k =
    wakeup-IsKin init (parent_channel (handed init me ts me).parent) (after init me ts)
      (after-IsKin init me ts q mine k)
