-- ===== src/Lock/Nesting.antt =====
-- `push_off` and `pop_off` of kernel/os/Intr.cpp nest.
use startos.Prelude.{
  ℕ, suc, ◌+◌, ◌-◌, ◌^◌, ◌<◌, ◌==◌, if◌then◌else◌, ◌&&◌, ◌||◌, leb, Bool, true, false, ◌≡◌, ◌⊎◌,
  inl, inr, refl, sym, subst, ◌∙◌, arith, Bool-cases, ne→==_false,
}
use startos.Prelude.Run.{ok}
use startos.Lock.{
  Hart, push_off, pop_off, SpinLock, holding, swap, note_holder, forget_holder, release, lock,
  unlock,
}

-- A hart's code between two points, as its calls; `d` is how many more of `push_off` than of
-- `pop_off` there are, which an `int` counts.
pub data Calls (start : Hart) : ℕ → Hart → Type 0 where
  here : Calls start 0 start
  off : {d : ℕ} {h : Hart} → suc d < 2 ^ 31 → Calls start d h → Calls start (suc d) (push_off h)
  on :
      {d : ℕ} {h h' : Hart}
      → suc d < 2 ^ 31
      → Calls start (suc d) h
      → pop_off h ≡ ok h'
      → Calls start d h'

-- `d` levels deep: the flag is saved from the first level on.
pub record Depth (b : Bool) (d : ℕ) (h : Hart) : Type 0 where
  pub deep : h.noff ≡ d
  pub flag : h.intr ≡ (if d == 0 then b else false)
  pub saved : (d ≡ 0) ⊎ (h.intr_enable ≡ b)

deeper : (b : Bool) (d : ℕ) → (if suc d == 0 then b else false) ≡ false
deeper b d = rw (ne→==_false (suc d) 0 (omega arith)) refl

push_off-Depth :
    (b : Bool) (d : ℕ) (h : Hart) → suc d < 2 ^ 32 → Depth b d h → Depth b (suc d) (push_off h)
unfolding push_off
push_off-Depth b d h small at = record {
  deep = omega (arith, at.deep);
  flag = sym (deeper b d);
  saved = inr (elim (Bool-cases (d == 0)) [
    | inl e ↦ (let first : d ≡ 0 = ground arith in rw (at.deep, e) (at.flag ∙ rw e refl))
    | inr e ↦ (elim at.saved [ inl z ↦ absurd (ground arith) | inr same ↦ rw (at.deep, e) same ])
  ]);
}

-- One level deep or more, `pop_off` does not panic and leaves one level.
pub pop_off-Depth :
    (b : Bool) (d : ℕ) (h : Hart)
    → suc d < 2 ^ 31
    → Depth b (suc d) h
    → (h' : Hart) × (pop_off h ≡ ok h') × Depth b d h'
unfolding pop_off
pop_off-Depth b d h small at =
    let off_flag : h.intr ≡ false = at.flag ∙ deeper b d in
    let some : (h.noff == 0 || leb (2 ^ 31) h.noff) ≡ false = ground (arith, at.deep) in
    let same : h.intr_enable ≡ b = elim at.saved [ inl z ↦ absurd (omega arith) | inr e ↦ e ] in
    let less : h.noff - 1 ≡ d = omega (arith, at.deep) in
    (
      record h { intr = (h.noff - 1 == 0) && h.intr_enable; noff = h.noff - 1 },
      rw (pop_off, off_flag, some) refl,
      record { deep = less; flag = rw (less, same) (by_depth d b); saved = inr same },
    )
  where
    by_depth : (d : ℕ) (b : Bool) → ((d == 0) && b) ≡ (if d == 0 then b else false)
    by_depth d b = elim (Bool-cases (d == 0)) [ inl e ↦ rw e refl | inr e ↦ rw e refl ]

-- From outside all critical sections, after any calls of `push_off` and `pop_off` of which `d` more
-- are the former: `noff` is `d`, interrupts are off if `d` is not 0, and as they were at the start if
-- it is.
pub Calls-Depth :
    {start : Hart} {d : ℕ} {h : Hart} → start.noff ≡ 0 → Calls start d h → Depth start.intr d h
Calls-Depth idle here = record { deep = idle; flag = refl; saved = inl refl }
Calls-Depth {start} idle (off {d} {h} small calls) =
    push_off-Depth start.intr d h (omega arith) (Calls-Depth idle calls)
Calls-Depth {start} idle (on {d} {h} {h'} small calls ran) =
    let (h₁, ran₁, depth) = pop_off-Depth start.intr d h small (Calls-Depth idle calls) in
    let same : h₁ ≡ h' = cc (ran, ran₁) in subst (λ g. Depth start.intr d g) same depth

-- A hart between calls is at some depth.
any-Depth :
    (h : Hart)
    → (h.noff ≡ 0) ⊎ (h.intr ≡ false)
    → (b : Bool) × Depth b h.noff h × ((if h.noff == 0 then b else false) ≡ h.intr)
any-Depth h outside = elim (Bool-cases (h.noff == 0)) [
  | inl e ↦
      (h.intr, record { deep = refl; flag = rw e refl; saved = inl (ground arith) }, rw e refl)
  | inr e ↦
      (let off_flag : h.intr ≡ false = elim outside [ inl z ↦ absurd (ground arith) | inr f ↦ f ] in
        (
          h.intr_enable,
          record { deep = refl; flag = rw e off_flag; saved = inr refl },
          rw e (sym off_flag),
        ))
]

-- A lock that is free and not held by the hart is taken by `lock` and given back by `unlock`, without
-- a panic; the hart's flag and depth are as before.
pub unlock-lock :
    (me : ℕ) (h : Hart) (l : SpinLock)
    → l.locked ≡ false
    → h.noff + 1 < 2 ^ 31
    → (h.noff ≡ 0) ⊎ (h.intr ≡ false)
    → (h₁ : Hart) × (l₁ : SpinLock) × (h₂ : Hart) × (l₂ : SpinLock) × (lock me h l
        ≡ ok (true, h₁, l₁))
      × (holding me l₁ ≡ true)
      × (h₁.intr ≡ false)
      × (unlock me h₁ l₁ ≡ ok (h₂, l₂))
      × (l₂.locked ≡ false)
      × (h₂.intr ≡ h.intr)
      × (h₂.noff ≡ h.noff)
unfolding lock unlock
unlock-lock me h l free small outside =
    let (b, depth, restored) = any-Depth h outside in
    let inside = push_off-Depth b h.noff h (omega arith) depth in
    let (h₂, popped, after) = pop_off-Depth b h.noff (push_off h) (omega arith) inside in
    let l₁ = note_holder me (swap l).1 in
    let not_mine : holding me l ≡ false = rw free refl in
    let taken : (swap l).0 ≡ false = free in
    let mine : (me == me) ≡ true = ground arith in
    (
      push_off h,
      l₁,
      h₂,
      release (forget_holder l₁),
      rw (lock, not_mine, taken) refl,
      mine,
      inside.flag ∙ deeper b h.noff,
      rw (unlock, mine, popped) refl,
      refl,
      after.flag ∙ restored,
      after.deep,
    )
