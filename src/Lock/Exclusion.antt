-- ===== src/Lock/Exclusion.antt =====
-- Harts that run `lock` and `unlock` of kernel/os/SpinLock.cpp on one lock, a memory access at a time.
use startos.Prelude.{
  ℕ, ◌<◌, ◌==◌, if◌then◌else◌, Bool, true, false, ◌≡◌, ◌≢◌, ◌⊎◌, inl, inr, refl, sym, ap, ◌∙◌,
  arith, Bool-cases, ne→==_false,
}
use startos.Lock.{SpinLock, no_cpu, holding, swap, note_holder, forget_holder, release}

-- Where a hart is: outside, past the swap that found the lock free, in its critical section with its
-- number noted, or in `unlock` with the number erased.
pub data Phase : Type 0 where
  outside : Phase
  swapped : Phase
  critical : Phase
  leaving : Phase

abbrev pub inside : Phase → Bool
inside outside = false
inside swapped = true
inside critical = true
inside leaving = true

pub record Harts : Type 0 where
  pub spin : SpinLock
  pub phase : ℕ → Phase

abbrev pub set_phase : (ℕ → Phase) → ℕ → Phase → ℕ → Phase
set_phase f c p = λ d. if d == c then p else f d

-- A step of the hart `c`; a hart that finds the lock taken tries again.
pub data Step (s : Harts) : Harts → Type 0 where
  spins :
      (c : ℕ)
      → s.phase c ≡ outside
      → (swap s.spin).0 ≡ true
      → Step s (record s { spin = (swap s.spin).1 })
  takes :
      (c : ℕ)
      → s.phase c ≡ outside
      → (swap s.spin).0 ≡ false
      → Step s (record { spin = (swap s.spin).1; phase = set_phase s.phase c swapped })
  notes :
      (c : ℕ)
      → c < no_cpu
      → s.phase c ≡ swapped
      → Step s (record { spin = note_holder c s.spin; phase = set_phase s.phase c critical })
  forgets :
      (c : ℕ)
      → s.phase c ≡ critical
      → Step s (record { spin = forget_holder s.spin; phase = set_phase s.phase c leaving })
  releases :
      (c : ℕ)
      → s.phase c ≡ leaving
      → Step s (record { spin = release s.spin; phase = set_phase s.phase c outside })

pub data Steps (s : Harts) : Harts → Type 0 where
  here : Steps s s
  next : {t u : Harts} → Steps s t → Step t u → Steps s u

-- The lock is taken exactly while one hart is inside, and that hart's number is the one noted while it
-- is in its critical section.
pub record Exclusive (s : Harts) : Type 0 where
  pub alone :
      ((s.spin.locked ≡ false) × ((d : ℕ) → inside (s.phase d) ≡ false))
      ⊎ ((s.spin.locked ≡ true)
          × (c : ℕ) × (inside (s.phase c) ≡ true)
          × ((d : ℕ) → d ≢ c → inside (s.phase d) ≡ false))
  pub noted : (c : ℕ) → s.phase c ≡ critical → s.spin.cpuid ≡ c

apart-bits : {A : Type 0} → true ≡ false → A
apart-bits e = absurd (ground arith)

-- Whoever is inside is the one.
the_one :
    (s : Harts) (c : ℕ)
    → Exclusive s
    → inside (s.phase c) ≡ true
    → (s.spin.locked ≡ true) × ((d : ℕ) → d ≢ c → inside (s.phase d) ≡ false)
the_one s c ex mine = elim ex.alone [
  | inl (free, none_in) ↦ apart-bits (sym mine ∙ none_in c)
  | inr (taken, owner, owner_in, others) ↦ elim (Bool-cases (c == owner)) [
    | inl e ↦
        (let same : owner ≡ c = ground arith in (taken, λ d ne. others d (λ f. ne (f ∙ same))))
    | inr e ↦ apart-bits (sym mine ∙ others c (ground arith))
  ]
]

set_phase_self : (f : ℕ → Phase) (c : ℕ) (p : Phase) → set_phase f c p c ≡ p
set_phase_self f c p = let self : (c == c) ≡ true = ground arith in rw self refl

set_phase_other : (f : ℕ → Phase) (c d : ℕ) (p : Phase) → d ≢ c → set_phase f c p d ≡ f d
set_phase_other f c d p ne = rw (ne→==_false d c ne) refl

-- The one inside moves on, and the others stay where they are.
moves :
    (s : Harts) (c : ℕ) (l : SpinLock) (p : Phase)
    → Exclusive s
    → inside (s.phase c) ≡ true
    → inside p ≡ true
    → l.locked ≡ true
    → (p ≡ critical → l.cpuid ≡ c)
    → Exclusive (record { spin = l; phase = set_phase s.phase c p })
moves s c l p ex was stays taken named =
    let (lock_taken, others) = the_one s c ex was in
    record {
      alone = inr (
        taken,
        c,
        ap inside (set_phase_self s.phase c p) ∙ stays,
        λ d ne. ap inside (set_phase_other s.phase c d p ne) ∙ others d ne,
      );
      noted = λ d at. elim (Bool-cases (d == c)) [
        | inl e ↦
            (let same : d ≡ c = ground arith in
              named (
                sym (set_phase_self s.phase c p)
                ∙ ap (λ (q : ℕ). set_phase s.phase c p q) (sym same)
                ∙ at)
              ∙ sym same)
        | inr e ↦
            (let ne : d ≢ c = ground arith in
              apart-bits (ap inside (sym at ∙ set_phase_other s.phase c d p ne) ∙ others d ne))
      ];
    }

is_critical : Phase → Bool
is_critical critical = true
is_critical outside = false
is_critical swapped = false
is_critical leaving = false

-- Nobody is in a critical section when nobody but one in another phase is inside.
no_critical :
    (f : ℕ → Phase) (c : ℕ) (p : Phase)
    → is_critical p ≡ false
    → ((d : ℕ) → d ≢ c → inside (f d) ≡ false)
    → (d n : ℕ) → set_phase f c p d ≡ critical
    → n ≡ d
unfolding is_critical
no_critical f c p other_phase others d n at = elim (Bool-cases (d == c)) [
  | inl e ↦
      (let same : d ≡ c = ground arith in
        let reads : set_phase f c p d ≡ p =
          ap (λ (q : ℕ). set_phase f c p q) same ∙ set_phase_self f c p in
        apart-bits (ap is_critical (sym at ∙ reads) ∙ other_phase))
  | inr e ↦
      (let ne : d ≢ c = ground arith in
        apart-bits (ap inside (sym at ∙ set_phase_other f c d p ne) ∙ others d ne))
]

Step-Exclusive : {s t : Harts} → Exclusive s → Step s t → Exclusive t
unfolding is_critical
Step-Exclusive {s} ex (spins c at busy) = record {
  alone = elim ex.alone [
    | inl (free, none_in) ↦ apart-bits (sym busy ∙ free)
    | inr (taken, owner, owner_in, others) ↦ inr (refl, owner, owner_in, others)
  ];
  noted = ex.noted;
}
Step-Exclusive {s} ex (takes c at free) = elim ex.alone [
  | inr (taken, owner, owner_in, others) ↦ apart-bits (sym taken ∙ free)
  | inl (open_lock, none_in) ↦ record {
    alone = inr (
      refl,
      c,
      ap inside (set_phase_self s.phase c swapped),
      λ d ne. ap inside (set_phase_other s.phase c d swapped ne) ∙ none_in d,
    );
    noted = λ d now. no_critical s.phase c swapped refl (λ e ne. none_in e) d s.spin.cpuid now;
  }
]
Step-Exclusive {s} ex (notes c small at) =
    let in_c : inside (s.phase c) ≡ true = ap inside at in
    moves s c (note_holder c s.spin) critical ex in_c refl (the_one s c ex in_c).0 (λ e. refl)
Step-Exclusive {s} ex (forgets c at) =
    let in_c : inside (s.phase c) ≡ true = ap inside at in
    moves s c (forget_holder s.spin) leaving ex in_c refl (the_one s c ex in_c).0
      (λ e. apart-bits (sym (ap is_critical e)))
Step-Exclusive {s} ex (releases c at) =
    let others = (the_one s c ex (ap inside at)).1 in
    record {
      alone = inl (
        refl,
        λ d. elim (Bool-cases (d == c)) [
          | inl e ↦
              (let same : d ≡ c = ground arith in
                ap (λ (q : ℕ). inside (set_phase s.phase c outside q)) same
                ∙ ap inside (set_phase_self s.phase c outside))
          | inr e ↦
              (let ne : d ≢ c = ground arith in
                ap inside (set_phase_other s.phase c d outside ne) ∙ others d ne)
        ],
      );
      noted = λ d now. no_critical s.phase c outside refl others d s.spin.cpuid now;
    }

Steps-Exclusive : {s t : Harts} → Exclusive s → Steps s t → Exclusive t
Steps-Exclusive ex here = ex
Steps-Exclusive ex (next steps st) = Step-Exclusive (Steps-Exclusive ex steps) st

-- From a free lock with every hart outside, after any steps of any harts: two harts inside are one
-- hart, and a hart in its critical section holds the lock, so its `unlock` does not panic.
pub Steps-exclusion :
    {s t : Harts}
    → s.spin.locked ≡ false
    → ((d : ℕ) → s.phase d ≡ outside)
    → Steps s t
    → ((c d : ℕ) → inside (t.phase c) ≡ true → inside (t.phase d) ≡ true → c ≡ d)
      × ((c : ℕ) → t.phase c ≡ critical → holding c t.spin ≡ true)
unfolding is_critical
Steps-exclusion {s} {t} free all_out steps =
    let start : Exclusive s = record {
      alone = inl (free, λ d. ap inside (all_out d));
      noted = λ c at. apart-bits (ap is_critical (sym at ∙ all_out c));
    } in
    let ex = Steps-Exclusive start steps in
    (
      λ c d in_c in_d. elim (Bool-cases (d == c)) [
        | inl e ↦ ground arith
        | inr e ↦ apart-bits (sym in_d ∙ (the_one t c ex in_c).1 d (ground arith))
      ],
      λ c at.
          let taken = (the_one t c ex (ap inside at)).0 in
          let named = ex.noted c at in
          let same : (t.spin.cpuid == c) ≡ true = ground (arith, named) in rw (taken, same) refl,
    )
