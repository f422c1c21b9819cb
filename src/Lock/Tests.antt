-- ===== src/Lock/Tests.antt =====
-- Two harts and one lock, and the theorems at them.
use startos.Prelude.{ℕ, true, false, ◌≡◌, inl, refl, arith}
use startos.Prelude.Run.{ok}
use startos.Lock.{Hart, push_off, pop_off, SpinLock, init, holding, lock, unlock}
use startos.Lock.Nesting.{Calls, here, off, on, Depth, Calls-Depth, unlock-lock}
use startos.Lock.Exclusion
use startos.Lock.Exclusion.{
  Phase, outside, swapped, critical, inside, Harts, set_phase, Step, takes, notes, Steps, next,
  Steps-exclusion,
}

abbrev idle : Hart
idle = record { intr = true; noff = 0; intr_enable = false }

popped : pop_off (push_off (push_off idle)) ≡ ok (push_off idle)
unfolding pop_off push_off
popped = refl

-- Two levels in and one out.
nested : Calls idle 1 (push_off idle)
nested = on (omega arith) (off (omega arith) (off (omega arith) here)) popped

Calls-Depth_example : Depth true 1 (push_off idle)
Calls-Depth_example = Calls-Depth refl nested

fresh_free : (init 3).locked ≡ false
unfolding init
fresh_free = refl

unlock-lock_example :
    (h₁ : Hart) × (l₁ : SpinLock) × (h₂ : Hart) × (l₂ : SpinLock) × (lock 1 idle (init 3)
      ≡ ok (true, h₁, l₁))
    × (holding 1 l₁ ≡ true)
    × (h₁.intr ≡ false)
    × (unlock 1 h₁ l₁ ≡ ok (h₂, l₂))
    × (l₂.locked ≡ false)
    × (h₂.intr ≡ true)
    × (h₂.noff ≡ 0)
unlock-lock_example = unlock-lock 1 idle (init 3) fresh_free (omega arith) (inl refl)

abbrev start : Harts
start = record { spin = record { locked = false; cpuid = 0 }; phase = λ c. outside }

-- The hart 1 takes the lock.
abbrev one_in : Harts
one_in = record {
  spin = record { locked = true; cpuid = 1 };
  phase = set_phase (set_phase (λ c. outside) 1 swapped) 1 critical;
}

run : Steps start one_in
run = next (next Exclusion.here (takes 1 refl refl)) (notes 1 (omega arith) refl)

Steps-exclusion_example :
    ((c d : ℕ) → inside (one_in.phase c) ≡ true → inside (one_in.phase d) ≡ true → c ≡ d)
    × ((c : ℕ) → one_in.phase c ≡ critical → holding c one_in.spin ≡ true)
Steps-exclusion_example = Steps-exclusion refl (λ d. refl) run
