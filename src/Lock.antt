-- ===== src/Lock.antt =====
-- kernel/os/Intr.cpp and kernel/os/SpinLock.cpp: the nesting of interrupt disabling, and spin locks in
-- the steps that other harts may see.
pub mod Nesting
pub mod Exclusion
mod Tests
use startos.Prelude.{ℕ, ◌+◌, ◌-◌, ◌%◌, ◌^◌, ◌==◌, leb, if◌then◌else◌, ◌&&◌, ◌||◌, Bool, true, false}
use startos.Prelude.Run.{Run, ok, panic, ◌>>=◌}

-- A hart's interrupt flag in `sstatus`, and the fields of its `Cpu` that concern interrupts.
pub record Hart : Type 0 where
  pub intr : Bool
  pub noff : ℕ
  pub intr_enable : Bool

unfoldable pub push_off : Hart → Hart
push_off h = record {
  intr = false;
  noff = (h.noff + 1) % 2 ^ 32;
  intr_enable = if h.noff == 0 then h.intr else h.intr_enable;
}

-- `noff < 1`, an `int`, is 0 or has the sign bit.
unfoldable pub pop_off : Hart → Run Hart
pop_off h = elim h.intr [
  | true ↦ panic
  | false ↦ elim (h.noff == 0 || leb (2 ^ 31) h.noff) [
    | true ↦ panic
    | false ↦ ok (record h { intr = (h.noff - 1 == 0) && h.intr_enable; noff = h.noff - 1 })
  ]
]

pub record SpinLock : Type 0 where
  pub locked : Bool
  pub cpuid : ℕ

-- -1, as an `int`.
abbrev pub no_cpu : ℕ
no_cpu = 2 ^ 32 - 1

unfoldable pub init : ℕ → SpinLock
init me = record { locked = false; cpuid = me }

abbrev pub holding : ℕ → SpinLock → Bool
holding me l = l.locked && (l.cpuid == me)

-- One atomic swap of `lock`: what it read, and the lock.
abbrev pub swap : SpinLock → Bool × SpinLock
swap l = (l.locked, record l { locked = true })

-- The fields written after it, and by `unlock` before the interrupts come back.
abbrev pub note_holder : ℕ → SpinLock → SpinLock
note_holder me l = record l { cpuid = me }

abbrev pub forget_holder : SpinLock → SpinLock
forget_holder l = record l { cpuid = no_cpu }

abbrev pub release : SpinLock → SpinLock
release l = record l { locked = false }

-- `lock` up to the end of its first swap; whether the lock is taken, or the hart spins on.
unfoldable pub lock : ℕ → Hart → SpinLock → Run (Bool × Hart × SpinLock)
lock me h l = elim (holding me l) [
  | true ↦ panic
  | false ↦
      let (was, l') = swap l in
      elim was [
        | true ↦ ok (false, push_off h, l')
        | false ↦ ok (true, push_off h, note_holder me l')
      ]
]

unfoldable pub unlock : ℕ → Hart → SpinLock → Run (Hart × SpinLock)
unlock me h l = elim (holding me l) [
  | false ↦ panic
  | true ↦ pop_off h >>= λ h'. ok (h', release (forget_holder l))
]
