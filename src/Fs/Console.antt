-- ===== src/Fs/Console.antt =====
-- kernel/device/Console.cpp: the line buffer between the serial interrupt and the readers, as it is
-- built for QEMU. The index fields are taken below 2^31, where an `int` does not overflow.
pub mod Line
mod Tests
use startos.Prelude.{
  ℕ, zero, suc, ◌+◌, ◌-◌, ◌%◌, ◌^◌, ◌==◌, if◌then◌else◌, ◌||◌, Bool, true, false, List, [], ◌∷◌,
}

abbrev pub input_buf : ℕ
input_buf = 128

pub record Console : Type 0 where
  pub buf : ℕ → ℕ
  pub read_index : ℕ
  pub write_index : ℕ

-- What the code around the buffer is asked to do.
pub data Effect : Type 0 where
  sbi_putchar : ℕ → Effect
  wakeup_readers : Effect
  debug_files : Effect
  debug_pages : Effect
  debug_buddies : Effect

unfoldable pub init : Console → Console
init s = record s { read_index = 0; write_index = 0 }

abbrev pub backspace : ℕ
backspace = 0x100

unfoldable pub putc : ℕ → List Effect
putc c =
    if c == backspace
    then sbi_putchar 8 ∷ sbi_putchar 32 ∷ sbi_putchar 8 ∷ []
    else sbi_putchar c ∷ []

-- The character kept and shown; a line's end wakes the readers.
abbrev pub keep : Console → ℕ → Console × List Effect
keep s c = (
  record s {
    buf = λ i. if i == s.write_index % input_buf then c else s.buf i;
    write_index = s.write_index + 1;
  },
  sbi_putchar c ∷ (if c == 10 then wakeup_readers ∷ [] else []),
)

abbrev pub erase_last : Console → Console × List Effect
erase_last s = if s.read_index == s.write_index then (s, []) else (
  record s { write_index = s.write_index - 1 },
  sbi_putchar 8 ∷ sbi_putchar 32 ∷ sbi_putchar 8 ∷ sbi_putchar 7 ∷ [],
)

unfoldable pub console_intr : Console → ℕ → Console × List Effect
console_intr s c =
    if c == 8 || c == 127
    then erase_last s
    else if c == 16
    then (s, [])
    else if c == 126
    then (s, debug_files ∷ [])
    else if c == 36
    then (s, debug_pages ∷ [])
    else if c == 35
    then (s, debug_buddies ∷ [])
    else keep s (if c == 13 then 10 else c)

-- A stretch of `read` ends with what it returns, or asleep with so many bytes still to read.
pub data Ending : Type 0 where
  returned : ℕ → Ending
  asleep : ℕ → Ending

module _ (copyout : ℕ → ℕ → Bool) where
  -- The loop of `read` up to a sleep, for `n` more of `expect` bytes; `copyout dst c` is whether the
  -- byte could be put at `dst`. Also the bytes put there, in their order.
  unfoldable pub read_loop : Console → ℕ → ℕ → ℕ → Ending × Console × List ℕ
  read_loop s dst expect zero = (returned expect, s, [])
  read_loop s dst expect (suc n) =
      let c = s.buf (s.read_index % input_buf) in
      let s' = record s { read_index = s.read_index + 1 } in
      let rest = read_loop s' (dst + 1) expect n in
      if s.read_index == s.write_index
      then (asleep (suc n), s, [])
      else if copyout dst c
      then (if c == 10 then (returned (expect - n), s', c ∷ []) else (rest.0, rest.1, c ∷ rest.2))
      else (returned (expect - suc n), s', [])
