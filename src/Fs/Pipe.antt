-- ===== src/Fs/Pipe.antt =====
-- kernel/fs/Pipe.cpp and kernel/include/fs/Pipe.hpp: a ring of 512 bytes between a reader and a
-- writer. The pipe's lock is held from the start of a call to its end or to its next sleep, so each
-- function here runs one such stretch; a writer that slept goes on with `write_loop` from the `i`
-- it slept at. Tasks asleep on a pipe wait on one of its two counters.
use startos.Prelude.{
  ℕ, zero, suc, ◌+◌, ◌-◌, ◌%◌, ◌^◌, ◌==◌, if◌then◌else◌, ◌&&◌, ◌||◌, not, Bool, true, false, Option,
  none, some, List, [], ◌∷◌, get_or, set,
}
pub mod Queue
pub mod Write
pub mod Read
pub mod Calls
pub mod Fifo
mod Tests

abbrev pub pipe_size : ℕ
pipe_size = 512

-- `uint_t` counts modulo 2^32.
abbrev pub wrap : ℕ → ℕ
wrap n = n % 2 ^ 32

pub record Pipe : Type 0 where
  pub read_open : Bool
  pub write_open : Bool
  pub nwrite : ℕ
  pub nread : ℕ
  pub ring : List ℕ

pub data Channel : Type 0 where
  on_nread : Channel
  on_nwrite : Channel

-- How a stretch of `read` or `write` ends: with a result, with -1, or asleep on a channel with the
-- loop counter it will go on from.
pub data Outcome : Type 0 where
  returns : ℕ → Outcome
  fails : Outcome
  sleeps : Channel → ℕ → Outcome

-- The outcome, and the channels whose sleepers were woken.
pub record Ending : Type 0 where
  pub outcome : Outcome
  pub woken : List Channel

pub data EndType : Type 0 where
  read_end : EndType
  write_end : EndType

-- What the constructor makes of a descriptor.
pub record Descriptor : Type 0 where
  pub readable : Bool
  pub writable : Bool

-- The ring's bytes are whatever the allocation held.
unfoldable pub open_pipe : List ℕ → Pipe × Descriptor × Descriptor
open_pipe junk = (
  record { read_open = true; write_open = true; nwrite = 0; nread = 0; ring = junk },
  record { readable = true; writable = false },
  record { readable = false; writable = true },
)

unfoldable pub is_empty : Pipe → Bool
is_empty p = p.nread == p.nwrite

unfoldable pub is_full : Pipe → Bool
is_full p = p.nwrite == wrap (p.nread + pipe_size)

-- `data[nread++ % PIPESIZE]`: the byte, and the ring without it.
unfoldable pub front : Pipe → ℕ
front p = get_or p.ring (p.nread % pipe_size) 0

unfoldable pub advance : Pipe → Pipe
advance p = record p { nread = wrap (p.nread + 1) }

-- `data[nwrite++ % PIPESIZE] = ch`
unfoldable pub put : Pipe → ℕ → Pipe
put p ch = record p { ring = set p.ring (p.nwrite % pipe_size) ch; nwrite = wrap (p.nwrite + 1) }

-- What is left of the pipe, nothing once both ends are closed, and the channels woken.
unfoldable pub close : EndType → Pipe → Option Pipe × List Channel
close read_end p =
    (if p.write_open then some (record p { read_open = false }) else none, on_nwrite ∷ [])
close write_end p =
    (if p.read_open then some (record p { write_open = false }) else none, on_nread ∷ [])

-- The task's memory: one byte in from an address, and one byte out to it, or no such address.
module _ {User : Type 0} (copyin : User → ℕ → Option ℕ) (copyout : User → ℕ → ℕ → Option User)
    (killed : Bool) (addr : ℕ) where
  -- A writer that the full ring stops gives up, or wakes the readers and sleeps.
  abbrev pub stop_writer : Pipe → ℕ → Ending
  stop_writer p i =
      if not p.read_open || killed
      then record { outcome = fails; woken = [] }
      else record { outcome = sleeps on_nwrite i; woken = on_nread ∷ [] }

  -- `k` is what is left of `n - i`.
  abbrev pub write_loop : User → ℕ → ℕ → Pipe → Pipe × Ending
  write_loop user zero i p = (p, record { outcome = returns i; woken = on_nread ∷ [] })
  write_loop user (suc k) i p =
      if is_full p then (p, stop_writer p i) else elim (copyin user ((addr + i) % 2 ^ 64)) [
        | none ↦ (p, record { outcome = returns i; woken = on_nread ∷ [] })
        | some ch ↦ write_loop user k (suc i) (put p ch)
      ]

  unfoldable pub write : User → ℕ → Pipe → Pipe × Ending
  write user n p = write_loop user n 0 p

  abbrev pub read_loop : ℕ → ℕ → User → Pipe → User × Pipe × ℕ
  read_loop zero i user p = (user, p, i)
  read_loop (suc k) i user p =
      if is_empty p then (user, p, i) else elim (copyout user ((addr + i) % 2 ^ 64) (front p)) [
        | none ↦ (user, advance p, i)
        | some next ↦ read_loop k (suc i) next (advance p)
      ]

  unfoldable pub read : User → ℕ → Pipe → User × Pipe × Ending
  read user n p =
      if is_empty p && p.write_open
      then (user, p, record { outcome = if killed then fails else sleeps on_nread 0; woken = [] })
      else (let done = read_loop n 0 user p in
          (done.0, done.1, record { outcome = returns done.2; woken = on_nwrite ∷ [] }))
