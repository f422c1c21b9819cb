-- ===== src/Fs/Pipe/Tests.antt =====
-- Runs of the pipe on small inputs. A task's memory is a list of bytes from address 0 on.
use startos.Prelude.{
  ℕ, ltb, if◌then◌else◌, ◌≡◌, refl, true, false, Option, none, some, List, [], ◌∷◌, ◌++◌, length,
  get_or, set, replicate, arith,
}
use startos.Fs.Pipe.{
  Pipe, is_full, is_empty, put, advance, front, returns, on_nread, read, write_loop,
}
use startos.Fs.Pipe.Queue.{IsPipe, contents, occupancy}
use startos.Fs.Pipe.Write.{Written, write_loop-Written}
use startos.Fs.Pipe.Read.{queue_read, read-queue_read}
use startos.Fs.Pipe.Calls.{bytes_of, AllTold}
use startos.Fs.Pipe.Fifo.{here, next, writes, reads, read_call, Steps-fifo}

abbrev byte_at : List ℕ → ℕ → Option ℕ
byte_at user a = if ltb a (length user) then some (get_or user a 0) else none

abbrev byte_to : List ℕ → ℕ → ℕ → Option (List ℕ)
byte_to user a ch = if ltb a (length user) then some (set user a ch) else none

-- A pipe whose counters are about to wrap, with the bytes 7 and 8 in it.
abbrev wrapping : Pipe
wrapping = record {
  read_open = true;
  write_open = true;
  nwrite = 0;
  nread = 4294967294;
  ring = replicate 510 0 ++ 7 ∷ 8 ∷ [];
}

wrapping-IsPipe : IsPipe wrapping
unfolding occupancy
wrapping-IsPipe = record {
  ring_len = refl;
  nwrite_lt = omega arith;
  nread_lt = omega arith;
  fits = omega arith;
}

wrapping_contents : contents wrapping ≡ 7 ∷ 8 ∷ []
unfolding occupancy
wrapping_contents = refl

written :
    (write_loop byte_at byte_to false 0 (4 ∷ 5 ∷ 6 ∷ []) 5 0 wrapping).1
    ≡ record { outcome = returns 3; woken = on_nread ∷ [] }
unfolding is_full put
written = refl

write_loop-Written_example :
    Written byte_at byte_to false 0
      (4 ∷ 5 ∷ 6 ∷ [])
      5
      0
      wrapping
      (write_loop byte_at byte_to false 0 (4 ∷ 5 ∷ 6 ∷ []) 5 0 wrapping)
write_loop-Written_example =
    write_loop-Written byte_at byte_to false 0 (4 ∷ 5 ∷ 6 ∷ []) 5 0 wrapping wrapping-IsPipe

read-queue_read_example :
    let r = read byte_at byte_to false 1 (0 ∷ 0 ∷ 0 ∷ []) 2 wrapping in
    IsPipe r.1
    × ((r.0, contents r.1, r.2)
        ≡ queue_read byte_at byte_to false 1 true 2 (0 ∷ 0 ∷ 0 ∷ []) (contents wrapping))
read-queue_read_example =
    read-queue_read byte_at byte_to false 1 (0 ∷ 0 ∷ 0 ∷ []) 2 wrapping wrapping-IsPipe

delivered : (read byte_at byte_to false 1 (0 ∷ 0 ∷ 0 ∷ []) 2 wrapping).0 ≡ 0 ∷ 7 ∷ 8 ∷ []
unfolding is_empty advance front read
delivered = refl

-- A byte without an address leaves the ring and is not counted.
dropped_byte :
    (read_call byte_at byte_to false 1 (0 ∷ 0 ∷ []) 2 wrapping).got ≡ 7 ∷ []
    × ((read_call byte_at byte_to false 1 (0 ∷ 0 ∷ []) 2 wrapping).dropped ≡ 8 ∷ [])
    × ((read_call byte_at byte_to false 1 (0 ∷ 0 ∷ []) 2 wrapping).outcome ≡ returns 1)
unfolding is_empty advance front read occupancy
dropped_byte = (refl, refl, refl)

-- A read of one byte, then a write of three.
Steps-fifo_example :
    let after = (read byte_at byte_to false 0 (0 ∷ []) 1 wrapping).1 in
    let last = (write_loop byte_at byte_to false 0 (4 ∷ 5 ∷ 6 ∷ []) 3 0 after).0 in
    let call = read_call byte_at byte_to false 0 (0 ∷ []) 1 wrapping in
    IsPipe last
    × (contents wrapping ++ 4 ∷ 5 ∷ 6 ∷ [] ≡ bytes_of (call ∷ []) ++ contents last)
    × AllTold byte_to (call ∷ [])
unfolding is_empty advance front read occupancy
Steps-fifo_example =
    Steps-fifo byte_at byte_to wrapping-IsPipe
      (next (next here (reads false 0 (0 ∷ []) 1)) (writes false 0 (4 ∷ 5 ∷ 6 ∷ []) 3 0))
