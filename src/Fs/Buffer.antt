-- ===== src/Fs/Buffer.antt =====
-- kernel/fs/buf/BufferLayer.cpp and kernel/include/fs/buf/BufferLayer.hpp: twenty cluster buffers
-- between the file system and the disk. The spin lock of `allocBuffer` is let go before the chosen buffer
-- is claimed; `alloc_buffer` is both, as they run when no other call comes in between. `dev` and
-- `blockno` are words of 32 bits. A buffer has a sleep lock: whoever wants a locked one sleeps, with its
-- use already counted.
use startos.Prelude.{
  ℕ, zero, suc, ◌+◌, ◌-◌, ◌*◌, ◌%◌, ◌^◌, ◌==◌, ltb, if◌then◌else◌, ◌&&◌, Bool, true, false, Option,
  none, some, List, [], ◌∷◌, get_or, set, replicate,
}
use startos.Prelude.Run.{Run, ok, panic, ◌>>=◌}
pub mod Select
pub mod Alloc
pub mod Coherence
mod Tests

abbrev pub buffer_num : ℕ
buffer_num = 20

-- A buffer whose contents, 4096 bytes in the source, are a `Block`.
pub record Buf (Block : Type 0) : Type 0 where
  pub valid : Bool
  pub dev : ℕ
  pub blockno : ℕ
  pub last_use_tick : ℕ
  pub locked : Bool
  pub refcnt : ℕ
  pub contents : Block

pub record Earliest : Type 0 where
  pub index : ℕ
  pub tick : ℕ

-- What the scan of the buffers comes to.
pub data Pick : Type 0 where
  hit : ℕ → Pick
  evict : ℕ → Pick
  none_free : Pick

-- What `read` comes to: a buffer held, or a buffer whose lock it waits for.
pub data Access (Block : Type 0) : Type 0 where
  held : ℕ → List (Buf Block) → Access Block
  waits : ℕ → List (Buf Block) → Access Block

module _ {Block : Type 0} (zeros : Block) where
  -- `memset` of the buffers to 0.
  abbrev pub blank : Buf Block
  blank = record {
    valid = false;
    dev = 0;
    blockno = 0;
    last_use_tick = 0;
    locked = false;
    refcnt = 0;
    contents = zeros;
  }

  unfoldable pub init : List (Buf Block)
  init = replicate buffer_num blank

abbrev pub pick : Option Earliest → Pick
pick none = none_free
pick (some e) = evict e.index

module _ {Block : Type 0} where
  abbrev pub is_earlier : Buf Block → Option Earliest → Bool
  is_earlier b none = true
  is_earlier b (some e) = ltb b.last_use_tick e.tick

  -- The free buffer to evict so far, after buffer `i`.
  abbrev pub consider : Buf Block → ℕ → Option Earliest → Option Earliest
  consider b i earliest =
      if b.refcnt == 0 && is_earlier b earliest
      then some (record { index = i; tick = b.last_use_tick })
      else earliest

  abbrev pub scan : ℕ → List (Buf Block) → ℕ → Option Earliest → Pick
  scan wanted [] i earliest = pick earliest
  scan wanted (b ∷ bs) i earliest =
      let rest = scan wanted bs (suc i) (consider b i earliest) in
      if b.blockno == wanted then hit i else rest

module _ {Block : Type 0} (zeros : Block) (ticks : ℕ) where
  abbrev pub buffer_at : List (Buf Block) → ℕ → Buf Block
  buffer_at bufs i = get_or bufs i (blank zeros)

  -- One more user of a buffer that already has the block; the count is a word of 32 bits.
  abbrev pub reuse : Buf Block → Buf Block
  reuse b = record b { refcnt = (b.refcnt + 1) % 2 ^ 32; last_use_tick = ticks }

  abbrev pub claim : ℕ → ℕ → Buf Block → Buf Block
  claim dev block b = record b {
    valid = false;
    refcnt = 1;
    blockno = block;
    dev = dev;
    last_use_tick = ticks;
  }

  abbrev pub take_buffer : ℕ → ℕ → List (Buf Block) → Pick → Run (ℕ × List (Buf Block))
  take_buffer dev block bufs (hit i) = ok (i, set bufs i (reuse (buffer_at bufs i)))
  take_buffer dev block bufs (evict i) = ok (i, set bufs i (claim dev block (buffer_at bufs i)))
  take_buffer dev block bufs none_free = panic

  -- `allocBuffer` up to the call that locks the buffer.
  unfoldable pub alloc_buffer : ℕ → ℕ → List (Buf Block) → Run (ℕ × List (Buf Block))
  alloc_buffer dev block bufs = take_buffer dev block bufs (scan block bufs 0 none)

  -- `sleeplock.lock()`: `none` while another task holds the buffer.
  abbrev pub lock : Buf Block → Buf Block
  lock b = record b { locked = true }

  unfoldable pub lock_buffer : ℕ → List (Buf Block) → Option (List (Buf Block))
  lock_buffer i bufs =
      if (buffer_at bufs i).locked then none else some (set bufs i (lock (buffer_at bufs i)))

  unfoldable pub free_buffer : ℕ → List (Buf Block) → List (Buf Block)
  free_buffer i bufs = set bufs i (record (buffer_at bufs i) {
    refcnt = ((buffer_at bufs i).refcnt + 2 ^ 32 - 1) % 2 ^ 32;
    locked = false;
  })

-- `FirstSectorOfCluster` in words of 32 bits.
unfoldable pub first_sector_of_cluster : ℕ → ℕ → ℕ → ℕ
first_sector_of_cluster first_data_sector sectors_per_cluster cluster =
    (first_data_sector + (cluster + 2 ^ 32 - 2) % 2 ^ 32 * sectors_per_cluster) % 2 ^ 32

-- The device driver: a block in from a byte offset of a device, and one out to it.
module _ {Block Disk : Type 0} (zeros : Block) (dev_read : Disk → ℕ → ℕ → Block)
    (dev_write : Disk → ℕ → ℕ → Block → Disk) (first spc : ℕ) where
  abbrev pub offset : ℕ → ℕ
  offset block = first_sector_of_cluster first spc block * 512

  -- The driver is asked for the device and block of the call.
  abbrev pub load : Disk → ℕ → ℕ → Buf Block → Buf Block
  load disk dev block b =
      if b.valid then b else record b { contents = dev_read disk dev (offset block); valid = true }

  -- `read` once it holds the buffer's lock.
  unfoldable pub fill : Disk → ℕ → ℕ → ℕ → List (Buf Block) → List (Buf Block)
  fill disk dev block i bufs = set bufs i (load disk dev block (get_or bufs i (blank zeros)))

  abbrev pub locked_read :
      Disk → ℕ → ℕ → ℕ → List (Buf Block) → Option (List (Buf Block)) → Access Block
  locked_read disk dev block i bufs none = waits i bufs
  locked_read disk dev block i bufs (some now) = held i (fill disk dev block i now)

  unfoldable pub read : ℕ → Disk → ℕ → ℕ → List (Buf Block) → Run (Access Block)
  read ticks disk dev block bufs =
      alloc_buffer zeros ticks dev block bufs
      >>= (λ r. ok (locked_read disk dev block r.0 r.1 (lock_buffer zeros ticks r.0 r.1)))

  unfoldable pub write : Disk → Buf Block → Disk
  write disk b = dev_write disk b.dev (offset b.blockno) b.contents
