-- ===== src/Fs/Buffer/Tests.antt =====
-- Runs of the buffer layer on two buffers. A block is a number, and a disk tells the block at an
-- offset.
use startos.Prelude.{ℕ, ◌+◌, ◌≡◌, refl, true, false, ◌==◌, ◌&&◌, if◌then◌else◌, List, [], ◌∷◌}
use startos.Prelude.Run.{ok}
use startos.Fs.Buffer.{Buf, first_sector_of_cluster, alloc_buffer, read}
use startos.Fs.Buffer.Alloc.{Alloced, alloc_buffer-cases}
use startos.Fs.Buffer.Coherence.{Served, read-Served}

abbrev Store : Type 0
Store = ℕ → ℕ → ℕ

abbrev store_read : Store → ℕ → ℕ → ℕ
store_read disk dev place = disk dev place

abbrev store_write : Store → ℕ → ℕ → ℕ → Store
store_write disk dev place v d p = if d == dev && p == place then v else disk d p

abbrev numbered : Store
numbered dev place = dev + place

-- Block 3 with its 9 sectors' offset, in use, and a free buffer of block 5.
abbrev two_bufs : List (Buf ℕ)
two_bufs =
    record {
      valid = true;
      dev = 1;
      blockno = 3;
      last_use_tick = 10;
      locked = false;
      refcnt = 1;
      contents = 9217;
    }
    ∷ record {
      valid = false;
      dev = 1;
      blockno = 5;
      last_use_tick = 4;
      locked = false;
      refcnt = 0;
      contents = 0;
    }
    ∷ []

sector : first_sector_of_cluster 10 8 3 ≡ 18
unfolding first_sector_of_cluster
sector = refl

alloc_buffer-cases_example : Alloced 0 77 1 6 two_bufs (alloc_buffer 0 77 1 6 two_bufs)
alloc_buffer-cases_example = alloc_buffer-cases 0 77 1 6 two_bufs

loads_new :
    (alloc_buffer 0 77 1 6 two_bufs)
    ≡ ok (
      1,
      record {
        valid = true;
        dev = 1;
        blockno = 3;
        last_use_tick = 10;
        locked = false;
        refcnt = 1;
        contents = 9217;
      }
          ∷ record {
            valid = false;
            dev = 1;
            blockno = 6;
            last_use_tick = 77;
            locked = false;
            refcnt = 1;
            contents = 0;
          }
          ∷ [],
    )
unfolding alloc_buffer
loads_new = refl

read-Served_example :
    Served 0 store_read store_write 10 8 77 numbered 1 3 two_bufs
      (read 0 store_read store_write 10 8 77 numbered 1 3 two_bufs)
unfolding first_sector_of_cluster
read-Served_example =
    read-Served 0 store_read store_write 10 8 77 numbered 1 3 two_bufs
      ((λ v. refl), ((λ v. cc), tt)) ((λ q. refl), ((λ q. refl), tt))
