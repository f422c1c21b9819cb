-- ===== src/Fs/Buffer/Coherence.antt =====
-- What `read` delivers, and that buffers marked valid hold what the disk has.
use startos.Prelude.{
  ℕ, ◌≡◌, refl, sym, subst, ◌∙◌, Bool, true, false, none, some, List, [], ◌∷◌, ◌++◌, length, All,
  if◌then◌else◌,
}
use startos.Prelude.Run.{Run, ok, panic, ◌>>=◌}
use startos.Fs.Buffer.{
  Buf, Access, held, waits, blank, reuse, claim, lock, lock_buffer, offset, load, fill, locked_read,
  read,
}
use startos.Fs.Buffer.Select.{InUse}
use startos.Fs.Buffer.Alloc.{
  Alloced, reused, evicted, none_to_evict, alloc_buffer-cases, set-split, get_or-split,
}

module _ {A : Type 0} (P : A → Type 0) where
  All-split : (xs : List A) (x : A) (ys : List A) → All P (xs ++ x ∷ ys) → P x
  All-split [] x ys ps = ps.0
  All-split (y ∷ xs) x ys ps = All-split xs x ys ps.1

  All-put :
      (xs : List A) (x y : A) (ys : List A) → All P (xs ++ x ∷ ys) → P y → All P (xs ++ y ∷ ys)
  All-put [] x y ys ps p = (p, ps.1)
  All-put (z ∷ xs) x y ys ps p = (ps.0, All-put xs x y ys ps.1 p)

module _ {Block Disk : Type 0} (zeros : Block) (dev_read : Disk → ℕ → ℕ → Block)
    (dev_write : Disk → ℕ → ℕ → Block → Disk) (first spc ticks : ℕ) (disk : Disk) where
  -- What the disk has for a block of a device.
  abbrev pub stored : ℕ → ℕ → Block
  stored dev block = dev_read disk dev (offset zeros dev_read dev_write first spc block)

  abbrev pub IsFresh : Buf Block → Type 0
  IsFresh b = b.valid ≡ true → b.contents ≡ stored b.dev b.blockno

  -- Two devices do not share a block number.
  abbrev pub IsOf : ℕ → ℕ → Buf Block → Type 0
  IsOf dev block b = b.blockno ≡ block → b.dev ≡ dev

  pub data Served (dev block : ℕ) (bufs : List (Buf Block)) : Run (Access Block) → Type 0 where
    serves :
        (before : List (Buf Block)) (b : Buf Block) (after : List (Buf Block))
        → All IsFresh (before ++ b ∷ after)
        → b.locked ≡ true
        → b.valid ≡ true
        → b.blockno ≡ block
        → b.contents ≡ stored dev block
        → Served dev block bufs (ok (held (length before) (before ++ b ∷ after)))
    delays :
        (before : List (Buf Block)) (b : Buf Block) (after : List (Buf Block))
        → All IsFresh (before ++ b ∷ after)
        → b.locked ≡ true
        → b.blockno ≡ block
        → Served dev block bufs (ok (waits (length before) (before ++ b ∷ after)))
    panics : All InUse bufs → Served dev block bufs panic

  module _ (dev block : ℕ) (before : List (Buf Block)) (b : Buf Block)
      (after : List (Buf Block)) where
    abbrev loaded : Buf Block → Buf Block
    loaded b = load zeros dev_read dev_write first spc disk dev block b

    lock_buffer-split :
        lock_buffer zeros ticks (length before) (before ++ b ∷ after)
        ≡ (if b.locked then none else some (before ++ lock zeros ticks b ∷ after))
    unfolding lock_buffer
    lock_buffer-split =
        rw
          (get_or-split before b after (blank zeros), set-split before b (lock zeros ticks b) after)
          refl

    fill-split :
        fill zeros dev_read dev_write first spc disk dev block (length before) (before ++ b ∷ after)
        ≡ before ++ loaded b ∷ after
    unfolding fill
    fill-split =
        rw (get_or-split before b after (blank zeros), set-split before b (loaded b) after) refl

  -- A buffer that is chosen for the block and locked holds it once loaded.
  loaded_lem :
      (dev block : ℕ) (b : Buf Block)
      → IsFresh b
      → b.blockno ≡ block
      → b.dev ≡ dev
      → let r = load zeros dev_read dev_write first spc disk dev block b in
        (r.valid ≡ true)
        × (r.contents ≡ stored dev block)
        × (r.blockno ≡ block)
        × (r.dev ≡ dev)
        × (r.locked ≡ b.locked)
  loaded_lem dev block b fresh same own = by_valid b.valid refl
    where
      by_valid :
          (w : Bool)
          → b.valid ≡ w
          → let r = if w then b else (record b { contents = stored dev block; valid = true }) in
            (r.valid ≡ true)
            × (r.contents ≡ stored dev block)
            × (r.blockno ≡ block)
            × (r.dev ≡ dev)
            × (r.locked ≡ b.locked)
      by_valid true v = (v, fresh v ∙ (rw (own, same) refl), same, own, refl)
      by_valid false v = (refl, refl, same, own, refl)

  module _ (dev block : ℕ) (bufs before : List (Buf Block)) (b : Buf Block)
      (after : List (Buf Block)) where
    -- With the buffer chosen and claimed, `b`.
    locked_read-Served :
        All IsFresh (before ++ b ∷ after)
        → b.blockno ≡ block
        → b.dev ≡ dev
        → Served dev block bufs (
            ok (
              locked_read zeros dev_read dev_write first spc disk dev block
                (length before)
                (before ++ b ∷ after)
                (lock_buffer zeros ticks (length before) (before ++ b ∷ after))))
    locked_read-Served fs same own =
        rw (lock_buffer-split dev block before b after) (by_lock b.locked refl)
      where
        by_lock :
            (w : Bool)
            → b.locked ≡ w
            → Served dev block bufs (
                ok (
                  locked_read zeros dev_read dev_write first spc disk dev block
                    (length before)
                    (before ++ b ∷ after)
                    (if w then none else some (before ++ lock zeros ticks b ∷ after))))
        by_lock true l = delays before b after fs l same
        by_lock false l =
            let r =
              loaded_lem dev block (lock zeros ticks b) (All-split IsFresh before b after fs) same
                own in
            rw (fill-split dev block before (lock zeros ticks b) after) (
              serves before _ after
                (All-put IsFresh before b _ after fs (λ v. r.1 ∙ sym (rw (r.2, r.3) refl))) r.4 r.0
                r.2 r.1)

  Alloced-Served :
      (dev block : ℕ) (bufs : List (Buf Block)) (r : Run (ℕ × List (Buf Block)))
      → All IsFresh bufs
      → All (IsOf dev block) bufs
      → Alloced zeros ticks dev block bufs r
      → Served dev block bufs (
          r >>= (λ t. ok (
            locked_read zeros dev_read dev_write first spc disk dev block t.0 t.1
              (lock_buffer zeros ticks t.0 t.1))))
  Alloced-Served dev block bufs _ fs os (reused before b after e ns same) =
      let gs : All IsFresh (before ++ b ∷ after) = subst (All IsFresh) e fs in
      let hs : All (IsOf dev block) (before ++ b ∷ after) = subst (All (IsOf dev block)) e os in
      locked_read-Served dev block bufs before (reuse zeros ticks b) after
        (All-put IsFresh before b _ after gs (All-split IsFresh before b after gs)) same
        (All-split (IsOf dev block) before b after hs same)
  Alloced-Served dev block bufs _ fs os (evicted before b after e ns free ls) =
      locked_read-Served dev block bufs before (claim zeros ticks dev block b) after
        (All-put IsFresh before b _ after (subst (All IsFresh) e fs) (λ v. cc)) refl refl
  Alloced-Served dev block bufs _ fs os (none_to_evict ns us) = panics us

  -- When every valid buffer holds what the disk has, and the block number is not cached for another
  -- device, `read` gives a locked buffer with what the disk has for that device and block, or waits for
  -- a buffer of that block that another task holds, or panics because all buffers are in use; the valid
  -- buffers still hold what the disk has.
  pub read-Served :
      (dev block : ℕ) (bufs : List (Buf Block))
      → All IsFresh bufs
      → All (IsOf dev block) bufs
      → Served dev block bufs (read zeros dev_read dev_write first spc ticks disk dev block bufs)
  unfolding read
  read-Served dev block bufs fs os =
      Alloced-Served dev block bufs _ fs os (alloc_buffer-cases zeros ticks dev block bufs)
