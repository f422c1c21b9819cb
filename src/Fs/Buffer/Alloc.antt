-- ===== src/Fs/Buffer/Alloc.antt =====
-- What `allocBuffer` and `read` make of the buffers.
use startos.Prelude.{ℕ, ◌≡◌, refl, ap, none, List, [], ◌∷◌, ◌++◌, get_or, set, length, All}
use startos.Prelude.Run.{Run, ok, panic}
use startos.Fs.Buffer.{Buf, Pick, blank, scan, buffer_at, reuse, claim, take_buffer, alloc_buffer}
use startos.Fs.Buffer.Select.{
  Lacks, NoLater, InUse, at, Picked, picks_hit, picks_free, picks_none, scan-cases,
}

pub set-split :
    {A : Type 0} (xs : List A) (x v : A) (ys : List A)
    → set (xs ++ x ∷ ys) (length xs) v ≡ xs ++ v ∷ ys
set-split [] x v ys = refl
set-split (y ∷ xs) x v ys = ap (λ t. y ∷ t) (set-split xs x v ys)

pub get_or-split :
    {A : Type 0} (xs : List A) (x : A) (ys : List A) (d : A)
    → get_or (xs ++ x ∷ ys) (length xs) d ≡ x
get_or-split [] x ys d = refl
get_or-split (y ∷ xs) x ys d = get_or-split xs x ys d

module _ {Block : Type 0} (zeros : Block) (ticks dev block : ℕ) where
  -- One buffer of the list changes.
  pub data Alloced (bufs : List (Buf Block)) : Run (ℕ × List (Buf Block)) → Type 0 where
    reused :
        (before : List (Buf Block)) (b : Buf Block) (after : List (Buf Block))
        → bufs ≡ before ++ b ∷ after
        → All (Lacks block) before
        → b.blockno ≡ block
        → Alloced bufs (ok (length before, before ++ reuse zeros ticks b ∷ after))
    evicted :
        (before : List (Buf Block)) (b : Buf Block) (after : List (Buf Block))
        → bufs ≡ before ++ b ∷ after
        → All (Lacks block) bufs
        → b.refcnt ≡ 0
        → All (NoLater b.last_use_tick) bufs
        → Alloced bufs (ok (length before, before ++ claim zeros ticks dev block b ∷ after))
    none_to_evict : All (Lacks block) bufs → All InUse bufs → Alloced bufs panic

  changed :
      (f : Buf Block → Buf Block) (bufs before : List (Buf Block)) (b : Buf Block)
      (after : List (Buf Block))
      → bufs ≡ before ++ b ∷ after
      → set bufs (length before) (f (buffer_at zeros ticks bufs (length before)))
        ≡ before ++ f b ∷ after
  changed f bufs before b after e =
      rw (e, get_or-split before b after (blank zeros)) (set-split before b (f b) after)

  take_buffer-Alloced :
      (bufs : List (Buf Block)) (p : Pick)
      → Picked block bufs p
      → Alloced bufs (take_buffer zeros ticks dev block bufs p)
  take_buffer-Alloced bufs _ (picks_hit before b after e ns same) =
      rw (changed (reuse zeros ticks) bufs before b after e) (reused before b after e ns same)
  take_buffer-Alloced bufs _ (picks_free _ _ (at before b after e) ns free ls) =
      rw (changed (claim zeros ticks dev block) bufs before b after e)
        (evicted before b after e ns free ls)
  take_buffer-Alloced bufs _ (picks_none ns us) = none_to_evict ns us

  -- `allocBuffer` changes one buffer: the first that has the block, which gets one more user; or else
  -- one out of use, least recently used among those, which is claimed for the block. It panics only when
  -- no buffer has the block and all are in use.
  pub alloc_buffer-cases :
      (bufs : List (Buf Block)) → Alloced bufs (alloc_buffer zeros ticks dev block bufs)
  unfolding alloc_buffer
  alloc_buffer-cases bufs =
      take_buffer-Alloced bufs (scan block bufs 0 none) (scan-cases block bufs)
