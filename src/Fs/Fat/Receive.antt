-- ===== src/Fs/Fat/Receive.antt =====
-- `ReadInode` of kernel/fs/fat32/fat32_file_system.cpp into a buffer of the kernel and into one of a task.
use startos.Prelude.{
  ℕ, ◌+◌, ◌*◌, ◌^◌, ◌≤◌, ◌<◌, true, false, some, ◌≡◌, refl, sym, subst, ap, ◌∙◌, List, [], ◌∷◌,
  ◌++◌, length, take, drop, arith,
}
use startos.Prelude.Run.{ok}
use startos.Memory.{Words}
use startos.Memory.Pages.{Memory}
use startos.Memory.Paging.Copy.{store_byte, write_bytes}
use startos.Memory.Paging.Either.{either_copyout}
use startos.Memory.Paging.Tree.{entry, Owns, AtLevel, Places}
use startos.Memory.Paging.Access.{for_user}
use startos.Memory.Paging.CopyOut.{Usable, Copied, Copied-then, copyout-Copied}
use startos.Fs.Fat.{Geometry, Disk, Inode}
use startos.Fs.Fat.Chain.{Fits}
use startos.Fs.Fat.Links.{Linked}
use startos.Fs.Fat.Bmap.{Remembers, first_cluster, moved}
use startos.Fs.Fat.File.{bytes_from, read_inode}
use startos.Fs.Fat.Bytes.{
  file_byte, bytes_from-append, length-bytes_from, take-bytes_from, drop-bytes_from, bytes_from-eq,
  All-bytes_from,
}
use startos.Fs.Fat.Read.{Copies, readable, read_inode-reads}

write_bytes-append :
    (w : Words) (a b : ℕ) (bs cs : List ℕ)
    → b ≡ a + length bs
    → write_bytes (write_bytes w a bs) b cs ≡ write_bytes w a (bs ++ cs)
unfolding write_bytes
write_bytes-append w a b [] cs e = ap (λ (v : ℕ). write_bytes w v cs) (omega arith)
write_bytes-append w a b (x ∷ bs) cs e =
    write_bytes-append (store_byte w a x) (a + 1) b bs cs (omega arith)

-- The memory after `bs` came to a buffer of the kernel.
abbrev pub received : Memory → ℕ → List ℕ → Memory
received s buf bs = record s { words = write_bytes s.words buf bs }

kernel_copies :
    (pagetable buf n : ℕ) (f : ℕ → ℕ) (s : Memory)
    → Copies pagetable false buf n f (λ t s'. s' ≡ received s buf (bytes_from f 0 t))
unfolding either_copyout
kernel_copies pagetable buf n f s t len s₁ le e =
    let both : write_bytes (write_bytes s.words buf (bytes_from f 0 t)) (buf + t)
          (bytes_from f t len)
        ≡ write_bytes s.words buf (bytes_from f 0 (t + len)) =
      write_bytes-append s.words buf (buf + t) (bytes_from f 0 t) (bytes_from f t len)
        (omega (arith, length-bytes_from f 0 t))
      ∙ ap (λ (v : ℕ). write_bytes s.words buf (bytes_from f 0 t ++ bytes_from f v len))
          (omega arith)
      ∙ ap (λ (bs : List ℕ). write_bytes s.words buf bs) (sym (bytes_from-append f 0 t len)) in
    (
      received s₁ (buf + t) (bytes_from f t len),
      refl,
      ap (λ (m : Memory). received m (buf + t) (bytes_from f t len)) e
          ∙ ap (λ (w : Words). record s { words = w }) both,
    )

-- `ReadInode` with a buffer of the kernel, on a file whose clusters hold the bytes that are asked for:
-- it comes to a result, the number of bytes up to the end of the file, `n` at most (0 from behind the
-- end). The buffer has those bytes of the file in their order, the rest of the memory and the disk are
-- as they were, and of the inode only the place that it remembers has moved, to another of its file.
pub read_inode-kernel :
    (g : Geometry) (fits : Fits g) (fuel pagetable buf off n : ℕ) (d : Disk) (cs : List ℕ)
    (s : Memory) (ip : Inode)
    → Linked g d (first_cluster g ip) cs
    → Remembers ip cs
    → off + readable ip off n ≤ length cs * 4096
    → ip.sz < 2 ^ 32
    → off + n < 2 ^ 64
    → (logi clus : ℕ) × (read_inode g fuel pagetable s d ip false buf off n
        ≡ ok (
          some (readable ip off n),
          received s buf (bytes_from (file_byte g d cs) off (readable ip off n)),
          d,
          moved ip logi clus,
        ))
      × Remembers (moved ip logi clus) cs
unfolding write_bytes
read_inode-kernel g fits fuel pagetable buf off n d cs s ip l r fit sized no_wrap =
    let f = λ (i : ℕ). file_byte g d cs (off + i) in
    let m = readable ip off n in
    let (s', logi, clus, runs, r', e) =
      read_inode-reads g fits fuel pagetable false buf off n d cs s ip
        (λ t s₁. s₁ ≡ received s buf (bytes_from f 0 t)) (kernel_copies pagetable buf m f s) l r fit
        sized no_wrap refl in
    let same : bytes_from f 0 m ≡ bytes_from (file_byte g d cs) off m =
      bytes_from-eq f (file_byte g d cs) 0 off m (λ i h. ap (file_byte g d cs) (omega arith)) in
    (
      logi,
      clus,
      runs
          ∙ ap (λ (s₁ : Memory). ok (some m, s₁, d, moved ip logi clus))
              (e ∙ ap (λ (bs : List ℕ). received s buf bs) same),
      r',
    )

module _ (end : ℕ) (pos : 0 < end) (ps : List ℕ) (place : Places) (root : ℕ)
    (at : AtLevel 2 (place root)) where
  -- A buffer that the user may use stays one while bytes come to its beginning.
  Usable-later :
      (s s₁ : Memory) (buf t len n : ℕ) (bs : List ℕ)
      → t + len ≤ n
      → Usable s root buf n
      → Copied end s ps place root buf bs s₁
      → Usable s₁ root (buf + t) len
  Usable-later s s₁ buf t len n bs le usable c = record {
    in_range = omega (arith, usable.in_range);
    mapped = λ i b.
        let there : buf + t + i ≡ buf + (t + i) = omega arith in
        ap for_user (c.entries root (buf + t + i) at)
        ∙ ap (λ (v : ℕ). for_user (entry s root v)) there
        ∙ usable.mapped (t + i) (omega arith);
  }

  task_copies :
      (buf n : ℕ) (f : ℕ → ℕ) (s : Memory)
      → ((i : ℕ) → f i < 256)
      → Usable s root buf n
      → Copies root true buf n f (λ t s'. Copied end s ps place root buf (bytes_from f 0 t) s')
  unfolding either_copyout
  task_copies buf n f s small usable t len s₁ le c =
      let new = bytes_from f t len in
      let count = length-bytes_from f t len in
      let later : Usable s₁ root (buf + t) (length new) =
        subst (λ (v : ℕ). Usable s₁ root (buf + t) v) (sym count)
          (Usable-later s s₁ buf t len n (bytes_from f 0 t) le usable c) in
      let (s₂, runs, d) =
        copyout-Copied end pos ps place root at (length new) s₁ (buf + t) new (omega arith) c.owns
          (All-bytes_from (λ (b : ℕ). b < 256) f t len small) later in
      let all = bytes_from f 0 (t + len) in
      let total = length-bytes_from f 0 (t + len) in
      let first : bytes_from f 0 t ≡ take t all = sym (take-bytes_from f 0 t len) in
      let rest : new ≡ drop t all =
        ap (λ (v : ℕ). bytes_from f v len) (omega arith) ∙ sym (drop-bytes_from f 0 t len) in
      let whole : Usable s root buf (length all) =
        subst (λ (v : ℕ). Usable s root buf v) (sym total)
          (record {
            in_range = omega (arith, usable.in_range);
            mapped = λ i b. usable.mapped i (omega arith);
          }) in
      (
        s₂,
        runs,
        Copied-then end pos ps place root at s buf t all s₁ s₂ (omega (arith, total))
            (omega (arith, total, usable.in_range)) whole
            (subst (λ (bs : List ℕ). Copied end s ps place root buf bs s₁) first c)
            (subst (λ (bs : List ℕ). Copied end s₁ ps place root (buf + t) bs s₂) rest d),
      )

  -- `ReadInode` with a buffer that the task may use, on a file whose clusters hold the bytes that are
  -- asked for: it comes to a result, the number of bytes up to the end of the file, `n` at most. The
  -- task finds those bytes in its buffer; no other address of this or another address space has
  -- changed, nor have the page tables, and the disk is as it was.
  pub read_inode-task :
      (g : Geometry) (fits : Fits g) (fuel buf off n : ℕ) (d : Disk) (cs : List ℕ) (s : Memory)
      (ip : Inode)
      → Linked g d (first_cluster g ip) cs
      → Remembers ip cs
      → off + readable ip off n ≤ length cs * 4096
      → ip.sz < 2 ^ 32
      → off + n < 2 ^ 64
      → ((a : ℕ) → d.device a < 256)
      → Owns end s ps place
      → Usable s root buf (readable ip off n)
      → (s' : Memory) × (logi clus : ℕ) × (read_inode g fuel root s d ip true buf off n
          ≡ ok (some (readable ip off n), s', d, moved ip logi clus))
        × Remembers (moved ip logi clus) cs
        × Copied end s ps place root buf (bytes_from (file_byte g d cs) off (readable ip off n)) s'
  read_inode-task g fits fuel buf off n d cs s ip l r fit sized no_wrap small own usable =
      let f = λ (i : ℕ). file_byte g d cs (off + i) in
      let m = readable ip off n in
      let empty : Copied end s ps place root buf [] s = record {
        owns = own;
        entries = λ x vb up. refl;
        written = λ i h. absurd (omega arith);
        elsewhere = λ x vb up low user out. refl;
      } in
      let (s', logi, clus, runs, r', c) =
        read_inode-reads g fits fuel root true buf off n d cs s ip
          (λ t s₁. Copied end s ps place root buf (bytes_from f 0 t) s₁)
          (task_copies buf m f s (λ i. small _) usable) l r fit sized no_wrap empty in
      let same : bytes_from f 0 m ≡ bytes_from (file_byte g d cs) off m =
        bytes_from-eq f (file_byte g d cs) 0 off m (λ i h. ap (file_byte g d cs) (omega arith)) in
      (
        s',
        logi,
        clus,
        runs,
        r',
        subst (λ (bs : List ℕ). Copied end s ps place root buf bs s') same c,
      )
