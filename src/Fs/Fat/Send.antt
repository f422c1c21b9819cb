-- ===== src/Fs/Fat/Send.antt =====
-- `WriteInode` of kernel/fs/fat32/fat32_file_system.cpp from a buffer of the kernel and from one of a
-- task, and `ReadInode` after it.
use startos.Prelude.{
  ℕ, suc, ◌+◌, ◌-◌, ◌*◌, ◌^◌, ◌≤◌, ◌<◌, true, false, some, ◌≡◌, sym, subst, ap, ◌∙◌, List, length,
  arith,
}
use startos.Prelude.Run.{ok}
use startos.Memory.Pages.{Memory}
use startos.Memory.Paging.Copy.{byte_at, read_bytes, copyin}
use startos.Memory.Paging.Bytes.{read_bytes-eq}
use startos.Memory.Paging.Either.{either_copyin}
use startos.Memory.Paging.Tree.{entry, Owns, AtLevel, Places}
use startos.Memory.Paging.Access.{for_user}
use startos.Memory.Paging.CopyOut.{user_byte, Usable}
use startos.Memory.Paging.CopyIn.{copyin-Found}
use startos.Fs.Fat.{Geometry, Disk, Inode}
use startos.Fs.Fat.Chain.{Fits}
use startos.Fs.Fat.Links.{Linked}
use startos.Fs.Fat.Bmap.{Remembers, first_cluster, moved}
use startos.Fs.Fat.Supply.{free_clusters}
use startos.Fs.Fat.Entry.{Ambient}
use startos.Fs.Fat.File.{bytes_from, updated_entry, read_inode, write_inode}
use startos.Fs.Fat.Bytes.{file_byte, bytes_from-eq, length-bytes_from, get_or-bytes_from}
use startos.Fs.Fat.Read.{readable}
use startos.Fs.Fat.Receive.{received, read_inode-kernel}
use startos.Fs.Fat.Written.{byte_after}
use startos.Fs.Fat.Write.{Source}
use startos.Fs.Fat.Save.{Listed, resized, Saved, write_inode-Saved}

-- The bytes of a buffer of the kernel.
abbrev pub kernel_bytes : Memory → ℕ → ℕ → ℕ
kernel_bytes s buf i = byte_at s.words (buf + i)

-- The bytes that a task has in a buffer.
abbrev pub task_bytes : Memory → ℕ → ℕ → ℕ → ℕ
task_bytes s root buf i = user_byte s root (buf + i)

kernel_holds :
    (pagetable : ℕ) (s : Memory) (buf n : ℕ) → Source pagetable s false buf n (kernel_bytes s buf)
unfolding either_copyin
kernel_holds pagetable s buf n t len le =
    let bs = bytes_from (kernel_bytes s buf) t len in
    let count = length-bytes_from (kernel_bytes s buf) t len in
    let reads : read_bytes s.words (buf + t) len ≡ bs =
      ap (λ (m : ℕ). read_bytes s.words (buf + t) m) (sym count)
      ∙ read_bytes-eq bs s.words (buf + t) (λ i h.
        ap (λ (a : ℕ). byte_at s.words a) (omega arith)
        ∙ sym (get_or-bytes_from (kernel_bytes s buf) t len i (omega (arith, count)))) in
    ap (λ (xs : List ℕ). ok (true, xs)) reads

module _ (end : ℕ) (pos : 0 < end) (ps : List ℕ) (place : Places) (root : ℕ)
    (level : AtLevel 2 (place root)) where
  task_holds :
      (s : Memory) (buf n : ℕ)
      → Owns end s ps place
      → Usable s root buf n
      → Source root s true buf n (task_bytes s root buf)
  unfolding either_copyin
  task_holds s buf n own usable t len le =
      let bs = bytes_from (task_bytes s root buf) t len in
      let count = length-bytes_from (task_bytes s root buf) t len in
      let reads : copyin (suc (length bs)) s root (buf + t) (length bs) ≡ ok (true, bs) =
        copyin-Found end pos ps place root level s own (length bs) (buf + t) bs (omega arith)
          (record {
            in_range = omega (arith, count, usable.in_range);
            mapped = λ i h.
                subst (λ (a : ℕ). for_user (entry s root a) ≡ true) (omega arith)
                  (usable.mapped (t + i) (omega (arith, count)));
          })
          (λ i h.
            ap (λ (a : ℕ). user_byte s root a) (omega arith)
            ∙ sym (get_or-bytes_from (task_bytes s root buf) t len i (omega (arith, count)))) in
      subst (λ (m : ℕ). copyin (suc m) s root (buf + t) m ≡ ok (true, bs)) count reads

  -- `WriteInode` from a buffer that the task may use, at a place that is not behind the end of the
  -- file, on a volume with clusters enough for it: it comes to the result `n`. The file's chain is the
  -- old one with new clusters behind it, its `n` bytes from `off` on are those of the buffer, and the
  -- other bytes of its old clusters are as they were; its size is the larger of the old one and
  -- `off + n`. Its directory entry has the new size. All files that share no cluster with it keep their chains and, but for
  -- that entry, their bytes.
  pub write_inode-task :
      (g : Geometry) (fits : Fits g) (fuel : ℕ) (amb : Ambient) (s : Memory) (d : Disk) (ip : Inode)
      (buf off n : ℕ) (cs : List ℕ) (c : ℕ) (ds : List ℕ) (at : ℕ)
      → Owns end s ps place
      → Usable s root buf n
      → Linked g d (first_cluster g ip) cs
      → Remembers ip cs
      → Listed g d ip cs c ds at
      → off ≤ ip.sz
      → off ≤ length cs * 4096
      → off + n ≤ (length cs + free_clusters g d) * 4096
      → off + n < 2 ^ 32
      → g.cluster_count < 2 + fuel
      → (d' : Disk) × (cs' : List ℕ) × (logi clus : ℕ) × (let ip' =
            resized (moved ip logi clus) (off + n) in
          (write_inode g fuel root amb s d ip true buf off n ≡ ok (some n, d', ip'))
          × Remembers ip' cs'
          × Saved g d
              (first_cluster g ip)
              cs
              off
              (task_bytes s root buf)
              n
              ip.i_pos
              (updated_entry amb ip')
              d'
              cs')
  write_inode-task g fits fuel amb s d ip buf off n cs c ds at own usable =
      write_inode-Saved g fits fuel root amb s d ip true buf off n (task_bytes s root buf) cs c ds
        at (task_holds s buf n own usable)

-- What `WriteInode` put into a file from a buffer of the kernel, `ReadInode` takes from it into another
-- one, on a volume with clusters enough for the write, which is not behind the end of the file.
pub read_inode-write_inode :
    (g : Geometry) (fits : Fits g) (fuel pagetable : ℕ) (amb : Ambient) (s : Memory) (d : Disk)
    (ip : Inode) (buf dst off n : ℕ) (cs : List ℕ) (c : ℕ) (ds : List ℕ) (at : ℕ)
    → Linked g d (first_cluster g ip) cs
    → Remembers ip cs
    → Listed g d ip cs c ds at
    → off ≤ ip.sz
    → off ≤ length cs * 4096
    → off + n ≤ (length cs + free_clusters g d) * 4096
    → off + n < 2 ^ 32
    → ip.sz < 2 ^ 32
    → g.cluster_count < 2 + fuel
    → (d' : Disk) × (ip' ip'' : Inode) × (write_inode g fuel pagetable amb s d ip false buf off n
        ≡ ok (some n, d', ip'))
      × (read_inode g fuel pagetable s d' ip' false dst off n
          ≡ ok (some n, received s dst (bytes_from (kernel_bytes s buf) 0 n), d', ip''))
read_inode-write_inode g fits fuel pagetable amb s d ip buf dst off n cs c ds at l r e inside
      chained room small sized enough =
    let src = kernel_bytes s buf in
    let (d', cs', logi, clus, (runs, r', saved)) =
      write_inode-Saved g fits fuel pagetable amb s d ip false buf off n src cs c ds at
        (kernel_holds pagetable s buf n) l r e inside chained room small enough in
    let ip' = resized (moved ip logi clus) (off + n) in
    let amount : readable ip' off n ≡ n = omega arith in
    let fit : off + readable ip' off n ≤ length cs' * 4096 = omega (arith, amount, saved.longer) in
    let (logi', clus', reads, _) =
      read_inode-kernel g fits fuel pagetable dst off n d' cs' s ip' saved.chain r' fit
        (ground (arith, sized, small)) (omega arith) in
    let same : bytes_from (file_byte g d' cs') off n ≡ bytes_from src 0 n =
      bytes_from-eq (file_byte g d' cs') src off 0 n (λ i h.
        let new : byte_after g d cs off src n (off + i) ≡ src i =
          ground (arith, ap src (minus off i)) in
        saved.bytes (off + i) (ground arith) ∙ new ∙ ap src (omega arith)) in
    (
      d',
      ip',
      moved ip' logi' clus',
      runs,
      reads
          ∙ ap
              (λ (m : ℕ). ok (
                some m,
                received s dst (bytes_from (file_byte g d' cs') off m),
                d',
                moved ip' logi' clus',
              ))
              amount
          ∙ ap (λ (bs : List ℕ). ok (some n, received s dst bs, d', moved ip' logi' clus')) same,
    )
  where
    minus : (off i : ℕ) → off + i - off ≡ i
    minus off i = omega arith
