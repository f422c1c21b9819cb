-- ===== src/Fs/Fat/File.antt =====
-- `ReadInode`, `WriteInode` and `UpdateInode` of kernel/fs/fat32/fat32_file_system.cpp. The loops run on
-- fuel, a round for each byte at most. A copy that fails leaves a buffer locked in the source; nothing
-- after it is modelled then but the return.
use startos.Prelude.{
  ℕ, zero, suc, ◌+◌, ◌-◌, ◌*◌, ◌/◌, ◌%◌, ◌^◌, ltb, leb, if◌then◌else◌, ◌&&◌, ◌||◌, min, Bool, true,
  false, Option, none, some, List, [], ◌∷◌, length, get_or, take,
}
use startos.Prelude.Run.{Run, ok, fault, ◌>>=◌}
use startos.Memory.Pages.{Memory}
use startos.Memory.Paging.Either.{either_copyin, either_copyout}
use startos.Fs.Fat.{Geometry, Disk, Inode, cluster_at, bmap}
use startos.Fs.Fat.Entry.{Ambient, fill_short_file, entry_bytes}

-- The bytes that a function has from an address on.
abbrev pub bytes_from : (ℕ → ℕ) → ℕ → ℕ → List ℕ
bytes_from f a zero = []
bytes_from f a (suc n) = f a ∷ bytes_from f (a + 1) n

-- Bytes put at an address of a device.
abbrev pub put_device : (ℕ → ℕ) → ℕ → List ℕ → ℕ → ℕ
put_device device a bs x =
    if leb a x && ltb x (a + length bs) then get_or bs (x - a) 0 else device x

-- The bytes of a buffer.
abbrev pub bsize : ℕ
bsize = 4096

abbrev pub u64 : ℕ → ℕ
u64 v = v % 2 ^ 64

abbrev pub u32 : ℕ → ℕ
u32 v = v % 2 ^ 32

-- "pad"
abbrev pub pad_name : List ℕ
pad_name = 112 ∷ 97 ∷ 100 ∷ []

-- The entry that `UpdateInode` writes; its `memmove` of 12 bytes sets the attributes as well.
abbrev pub updated_entry : Ambient → Inode → List ℕ
updated_entry amb ip = entry_bytes (record (fill_short_file amb pad_name ip.i_start ip.is_dir) {
  file_size = ip.sz;
  name = take 11 ip.test_name;
  attrib = get_or ip.test_name 11 0;
})

module _ (g : Geometry) where
  -- `UpdateInode`: the sector is read, changed and written back.
  unfoldable pub update_inode : Ambient → Disk → Inode → Run Disk
  update_inode amb d ip =
      let sector = ip.i_pos / g.bytes_per_sector in
      let off = ip.i_pos % g.bytes_per_sector in
      if leb (off + 32) 512
      then ok
          (record d { device = put_device d.device (sector * 512 + off) (updated_entry amb ip) })
      else fault

-- `fuel` is for each search of a free cluster; the page table is the current task's.
module _ (g : Geometry) (fuel pagetable : ℕ) where
  -- The loop of `ReadInode`: its result, where none is -1, and the states after it.
  unfoldable pub read_loop :
      ℕ → Memory → Disk → Inode → Bool → ℕ → ℕ → ℕ → ℕ → Run (Option ℕ × Memory × Disk × Inode)
  read_loop zero s d ip user buf offset total n = fault
  read_loop (suc k) s d ip user buf offset total n = elim (ltb total n) [
    | false ↦ ok (some total, s, d, ip)
    | true ↦ bmap g fuel d ip (u32 (offset / g.bytes_per_cluster)) >>= λ r.
        let within = offset % g.bytes_per_cluster in
        let nread = min (n - total) (g.bytes_per_cluster - within) in
        (if leb (within + nread) bsize
          then either_copyout pagetable s user buf
              (bytes_from r.1.device (cluster_at g r.0 + within) nread)
          else fault)
        >>= λ c. elim c.0 [
          | false ↦ ok (none, c.1, r.1, r.2)
          | true ↦ read_loop k c.1 r.1 r.2 user (buf + nread) (offset + nread) (total + nread) n
        ]
  ]

  unfoldable pub read_inode :
      Memory → Disk → Inode → Bool → ℕ → ℕ → ℕ → Run (Option ℕ × Memory × Disk × Inode)
  read_inode s d ip user buf offset n =
      if ltb ip.sz offset || ltb (u64 (offset + n)) offset
      then ok (some 0, s, d, ip)
      else (let m = if ltb ip.sz (u64 (offset + n)) then ip.sz - offset else n in
          read_loop (suc m) s d ip user buf offset 0 m)

  -- The loop of `WriteInode`: `total`, where none is -1, and `off` after it.
  unfoldable pub write_loop :
      ℕ → Memory → Disk → Inode → Bool → ℕ → ℕ → ℕ → ℕ → Run (Option ℕ × ℕ × Disk × Inode)
  write_loop zero s d ip user buf off total n = fault
  write_loop (suc k) s d ip user buf off total n = elim (ltb total n) [
    | false ↦ ok (some total, off, d, ip)
    | true ↦ bmap g fuel d ip (u32 (off / g.bytes_per_cluster)) >>= λ r.
        let within = off % g.bytes_per_cluster in
        let nwrite = min (n - total) (g.bytes_per_cluster - within) in
        (if leb (within + nwrite) bsize then either_copyin pagetable s user buf nwrite else fault)
        >>= λ c. elim c.0 [
          | false ↦ ok (none, off, r.1, r.2)
          | true ↦
              write_loop k s
                (record r.1 { device = put_device r.1.device (cluster_at g r.0 + within) c.1 }) r.2
                user (buf + nwrite) (off + nwrite) (total + nwrite) n
        ]
  ]

  -- `WriteInode`: `none` is -1.
  unfoldable pub write_inode :
      Ambient → Memory → Disk → Inode → Bool → ℕ → ℕ → ℕ → Run (Option ℕ × Disk × Inode)
  write_inode amb s d ip user buf off n =
      if ltb ip.sz off || ltb (u64 (off + n)) off
      then ok (none, d, ip)
      else (write_loop (suc n) s d ip user buf off 0 n >>= λ r.
          let ip' = if ltb r.3.sz r.1 then record r.3 { sz = u32 r.1 } else r.3 in
          update_inode g amb r.2 ip' >>= λ d'. ok (r.0, d', ip'))
