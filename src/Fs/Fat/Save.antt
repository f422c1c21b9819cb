-- ===== src/Fs/Fat/Save.antt =====
-- `WriteInode` of kernel/fs/fat32/fat32_file_system.cpp as a whole, with the directory entry that
-- `UpdateInode` writes behind it.
use startos.Prelude.{
  ℕ, suc, ◌+◌, ◌*◌, ◌/◌, ◌%◌, ◌^◌, ◌≤◌, ◌<◌, ltb, leb, if◌then◌else◌, ◌||◌, Bool, true, false, some,
  ◌≡◌, ◌⊎◌, inl, inr, refl, sym, subst, ap, ◌∙◌, List, ◌++◌, length, length-append, length-take,
  take, get_or, arith, Bool-cases, max,
}
use startos.Prelude.Run.{ok, ◌>>=◌}
use startos.Memory.Pages.{Memory}
use startos.Fs.Fat.{Geometry, Disk, Inode, first_sector_of_cluster}
use startos.Fs.Fat.Chain.{Fits}
use startos.Fs.Fat.Links.{Linked}
use startos.Fs.Fat.Bmap.{Remembers, first_cluster, moved}
use startos.Fs.Fat.Supply.{free_clusters}
use startos.Fs.Fat.Entry.{Ambient, after_name, entry_bytes, fill_short_file}
use startos.Fs.Fat.File.{put_device, pad_name, u32, u64, updated_entry, update_inode, write_inode}
use startos.Fs.Fat.Bytes.{file_byte, cluster_size}
use startos.Fs.Fat.Written.{Apart, Written-none, byte_after}
use startos.Fs.Fat.Store.{stored, spot, spot-other, spot-outside, put_device-outside, put_device-at}
use startos.Fs.Fat.Write.{Source, write_loop-writes}

-- The entry of a file stands at the place `at` of a directory with the chain `ds`, apart from the file.
pub record Listed (g : Geometry) (d : Disk) (ip : Inode) (cs : List ℕ) (c : ℕ) (ds : List ℕ)
    (at : ℕ) : Type 0 where
  pub chain : Linked g d c ds
  pub apart : Apart cs ds
  pub inside : at < length ds * 4096
  pub aligned : at % 32 ≡ 0
  pub position : ip.i_pos ≡ spot g ds at
  pub named : length ip.test_name ≡ 12

-- The inode after `n` bytes were written at `off`.
abbrev pub resized : Inode → ℕ → Inode
resized ip end = record ip { sz = max ip.sz end }

-- `d'` is `d` after `n` bytes of `src` came to the place `off` of a file: its chain is the old one with
-- clusters behind it; up to the end of its old clusters or of the write, whichever is further, it has
-- its new bytes and its old ones around them; the files that share no cluster with it have their bytes, but for the
-- directory entry `e` at the byte `pos` of the device.
pub record Saved (g : Geometry) (d : Disk) (start : ℕ) (cs : List ℕ) (off : ℕ) (src : ℕ → ℕ) (n : ℕ)
    (pos : ℕ) (e : List ℕ) (d' : Disk) (cs' : List ℕ) : Type 0 where
  pub chain : Linked g d' start cs'
  pub longer : off + n ≤ length cs' * 4096
  pub extends : (added : List ℕ) × (cs' ≡ cs ++ added)
  pub bytes :
      (o : ℕ)
      → o < max (length cs * 4096) (off + n)
      → file_byte g d' cs' o ≡ byte_after g d cs off src n o
  pub linked : (c : ℕ) (ds : List ℕ) → Linked g d c ds → Apart cs ds → Linked g d' c ds
  pub others :
      (c : ℕ) (ds : List ℕ) (o : ℕ)
      → Linked g d c ds
      → Apart cs ds
      → o < length ds * 4096
      → (spot g ds o < pos) ⊎ (pos + 32 ≤ spot g ds o)
      → file_byte g d' ds o ≡ file_byte g d ds o
  pub listed : (i : ℕ) → i < 32 → d'.device (pos + i) ≡ get_or e i 0
  pub supply : free_clusters g d' + length cs' ≡ free_clusters g d + length cs

pub length-updated :
    (amb : Ambient) (ip : Inode) → length ip.test_name ≡ 12 → length (updated_entry amb ip) ≡ 32
unfolding entry_bytes
length-updated amb ip h =
    let e = record (fill_short_file amb pad_name ip.i_start ip.is_dir) {
      file_size = ip.sz;
      name = take 11 ip.test_name;
      attrib = get_or ip.test_name 11 0;
    } in
    omega (arith, length-append e.name (after_name e), length-take 11 ip.test_name (omega arith))

resized-eq :
    (ip : Inode) (end : ℕ)
    → end < 2 ^ 32
    → (if ltb ip.sz end then record ip { sz = u32 end } else ip) ≡ resized ip end
resized-eq ip end small = elim (Bool-cases (ltb ip.sz end)) [
  | inl y ↦
      let larger : u32 end ≡ max ip.sz end = ground (arith, y, small) in
      rw y (ap (λ (v : ℕ). record ip { sz = v }) larger)
  | inr n ↦
      let same : ip.sz ≡ max ip.sz end = ground (arith, n) in
      rw n (ap (λ (v : ℕ). record ip { sz = v }) same)
]

-- An entry lies in one sector.
one_sector : (sector at p : ℕ) → at % 32 ≡ 0 → p ≡ sector * 512 + at % 4096 → p % 512 + 32 ≤ 512
one_sector sector at p h e = omega arith

module _ (g : Geometry) (fits : Fits g) where
  pub update_inode-eq :
      (amb : Ambient) (d : Disk) (ip : Inode)
      → ip.i_pos % 512 + 32 ≤ 512
      → update_inode g amb d ip ≡ ok (stored d ip.i_pos (updated_entry amb ip))
  unfolding update_inode
  update_inode-eq amb d ip h =
      let inside : leb (ip.i_pos % g.bytes_per_sector + 32) 512 ≡ true =
        rw fits.sectors (ground (arith, h)) in
      let place : ip.i_pos / g.bytes_per_sector * 512 + ip.i_pos % g.bytes_per_sector ≡ ip.i_pos =
        rw fits.sectors (omega arith) in
      rw (update_inode, inside) (ap (λ (p : ℕ). ok (stored d p (updated_entry amb ip))) place)

  -- `WriteInode` from every kind of buffer.
  pub write_inode-Saved :
      (fuel pagetable : ℕ) (amb : Ambient) (s : Memory) (d : Disk) (ip : Inode) (user : Bool)
      (buf off n : ℕ) (src : ℕ → ℕ) (cs : List ℕ) (c : ℕ) (ds : List ℕ) (at : ℕ)
      → Source pagetable s user buf n src
      → Linked g d (first_cluster g ip) cs
      → Remembers ip cs
      → Listed g d ip cs c ds at
      → off ≤ ip.sz
      → off ≤ length cs * 4096
      → off + n ≤ (length cs + free_clusters g d) * 4096
      → off + n < 2 ^ 32
      → g.cluster_count < 2 + fuel
      → (d' : Disk) × (cs' : List ℕ) × (logi clus : ℕ) × (let ip' =
            resized (moved ip logi clus) (off + n) in
          (write_inode g fuel pagetable amb s d ip user buf off n ≡ ok (some n, d', ip'))
          × Remembers ip' cs'
          × Saved g d (first_cluster g ip) cs off src n ip.i_pos (updated_entry amb ip') d' cs')
  unfolding write_inode
  write_inode-Saved fuel pagetable amb s d ip user buf off n src cs c ds at source l r e inside
        chained room small enough =
      let sum : u64 (off + n) ≡ off + n = omega arith in
      let allowed : ltb ip.sz off || ltb (u64 (off + n)) off ≡ false = rw sum (ground arith) in
      let start = first_cluster g ip in
      let (d2, cs2, logi, clus, runs, r2, end, w) =
        write_loop-writes g fits fuel d start cs off src pagetable buf n user s source room small
          enough (suc n) 0 buf off d cs ip refl (omega arith) (omega arith) (omega arith)
          (omega arith) chained r (Written-none g fits d start cs off src l) in
      let ip' = resized (moved ip logi clus) (off + n) in
      let narrow : u32 (off + n) ≡ off + n = omega arith in
      let grown : (if ltb ip.sz (off + n)
            then record (moved ip logi clus) { sz = u32 (off + n) }
            else moved ip logi clus)
          ≡ ip' =
        resized-eq (moved ip logi clus) (off + n) small in
      let entry = updated_entry amb ip' in
      let size = cluster_size g fits in
      let fits_sector : ip.i_pos % 512 + 32 ≤ 512 =
        one_sector (first_sector_of_cluster g (get_or ds (at / g.bytes_per_cluster) 0)) at ip.i_pos
          e.aligned (e.position ∙ rw size refl) in
      let whole : at % g.bytes_per_cluster + 32 ≤ g.bytes_per_cluster =
        rw size (omega (arith, e.aligned)) in
      let long = length-updated amb ip' e.named in
      let clear : (x : ℕ)
          → (x < ip.i_pos) ⊎ (ip.i_pos + 32 ≤ x)
          → put_device d2.device ip.i_pos entry x ≡ d2.device x =
        λ x out.
          put_device-outside d2.device ip.i_pos x entry
            (subst (λ (v : ℕ). (x < ip.i_pos) ⊎ (ip.i_pos + v ≤ x)) (sym long) out) in
      let d3 = stored d2 ip.i_pos entry in
      (
        d3,
        cs2,
        logi,
        clus,
        (
          rw (write_inode, allowed, runs, ◌>>=◌)
              (ap (λ (v : Inode). update_inode g amb d2 v >>= λ d4. ok (some n, d4, v)) grown
                ∙ rw (update_inode-eq amb d2 ip' fits_sector, ◌>>=◌) refl),
          r2,
          record {
            chain = w.chain;
            longer = end;
            extends = w.extends;
            bytes = λ o within.
                let h : o < length cs2 * 4096 = ground (arith, within, w.longer, end) in
                clear (spot g cs2 o) (
                  subst (λ (v : ℕ). (spot g cs2 o < v) ⊎ (v + 32 ≤ spot g cs2 o)) (sym e.position)
                    (spot-outside g fits ds at 32 (spot g cs2 o) whole (λ i lt s.
                      spot-other g fits d2 start c cs2 ds o (at + i) w.chain
                        (w.linked c ds e.chain e.apart) (w.apart c ds e.chain e.apart) h
                        (omega (arith, e.aligned, e.inside)) (sym s))))
                ∙ w.bytes o within h;
            linked = w.linked;
            others = λ c' es o m a h out. clear (spot g es o) out ∙ w.others c' es o m a h;
            listed = λ i h. put_device-at d2.device ip.i_pos i entry (omega (arith, long));
            supply = w.supply;
          },
        ),
      )
