-- ===== src/Fs/Fat.antt =====
-- kernel/fs/fat32/fat32_file_system.cpp: the cached table of clusters, and the clusters of a file. The
-- device is a function from byte addresses to bytes; the buffers of kernel/fs/buf are taken to hold
-- what the device holds.
pub mod Chain
pub mod Links
pub mod Bmap
pub mod Extend
pub mod Entry
pub mod File
pub mod Bytes
pub mod Read
pub mod Receive
pub mod Supply
pub mod Written
pub mod Store
pub mod Write
pub mod Save
pub mod Update
pub mod Send
pub mod Directory
mod Tests
use startos.Prelude.{
  ℕ, zero, suc, ◌+◌, ◌-◌, ◌*◌, ◌/◌, ◌%◌, ◌^◌, ◌==◌, ltb, leb, if◌then◌else◌, ◌&&◌, Bool, true,
  false, List,
}
use startos.Prelude.Run.{Run, ok, panic, fault, ◌>>=◌}

-- The fields of `Fat32Info` that the code below reads.
pub record Geometry : Type 0 where
  pub first_data_sector : ℕ
  pub cluster_count : ℕ
  pub bytes_per_cluster : ℕ
  pub bytes_per_sector : ℕ
  pub sectors_per_cluster : ℕ
  pub reserve_sectors : ℕ
  pub root_directory_cluster_start : ℕ

-- `fat_cache_`, by byte offsets of its words, and the device.
pub record Disk : Type 0 where
  pub fat_cache : ℕ → ℕ
  pub device : ℕ → ℕ

-- `MsdosInodeInfo` with the fields of its `vfs_inode` that the code below reads. `test_name` has 11
-- bytes and the byte of padding behind them.
pub record Inode : Type 0 where
  pub i_start : ℕ
  pub i_logi : ℕ
  pub i_clus : ℕ
  pub i_pos : ℕ
  pub is_root : Bool
  pub sz : ℕ
  pub is_dir : Bool
  pub test_name : List ℕ

abbrev pub end_of_cluster : ℕ
end_of_cluster = 0x0fff_ffff

abbrev pub sector_size : ℕ
sector_size = 512

-- -1 as a `uint32_t`
abbrev pub no_cluster : ℕ
no_cluster = 2 ^ 32 - 1

module _ (g : Geometry) where
  abbrev pub first_sector_of_cluster : ℕ → ℕ
  first_sector_of_cluster cluster =
      (g.first_data_sector + (cluster + 2 ^ 32 - 2) * g.sectors_per_cluster) % 2 ^ 32

  abbrev pub fat_sector_of_cluster : ℕ → ℕ
  fat_sector_of_cluster cluster = g.reserve_sectors + cluster * 4 % 2 ^ 32 / g.bytes_per_sector

  abbrev pub fat_offset_of_cluster : ℕ → ℕ
  fat_offset_of_cluster cluster = cluster * 4 % 2 ^ 32 % g.bytes_per_sector

  -- Where `fat_cache_` has the entry of a cluster.
  abbrev pub cached_at : ℕ → ℕ
  cached_at cluster =
      (fat_sector_of_cluster cluster - g.reserve_sectors) * 512 + fat_offset_of_cluster cluster

  unfoldable pub get_fat_entry : Disk → ℕ → Run ℕ
  get_fat_entry d cluster =
      if ltb g.cluster_count cluster
      then ok no_cluster
      else if ltb (fat_sector_of_cluster cluster) 1024
      then ok (d.fat_cache (cached_at cluster))
      else panic

  abbrev pub put_fat_entry : Disk → ℕ → ℕ → Disk
  put_fat_entry d cluster value = record d {
    fat_cache = λ a. if a == cached_at cluster then value else d.fat_cache a;
  }

  -- `SetFatEntey`; its callers do not read its result.
  unfoldable pub set_fat_entry : Disk → ℕ → ℕ → Run Disk
  set_fat_entry d cluster value =
      if ltb g.cluster_count cluster
      then ok d
      else if ltb (fat_sector_of_cluster cluster) 1024
      then ok (put_fat_entry d cluster value)
      else panic

  -- The first byte of a cluster on the device.
  abbrev pub cluster_at : ℕ → ℕ
  cluster_at cluster = first_sector_of_cluster cluster * sector_size

  unfoldable pub zero_cluster : Disk → ℕ → Disk
  zero_cluster d cluster = record d {
    device = λ a.
        if leb (cluster_at cluster) a
          && ltb a (cluster_at cluster + g.sectors_per_cluster * sector_size)
        then 0
        else d.device a;
  }

  -- The search of `AllocCluster` from `cluster` on, with fuel; the source never gives up.
  unfoldable pub alloc_from : ℕ → Disk → ℕ → Run (ℕ × Disk)
  alloc_from zero d cluster = fault
  alloc_from (suc k) d cluster = get_fat_entry d cluster >>= λ entry. elim (entry == 0) [
    | true ↦ set_fat_entry d cluster end_of_cluster >>= λ d'. ok (cluster, zero_cluster d' cluster)
    | false ↦ alloc_from k d (cluster + 1)
  ]

  unfoldable pub alloc_cluster : ℕ → Disk → Run (ℕ × Disk)
  alloc_cluster fuel d = alloc_from fuel d 2

  -- A round of the loop of `bmap`: the cluster after `cur`, a new one after the last.
  unfoldable pub follow : ℕ → Disk → ℕ → Run (ℕ × Disk)
  follow fuel d cur = get_fat_entry d cur >>= λ now. elim (now == end_of_cluster) [
    | false ↦ ok (now, d)
    | true ↦ alloc_cluster fuel d >>= λ r. set_fat_entry r.1 cur r.0 >>= λ d'. ok (r.0, d')
  ]

  -- The loop of `bmap`, over the rounds left.
  unfoldable pub bmap_loop : ℕ → ℕ → Disk → ℕ → Run (ℕ × Disk)
  bmap_loop fuel zero d cur = ok (cur, d)
  bmap_loop fuel (suc n) d cur = elim (cur == end_of_cluster) [
    | true ↦ ok (cur, d)
    | false ↦ follow fuel d cur >>= λ r. bmap_loop fuel n r.1 r.0
  ]

  -- Where `bmap` begins: the cluster and its number in the file.
  abbrev pub bmap_start : Inode → ℕ → ℕ × ℕ
  bmap_start ip logi =
      if leb ip.i_logi logi
      then (ip.i_clus, ip.i_logi)
      else (if ip.is_root then g.root_directory_cluster_start else ip.i_start, 0)

  -- `bmap`, with fuel for each search of a free cluster.
  unfoldable pub bmap : ℕ → Disk → Inode → ℕ → Run (ℕ × Disk × Inode)
  bmap fuel d ip logi =
      let (cur, i) = bmap_start ip logi in
      bmap_loop fuel (logi - i) d cur >>= λ r. elim (r.0 == end_of_cluster) [
        | true ↦ ok (no_cluster, r.1, ip)
        | false ↦ ok (r.0, r.1, record ip { i_logi = logi; i_clus = r.0 })
      ]

  -- The loop of `FreeClusterChain`, with fuel.
  unfoldable pub free_cluster_chain : ℕ → Disk → ℕ → Run Disk
  free_cluster_chain zero d cluster = fault
  free_cluster_chain (suc k) d cluster = elim (cluster == end_of_cluster) [
    | true ↦ ok d
    | false ↦ get_fat_entry d cluster >>= λ next_cluster.
        set_fat_entry d cluster 0 >>= λ d'. free_cluster_chain k d' next_cluster
  ]
