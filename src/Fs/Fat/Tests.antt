-- ===== src/Fs/Fat/Tests.antt =====
-- A volume of 40 clusters with a directory in cluster 2 and a file in clusters 3 and 5, and the theorems
-- at it.
use startos.Prelude.{
  ℕ, zero, suc, ◌+◌, ◌-◌, ◌*◌, ◌^◌, ◌%◌, ◌≤◌, ◌<◌, ◌==◌, if◌then◌else◌, true, false, some, ◌≡◌, ◌≢◌,
  ◌⊎◌, refl, List, [], ◌∷◌, count, replicate, arith,
}
use startos.Prelude.Run.{ok}
use startos.Memory.Pages.{Memory}
use startos.Memory.Paging.CopyOut.{Copied}
use startos.Memory.Paging.Example.{end, root, space, places, root-AtLevel, space-Owns, usable}
use startos.Fs.Fat.{Geometry, Disk, Inode, end_of_cluster, alloc_cluster, bmap, free_cluster_chain}
use startos.Fs.Fat.Chain.{Fits, entry, Valid, Taken, alloc_cluster-first}
use startos.Fs.Fat.Links.{Linked, free_cluster_chain-frees}
use startos.Fs.Fat.Bmap.{Remembers, moved, bmap-finds}
use startos.Fs.Fat.Extend.{Grown, bmap-grows}
use startos.Fs.Fat.Entry.{Ambient, entry_of}
use startos.Fs.Fat.Update.{Lists, update_inode-Lists}
use startos.Fs.Fat.File.{bytes_from, updated_entry, read_inode, write_inode, update_inode}
use startos.Fs.Fat.Bytes.{file_byte}
use startos.Fs.Fat.Receive.{received, read_inode-kernel, read_inode-task}
use startos.Fs.Fat.Directory.{available, IsDirectory, find_free_entry, find_free_entry-finds}
use startos.Fs.Fat.Save.{Listed, resized, Saved}
use startos.Fs.Fat.Send.{kernel_bytes, task_bytes, write_inode-task, read_inode-write_inode}

abbrev volume : Geometry
volume = record {
  first_data_sector = 100;
  cluster_count = 40;
  bytes_per_cluster = 4096;
  bytes_per_sector = 512;
  sectors_per_cluster = 8;
  reserve_sectors = 32;
  root_directory_cluster_start = 2;
}

abbrev disk : Disk
disk = record {
  fat_cache = λ a.
      if a == 8
      then end_of_cluster
      else if a == 12
      then 5
      else if a == 20
      then end_of_cluster
      else if a == 16
      then 0
      else if a == 24
      then 0
      else 1;
  device = λ a. a % 256;
}

abbrev file : Inode
file = record {
  i_start = 3;
  i_logi = 1;
  i_clus = 5;
  i_pos = 51264;
  is_root = false;
  sz = 6000;
  is_dir = false;
  test_name = replicate 12 65;
}

abbrev ambient : Ambient
ambient = record { now = 0; reserved = 0; creation_time_seconds = 0 }

volume-Fits : Fits volume
volume-Fits = record {
  sectors = refl;
  eight = refl;
  clusters = refl;
  reserved = omega arith;
  cached = omega arith;
  device = omega arith;
}

file-Linked : Linked volume disk 3 (3 ∷ 5 ∷ [])
file-Linked = (refl, (omega arith, omega arith), (refl, (omega arith, omega arith), refl))

file-Remembers : Remembers file (3 ∷ 5 ∷ [])
file-Remembers = (omega arith, refl)

directory-Linked : Linked volume disk 2 (2 ∷ [])
directory-Linked = (refl, (omega arith, omega arith), refl)

file-Listed : Listed volume disk file (3 ∷ 5 ∷ []) 2 (2 ∷ []) 64
file-Listed = record {
  chain = directory-Linked;
  apart = λ y h. ground (arith, h);
  inside = omega arith;
  aligned = refl;
  position = refl;
  named = refl;
}

alloc_cluster-first_test :
    (x : ℕ) × (d' : Disk) × (alloc_cluster volume 40 disk ≡ ok (x, d'))
    × Valid volume x
    × (entry disk x ≡ 0)
    × ((y : ℕ) → 2 ≤ y → y < x → entry disk y ≢ 0)
    × Taken volume disk x d'
alloc_cluster-first_test =
    alloc_cluster-first volume volume-Fits 40 disk 6 (omega arith, omega arith) (omega arith) refl

bmap-finds_example : bmap volume 0 disk file 0 ≡ ok (3, disk, moved file 0 3)
bmap-finds_example =
    bmap-finds volume volume-Fits 0 disk file (3 ∷ 5 ∷ []) 0 file-Linked file-Remembers
      (omega arith)

bmap-grows_example :
    (x : ℕ) × (d' : Disk) × (bmap volume 40 disk file 2 ≡ ok (x, d', moved file 2 x))
    × Grown volume disk 3 (3 ∷ 5 ∷ []) x d'
bmap-grows_example =
    bmap-grows volume volume-Fits 40 disk file (3 ∷ 5 ∷ []) 4 file-Linked file-Remembers
      (omega arith, omega arith) (omega arith) refl

free_cluster_chain-frees_example :
    (d' : Disk) × (free_cluster_chain volume 3 disk 3 ≡ ok d')
    × ((x : ℕ) → 1 ≤ count x (3 ∷ 5 ∷ []) → entry d' x ≡ 0)
    × ((x : ℕ) → count x (3 ∷ 5 ∷ []) ≡ 0 → entry d' x ≡ entry disk x)
    × (d'.device ≡ disk.device)
free_cluster_chain-frees_example =
    free_cluster_chain-frees volume volume-Fits 3 disk 3 (3 ∷ 5 ∷ []) file-Linked (omega arith)

-- Two bytes across the border of two clusters.
read_inode-kernel_example :
    (logi clus : ℕ) × (read_inode volume 40 0 space disk file false 64 4095 2
      ≡ ok (
        some 2,
        received space 64 (bytes_from (file_byte volume disk (3 ∷ 5 ∷ [])) 4095 2),
        disk,
        moved file logi clus,
      ))
    × Remembers (moved file logi clus) (3 ∷ 5 ∷ [])
read_inode-kernel_example =
    read_inode-kernel volume volume-Fits 40 0 64 4095 2 disk (3 ∷ 5 ∷ []) space file file-Linked
      file-Remembers (omega arith) (omega arith) (omega arith)

read_inode-task_example :
    (s' : Memory) × (logi clus : ℕ) × (read_inode volume 40 root space disk file true 0x10 4095 2
      ≡ ok (some 2, s', disk, moved file logi clus))
    × Remembers (moved file logi clus) (3 ∷ 5 ∷ [])
    × Copied end space [] places root 0x10
        (bytes_from (file_byte volume disk (3 ∷ 5 ∷ [])) 4095 2)
        s'
read_inode-task_example =
    read_inode-task end (omega arith) [] places root root-AtLevel volume volume-Fits 40 0x10 4095 2
      disk (3 ∷ 5 ∷ []) space file file-Linked file-Remembers (omega arith) (omega arith)
      (omega arith) (λ a. omega arith) space-Owns usable

abbrev after_file : ℕ → ℕ → Inode
after_file logi clus = resized (moved file logi clus) 6002

write_inode-task_example :
    (d' : Disk) × (cs' : List ℕ) × (logi clus : ℕ) × ((write_inode volume 40 root ambient space disk
          file true 0x10 6000 2
        ≡ ok (some 2, d', after_file logi clus))
      × Remembers (after_file logi clus) cs'
      × Saved volume disk 3
          (3 ∷ 5 ∷ [])
          6000
          (task_bytes space root 0x10)
          2
          51264
          (updated_entry ambient (after_file logi clus))
          d'
          cs')
write_inode-task_example =
    write_inode-task end (omega arith) [] places root root-AtLevel volume volume-Fits 40 ambient
      space disk file 0x10 6000 2 (3 ∷ 5 ∷ []) 2 (2 ∷ []) 64 space-Owns usable file-Linked
      file-Remembers file-Listed (omega arith) (omega arith) (omega arith) (omega arith)
      (omega arith)

read_inode-write_inode_example :
    (d' : Disk) × (ip' ip'' : Inode) × (write_inode volume 40 0 ambient space disk file false 8 4095
        3
      ≡ ok (some 3, d', ip'))
    × (read_inode volume 40 0 space d' ip' false 64 4095 3
        ≡ ok (some 3, received space 64 (bytes_from (kernel_bytes space 8) 0 3), d', ip''))
read_inode-write_inode_example =
    read_inode-write_inode volume volume-Fits 40 0 ambient space disk file 8 64 4095 3 (3 ∷ 5 ∷ [])
      2 (2 ∷ []) 64 file-Linked file-Remembers file-Listed (omega arith) (omega arith) (omega arith)
      (omega arith) (omega arith) (omega arith)

-- The entry of `file` at its place in the root.
update_inode-Lists_example :
    (d' : Disk) × (update_inode volume ambient disk file ≡ ok d')
    × Lists file (entry_of (bytes_from d'.device 51264 32))
    × ((x : ℕ) → (x < 51264) ⊎ (51264 + 32 ≤ x) → d'.device x ≡ disk.device x)
    × (d'.fat_cache ≡ disk.fat_cache)
update_inode-Lists_example =
    update_inode-Lists volume volume-Fits ambient disk file (omega arith) (omega arith)
      (omega arith) refl

abbrev directory : Inode
directory = record {
  i_start = 2;
  i_logi = 0;
  i_clus = 2;
  i_pos = 51200;
  is_root = true;
  sz = 2 ^ 32 - 1;
  is_dir = true;
  test_name = replicate 12 47;
}

-- The entry with the number 8 begins with a zero.
eighth_available : (i : ℕ) → i < 1 → available volume disk (2 ∷ []) (8 + i) ≡ true
unfolding startos.Fs.Fat.Entry.entry_of startos.Fs.Fat.Entry.is_free startos.Fs.Fat.Entry.is_deleted
eighth_available zero h = refl
eighth_available (suc i) h = absurd (omega arith)

find_free_entry-finds_example :
    (p : ℕ) × (s' : Memory) × (dir' : Inode) × (find_free_entry volume 40 0 64 10 space disk
        directory 1
      ≡ ok (p * 32, s', disk, dir'))
    × ((p ≤ 8)
        × ((i : ℕ) → i < 1 → available volume disk (2 ∷ []) (p + i) ≡ true)
        × IsDirectory volume disk (2 ∷ []) dir')
find_free_entry-finds_example =
    find_free_entry-finds volume volume-Fits 40 0 64 disk (2 ∷ []) (λ a. omega arith) 10 1 8 space
      directory (directory-Linked, (omega arith, refl), refl) (omega arith) (omega arith)
      (omega arith) eighth_available (omega arith)
