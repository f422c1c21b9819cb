-- ===== src/Fs/Fat/Update.antt =====
-- The directory entry that `UpdateInode` of kernel/fs/fat32/fat32_file_system.cpp writes, as
-- `GetStartCluster` of kernel/include/fs/fat/fat.hpp and the other readers of entries see it.
use startos.Prelude.{
  ℕ, zero, suc, ◌+◌, ◌*◌, ◌/◌, ◌%◌, ◌^◌, ◌≤◌, ◌<◌, ◌≡◌, ◌⊎◌, refl, sym, subst, ap, ◌∙◌, List, [],
  ◌∷◌, ◌++◌, length, length-take, get_or, take, drop, arith,
}
use startos.Prelude.Run.{ok}
use startos.Fs.Fat.{Geometry, Disk, Inode}
use startos.Fs.Fat.Chain.{Fits}
use startos.Fs.Fat.Entry.{
  Ambient, ShortEntry, after_name, entry_bytes, entry_of, get_start_cluster, fill_short_file,
}
use startos.Fs.Fat.File.{bytes_from, updated_entry, update_inode, pad_name}
use startos.Fs.Fat.Store.{stored, put_device-outside, put_device-at}
use startos.Fs.Fat.Save.{length-updated, update_inode-eq}

take_all : (xs ys : List ℕ) (n : ℕ) → length xs ≡ n → take n (xs ++ ys) ≡ xs
take_all [] ys zero h = refl
take_all [] ys (suc n) h = absurd (omega arith)
take_all (x ∷ xs) ys zero h = absurd (omega arith)
take_all (x ∷ xs) ys (suc n) h = ap (λ (zs : List ℕ). x ∷ zs) (take_all xs ys n (omega arith))

drop_all : (xs ys : List ℕ) (n : ℕ) → length xs ≡ n → drop n (xs ++ ys) ≡ ys
drop_all [] ys zero h = refl
drop_all [] ys (suc n) h = absurd (omega arith)
drop_all (x ∷ xs) ys zero h = absurd (omega arith)
drop_all (x ∷ xs) ys (suc n) h = drop_all xs ys n (omega arith)

-- Bytes that stand one behind the other are read as their list.
bytes_from-get_or :
    (bs : List ℕ) (f : ℕ → ℕ) (a : ℕ)
    → ((i : ℕ) → i < length bs → f (a + i) ≡ get_or bs i 0)
    → bytes_from f a (length bs) ≡ bs
bytes_from-get_or [] f a h = refl
bytes_from-get_or (b ∷ bs) f a h =
    let first : f a ≡ b = ap f (omega arith) ∙ h 0 (omega arith) in
    let rest : bytes_from f (a + 1) (length bs) ≡ bs =
      bytes_from-get_or bs f (a + 1) (λ i lt. ap f (omega arith) ∙ h (suc i) (omega arith)) in
    ap (λ (x : ℕ). x ∷ bytes_from f (a + 1) (length bs)) first ∙ ap (λ (t : List ℕ). b ∷ t) rest

-- An entry has the fields of an inode; its attributes are the last byte of the inode's name.
pub record Lists (ip : Inode) (e : ShortEntry) : Type 0 where
  pub start : get_start_cluster e ≡ ip.i_start
  pub size : e.file_size ≡ ip.sz
  pub name : e.name ≡ take 11 ip.test_name
  pub attrib : e.attrib ≡ get_or ip.test_name 11 0

cluster_parts :
    (c : ℕ)
    → c < 2 ^ 32
    → (c / 2 ^ 16 % 2 ^ 16 % 256 + c / 2 ^ 16 % 2 ^ 16 / 256 % 256 * 256) * 2 ^ 16
        + (c % 2 ^ 16 % 256 + c % 2 ^ 16 / 256 % 256 * 256)
      ≡ c
cluster_parts c h = omega arith

size_parts :
    (v : ℕ)
    → v < 2 ^ 32
    → v % 2 ^ 16 % 256
        + v % 2 ^ 16 / 256 % 256 * 256
        + (v / 2 ^ 16 % 256 + v / 2 ^ 16 / 256 % 256 * 256) * 2 ^ 16
      ≡ v
size_parts v h = omega arith

updated_entry-Lists :
    (amb : Ambient) (ip : Inode)
    → ip.i_start < 2 ^ 32
    → ip.sz < 2 ^ 32
    → length ip.test_name ≡ 12
    → Lists ip (entry_of (updated_entry amb ip))
unfolding entry_of entry_bytes get_start_cluster fill_short_file
updated_entry-Lists amb ip start size named =
    let e = record (fill_short_file amb pad_name ip.i_start ip.is_dir) {
      file_size = ip.sz;
      name = take 11 ip.test_name;
      attrib = get_or ip.test_name 11 0;
    } in
    let long : length e.name ≡ 11 = omega (arith, length-take 11 ip.test_name (omega arith)) in
    let rest = drop_all e.name (after_name e) 11 long in
    record {
      start = rw rest (cluster_parts ip.i_start start);
      size = rw rest (size_parts ip.sz size);
      name = take_all e.name (after_name e) 11 long;
      attrib = rw rest refl;
    }

-- `UpdateInode` for an inode whose entry lies in one sector: it succeeds, and a reader of the 32 bytes
-- at `i_pos` gets the start cluster and the size of the inode, 11 bytes of its name and, as the
-- attributes, the byte behind these in `test_name`. All other bytes of the device and the table of
-- clusters are as before.
pub update_inode-Lists :
    (g : Geometry) (fits : Fits g) (amb : Ambient) (d : Disk) (ip : Inode)
    → ip.i_pos % 512 + 32 ≤ 512
    → ip.i_start < 2 ^ 32
    → ip.sz < 2 ^ 32
    → length ip.test_name ≡ 12
    → (d' : Disk) × (update_inode g amb d ip ≡ ok d')
      × Lists ip (entry_of (bytes_from d'.device ip.i_pos 32))
      × ((x : ℕ) → (x < ip.i_pos) ⊎ (ip.i_pos + 32 ≤ x) → d'.device x ≡ d.device x)
      × (d'.fat_cache ≡ d.fat_cache)
update_inode-Lists g fits amb d ip sector start size named =
    let e = updated_entry amb ip in
    let long = length-updated amb ip named in
    let d' = stored d ip.i_pos e in
    let reads : bytes_from d'.device ip.i_pos 32 ≡ e =
      ap (λ (n : ℕ). bytes_from d'.device ip.i_pos n) (sym long)
      ∙ bytes_from-get_or e d'.device ip.i_pos (λ i lt. put_device-at d.device ip.i_pos i e lt) in
    (
      d',
      update_inode-eq g fits amb d ip sector,
      subst (λ (bs : List ℕ). Lists ip (entry_of bs)) (sym reads)
          (updated_entry-Lists amb ip start size named),
      λ x out.
          put_device-outside d.device ip.i_pos x e
            (subst (λ (v : ℕ). (x < ip.i_pos) ⊎ (ip.i_pos + v ≤ x)) (sym long) out),
      refl,
    )
