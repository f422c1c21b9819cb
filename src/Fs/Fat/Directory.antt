-- ===== src/Fs/Fat/Directory.antt =====
-- `FindFreeEntry` of kernel/fs/fat32/fat32_file_system.cpp: room for entries in a directory. The entry
-- on the stack is a buffer of the kernel at a fixed address.
use startos.Prelude.{
  ℕ, zero, suc, ◌+◌, ◌-◌, ◌*◌, ◌^◌, ◌≤◌, ◌<◌, ◌==◌, if◌then◌else◌, ◌||◌, Bool, true, false, Option,
  some, none, ◌≡◌, inl, inr, refl, sym, ap, ◌∙◌, List, length, All, arith, Bool-cases, ltb,
}
use startos.Prelude.Run.{Run, ok, panic, fault, ◌>>=◌}
use startos.Memory.{Words}
use startos.Memory.Pages.{Memory}
use startos.Memory.Paging.Copy.{read_bytes, write_bytes}
use startos.Memory.Paging.Bytes.{byte-write_inside, read_bytes-eq}
use startos.Fs.Fat.{Geometry, Disk, Inode}
use startos.Fs.Fat.Chain.{Fits}
use startos.Fs.Fat.Links.{Linked}
use startos.Fs.Fat.Bmap.{Remembers, first_cluster, moved}
use startos.Fs.Fat.Entry.{entry_of, is_free, is_deleted}
use startos.Fs.Fat.File.{bytes_from, read_inode}
use startos.Fs.Fat.Bytes.{file_byte, length-bytes_from, All-bytes_from}
use startos.Fs.Fat.Read.{readable}
use startos.Fs.Fat.Receive.{received, read_inode-kernel}

abbrev is_whole : Option ℕ → Bool
is_whole none = false
is_whole (some n) = n == 32

-- Whether an entry may be overwritten.
abbrev pub is_available : List ℕ → Bool
is_available bs = is_deleted (entry_of bs) || is_free (entry_of bs)

module _ (g : Geometry) (fuel pagetable stack : ℕ) where
  -- The loop of `FindFreeEntry`, with fuel.
  unfoldable pub free_entry_loop :
      ℕ → Memory → Disk → Inode → ℕ → ℕ → ℕ → Run (ℕ × Memory × Disk × Inode)
  free_entry_loop zero s d dir off nfree n = fault
  free_entry_loop (suc k) s d dir off nfree n =
      read_inode g fuel pagetable s d dir false stack off 32 >>= λ r. elim (is_whole r.0) [
        | false ↦ panic
        | true ↦
            let nfree' = if is_available (read_bytes r.1.words stack 32) then nfree + 1 else 0 in
            elim (nfree' == n) [
              | true ↦ ok (off + 32 - nfree' * 32, r.1, r.2, r.3)
              | false ↦ free_entry_loop k r.1 r.2 r.3 (off + 32) nfree' n
            ]
      ]

  unfoldable pub find_free_entry : ℕ → Memory → Disk → Inode → ℕ → Run (ℕ × Memory × Disk × Inode)
  find_free_entry k s d dir n = free_entry_loop k s d dir 0 0 n

-- Whether the entry with a number may be overwritten.
abbrev pub available : Geometry → Disk → List ℕ → ℕ → Bool
available g d cs m = is_available (bytes_from (file_byte g d cs) (m * 32) 32)

read-written :
    (w : Words) (a : ℕ) (bs : List ℕ)
    → All (λ b. b < 256) bs
    → read_bytes (write_bytes w a bs) a (length bs) ≡ bs
read-written w a bs small =
    read_bytes-eq bs (write_bytes w a bs) a (λ i h. byte-write_inside bs w a i small h)

-- A directory: its size is the largest one.
abbrev pub IsDirectory : Geometry → Disk → List ℕ → Inode → Type 0
IsDirectory g d cs dir =
    Linked g d (first_cluster g dir) cs × Remembers dir cs × (dir.sz ≡ 2 ^ 32 - 1)

-- An entry in use lies before the room that the search comes to.
ahead :
    (av : ℕ → Bool) (m n nfree j : ℕ)
    → ((i : ℕ) → i < n → av (j + i) ≡ true)
    → av m ≡ false
    → m ≤ j + nfree
    → nfree < n
    → m < j
ahead av m n nfree j free busy near few = elim (Bool-cases (ltb m j)) [
  | inl y ↦ ground (arith, y)
  | inr y ↦
      let past : j ≤ m = ground (arith, y) in
      let here : j + (m - j) ≡ m = omega arith in
      let clash : true ≡ false = sym (free (m - j) (omega arith)) ∙ ap av here ∙ busy in
      absurd (ground (arith, clash))
]

one_more :
    (av : ℕ → Bool) (m nfree : ℕ)
    → ((i : ℕ) → m ≤ i + nfree → i < m → av i ≡ true)
    → av m ≡ true
    → (i : ℕ) → m + 1 ≤ i + (nfree + 1)
    → i < m + 1
    → av i ≡ true
one_more av m nfree last room i lo hi = elim (Bool-cases (i == m)) [
  | inl e ↦ ap av (ground (arith, e)) ∙ room
  | inr n ↦ last i (omega arith) (ground (arith, n, hi))
]

module _ (g : Geometry) (fits : Fits g) (fuel pagetable stack : ℕ) (d : Disk) (cs : List ℕ)
    (small : (a : ℕ) → d.device a < 256) where
  -- The rest of a round, after an entry was read.
  abbrev after_entry :
      ℕ → Bool → Memory → Disk → Inode → ℕ → ℕ → ℕ → Run (ℕ × Memory × Disk × Inode)
  after_entry k av s1 d1 dir1 off nfree n =
      let nfree' = if av then nfree + 1 else 0 in
      elim (nfree' == n) [
        | true ↦ ok (off + 32 - nfree' * 32, s1, d1, dir1)
        | false ↦ free_entry_loop g fuel pagetable stack k s1 d1 dir1 (off + 32) nfree' n
      ]

  one_look :
      (k off nfree n : ℕ) (s s1 : Memory) (dir dir1 : Inode) (bs : List ℕ)
      → read_inode g fuel pagetable s d dir false stack off 32 ≡ ok (some 32, s1, d, dir1)
      → read_bytes s1.words stack 32 ≡ bs
      → free_entry_loop g fuel pagetable stack (suc k) s d dir off nfree n
        ≡ after_entry k (is_available bs) s1 d dir1 off nfree n
  unfolding free_entry_loop
  one_look k off nfree n s s1 dir dir1 bs reads back =
      rw (free_entry_loop, reads, ◌>>=◌)
        (ap (λ (v : List ℕ). after_entry k (is_available v) s1 d dir1 off nfree n) back)

  -- A round of the loop.
  look_at :
      (k m nfree n : ℕ) (s : Memory) (dir : Inode)
      → IsDirectory g d cs dir
      → (m + 1) * 32 ≤ length cs * 4096
      → length cs * 4096 < 2 ^ 32
      → (s' : Memory) × (dir' : Inode) × IsDirectory g d cs dir'
        × (free_entry_loop g fuel pagetable stack (suc k) s d dir (m * 32) nfree n
            ≡ after_entry k (available g d cs m) s' d dir' (m * 32) nfree n)
  look_at k m nfree n s dir (l, r, sized) inside limit =
      let whole : readable dir (m * 32) 32 ≡ 32 = omega (arith, sized) in
      let (logi, clus, reads, r') =
        read_inode-kernel g fits fuel pagetable stack (m * 32) 32 d cs s dir l r
          (omega (arith, whole)) (omega (arith, sized)) (omega (arith, limit)) in
      let bs = bytes_from (file_byte g d cs) (m * 32) 32 in
      let count = length-bytes_from (file_byte g d cs) (m * 32) 32 in
      let bytes = All-bytes_from (λ b. b < 256) (file_byte g d cs) (m * 32) 32 (λ i. small _) in
      let s' = received s stack bs in
      let back : read_bytes s'.words stack 32 ≡ bs =
        ap (λ (v : ℕ). read_bytes s'.words stack v) (sym count)
        ∙ read-written s.words stack bs bytes in
      let reads' : read_inode g fuel pagetable s d dir false stack (m * 32) 32
          ≡ ok (some 32, s', d, moved dir logi clus) =
        reads
        ∙ ap
            (λ (v : ℕ). ok (
              some v,
              received s stack (bytes_from (file_byte g d cs) (m * 32) v),
              d,
              moved dir logi clus,
            ))
            whole in
      (
        s',
        moved dir logi clus,
        (l, r', sized),
        one_look k (m * 32) nfree n s s' dir (moved dir logi clus) bs reads' back,
      )

  module _ (k off nfree n : ℕ) (s1 : Memory) (dir1 : Inode) (av : Bool) where
    after-busy :
        av ≡ false
        → (0 == n) ≡ false
        → after_entry k av s1 d dir1 off nfree n
          ≡ free_entry_loop g fuel pagetable stack k s1 d dir1 (off + 32) 0 n
    after-busy busy stop =
        ap (λ (v : Bool). after_entry k v s1 d dir1 off nfree n) busy ∙ rw (after_entry, stop) refl

    after-last :
        av ≡ true
        → (nfree + 1 == n) ≡ true
        → after_entry k av s1 d dir1 off nfree n ≡ ok (off + 32 - (nfree + 1) * 32, s1, d, dir1)
    after-last free stop =
        ap (λ (v : Bool). after_entry k v s1 d dir1 off nfree n) free ∙ rw (after_entry, stop) refl

    after-more :
        av ≡ true
        → (nfree + 1 == n) ≡ false
        → after_entry k av s1 d dir1 off nfree n
          ≡ free_entry_loop g fuel pagetable stack k s1 d dir1 (off + 32) (nfree + 1) n
    after-more free stop =
        ap (λ (v : Bool). after_entry k v s1 d dir1 off nfree n) free ∙ rw (after_entry, stop) refl

  -- The loop after `m` entries, the last `nfree` of which are available.
  free_entry_loop-finds :
      (k m nfree n j : ℕ) (s : Memory) (dir : Inode)
      → IsDirectory g d cs dir
      → length cs * 4096 < 2 ^ 32
      → (j + n) * 32 ≤ length cs * 4096
      → ((i : ℕ) → i < n → available g d cs (j + i) ≡ true)
      → nfree ≤ m
      → nfree < n
      → m ≤ j + nfree
      → ((i : ℕ) → m ≤ i + nfree → i < m → available g d cs i ≡ true)
      → j + n < m + k
      → (p : ℕ) × (s' : Memory) × (dir' : Inode) × (free_entry_loop g fuel pagetable stack k s d dir
            (m * 32)
            nfree
            n
          ≡ ok (p * 32, s', d, dir'))
        × ((p ≤ j) × ((i : ℕ) → i < n → available g d cs (p + i) ≡ true) × IsDirectory g d cs dir')
  free_entry_loop-finds zero m nfree n j s dir is limit room free le few near last enough =
      absurd (omega arith)
  free_entry_loop-finds (suc k) m nfree n j s dir is limit room free le few near last enough =
      let (s1, dir1, is1, round) = look_at k m nfree n s dir is (omega arith) limit in
      let next : m * 32 + 32 ≡ (m + 1) * 32 = omega arith in
      elim (Bool-cases (available g d cs m)) [
        | inr busy ↦
            let none_yet : 0 < n = omega arith in
            let before = ahead (available g d cs) m n nfree j free busy near few in
            let (p, s2, dir2, runs, rest) =
              free_entry_loop-finds k (m + 1) 0 n j s1 dir1 is1 limit room free (omega arith)
                none_yet (omega (arith, before)) (λ i h h'. absurd (omega arith)) (omega arith) in
            (
              p,
              s2,
              dir2,
              round
                  ∙ after-busy k (m * 32) nfree n s1 dir1 (available g d cs m) busy
                      (ground (arith, none_yet))
                  ∙ ap (λ (v : ℕ). free_entry_loop g fuel pagetable stack k s1 d dir1 v 0 n) next
                  ∙ runs,
              rest,
            )
        | inl room_here ↦
            let last' = one_more (available g d cs) m nfree last room_here in
            elim (Bool-cases (nfree + 1 == n)) [
              | inl stop ↦
                  let whole : nfree + 1 ≡ n = ground (arith, stop) in
                  let place : m * 32 + 32 - (nfree + 1) * 32 ≡ (m - nfree) * 32 = omega arith in
                  (
                    m - nfree,
                    s1,
                    dir1,
                    round
                        ∙ after-last k (m * 32) nfree n s1 dir1 (available g d cs m) room_here stop
                        ∙ ap (λ (v : ℕ). ok (v, s1, d, dir1)) place,
                    (
                      omega arith,
                      (λ i h. last' (m - nfree + i) (omega arith) (omega (arith, whole))),
                      is1,
                    ),
                  )
              | inr more ↦
                  let (p, s2, dir2, runs, rest) =
                    free_entry_loop-finds k (m + 1) (nfree + 1) n j s1 dir1 is1 limit room free
                      (omega arith) (ground (arith, more, few)) (omega arith) last' (omega arith) in
                  (
                    p,
                    s2,
                    dir2,
                    round
                        ∙ after-more k (m * 32) nfree n s1 dir1 (available g d cs m) room_here more
                        ∙ ap
                            (λ (v : ℕ).
                              free_entry_loop g fuel pagetable stack k s1 d dir1 v (nfree + 1) n)
                            next
                        ∙ runs,
                    rest,
                  )
            ]
      ]

  -- A directory that has `n` entries in a row that may be overwritten, from entry `j` on: `FindFreeEntry`
  -- comes to a result with fuel for `j + n` rounds. It is the offset of `n` such entries in a row, no
  -- later than `j`; the disk is as it was.
  pub find_free_entry-finds :
      (k n j : ℕ) (s : Memory) (dir : Inode)
      → IsDirectory g d cs dir
      → length cs * 4096 < 2 ^ 32
      → 1 ≤ n
      → (j + n) * 32 ≤ length cs * 4096
      → ((i : ℕ) → i < n → available g d cs (j + i) ≡ true)
      → j + n < k
      → (p : ℕ) × (s' : Memory) × (dir' : Inode) × (find_free_entry g fuel pagetable stack k s d dir
            n
          ≡ ok (p * 32, s', d, dir'))
        × ((p ≤ j) × ((i : ℕ) → i < n → available g d cs (p + i) ≡ true) × IsDirectory g d cs dir')
  unfolding find_free_entry
  find_free_entry-finds k n j s dir is limit some_room room free enough =
      free_entry_loop-finds k 0 0 n j s dir is limit room free (omega arith) (omega arith)
        (omega arith) (λ i h h'. absurd (omega arith)) (omega arith)
