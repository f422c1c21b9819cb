-- ===== src/Fs/Fat/Read.antt =====
-- `ReadInode` of kernel/fs/fat32/fat32_file_system.cpp: the bytes of a file come to the caller's buffer.
use startos.Prelude.{
  ℕ, zero, suc, ◌+◌, ◌-◌, ◌*◌, ◌/◌, ◌%◌, ◌^◌, ◌≤◌, ◌<◌, ltb, leb, if◌then◌else◌, ◌||◌, min, Bool,
  true, some, ◌≡◌, inl, inr, refl, subst, ap, ◌∙◌, List, length, get_or, arith, Bool-cases,
}
use startos.Prelude.Run.{ok, ◌>>=◌}
use startos.Memory.Pages.{Memory}
use startos.Memory.Paging.Either.{either_copyout}
use startos.Fs.Fat.{Geometry, Disk, Inode, cluster_at, bmap}
use startos.Fs.Fat.Chain.{Fits}
use startos.Fs.Fat.Links.{Linked}
use startos.Fs.Fat.Bmap.{Remembers, first_cluster, moved, bmap-finds}
use startos.Fs.Fat.File.{bytes_from, bsize, u32, u64, read_loop, read_inode}
use startos.Fs.Fat.Bytes.{file_byte, cluster_size, bytes_from-eq, stretch_on_device}

-- The number of bytes from a place to the end of a file, `n` at most.
abbrev pub readable : Inode → ℕ → ℕ → ℕ
readable ip off n = min n (ip.sz - off)

-- What the copies to the caller keep: `Copies bs inv` if a copy of any stretch of `bs` in its turn
-- takes the memories in `inv` so far to those in `inv` after it.
abbrev pub Copies : ℕ → Bool → ℕ → ℕ → (ℕ → ℕ) → (ℕ → Memory → Type 0) → Type 0
Copies pagetable user buf n bytes inv =
    (t len : ℕ) (s : Memory)
    → t + len ≤ n
    → inv t s
    → (s' : Memory) × (either_copyout pagetable s user (buf + t) (bytes_from bytes t len)
        ≡ ok (true, s'))
      × inv (t + len) s'

module _ (g : Geometry) (fits : Fits g) (fuel pagetable : ℕ) where
  -- How many bytes a round takes.
  abbrev taken : ℕ → ℕ → ℕ → ℕ
  taken o t n = min (n - t) (g.bytes_per_cluster - o % g.bytes_per_cluster)

  read_one :
      (k : ℕ) (s s' : Memory) (d : Disk) (ip ip' : Inode) (user : Bool) (b o t n x : ℕ)
      → t < n
      → bmap g fuel d ip (u32 (o / g.bytes_per_cluster)) ≡ ok (x, d, ip')
      → either_copyout pagetable s user b
          (bytes_from d.device (cluster_at g x + o % g.bytes_per_cluster) (taken o t n))
        ≡ ok (true, s')
      → read_loop g fuel pagetable (suc k) s d ip user b o t n
        ≡ read_loop g fuel pagetable k s' d ip' user
            (b + taken o t n)
            (o + taken o t n)
            (t + taken o t n)
            n
  unfolding read_loop
  read_one k s s' d ip ip' user b o t n x more found copied =
      let going : ltb t n ≡ true = ground (arith, more) in
      let small : leb (o % g.bytes_per_cluster + taken o t n) bsize ≡ true =
        rw (cluster_size g fits) (ground arith) in
      rw (read_loop, going, found, ◌>>=◌, small, copied) refl

  taken_bounds :
      (o t n : ℕ)
      → t < n
      → (1 ≤ taken o t n)
        × (t + taken o t n ≤ n)
        × (o % g.bytes_per_cluster + taken o t n ≤ g.bytes_per_cluster)
  taken_bounds o t n more = rw (cluster_size g fits) (ground arith, ground arith, ground arith)

  read_loop-reads :
      (user : Bool) (buf off n : ℕ) (d : Disk) (cs : List ℕ) (inv : ℕ → Memory → Type 0)
      → Copies pagetable user buf n (λ i. file_byte g d cs (off + i)) inv
      → off + n ≤ length cs * 4096
      → off + n < 2 ^ 32
      → (k t b o : ℕ) (s : Memory) (ip : Inode) → b ≡ buf + t
      → o ≡ off + t
      → t ≤ n
      → n < t + k
      → Linked g d (first_cluster g ip) cs
      → Remembers ip cs
      → inv t s
      → (s' : Memory) × (logi clus : ℕ) × (read_loop g fuel pagetable k s d ip user b o t n
          ≡ ok (some n, s', d, moved ip logi clus))
        × Remembers (moved ip logi clus) cs
        × inv n s'
  unfolding read_loop
  read_loop-reads user buf off n d cs inv copies fit small zero t b o s ip eb eo le fuel_left l r
        i =
      absurd (omega arith)
  read_loop-reads user buf off n d cs inv copies fit small (suc k) t b o s ip eb eo le fuel_left l r
        i =
      elim (Bool-cases (ltb t n)) [
        | inr stop ↦
            let whole : t ≡ n = ground (arith, stop) in
            (
              s,
              ip.i_logi,
              ip.i_clus,
              rw (read_loop, stop, whole) refl,
              r,
              subst (λ (v : ℕ). inv v s) whole i,
            )
        | inl go ↦
            let more : t < n = ground (arith, go) in
            let size = cluster_size g fits in
            let m = taken o t n in
            let (some_bytes, up_to, in_cluster) = taken_bounds o t n more in
            let logi = o / g.bytes_per_cluster in
            let inside : logi < length cs = rw size (omega arith) in
            let narrow : u32 logi ≡ logi = rw size (omega arith) in
            let x = get_or cs logi 0 in
            let found : bmap g fuel d ip (u32 logi) ≡ ok (x, d, moved ip logi x) =
              ap (λ (v : ℕ). bmap g fuel d ip v) narrow
              ∙ bmap-finds g fits fuel d ip cs logi l r inside in
            let (s', copied, i') = copies t m s up_to i in
            let same : bytes_from d.device (cluster_at g x + o % g.bytes_per_cluster) m
                ≡ bytes_from (λ (j : ℕ). file_byte g d cs (off + j)) t m =
              stretch_on_device g fits d cs o m in_cluster
              ∙ bytes_from-eq (file_byte g d cs) (λ (j : ℕ). file_byte g d cs (off + j)) o t m
                  (λ v h. ap (λ (w : ℕ). file_byte g d cs w) (omega (arith, eo))) in
            let (s'', logi', clus', runs, r', i'') =
              read_loop-reads user buf off n d cs inv copies fit small k (t + m) (b + m) (o + m) s'
                (moved ip logi x) (omega arith) (omega arith) up_to (omega arith) l (inside, refl)
                i' in
            (
              s'',
              logi',
              clus',
              read_one k s s' d ip (moved ip logi x) user b o t n x more found (
                    ap (λ (bs : List ℕ). either_copyout pagetable s user b bs) same
                    ∙ ap
                        (λ (v : ℕ).
                          either_copyout pagetable s user v
                            (bytes_from (λ (j : ℕ). file_byte g d cs (off + j)) t m))
                        eb
                    ∙ copied)
                  ∙ runs,
              r',
              i'',
            )
      ]

  -- `ReadInode` for every kind of buffer: what the copies keep holds at its end.
  pub read_inode-reads :
      (user : Bool) (buf off n : ℕ) (d : Disk) (cs : List ℕ) (s : Memory) (ip : Inode)
      (inv : ℕ → Memory → Type 0)
      → Copies pagetable user buf (readable ip off n) (λ i. file_byte g d cs (off + i)) inv
      → Linked g d (first_cluster g ip) cs
      → Remembers ip cs
      → off + readable ip off n ≤ length cs * 4096
      → ip.sz < 2 ^ 32
      → off + n < 2 ^ 64
      → inv 0 s
      → (s' : Memory) × (logi clus : ℕ) × (read_inode g fuel pagetable s d ip user buf off n
          ≡ ok (some (readable ip off n), s', d, moved ip logi clus))
        × Remembers (moved ip logi clus) cs
        × inv (readable ip off n) s'
  unfolding read_inode
  read_inode-reads user buf off n d cs s ip inv copies l r fit sized no_wrap i =
      let sum : u64 (off + n) ≡ off + n = omega arith in
      elim (Bool-cases (ltb ip.sz off || ltb (u64 (off + n)) off)) [
        | inl past ↦
            let nothing : 0 ≡ readable ip off n = ground (arith, past) in
            (
              s,
              ip.i_logi,
              ip.i_clus,
              rw (read_inode, past) (ap (λ (m : ℕ). ok (some m, s, d, ip)) nothing),
              r,
              subst (λ (m : ℕ). inv m s) nothing i,
            )
        | inr inside ↦
            let m = if ltb ip.sz (u64 (off + n)) then ip.sz - off else n in
            let amount : m ≡ readable ip off n = ground (arith, inside, sum) in
            let within : off ≤ ip.sz = ground (arith, inside) in
            let (s', logi, clus, runs, r', i') =
              read_loop-reads user buf off (readable ip off n) d cs inv copies fit
                (omega (arith, within)) (suc (readable ip off n)) 0 buf off s ip (omega arith)
                (omega arith) (omega arith) (omega arith) l r i in
            (
              s',
              logi,
              clus,
              rw (read_inode, inside)
                  (ap (λ (v : ℕ). read_loop g fuel pagetable (suc v) s d ip user buf off 0 v) amount
                    ∙ runs),
              r',
              i',
            )
      ]
