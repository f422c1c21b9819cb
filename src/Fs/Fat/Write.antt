-- ===== src/Fs/Fat/Write.antt =====
-- The loop of `WriteInode` of kernel/fs/fat32/fat32_file_system.cpp: bytes come to a file.
use startos.Prelude.{
  ℕ, zero, suc, ◌+◌, ◌-◌, ◌*◌, ◌/◌, ◌%◌, ◌^◌, ◌≤◌, ◌<◌, ltb, leb, min, Bool, true, some, ◌≡◌, inl,
  inr, refl, sym, subst, ap, ◌∙◌, List, [], ◌∷◌, ◌++◌, length, length-append, get_or, arith,
  Bool-cases,
}
use startos.Prelude.Run.{ok, ◌>>=◌}
use startos.Memory.Pages.{Memory}
use startos.Memory.Paging.Either.{either_copyin}
use startos.Fs.Fat.{Geometry, Disk, Inode, cluster_at, bmap}
use startos.Fs.Fat.Chain.{Fits}
use startos.Fs.Fat.Links.{Linked}
use startos.Fs.Fat.Bmap.{Remembers, first_cluster, moved, bmap-finds}
use startos.Fs.Fat.Extend.{Grown, bmap-grows}
use startos.Fs.Fat.Supply.{free_clusters, free_below-finds}
use startos.Fs.Fat.File.{bytes_from, bsize, u32, write_loop}
use startos.Fs.Fat.Bytes.{cluster_size}
use startos.Fs.Fat.Written.{Written, Written-grow, get_or-last}
use startos.Fs.Fat.Store.{stored, Written-store}

-- The caller's buffer has the first `n` bytes of `src`.
abbrev pub Source : ℕ → Memory → Bool → ℕ → ℕ → (ℕ → ℕ) → Type 0
Source pagetable s user buf n src =
    (t len : ℕ)
    → t + len ≤ n
    → either_copyin pagetable s user (buf + t) len ≡ ok (true, bytes_from src t len)

module _ (g : Geometry) (fits : Fits g) (fuel : ℕ) where
  module _ (pagetable : ℕ) where
    -- How many bytes a round takes.
    abbrev taken : ℕ → ℕ → ℕ → ℕ
    taken o t n = min (n - t) (g.bytes_per_cluster - o % g.bytes_per_cluster)

    write_one :
        (k : ℕ) (s : Memory) (d d' : Disk) (ip ip' : Inode) (user : Bool) (b o t n x : ℕ)
        (bs : List ℕ)
        → t < n
        → bmap g fuel d ip (u32 (o / g.bytes_per_cluster)) ≡ ok (x, d', ip')
        → either_copyin pagetable s user b (taken o t n) ≡ ok (true, bs)
        → write_loop g fuel pagetable (suc k) s d ip user b o t n
          ≡ write_loop g fuel pagetable k s
              (stored d' (cluster_at g x + o % g.bytes_per_cluster) bs)
              ip'
              user
              (b + taken o t n)
              (o + taken o t n)
              (t + taken o t n)
              n
    unfolding write_loop
    write_one k s d d' ip ip' user b o t n x bs more found copied =
        let going : ltb t n ≡ true = ground (arith, more) in
        let small : leb (o % g.bytes_per_cluster + taken o t n) bsize ≡ true =
          rw (cluster_size g fits) (ground arith) in
        rw (write_loop, going, found, ◌>>=◌, small, copied) refl

    taken_bounds :
        (o t n : ℕ)
        → t < n
        → (1 ≤ taken o t n)
          × (t + taken o t n ≤ n)
          × (o % g.bytes_per_cluster + taken o t n ≤ g.bytes_per_cluster)
    taken_bounds o t n more = rw (cluster_size g fits) (ground arith, ground arith, ground arith)

  module _ (d : Disk) (start : ℕ) (cs : List ℕ) (off : ℕ) (src : ℕ → ℕ) where
    -- `bmap` in a round of a write: the cluster of the next byte, a new one at the end of the chain.
    next_cluster :
        (t o : ℕ) (d1 : Disk) (cs1 : List ℕ) (ip : Inode)
        → first_cluster g ip ≡ start
        → o ≡ off + t
        → o < 2 ^ 32
        → o ≤ length cs1 * 4096
        → o < (length cs + free_clusters g d) * 4096
        → g.cluster_count < 2 + fuel
        → Remembers ip cs1
        → Written g d start cs off src t d1 cs1
        → (d2 : Disk) × (cs2 : List ℕ) × (let logi = o / g.bytes_per_cluster in
            let x = get_or cs2 logi 0 in
            (bmap g fuel d1 ip (u32 logi) ≡ ok (x, d2, moved ip logi x))
            × Remembers (moved ip logi x) cs2)
          × Written g d start cs off src t d2 cs2
    next_cluster t o d1 cs1 ip es eo small upto room enough r w =
        let size = cluster_size g fits in
        let logi = o / g.bytes_per_cluster in
        let narrow : u32 logi ≡ logi = rw size (omega arith) in
        let chain : Linked g d1 (first_cluster g ip) cs1 =
          subst (λ (z : ℕ). Linked g d1 z cs1) (sym es) w.chain in
        elim (Bool-cases (ltb o (length cs1 * 4096))) [
          | inl y ↦
              let inside : logi < length cs1 = rw size (ground (arith, y)) in
              (
                d1,
                cs1,
                (
                  ap (λ (v : ℕ). bmap g fuel d1 ip v) narrow
                      ∙ bmap-finds g fits fuel d1 ip cs1 logi chain r inside,
                  (inside, refl),
                ),
                w,
              )
          | inr n ↦
              let at_end : o ≡ length cs1 * 4096 = ground (arith, n) in
              let block : logi ≡ length cs1 = rw size (omega (arith, at_end)) in
              let left : 1 ≤ free_clusters g d1 = omega (arith, w.supply, at_end) in
              let (f, low, high, free) = free_below-finds d1 (g.cluster_count + 1) left in
              let (x, d2, runs, grown) =
                bmap-grows g fits fuel d1 ip cs1 f chain r (low, omega arith) (omega arith) free in
              let last : get_or (cs1 ++ x ∷ []) logi 0 ≡ x = get_or-last cs1 x logi block in
              let more = length-append cs1 (x ∷ []) in
              (
                d2,
                cs1 ++ x ∷ [],
                (
                  ap (λ (v : ℕ). bmap g fuel d1 ip v) (narrow ∙ block)
                      ∙ runs
                      ∙ ap (λ (v : ℕ). ok (x, d2, moved ip v x)) (sym block)
                      ∙ ap (λ (v : ℕ). ok (v, d2, moved ip logi v)) (sym last),
                  (omega (arith, block, more), refl),
                ),
                Written-grow g fits d start cs off src t d1 d2 cs1 x (omega (arith, at_end)) w
                    (subst (λ (z : ℕ). Grown g d1 z cs1 x d2) es grown),
              )
        ]

    pub write_loop-writes :
        (pagetable buf n : ℕ) (user : Bool) (s : Memory)
        → Source pagetable s user buf n src
        → off + n ≤ (length cs + free_clusters g d) * 4096
        → off + n < 2 ^ 32
        → g.cluster_count < 2 + fuel
        → (k t b o : ℕ) (d1 : Disk) (cs1 : List ℕ) (ip : Inode) → first_cluster g ip ≡ start
        → b ≡ buf + t
        → o ≡ off + t
        → t ≤ n
        → n < t + k
        → o ≤ length cs1 * 4096
        → Remembers ip cs1
        → Written g d start cs off src t d1 cs1
        → (d2 : Disk) × (cs2 : List ℕ) × (logi clus : ℕ) × (write_loop g fuel pagetable k s d1 ip
              user b o t n
            ≡ ok (some n, off + n, d2, moved ip logi clus))
          × Remembers (moved ip logi clus) cs2
          × (off + n ≤ length cs2 * 4096)
          × Written g d start cs off src n d2 cs2
    unfolding write_loop
    write_loop-writes pagetable buf n user s source room small enough zero t b o d1 cs1 ip es eb eo
          le left upto r w =
        absurd (omega arith)
    write_loop-writes pagetable buf n user s source room small enough (suc k) t b o d1 cs1 ip es eb
          eo le left upto r w =
        elim (Bool-cases (ltb t n)) [
          | inr stop ↦
              let whole : t ≡ n = ground (arith, stop) in
              let place : o ≡ off + n = omega arith in
              (
                d1,
                cs1,
                ip.i_logi,
                ip.i_clus,
                rw (write_loop, stop, whole) (ap (λ (v : ℕ). ok (some n, v, d1, ip)) place),
                r,
                omega arith,
                subst (λ (v : ℕ). Written g d start cs off src v d1 cs1) whole w,
              )
          | inl go ↦
              let more : t < n = ground (arith, go) in
              let size = cluster_size g fits in
              let m = taken pagetable o t n in
              let (some_bytes, up_to, in_cluster) = taken_bounds pagetable o t n more in
              let logi = o / g.bytes_per_cluster in
              let (d2, cs2, (found, r2), w2) =
                next_cluster t o d1 cs1 ip es eo (omega arith) upto (omega arith) enough r w in
              let inside : logi < length cs2 = r2.0 in
              let inside' : o / 4096 < length cs2 =
                subst (λ (z : ℕ). o / z < length cs2) size inside in
              let in_cluster' : o % 4096 + m ≤ 4096 =
                subst (λ (z : ℕ). o % z + m ≤ z) size in_cluster in
              let fit : o + m ≤ length cs2 * 4096 = omega (arith, inside', in_cluster') in
              let x = get_or cs2 logi 0 in
              let copied : either_copyin pagetable s user b m ≡ ok (true, bytes_from src t m) =
                ap (λ (v : ℕ). either_copyin pagetable s user v m) eb ∙ source t m up_to in
              let w3 = Written-store g fits d start cs off src t m o d2 cs2 eo in_cluster fit w2 in
              let d3 = stored d2 (cluster_at g x + o % g.bytes_per_cluster) (bytes_from src t m) in
              let (d4, cs4, logi', clus', runs, r4, end, w4) =
                write_loop-writes pagetable buf n user s source room small enough k (t + m) (b + m)
                  (o + m) d3 cs2 (moved ip logi x) es (omega (arith, eb)) (omega (arith, eo)) up_to
                  (omega (arith, some_bytes)) fit r2 w3 in
              (
                d4,
                cs4,
                logi',
                clus',
                write_one pagetable k s d1 d2 ip (moved ip logi x) user b o t n x
                      (bytes_from src t m) more found copied
                    ∙ runs,
                r4,
                end,
                w4,
              )
        ]
