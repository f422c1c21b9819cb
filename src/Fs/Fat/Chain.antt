-- ===== src/Fs/Fat/Chain.antt =====
-- The table of clusters of kernel/fs/fat32/fat32_file_system.cpp as chains: the clusters of a file in
-- their order.
use startos.Prelude.{
  ℕ, zero, suc, ◌+◌, ◌-◌, ◌*◌, ◌^◌, ◌≤◌, ◌<◌, ◌==◌, ltb, leb, if◌then◌else◌, ◌&&◌, true, false, ◌≡◌,
  ◌≢◌, inl, inr, refl, ap, ◌∙◌, arith, Bool-cases,
}
use startos.Prelude.Run.{ok, ◌>>=◌}
use startos.Fs.Fat.{
  Geometry, Disk, end_of_cluster, cached_at, fat_sector_of_cluster, get_fat_entry, set_fat_entry,
  cluster_at, zero_cluster, alloc_from, alloc_cluster,
}

-- A volume whose table fits the cache and whose sectors and clusters have the sizes that the code takes
-- them to have.
pub record Fits (g : Geometry) : Type 0 where
  pub sectors : g.bytes_per_sector ≡ 512
  pub eight : g.sectors_per_cluster ≡ 8
  pub clusters : g.bytes_per_cluster ≡ g.sectors_per_cluster * 512
  pub reserved : g.reserve_sectors ≤ 1024
  pub cached : g.cluster_count + g.reserve_sectors * 128 < 1024 * 128
  pub device : g.first_data_sector + g.cluster_count * g.sectors_per_cluster < 2 ^ 32

-- The entry of a cluster.
abbrev pub entry : Disk → ℕ → ℕ
entry d c = d.fat_cache (4 * c)

products_le : (k j s : ℕ) → k ≤ j → k * s ≤ j * s
products_le k j s h = grind arith

product_next : (k j s : ℕ) → k < j → k * s + s ≤ j * s
product_next k j s h = grind arith

wrapped : (k s : ℕ) → (k + 2 ^ 32) * s ≡ k * s + 2 ^ 32 * s
wrapped k s = grind arith

-- The table with one entry set.
abbrev pub put : Disk → ℕ → ℕ → Disk
put d c v = record d { fat_cache = λ a. if a == 4 * c then v else d.fat_cache a }

pub entry-put : (d : Disk) (c v x : ℕ) → entry (put d c v) x ≡ (if x == c then v else entry d x)
entry-put d c v x = ground arith

module _ (g : Geometry) where
  -- The numbers that clusters of files have.
  abbrev pub Valid : ℕ → Type 0
  Valid c = (2 ≤ c) × (c ≤ g.cluster_count)

  -- A byte of a cluster.
  abbrev pub content : Disk → ℕ → ℕ → ℕ
  content d c o = d.device (cluster_at g c + o)

  -- `d'` is `d` with cluster `c` taken: the last of its chain, and zeroed.
  pub record Taken (d : Disk) (c : ℕ) (d' : Disk) : Type 0 where
    pub entries : (x : ℕ) → entry d' x ≡ (if x == c then end_of_cluster else entry d x)
    pub zeros : (o : ℕ) → o < g.bytes_per_cluster → content d' c o ≡ 0
    pub others :
        (x o : ℕ) → Valid x → x ≢ c → o < g.bytes_per_cluster → content d' x o ≡ content d x o

module _ (g : Geometry) (fits : Fits g) where
  cached_at-eq : (c : ℕ) → c ≤ g.cluster_count → cached_at g c ≡ 4 * c
  cached_at-eq c h = rw fits.sectors (omega (arith, fits.cached))

  in_cache : (c : ℕ) → c ≤ g.cluster_count → ltb (fat_sector_of_cluster g c) 1024 ≡ true
  in_cache c h =
      let low : fat_sector_of_cluster g c < 1024 = rw fits.sectors (omega (arith, fits.cached)) in
      ground arith

  in_table : (c : ℕ) → c ≤ g.cluster_count → ltb g.cluster_count c ≡ false
  in_table c h = ground arith

  pub get_fat_entry-eq :
      (d : Disk) (c : ℕ) → c ≤ g.cluster_count → get_fat_entry g d c ≡ ok (entry d c)
  unfolding get_fat_entry
  get_fat_entry-eq d c h = rw (get_fat_entry, in_table c h, in_cache c h, cached_at-eq c h) refl

  pub set_fat_entry-eq :
      (d : Disk) (c v : ℕ) → c ≤ g.cluster_count → set_fat_entry g d c v ≡ ok (put d c v)
  unfolding set_fat_entry
  set_fat_entry-eq d c v h =
      rw (set_fat_entry, in_table c h, in_cache c h)
        (ap (λ (p : ℕ). ok (record d { fat_cache = λ a. if a == p then v else d.fat_cache a }))
          (cached_at-eq c h))

  cluster_at-eq :
      (c : ℕ)
      → Valid g c
      → cluster_at g c ≡ (g.first_data_sector + (c - 2) * g.sectors_per_cluster) * 512
  cluster_at-eq c v =
      let shift : c + 2 ^ 32 - 2 ≡ c - 2 + 2 ^ 32 = omega arith in
      let below = products_le (c - 2) g.cluster_count g.sectors_per_cluster (omega arith) in
      let split = wrapped (c - 2) g.sectors_per_cluster in rw shift (omega (arith, fits.device))

  before :
      (c x o : ℕ)
      → Valid g c
      → Valid g x
      → c < x
      → o < g.bytes_per_cluster
      → cluster_at g c + o < cluster_at g x
  before c x o vc vx l h =
      let at_c = cluster_at-eq c vc in
      let at_x = cluster_at-eq x vx in
      let next = product_next (c - 2) (x - 2) g.sectors_per_cluster (omega arith) in
      omega (arith, fits.clusters)

  -- Different clusters have different bytes.
  pub cluster-apart :
      (c x o p : ℕ)
      → Valid g c
      → Valid g x
      → o < g.bytes_per_cluster
      → p < g.bytes_per_cluster
      → cluster_at g c + o ≡ cluster_at g x + p
      → c ≡ x
  cluster-apart c x o p vc vx ho hp e = elim (Bool-cases (ltb c x)) [
    | inl l ↦ omega (arith, before c x o vc vx (ground (arith, l)) ho)
    | inr m ↦ elim (Bool-cases (ltb x c)) [
      | inl l ↦ omega (arith, before x c p vx vc (ground (arith, l)) hp)
      | inr n ↦ ground (arith, m, n)
    ]
  ]

  zero_cluster-Taken :
      (d : Disk) (c : ℕ) → Valid g c → Taken g d c (zero_cluster g (put d c end_of_cluster) c)
  unfolding zero_cluster
  zero_cluster-Taken d c v = record {
    entries = entry-put d c end_of_cluster;
    zeros = λ o h. ground (arith, fits.clusters);
    others = λ x o vx ne h.
        let off = cluster_at g x + o in
        elim (Bool-cases
          (leb (cluster_at g c) off && ltb off (cluster_at g c + g.sectors_per_cluster * 512))) [
            | inl y ↦
                let above : cluster_at g c ≤ off = ground (arith, y) in
                let below : off < cluster_at g c + g.sectors_per_cluster * 512 =
                  ground (arith, y) in
                absurd (
                  ne (
                    cluster-apart x c o (off - cluster_at g c) vx v h (omega (arith, fits.clusters))
                      (omega arith)))
            | inr n ↦ rw n refl
          ];
  }

  -- The search takes the first free cluster from where it starts.
  pub alloc_from-Taken :
      (k : ℕ) (d : Disk) (c f : ℕ)
      → 2 ≤ c
      → c ≤ f
      → f < c + k
      → f ≤ g.cluster_count
      → entry d f ≡ 0
      → (x : ℕ) × (d' : Disk) × (alloc_from g k d c ≡ ok (x, d'))
        × (c ≤ x)
        × (x ≤ f)
        × (entry d x ≡ 0)
        × ((y : ℕ) → c ≤ y → y < x → entry d y ≢ 0)
        × Taken g d x d'
  unfolding alloc_from
  alloc_from-Taken zero d c f low lo hi top free = absurd (omega arith)
  alloc_from-Taken (suc k) d c f low lo hi top free =
      let now = get_fat_entry-eq d c (omega arith) in
      elim (Bool-cases (entry d c == 0)) [
        | inl z ↦
            let mark = set_fat_entry-eq d c end_of_cluster (omega arith) in
            (
              c,
              zero_cluster g (put d c end_of_cluster) c,
              rw (alloc_from, now, ◌>>=◌, z, mark) refl,
              omega arith,
              lo,
              ground (arith, z),
              λ y l h. absurd (omega arith),
              zero_cluster-Taken d c (low, omega arith),
            )
        | inr n ↦
            let used : entry d c ≢ 0 = λ e. ground (arith, n, e) in
            let past : c ≢ f = λ e. used (ap (λ (y : ℕ). entry d y) e ∙ free) in
            let (x, d', runs, lo', hi', free', skipped, taken) =
              alloc_from-Taken k d (c + 1) f (omega arith) (omega (arith, past)) (omega arith) top
                free in
            (
              x,
              d',
              rw (alloc_from, now, ◌>>=◌, n) runs,
              omega arith,
              hi',
              free',
              λ y l h. elim (Bool-cases (y == c)) [
                | inl e ↦ λ z. used (ap (λ (v : ℕ). entry d v) (ground (arith, e)) ∙ z)
                | inr ne ↦ skipped y (ground (arith, ne)) h
              ],
              taken,
            )
      ]

  -- On a volume that has a free cluster, `AllocCluster` comes to a result: the free cluster with the
  -- least number. It becomes the last of its chain, its bytes are zero, and the entries and the
  -- bytes of the other clusters stay as they are.
  pub alloc_cluster-first :
      (fuel : ℕ) (d : Disk) (f : ℕ)
      → Valid g f
      → f < 2 + fuel
      → entry d f ≡ 0
      → (x : ℕ) × (d' : Disk) × (alloc_cluster g fuel d ≡ ok (x, d'))
        × Valid g x
        × (entry d x ≡ 0)
        × ((y : ℕ) → 2 ≤ y → y < x → entry d y ≢ 0)
        × Taken g d x d'
  unfolding alloc_cluster
  alloc_cluster-first fuel d f (lo, hi) h free =
      let (x, d', runs, low, high, empty, skipped, taken) =
        alloc_from-Taken fuel d 2 f (omega arith) lo h hi free in
      (x, d', runs, (low, omega arith), empty, skipped, taken)
