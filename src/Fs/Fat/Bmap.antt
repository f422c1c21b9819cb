-- ===== src/Fs/Fat/Bmap.antt =====
-- `bmap` of kernel/fs/fat32/fat32_file_system.cpp: the cluster of a file that has a given number.
use startos.Prelude.{
  ℕ, zero, suc, ◌+◌, ◌-◌, ◌≤◌, ◌<◌, ◌==◌, leb, if◌then◌else◌, true, false, ◌≡◌, inl, inr, refl, sym,
  subst, ap, ◌∙◌, List, [], ◌∷◌, length, get_or, drop, get_or-drop, length-drop, arith, Bool-cases,
}
use startos.Prelude.Run.{Run, ok, ◌>>=◌}
use startos.Fs.Fat.{Geometry, Disk, Inode, end_of_cluster, follow, bmap_start, bmap_loop, bmap}
use startos.Fs.Fat.Chain.{
  Fits, entry, Valid, put, get_fat_entry-eq, set_fat_entry-eq, Taken, alloc_cluster-first,
}
use startos.Fs.Fat.Links.{Linked, Valid-not_end, Linked-drop, Linked-Valid}

-- The place that an inode remembers is one of its file's chain.
abbrev pub Remembers : Inode → List ℕ → Type 0
Remembers ip cs = (ip.i_logi < length cs) × (get_or cs ip.i_logi 0 ≡ ip.i_clus)

-- The first cluster of a file.
abbrev pub first_cluster : Geometry → Inode → ℕ
first_cluster g ip = if ip.is_root then g.root_directory_cluster_start else ip.i_start

abbrev pub moved : Inode → ℕ → ℕ → Inode
moved ip logi c = record ip { i_logi = logi; i_clus = c }

module _ (g : Geometry) (fits : Fits g) where
  walk_one :
      (fuel n : ℕ) (d : Disk) (c : ℕ)
      → Valid g c
      → (entry d c == end_of_cluster) ≡ false
      → bmap_loop g fuel (suc n) d c ≡ bmap_loop g fuel n d (entry d c)
  unfolding bmap_loop follow
  walk_one fuel n d c v next =
      rw
        (
          bmap_loop,
          Valid-not_end g fits c v,
          follow,
          get_fat_entry-eq g fits d c (omega arith),
          ◌>>=◌,
          next,
        )
        refl

  next_is_cluster :
      (d : Disk) (c y : ℕ) (ys : List ℕ) → Linked g d c (y ∷ ys) → (c == end_of_cluster) ≡ false
  next_is_cluster d c y ys (e, v, l) =
      ap (λ (z : ℕ). z == end_of_cluster) e ∙ Valid-not_end g fits y v

  bmap_loop-walks :
      (fuel n : ℕ) (d : Disk) (c : ℕ) (cs : List ℕ)
      → Linked g d c cs
      → n < length cs
      → bmap_loop g fuel n d c ≡ ok (get_or cs n 0, d)
  unfolding bmap_loop
  bmap_loop-walks fuel n d c [] l h = absurd (omega arith)
  bmap_loop-walks fuel zero d c (x ∷ xs) (e, v, l) h = ap (λ (z : ℕ). ok (z, d)) e
  bmap_loop-walks fuel (suc n) d c (x ∷ []) (e, v, l) h = absurd (omega arith)
  bmap_loop-walks fuel (suc n) d c (x ∷ y ∷ ys) (e, v, l) h =
      ap (λ (z : ℕ). bmap_loop g fuel (suc n) d z) e
      ∙ walk_one fuel n d x v (next_is_cluster d (entry d x) y ys l)
      ∙ bmap_loop-walks fuel n d (entry d x) (y ∷ ys) l (omega arith)

  -- What the loop does past the last cluster `last` of a chain: it takes a cluster, and links it.
  abbrev pub Extends : Disk → ℕ → Run (ℕ × Disk) → Type 0
  Extends d last r =
      (x : ℕ) × (d' : Disk) × (r ≡ ok (x, put d' last x))
      × Valid g x
      × (entry d x ≡ 0)
      × Taken g d x d'

  grow_one :
      (fuel f : ℕ) (d : Disk) (c : ℕ)
      → Valid g c
      → entry d c ≡ end_of_cluster
      → Valid g f
      → f < 2 + fuel
      → entry d f ≡ 0
      → Extends d c (bmap_loop g fuel 1 d c)
  unfolding bmap_loop follow
  grow_one fuel f d c v last vf hf free =
      let (x, d', runs, vx, empty, _, taken) = alloc_cluster-first g fits fuel d f vf hf free in
      let at_end : (entry d c == end_of_cluster) ≡ true = ground (arith, last) in
      (
        x,
        d',
        rw
            (
              bmap_loop,
              Valid-not_end g fits c v,
              follow,
              get_fat_entry-eq g fits d c (omega arith),
              ◌>>=◌,
              at_end,
              runs,
              set_fat_entry-eq g fits d' c x (omega arith),
            )
            refl,
        vx,
        empty,
        taken,
      )

  pub bmap_loop-grows :
      (fuel n f : ℕ) (d : Disk) (c : ℕ) (cs : List ℕ)
      → Linked g d c cs
      → length cs ≡ suc n
      → Valid g f
      → f < 2 + fuel
      → entry d f ≡ 0
      → Extends d (get_or cs n 0) (bmap_loop g fuel (suc n) d c)
  bmap_loop-grows fuel n f d c [] l h vf hf free = absurd (omega arith)
  bmap_loop-grows fuel zero f d c (x ∷ []) (e, v, l) h vf hf free =
      subst (λ (z : ℕ). Extends d x (bmap_loop g fuel 1 d z)) (sym e)
        (grow_one fuel f d x v l vf hf free)
  bmap_loop-grows fuel zero f d c (x ∷ y ∷ ys) l h vf hf free = absurd (omega arith)
  bmap_loop-grows fuel (suc n) f d c (x ∷ []) l h vf hf free = absurd (omega arith)
  bmap_loop-grows fuel (suc n) f d c (x ∷ y ∷ ys) (e, v, l) h vf hf free =
      let step : bmap_loop g fuel (suc (suc n)) d c ≡ bmap_loop g fuel (suc n) d (entry d x) =
        ap (λ (z : ℕ). bmap_loop g fuel (suc (suc n)) d z) e
        ∙ walk_one fuel (suc n) d x v (next_is_cluster d (entry d x) y ys l) in
      subst (λ (r : Run (ℕ × Disk)). Extends d (get_or (y ∷ ys) n 0) r) (sym step)
        (bmap_loop-grows fuel n f d (entry d x) (y ∷ ys) l (omega arith) vf hf free)

  -- Where `bmap` starts, from the cluster of the file that the inode remembers or from its first one.
  pub starts_in_chain :
      (d : Disk) (ip : Inode) (cs : List ℕ) (logi : ℕ)
      → Linked g d (first_cluster g ip) cs
      → Remembers ip cs
      → let (cur, i) = bmap_start g ip logi in
        (i ≤ logi) × (i < length cs) × Linked g d cur (drop i cs)
  starts_in_chain d ip cs logi l (inside, at) = elim (Bool-cases (leb ip.i_logi logi)) [
    | inl y ↦
        let rest : Linked g d ip.i_clus (drop ip.i_logi cs) =
          subst (λ (z : ℕ). Linked g d z (drop ip.i_logi cs)) at
            (Linked-drop g fits d (first_cluster g ip) cs ip.i_logi l inside) in
        rw y (ground (arith, y), inside, rest)
    | inr n ↦ rw n (omega arith, omega (arith, inside), l)
  ]

  -- The cluster of a file at a place before the end of its chain: `bmap` answers that cluster, from
  -- whatever place of the file the inode remembers, leaves the disk as it is and remembers the new
  -- place.
  pub bmap-finds :
      (fuel : ℕ) (d : Disk) (ip : Inode) (cs : List ℕ) (logi : ℕ)
      → Linked g d (first_cluster g ip) cs
      → Remembers ip cs
      → logi < length cs
      → bmap g fuel d ip logi ≡ ok (get_or cs logi 0, d, moved ip logi (get_or cs logi 0))
  unfolding bmap
  bmap-finds fuel d ip cs logi l r h =
      let (cur, i) = bmap_start g ip logi in
      let (le, lt, rest) = starts_in_chain d ip cs logi l r in
      let walks : bmap_loop g fuel (logi - i) d cur ≡ ok (get_or cs logi 0, d) =
        bmap_loop-walks fuel (logi - i) d cur (drop i cs) rest (omega (arith, length-drop i cs))
        ∙ ap (λ (c : ℕ). ok (c, d))
            (get_or-drop i cs (logi - i) 0 ∙ ap (λ (j : ℕ). get_or cs j 0) (omega arith)) in
      let valid =
        Valid-not_end g fits (get_or cs logi 0)
          (Linked-Valid g fits d (first_cluster g ip) cs logi l h) in
      rw (bmap, walks, ◌>>=◌, valid) refl
