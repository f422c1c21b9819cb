-- ===== src/Fs/Fat/Extend.antt =====
-- `bmap` of kernel/fs/fat32/fat32_file_system.cpp past the end of a file: the chain gets a cluster.
use startos.Prelude.{
  ℕ, zero, suc, ◌+◌, ◌-◌, ◌≤◌, ◌<◌, ◌==◌, if◌then◌else◌, false, ◌≡◌, ◌≢◌, inl, inr, refl, sym,
  subst, ap, ◌∙◌, List, [], ◌∷◌, ◌++◌, count, length, get_or, drop, get_or-drop, length-drop, arith,
  Bool-cases,
}
use startos.Prelude.Run.{ok, ◌>>=◌}
use startos.Fs.Fat.{Geometry, Disk, Inode, end_of_cluster, bmap_start, bmap_loop, bmap}
use startos.Fs.Fat.Chain.{Fits, entry, Valid, content, put, entry-put, Taken}
use startos.Fs.Fat.Links.{Linked, Valid-not_end, Linked-frame, Linked-used, Linked-once}
use startos.Fs.Fat.Bmap.{Remembers, first_cluster, moved, starts_in_chain, bmap_loop-grows}

pub count-get_or : (xs : List ℕ) (n : ℕ) → n < length xs → 1 ≤ count (get_or xs n 0) xs
count-get_or [] n h = absurd (omega arith)
count-get_or (x ∷ xs) zero h = ground arith
count-get_or (x ∷ xs) (suc n) h = ground (arith, count-get_or xs n (omega arith))

module _ (g : Geometry) where
  -- `d'` is `d` after the file with the chain `cs` from `start` on got the cluster `x`.
  pub record Grown (d : Disk) (start : ℕ) (cs : List ℕ) (x : ℕ) (d' : Disk) : Type 0 where
    pub chain : Linked g d' start (cs ++ x ∷ [])
    pub valid : Valid g x
    pub fresh : entry d x ≡ 0
    pub frees : (y : ℕ) → (entry d' y == 0) ≡ (if y == x then false else entry d y == 0)
    pub others :
        (c : ℕ) (ds : List ℕ)
        → Linked g d c ds
        → ((y : ℕ) → 1 ≤ count y cs → count y ds ≡ 0)
        → Linked g d' c ds
    pub zeros : (o : ℕ) → o < g.bytes_per_cluster → content g d' x o ≡ 0
    pub kept :
        (y o : ℕ) → Valid g y → y ≢ x → o < g.bytes_per_cluster → content g d' y o ≡ content g d y o

module _ (g : Geometry) (fits : Fits g) where
  -- The table after `x` is taken and linked behind `last`.
  entry_after :
      (d d' : Disk) (x last y : ℕ)
      → Taken g d x d'
      → y ≢ last
      → y ≢ x
      → entry (put d' last x) y ≡ entry d y
  entry_after d d' x last y t n m = ground (arith, entry-put d' last x y, t.entries y, n, m)

  extend_chain :
      (d d' : Disk) (c x : ℕ) (cs : List ℕ) (n : ℕ)
      → Linked g d c cs
      → length cs ≡ suc n
      → Valid g x
      → entry d x ≡ 0
      → Taken g d x d'
      → Linked g (put d' (get_or cs n 0) x) c (cs ++ x ∷ [])
  extend_chain d d' c x [] n l h vx free t = absurd (omega arith)
  extend_chain d d' c x (y ∷ z ∷ zs) zero l h vx free t = absurd (omega arith)
  extend_chain d d' c x (y ∷ []) (suc n) l h vx free t = absurd (omega arith)
  extend_chain d d' c x (y ∷ []) zero (e, v, l) h vx free t =
      let linked : x ≡ entry (put d' y x) y = ground (arith, entry-put d' y x y) in
      let apart : x ≢ y = λ s. ground (arith, sym (ap (λ (w : ℕ). entry d w) s) ∙ free, l) in
      let at_end : entry (put d' y x) x ≡ end_of_cluster =
        ground (arith, entry-put d' y x x, t.entries x, apart) in
      (e, v, (sym linked, vx, at_end))
  extend_chain d d' c x (y ∷ z ∷ zs) (suc n) (e, v, l) h vx free t =
      let last = get_or (z ∷ zs) n 0 in
      let once = Linked-once g fits d y y (z ∷ zs) (refl, v, l) in
      let within = count-get_or (z ∷ zs) n (omega arith) in
      let apart : y ≢ last =
        λ s. omega (arith, once, subst (λ (w : ℕ). 1 ≤ count w (z ∷ zs)) (sym s) within) in
      let (_, _, used) = Linked-used g fits d c (y ∷ z ∷ zs) (e, v, l) y (ground arith) in
      let busy : y ≢ x = λ s. omega (arith, used, ap (λ (w : ℕ). entry d w) s ∙ free) in
      let rest = extend_chain d d' (entry d y) x (z ∷ zs) n l (omega arith) vx free t in
      (
        e,
        v,
        subst (λ (w : ℕ). Linked g (put d' last x) w (z ∷ zs ++ x ∷ []))
            (sym (entry_after d d' x last y t apart busy)) rest,
      )

  free_after :
      (d d' : Disk) (c x : ℕ) (cs : List ℕ) (n y : ℕ)
      → Linked g d c cs
      → length cs ≡ suc n
      → Valid g x
      → Taken g d x d'
      → (entry (put d' (get_or cs n 0) x) y == 0) ≡ (if y == x then false else entry d y == 0)
  free_after d d' c x cs n y l h vx t =
      let last = get_or cs n 0 in
      let (_, _, used) = Linked-used g fits d c cs l last (count-get_or cs n (omega arith)) in
      let at = entry-put d' last x y in
      elim (Bool-cases (y == last)) [
        | inl e ↦
            let set_here : entry (put d' last x) y ≡ x = ground (arith, at, e) in
            let busy : 1 ≤ entry d y = subst (λ (z : ℕ). 1 ≤ entry d z) (ground (arith, e)) used in
            ground (arith, set_here, busy, vx.0)
        | inr n ↦
            let kept : entry (put d' last x) y ≡ entry d' y = ground (arith, at, n) in
            ground (arith, kept, t.entries y)
      ]

  extend_Grown :
      (d d' : Disk) (c x : ℕ) (cs : List ℕ) (n : ℕ)
      → Linked g d c cs
      → length cs ≡ suc n
      → Valid g x
      → entry d x ≡ 0
      → Taken g d x d'
      → Grown g d c cs x (put d' (get_or cs n 0) x)
  extend_Grown d d' c x cs n l h vx free t =
      let last = get_or cs n 0 in
      let within = count-get_or cs n (omega arith) in
      record {
        chain = extend_chain d d' c x cs n l h vx free t;
        valid = vx;
        fresh = free;
        frees = λ y. free_after d d' c x cs n y l h vx t;
        others = λ c' ds m apart.
            Linked-frame g fits d (put d' last x) c' ds
              (λ y here.
                let (_, _, used) = Linked-used g fits d c' ds m y here in
                entry_after d d' x last y t
                  (λ s. omega (arith, here, apart last within, ap (λ (w : ℕ). count w ds) s))
                  (λ s. omega (arith, used, ap (λ (w : ℕ). entry d w) s ∙ free)))
              m;
        zeros = t.zeros;
        kept = t.others;
      }

  -- The first place past the end of a file's chain, on a volume that has a free cluster: `bmap` comes
  -- to a result, a cluster that was free and is now the last of the file's chain, with zeros for its
  -- bytes. The bytes of every other cluster stay, and so do the chains that share no cluster with
  -- this file.
  pub bmap-grows :
      (fuel : ℕ) (d : Disk) (ip : Inode) (cs : List ℕ) (f : ℕ)
      → Linked g d (first_cluster g ip) cs
      → Remembers ip cs
      → Valid g f
      → f < 2 + fuel
      → entry d f ≡ 0
      → (x : ℕ) × (d' : Disk) × (bmap g fuel d ip (length cs) ≡ ok (x, d', moved ip (length cs) x))
        × Grown g d (first_cluster g ip) cs x d'
  unfolding bmap
  bmap-grows fuel d ip cs f l r vf hf free =
      let logi = length cs in
      let (cur, i) = bmap_start g ip logi in
      let (le, lt, rest) = starts_in_chain g fits d ip cs logi l r in
      let n = logi - i - 1 in
      let long : length (drop i cs) ≡ suc n = omega (arith, length-drop i cs (omega arith)) in
      let (x, d', runs, vx, empty, taken) =
        bmap_loop-grows g fits fuel n f d cur (drop i cs) rest long vf hf free in
      let rounds : logi - i ≡ suc n = omega arith in
      let last : get_or (drop i cs) n 0 ≡ get_or cs (logi - 1) 0 =
        get_or-drop i cs n 0 ∙ ap (λ (j : ℕ). get_or cs j 0) (omega arith) in
      let d2 = put d' (get_or cs (logi - 1) 0) x in
      let whole : bmap_loop g fuel (logi - i) d cur ≡ ok (x, d2) =
        ap (λ (m : ℕ). bmap_loop g fuel m d cur) rounds
        ∙ runs
        ∙ ap (λ (m : ℕ). ok (x, put d' m x)) last in
      (
        x,
        d2,
        rw (bmap, whole, ◌>>=◌, Valid-not_end g fits x vx) refl,
        extend_Grown d d' (first_cluster g ip) x cs (logi - 1) l (omega arith) vx empty taken,
      )
