-- ===== src/Fs/Fat/Links.antt =====
-- The chains of clusters in the table of kernel/fs/fat32/fat32_file_system.cpp, and `FreeClusterChain`.
use startos.Prelude.{
  ℕ, zero, suc, ◌≤◌, ◌<◌, ◌==◌, true, false, ◌≡◌, inl, inr, refl, sym, subst, ap, ◌∙◌, List, [],
  ◌∷◌, count, length, get_or, drop, arith, Bool-cases,
}
use startos.Prelude.Run.{ok, ◌>>=◌}
use startos.Fs.Fat.{Geometry, Disk, end_of_cluster, free_cluster_chain}
use startos.Fs.Fat.Chain.{Fits, entry, Valid, put, entry-put, get_fat_entry-eq, set_fat_entry-eq}

module _ (g : Geometry) where
  -- The table links the clusters `cs`, in this order, from the entry value `c` to the end mark.
  abbrev pub Linked : Disk → ℕ → List ℕ → Type 0
  Linked d c [] = c ≡ end_of_cluster
  Linked d c (x ∷ xs) = (c ≡ x) × Valid g x × Linked d (entry d x) xs

module _ (g : Geometry) (fits : Fits g) where
  pub Valid-not_end : (x : ℕ) → Valid g x → (x == end_of_cluster) ≡ false
  Valid-not_end x v = let small : x < 131072 = omega (arith, fits.cached) in ground (arith, small)

  -- Changes of other entries leave a chain.
  pub Linked-frame :
      (d d' : Disk) (c : ℕ) (cs : List ℕ)
      → ((x : ℕ) → 1 ≤ count x cs → entry d' x ≡ entry d x)
      → Linked g d c cs
      → Linked g d' c cs
  Linked-frame d d' c [] same l = l
  Linked-frame d d' c (x ∷ xs) same (e, v, l) =
      let here : entry d' x ≡ entry d x = same x (ground arith) in
      (
        e,
        v,
        subst (λ (y : ℕ). Linked g d' y xs) (sym here)
            (Linked-frame d d' (entry d x) xs (λ y h. same y (ground (arith, h))) l),
      )

  -- The clusters of a chain are in use.
  pub Linked-used :
      (d : Disk) (c : ℕ) (cs : List ℕ)
      → Linked g d c cs
      → (x : ℕ) → 1 ≤ count x cs
      → (1 ≤ c) × Valid g x × (1 ≤ entry d x)
  Linked-used d c [] l x h = absurd (omega arith)
  Linked-used d c (y ∷ []) (e, v, l) x h =
      let same : x ≡ y = ground (arith, h) in
      (
        omega arith,
        subst (λ (z : ℕ). Valid g z) (sym same) v,
        subst (λ (z : ℕ). 1 ≤ entry d z) (sym same) (omega arith),
      )
  Linked-used d c (y ∷ z ∷ zs) (e, v, l) x h = elim (Bool-cases (x == y)) [
    | inl s ↦
        let same : x ≡ y = ground (arith, s) in
        (
          omega arith,
          subst (λ (z : ℕ). Valid g z) (sym same) v,
          subst (λ (z : ℕ). 1 ≤ entry d z) (sym same)
              (Linked-used d (entry d y) (z ∷ zs) l z (ground arith)).0,
        )
    | inr n ↦
        let (_, valid, used) = Linked-used d (entry d y) (z ∷ zs) l x (ground (arith, h, n)) in
        (omega arith, valid, used)
  ]

  Linked-tail : (d : Disk) (c : ℕ) (cs : List ℕ) → Linked g d c cs → c ≡ end_of_cluster → cs ≡ []
  Linked-tail d c [] l e = refl
  Linked-tail d c (x ∷ xs) (h, v, l) e = absurd (omega (arith, fits.cached))

  -- A cluster leads to one chain only.
  Linked-length :
      (d : Disk) (c : ℕ) (cs ds : List ℕ)
      → Linked g d c cs
      → Linked g d c ds
      → length cs ≡ length ds
  Linked-length d c [] ds l m = rw (Linked-tail d c ds m l) refl
  Linked-length d c (x ∷ xs) [] l m = absurd (omega (arith, fits.cached))
  Linked-length d c (x ∷ xs) (y ∷ ys) (e, v, l) (e', v', m) =
      let same : y ≡ x = omega arith in
      ap suc
        (Linked-length d (entry d x) xs ys l (subst (λ (z : ℕ). Linked g d (entry d z) ys) same m))

  -- From a cluster of a chain on, the chain is no longer than it is.
  Linked-suffix :
      (d : Disk) (c : ℕ) (cs : List ℕ) (x : ℕ)
      → Linked g d c cs
      → 1 ≤ count x cs
      → (ys : List ℕ) × Linked g d x ys × (length ys ≤ length cs)
  Linked-suffix d c [] x l h = absurd (omega arith)
  Linked-suffix d c (y ∷ ys) x (e, v, l) h = elim (Bool-cases (x == y)) [
    | inl s ↦ (y ∷ ys, (ground (arith, s), v, l), omega arith)
    | inr n ↦
        let (zs, m, short) = Linked-suffix d (entry d y) ys x l (ground (arith, h, n)) in
        (zs, m, omega (arith, short))
  ]

  -- A chain comes to each of its clusters once.
  pub Linked-once : (d : Disk) (c x : ℕ) (xs : List ℕ) → Linked g d c (x ∷ xs) → count x xs ≡ 0
  Linked-once d c x xs (e, v, l) = elim (Bool-cases (count x xs == 0)) [
    | inl z ↦ ground (arith, z)
    | inr n ↦
        let (ys, m, short) = Linked-suffix d (entry d x) xs x l (ground (arith, n)) in
        let long : suc (length xs) ≡ length ys = Linked-length d x (x ∷ xs) ys (refl, v, l) m in
        absurd (omega arith)
  ]

  -- The rest of a chain from one of its clusters on.
  pub Linked-drop :
      (d : Disk) (c : ℕ) (cs : List ℕ) (n : ℕ)
      → Linked g d c cs
      → n < length cs
      → Linked g d (get_or cs n 0) (drop n cs)
  Linked-drop d c [] n l h = absurd (omega arith)
  Linked-drop d c (x ∷ xs) zero (e, v, l) h = (refl, v, l)
  Linked-drop d c (x ∷ xs) (suc n) (e, v, l) h = Linked-drop d (entry d x) xs n l (omega arith)

  -- The clusters of a chain are the numbers of clusters.
  pub Linked-Valid :
      (d : Disk) (c : ℕ) (cs : List ℕ) (n : ℕ)
      → Linked g d c cs
      → n < length cs
      → Valid g (get_or cs n 0)
  Linked-Valid d c [] n l h = absurd (omega arith)
  Linked-Valid d c (x ∷ xs) zero (e, v, l) h = v
  Linked-Valid d c (x ∷ xs) (suc n) (e, v, l) h = Linked-Valid d (entry d x) xs n l (omega arith)

  frees_one :
      (k : ℕ) (d : Disk) (y : ℕ)
      → Valid g y
      → free_cluster_chain g (suc k) d y ≡ free_cluster_chain g k (put d y 0) (entry d y)
  unfolding free_cluster_chain
  frees_one k d y v =
      rw
        (
          free_cluster_chain,
          Valid-not_end y v,
          get_fat_entry-eq g fits d y (omega arith),
          ◌>>=◌,
          set_fat_entry-eq g fits d y 0 (omega arith),
        )
        refl

  -- `FreeClusterChain` ends on every chain: its clusters, and no others, are free then.
  pub free_cluster_chain-frees :
      (k : ℕ) (d : Disk) (c : ℕ) (cs : List ℕ)
      → Linked g d c cs
      → length cs < k
      → (d' : Disk) × (free_cluster_chain g k d c ≡ ok d')
        × ((x : ℕ) → 1 ≤ count x cs → entry d' x ≡ 0)
        × ((x : ℕ) → count x cs ≡ 0 → entry d' x ≡ entry d x)
        × (d'.device ≡ d.device)
  unfolding free_cluster_chain
  free_cluster_chain-frees zero d c cs l h = absurd (omega arith)
  free_cluster_chain-frees (suc k) d c [] l h =
      let stop : (c == end_of_cluster) ≡ true = ground (arith, l) in
      (d, rw (free_cluster_chain, stop) refl, λ x n. absurd (omega arith), λ x n. refl, refl)
  free_cluster_chain-frees (suc k) d c (y ∷ ys) (e, v, l) h =
      let d1 = put d y 0 in
      let once = Linked-once d y y ys (refl, v, l) in
      let rest =
        Linked-frame d d1 (entry d y) ys (λ x n. ground (arith, entry-put d y 0 x, once, n)) l in
      let (d', runs, cleared, kept, device) =
        free_cluster_chain-frees k d1 (entry d y) ys rest (omega arith) in
      (
        d',
        ap (λ (z : ℕ). free_cluster_chain g (suc k) d z) e ∙ frees_one k d y v ∙ runs,
        λ x n. elim (Bool-cases (count x ys == 0)) [
          | inl z ↦
              let same : (x == y) ≡ true = ground (arith, n, z) in
              kept x (ground (arith, z)) ∙ entry-put d y 0 x ∙ rw same refl
          | inr m ↦ cleared x (ground (arith, m))
        ],
        λ x n.
            let other : (x == y) ≡ false = ground (arith, n) in
            kept x (ground (arith, n)) ∙ entry-put d y 0 x ∙ rw other refl,
        device,
      )
